-- ===== src/Fuse/Callbacks.antt =====
-- The callbacks of src/client/fuse.cpp. An error of the result is an exception that leaves the callback.
use thesis_dfs.RaftNn.{is_caught}
use thesis_dfs.Fuse.{Client, Call}
use thesis_dfs.Result.{
  ErrorCode, Result, ok, path_exists_exception, err, path_not_exists_exception, message, undefined,
  ◌>>=◌, runtime,
}
use thesis_dfs.Inode.{Inode}
use thesis_dfs.Prelude.{
  ℕ, Text, List, if◌then◌else◌, Option, ◌+◌, some, ◌∷◌, ltb, length, none, ◌==◌, [], codes, take,
}
use thesis_dfs.Prelude.Int.{ℤ, negsuc, pos}
use thesis_dfs.Fuse

-- `errno` numbers of Linux, as negative results.
abbrev pub minus_enoent : ℤ
minus_enoent = negsuc 1

abbrev pub minus_eio : ℤ
minus_eio = negsuc 4

-- EEXIST, ENOENT and EIO themselves, as `mkdir` and `rm` return them.
abbrev pub eexist : ℤ
eexist = pos 17

abbrev pub enoent : ℤ
enoent = pos 2

abbrev pub eio : ℤ
eio = pos 5

-- `stat`, of which the mode, the links and the size are set.
pub record Stat : Type 0 where
  pub st_mode : ℕ
  pub st_nlink : ℕ
  pub st_size : ℕ

-- S_IFDIR | 0755, and S_IFREG | 0644.
stat_of : Inode → Stat
stat_of inode =
    if inode.is_directory
    then record { st_mode = 0x4000 + 493; st_nlink = 2; st_size = 0 }
    else record { st_mode = 0x8000 + 420; st_nlink = 1; st_size = inode.filesize }

-- `catch (const exception &e) { return failed; }`
unfoldable pub finish : ℤ → ℤ → Result (Unit {0}) → Result ℤ
finish done failed (ok u) = ok done
finish done failed (err e) = if is_caught e then ok failed else err e

-- The `switch` over the code of a `MessageException`.
unfoldable pub mkdir_code : ErrorCode → ℤ
mkdir_code path_exists_exception = eexist
mkdir_code path_not_exists_exception = enoent
mkdir_code other = eio

unfoldable pub mkdir_result : Result (Unit {0}) → Result ℤ
unfolding mkdir_code
mkdir_result (ok u) = ok (pos 0)
mkdir_result (err (message code info)) = ok (mkdir_code code)
mkdir_result (err e) = if is_caught e then ok eio else err e

-- What is thrown inside a handler is not caught by the handlers beside it.
unfoldable pub rm_code : ErrorCode → Text → Result ℤ
rm_code path_exists_exception info = ok eexist
rm_code path_not_exists_exception info = ok enoent
rm_code other info = err (message other info)

unfoldable pub rm_result : Result (Unit {0}) → Result ℤ
unfolding rm_code
rm_result (ok u) = ok (pos 0)
rm_result (err (message code info)) = rm_code code info
rm_result (err e) = if is_caught e then ok eio else err e

getattr_result : Result Inode → Result (ℤ × Option Stat)
unfolding stat_of
getattr_result (ok inode) = ok (pos 0, some (stat_of inode))
getattr_result (err (message code info)) = ok (minus_enoent, none)
getattr_result (err e) = err e

-- `if (str.back() == '/') str.pop_back();`, undefined on an empty name.
trim_slash : Text → Result Text
trim_slash [] = err undefined
trim_slash (c ∷ []) = ok (if c == b'/' then [] else c ∷ [])
trim_slash (c ∷ d ∷ t) = do rest ← trim_slash (d ∷ t); ok (c ∷ rest)

trim_all : List Text → Result (List Text)
unfolding trim_slash
trim_all [] = ok []
trim_all (str ∷ sub) = do name ← trim_slash str; names ← trim_all sub; ok (name ∷ names)

-- The names that are given to `filler`.
readdir_result : Result Inode → Result (List Text)
unfolding trim_all
readdir_result (err e) = err e
readdir_result (ok inode) =
    if inode.is_directory
    then (do names ← trim_all inode.sub; ok (codes "." ∷ codes ".." ∷ names))
    else err (runtime (codes "not directory error"))

-- `memcpy(buff, s.data(), size)`: reading behind the end of `s` is undefined.
unfoldable pub read_result : ℕ → Result Text → Result (ℤ × Text)
read_result size (ok s) = if ltb (length s) size then err undefined else ok (pos size, take size s)
read_result size (err e) = if is_caught e then ok (minus_enoent, []) else err e

module _ {World : Type 0} (sdk : Client World) where
  unfoldable pub spkdfs_getattr : Text → World → Result (ℤ × Option Stat) × World
  unfolding getattr_result
  spkdfs_getattr path w = let (r, w') = thesis_dfs.Fuse.ls sdk path w in (getattr_result r, w')

  unfoldable pub spkdfs_readdir : Text → World → Result (List Text) × World
  unfolding readdir_result
  spkdfs_readdir path w = let (r, w') = thesis_dfs.Fuse.ls sdk path w in (readdir_result r, w')

  unfoldable pub spkdfs_mkdir : Text → Call World ℤ
  unfolding mkdir_result
  spkdfs_mkdir path w = let (r, w') = thesis_dfs.Fuse.mkdir sdk path w in (mkdir_result r, w')

  -- Of files and of directories.
  unfoldable pub spkdfs_rm : Text → Call World ℤ
  unfolding rm_result
  spkdfs_rm path w = let (r, w') = thesis_dfs.Fuse.rm sdk path w in (rm_result r, w')

  unfoldable pub spkdfs_truncate : Text → ℕ → Call World ℤ
  unfolding finish
  spkdfs_truncate path size w =
      let (r, w') = thesis_dfs.Fuse.truncate sdk path size w in (finish (pos 0) minus_enoent r, w')

  -- Nothing is caught here.
  unfoldable pub spkdfs_open : Text → ℕ → Call World ℤ
  spkdfs_open path flags w =
      let (r, w') = thesis_dfs.Fuse.open_file sdk path flags w in ((do done ← r; ok (pos 0)), w')

  unfoldable pub spkdfs_read : Text → ℕ → ℕ → World → Result (ℤ × Text) × World
  unfolding read_result
  spkdfs_read path size offset w =
      let (r, w') = thesis_dfs.Fuse.read sdk path offset size w in (read_result size r, w')

  unfoldable pub spkdfs_write : Text → Text → ℕ → Call World ℤ
  unfolding finish
  spkdfs_write path content offset w =
      let (r, w') = thesis_dfs.Fuse.write sdk path offset content w in
      (finish (pos (length content)) minus_eio r, w')

  unfoldable pub spkdfs_close : Text → Call World ℤ
  unfolding finish
  spkdfs_close path w =
      let (r, w') = thesis_dfs.Fuse.close sdk path w in (finish (pos 0) minus_eio r, w')

  unfoldable pub spkdfs_fsync : Text → Call World ℤ
  unfolding finish
  spkdfs_fsync path w =
      let (r, w') = thesis_dfs.Fuse.fsync sdk path w in (finish (pos 0) minus_eio r, w')

  unfoldable pub spkdfs_create : Text → Call World ℤ
  unfolding finish
  spkdfs_create path w =
      let (r, w') = thesis_dfs.Fuse.create sdk path w in (finish (pos 0) minus_eio r, w')
