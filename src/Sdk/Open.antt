-- ===== src/Sdk/Open.antt =====
-- `open`, `close`, `create` and `truncate` of src/client/sdk.cpp, with the locks they take.
use thesis_dfs.StorageType.{ErasureCode}
use thesis_dfs.Sdk.Cache.{update_inode}
use thesis_dfs.Database.{remove_text}
use thesis_dfs.Inode.{Inode, get_block_size}
use thesis_dfs.Sdk.Calls.{Master, check_response, lock_remote, three_tries}
use thesis_dfs.Result.{Result, err, ok, ◌>>=◌, runtime, undefined}
use thesis_dfs.Namenode.Answers.{Reply}
use thesis_dfs.Prelude.{
  ℕ, Option, some, Text, List, Bool, ◌+◌, ◌/◌, ◌%◌, none, if◌then◌else◌, [], ◌==◌, text_eq, suc,
  codes, ◌∷◌, ◌++◌, zero, ◌-◌,
}
use thesis_dfs.PathLocks.{Locks}
pub mod Twice
pub mod Stale
use thesis_dfs.Sdk.Cache
use thesis_dfs.PathLocks
use thesis_dfs.Sdk.Put.{put}
use thesis_dfs.Sdk.Sync.{fsync, entries, WriteDir}

-- What the client keeps: the inode cache and the files of blocks, the locks of its local paths, the paths
-- that it keeps locked at the namenode, and the directories of written blocks.
pub record Session (World : Type 0) : Type 0 where
  pub cache : thesis_dfs.Sdk.Cache.Client
  pub locks : Locks
  pub remote_locks : List Text
  pub write_dirs : Text → WriteDir
  pub world : World

-- The bits of `flags` of Linux.
abbrev pub has_creat : ℕ → Bool
has_creat flags = flags / 64 % 2 == 1

abbrev pub is_rdonly : ℕ → Bool
is_rdonly flags = flags % 4 == 0

abbrev pub has_trunc : ℕ → Bool
has_trunc flags = flags / 512 % 2 == 1

-- O_WRONLY with O_CREAT, and with O_TRUNC.
abbrev pub create_flags : ℕ
create_flags = 1 + 64

abbrev pub truncate_flags : ℕ
truncate_flags = 1 + 512

-- A call that may wait for a lock for ever, or run out of fuel, and may throw.
abbrev pub Outcome : Type 0 → Type 0
Outcome A = Option (Result A)

unfoldable pub and_then : {A B : Type 0} → Outcome A → (A → Outcome B) → Outcome B
and_then none next = none
and_then (some (err e)) next = some (err e)
and_then (some (ok a)) next = next a

-- A lock that is taken, or waited for.
unfoldable pub with_locks :
    {World : Type 0} → Session World → Option Locks → Outcome (Session World)
with_locks st none = none
with_locks st (some locks) = some (ok (record st { locks = locks }))

set_dir : Text → WriteDir → (Text → WriteDir) → Text → WriteDir
set_dir path dir dirs p = if text_eq p path then dir else dirs p

-- `get_inode`
unfoldable pub get_inode : {World : Type 0} → Text → Session World → Result Inode
get_inode path st = elim (st.cache.inodes path) [
  | none ↦ err (runtime (codes "cannot find inode in local_inode_cache"))
  | some i ↦ ok i
]

-- `inode.sub[i]` for the indices below a number; reading behind the end is undefined.
take_sub : ℕ → List Text → Result (List Text)
take_sub zero sub = ok []
take_sub (suc n) [] = err undefined
take_sub (suc n) (s ∷ sub) = do rest ← take_sub n sub; ok (s ∷ rest)

-- The world after a request that has to succeed.
accepted : {World : Type 0} → Reply × World → Result World
accepted (reply, w) = do done ← check_response reply; ok w

-- The local directory of a path.
module _ {World : Type 0} (get_tmp_path : Text → Text) where
  -- `unlock`, of the remote lock, if there is one, and of the local one.
  unfoldable pub unlock : Text → Session World → Result (Session World)
  unlock path st = do
    locks ← thesis_dfs.PathLocks.unlock (get_tmp_path path) st.locks
    ok (record st { locks = locks; remote_locks = remove_text path st.remote_locks })

  -- `ls`, answered by the other namenode.
  module _ (m : Master World) (get_remote_inode : Text → World → Result Inode) where
    -- `write_lock`, with `lock_remote`.
    unfoldable pub write_lock : Text → Session World → Outcome (Session World)
    write_lock path st =
        and_then (with_locks st (thesis_dfs.PathLocks.write_lock (get_tmp_path path) st.locks))
          λ st₁. some (do
            w ← lock_remote m (path ∷ []) st₁.world
            ok (record st₁ { world = w; remote_locks = path ∷ remove_text path st₁.remote_locks }))

    unfoldable pub read_lock : Text → Session World → Outcome (Session World)
    read_lock path st = with_locks st (thesis_dfs.PathLocks.read_lock (get_tmp_path path) st.locks)

    -- `_truncate`
    unfoldable pub truncate_inode : Text → ℕ → Session World → Result (Session World)
    unfolding take_sub accepted
    truncate_inode path size st = do
      i ← get_inode path st
      if i.filesize == size then ok st else (do
        sub ← take_sub ((size + get_block_size i - 1) / get_block_size i) i.sub
        w ←
            accepted
              (three_tries (m.put_ok (record { path = path; filesize = size; sub = sub })) st.world)
        unlock path (record st { world = w }))

    lock_for : ℕ → Text → Session World → Outcome (Session World)
    unfolding set_dir
    lock_for flags path st =
        if is_rdonly flags
        then read_lock path st
        else (and_then (write_lock path st)
            λ st₁. some (ok (record st₁ { write_dirs = set_dir path (entries []) st₁.write_dirs })))

    refresh_inode : Text → Session World → Result (Session World)
    refresh_inode path st = do
      cache ← update_inode path (get_remote_inode path st.world) st.cache
      ok (record st { cache = cache })

    -- `open`, after the file was created if it has to be.
    unfoldable pub open_file : ℕ → Text → Session World → Outcome (Session World)
    unfolding lock_for refresh_inode
    open_file flags path st = and_then (lock_for flags path st) λ st₁. some (do
      st₂ ← refresh_inode path st₁
      if has_trunc flags then truncate_inode path 0 st₂ else ok st₂)

    unfoldable pub truncate : Text → ℕ → Session World → Outcome (Session World)
    truncate path size st =
        and_then (open_file truncate_flags path st) λ st₁. some (unlock path st₁)

    module _ (put_to_datanode : Text → Text → World → Result Text × World) (code : ErasureCode)
        (fuel : ℕ) (nodes : List Text) where
      -- `_create`: an empty local file is put.
      unfoldable pub create_inode : Text → World → Outcome World
      create_inode path w =
          put m put_to_datanode code fuel nodes (some []) (codes "RS<7,5,16>") path w

      -- `open`
      unfoldable pub open_path : ℕ → Text → Session World → Outcome (Session World)
      open_path flags path st =
          if has_creat flags
          then (and_then (create_inode path st.world)
              λ w. open_file flags path (record st { world = w }))
          else open_file flags path st

      unfoldable pub create : Text → Session World → Outcome (Session World)
      create path st = open_path create_flags path st

      synced : Text → Session World → WriteDir × World → Result (Session World)
      unfolding set_dir
      synced path st (dir, w) = unlock path (record st {
        cache = record st.cache {
          inodes = λ p. if text_eq p path then none else st.cache.inodes p;
        };
        write_dirs = set_dir path dir st.write_dirs;
        world = w;
      })

      unfoldable pub close : Text → Session World → Outcome (Session World)
      unfolding synced
      close path st =
          and_then
            (fsync m put_to_datanode code fuel nodes path (get_tmp_path path ++ codes "/write")
              (st.write_dirs path) (st.cache.inodes path) st.world)
            λ r. some (synced path st r)
