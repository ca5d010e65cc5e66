-- ===== src/Database.antt =====
-- src/node/rocksdb.cpp and include/node/rocksdb.h: the metadata of the namenode, over RocksDB, which is a parameter.
-- A stored value is the JSON text of an inode; it is kept here as the inode that `json::parse` and
-- `get<Inode>` make of it.
pub mod Store
pub mod PutBatch
pub mod Writes
pub mod Reads
pub mod Parents
pub mod Keyed
use thesis_dfs.Prelude.{
  ℕ, ◌≡◌, Text, codes, text_eq, Bool, true, false, not, List, [], ◌∷◌, ◌++◌, Option, none, some,
  if◌then◌else◌, suc,
}
use thesis_dfs.Prelude.Split.{is_empty}
use thesis_dfs.Result.{
  Error, message, runtime, aborted, undefined, path_exists_exception, path_not_exists_exception,
  expected_file_exception, Result, ok, err, ◌>>=◌, ◌>>◌, throw_if,
}
use thesis_dfs.Inode.{
  Inode, new_inode, inode_at, get_default_dir, lock, unlock, filename, parent_path, AggInode,
  set_file_un_valid, FileInfo,
}
use Store.{
  Kv, Stored, inode, agg_inode, Status, found, not_found, failed, Written, written, not_written,
}

abbrev pub root : Text
root = codes "/"

-- `json::parse(value)`, then `get<Inode>()` and `get<AggInode>()`: `at` throws on a missing key.
unfoldable pub as_inode : Stored → Result Inode
as_inode (inode i) = ok i
as_inode (agg_inode a) =
    err (runtime (codes "[json.exception.out_of_range.403] key 'fullpath' not found"))

unfoldable pub as_agg_inode : Stored → Result AggInode
as_agg_inode (agg_inode a) = ok a
as_agg_inode (inode i) =
    err (runtime (codes "[json.exception.out_of_range.403] key 'id' not found"))

-- `std::find` and `push_back` if it found nothing.
unfoldable pub contains : Text → List Text → Bool
contains name [] = false
contains name (s ∷ sub) = if text_eq s name then true else contains name sub

unfoldable pub add_sub : Text → Inode → Inode
unfolding contains
add_sub name parent =
    if contains name parent.sub then parent else record parent { sub = parent.sub ++ name ∷ [] }

-- `erase(std::remove(...), end())`
unfoldable pub remove_text : Text → List Text → List Text
remove_text name [] = []
remove_text name (s ∷ sub) =
    let rest = remove_text name sub in if text_eq s name then rest else s ∷ rest

unfoldable pub remove_sub : Text → Inode → Inode
unfolding remove_text
remove_sub name parent = record parent {
  sub = remove_text (name ++ codes "/") (remove_text name parent.sub);
}

-- The loop of `agg_rm`: the first file with that path is marked.
mark_files : Text → ℕ → List FileInfo → AggInode → AggInode
mark_files path i [] a = a
mark_files path i (file ∷ files) a =
    let rest = mark_files path (suc i) files a in
    if text_eq file.path path then set_file_un_valid i a else rest

module _ (kv : Kv) where
  open kv use {Db, read, write}

  -- `db_ptr`, null while the database is closed.
  abbrev pub Handle : Type 0
  Handle = Option Db

  -- `if (db_ptr == nullptr) throw runtime_error(string(__func__) + "db not ready");`
  ready : Text → Handle → Result Db
  ready func none = err (runtime (func ++ codes "db not ready"))
  ready func (some db) = ok db

  -- The private `get` and `put` do not look at the pointer.
  deref : Handle → Result Db
  deref none = err undefined
  deref (some db) = ok db

  unfoldable pub committed : Text → Written Db → Result Handle
  committed what (written db) = ok (some db)
  committed what (not_written s) = err (runtime (what ++ s))

  exists_status : Status → Result Bool
  exists_status not_found = ok false
  exists_status (failed s) = err (runtime (codes "unknown error rocksdb get()"))
  exists_status (found v) = do i ← as_inode v; ok i.valid

  unfoldable pub path_exists : Handle → Text → Result Bool
  unfolding ready exists_status as_inode
  path_exists h path =
      if text_eq path root
      then ok true
      else (do db ← ready (codes "path_exists") h; exists_status (read db path))

  unfoldable pub try_to_rm : Handle → Inode → Result (Unit {0})
  try_to_rm h i = do
    there ← path_exists h i.fullpath
    throw_if (not there) (message path_not_exists_exception i.fullpath)

  unfoldable pub try_to_add : Handle → Inode → Result (Unit {0})
  try_to_add h i = do
    parent_there ← path_exists h (parent_path i)
    throw_if (not parent_there) (message path_not_exists_exception (parent_path i))
    there ← path_exists h i.fullpath
    throw_if there (message path_exists_exception i.fullpath)

  inode_status : Inode → Status → Result Inode
  inode_status i not_found = ok (
      if text_eq i.fullpath root
      then record i { is_directory = true; valid = true }
      else record i { valid = false })
  inode_status i (failed s) = err (runtime s)
  inode_status i (found v) = as_inode v

  unfoldable pub get_inode : Handle → Inode → Result Inode
  unfolding ready inode_status as_inode
  get_inode h i = do db ← ready (codes "get_inode") h; inode_status i (read db i.fullpath)

  unfoldable pub ls : Handle → Inode → Result Inode
  ls h i = do
    i' ← get_inode h i
    throw_if (not i'.valid) (message path_not_exists_exception i'.fullpath)
    ok i'

  -- The public `get(Inode&)`.
  unfoldable pub get_file : Handle → Inode → Result Inode
  unfolding ready
  get_file h i = do
    db ← ready (codes "get") h
    i' ← get_inode h i
    throw_if (not i'.valid) (message path_not_exists_exception i'.fullpath)
    throw_if i'.is_directory (runtime (codes "cannot get directory"))
    ok i'

  unfoldable pub prepare_mkdir : Handle → Inode → Result (Unit {0})
  unfolding ready
  prepare_mkdir h i = do db ← ready (codes "prepare_mkdir") h; try_to_add h i

  -- A directory may not be overwritten; a file may, once its lock has run out.
  unfoldable pub prepare_put : ℕ → Handle → Inode → Result Inode
  unfolding ready
  prepare_put now h i = do
    db ← ready (codes "prepare_put") h
    i' ← get_inode h i
    throw_if (if i'.valid then i'.is_directory else false)
        (message path_exists_exception i'.fullpath)
    lock now (record i' { is_directory = false; valid = true })

  unfoldable pub prepare_put_ok : Handle → Inode → Result Inode
  unfolding ready
  prepare_put_ok h i = do
    db ← ready (codes "prepare_put_ok") h
    i' ← get_inode h i
    throw_if (not i'.valid) (message path_not_exists_exception i'.fullpath)
    throw_if i'.is_directory (message expected_file_exception i'.fullpath)
    ok i'

  unfoldable pub prepare_rm : Handle → Inode → Result Inode
  prepare_rm h i = do try_to_rm h i; ok (record i { valid = false })

  parse_agg : Status → Result AggInode
  parse_agg (found v) = as_agg_inode v
  parse_agg not_found = err (runtime (codes "[json.exception.parse_error.101] empty input"))
  parse_agg (failed s) = err (runtime (codes "[json.exception.parse_error.101] empty input"))

  -- The inode that is read here never gets the path, and the marked AggInode is not written back.
  unfoldable pub agg_rm : Handle → Text → Result (Unit {0})
  unfolding ready parse_agg mark_files
  agg_rm h path = do
    db ← ready (codes "agg_rm") h
    i ← get_inode h new_inode
    if is_empty i.agg_inode_id then ok tt else (do
      a ← parse_agg (read db i.agg_inode_id)
      let marked = mark_files path 0 a.files a
      ok tt)

  parent_status : Inode → Status → Result Inode
  parent_status i not_found =
      if text_eq (parent_path i) root then ok (get_default_dir root) else err aborted
  parent_status i (found v) = as_inode v
  parent_status i (failed s) = err (runtime (codes "parent add sub, internal get not ok" ++ s))

  unfoldable pub get_parent_inode : Handle → Inode → Result Inode
  unfolding deref parent_status as_inode
  get_parent_inode h i = do db ← deref h; parent_status i (read db (parent_path i))

  unfoldable pub internal_rm : Handle → Inode → Result Handle
  unfolding ready committed
  internal_rm h i = do
    db ← ready (codes "internal_rm") h
    parent ← get_parent_inode h i
    agg_rm h i.fullpath
    let parent' = remove_sub (filename i) parent
    committed (codes "batch write not ok!")
        (write db ((parent'.fullpath, inode parent') ∷ (i.fullpath, inode i) ∷ []))

  unfoldable pub internal_mkdir : Handle → Inode → Result Handle
  unfolding ready committed
  internal_mkdir h i = do
    db ← ready (codes "internal_mkdir") h
    parent ← get_parent_inode h i
    let parent' = add_sub (filename i) parent
    committed (codes "batch write not ok")
        (write db ((parent'.fullpath, inode parent') ∷ (i.fullpath, inode i) ∷ []))

  -- The inode of a finished file: the stored one, unlocked, with the new blocks and size.
  finish : Handle → Inode → Result Inode
  finish h i = do
    db_inode ← get_inode h (inode_at i.fullpath)
    ok (record (unlock db_inode) { sub = i.sub; filesize = i.filesize })

  unfoldable pub internal_put_ok : Handle → Inode → Result Handle
  unfolding ready committed finish
  internal_put_ok h i = do
    db ← ready (codes "internal_put_ok") h
    parent ← get_parent_inode h i
    let parent' = add_sub (filename i) parent
    db_inode ← finish h i
    committed (codes "batch write not ok")
        (write db ((parent'.fullpath, inode parent') ∷ (db_inode.fullpath, inode db_inode) ∷ []))

  unfoldable pub internal_put_agg : Handle → AggInode → Result Handle
  unfolding ready committed
  internal_put_agg h a = do
    db ← ready (codes "internal_put_agg") h
    committed (codes "internal put_agg not ok") (write db ((a.id, agg_inode a) ∷ []))

  unfoldable pub internal_put : Handle → Inode → Result Handle
  unfolding ready committed
  internal_put h i = do
    db ← ready (codes "internal_put") h
    committed (codes "internal put not ok") (write db ((i.fullpath, inode i) ∷ []))
