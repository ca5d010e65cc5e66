-- ===== src/Database/PutBatch.antt =====
-- The batched writes of src/node/rocksdb.cpp, for the small files of one aggregated upload.
pub mod Keyed
use thesis_dfs.Prelude.{Text, codes, text_eq, Bool, true, false, List, [], ◌∷◌, ◌++◌, if◌then◌else◌}
use thesis_dfs.Prelude.Split.{is_empty}
use thesis_dfs.Result.{Result, ok, ◌>>=◌}
use thesis_dfs.Inode.{Inode, new_inode, inode_at, filename, parent_path, unlock}
use thesis_dfs.Database.Store.{Kv, inode, Batch}
use thesis_dfs.Database.{Handle, ready, committed, get_parent_inode, get_inode, add_sub}

-- `std::unordered_map<std::string, Inode> parent_inodes`. Its order is not specified; here it is
-- the order of insertion.
abbrev pub Parents : Type 0
Parents = List (Text × Inode)

-- `parent_inodes[path]`, which makes a new inode for a missing key.
unfoldable pub parent_at : Text → Parents → Inode
parent_at path [] = new_inode
parent_at path ((key, i) ∷ parents) = if text_eq key path then i else parent_at path parents

unfoldable pub has_parent : Text → Parents → Bool
has_parent path [] = false
has_parent path ((key, i) ∷ parents) = if text_eq key path then true else has_parent path parents

unfoldable pub set_parent : Text → Inode → Parents → Parents
set_parent path i [] = []
set_parent path i ((key, old) ∷ parents) =
    if text_eq key path then (key, i) ∷ parents else (key, old) ∷ set_parent path i parents

put_all : List Inode → Batch
put_all [] = []
put_all (i ∷ inodes) = (i.fullpath, inode i) ∷ put_all inodes

parent_puts : Parents → Batch
parent_puts [] = []
parent_puts ((key, i) ∷ parents) = (i.fullpath, inode i) ∷ parent_puts parents

-- What one file of `internal_put_ok_batch` writes for itself.
unfoldable pub finish_small : Inode → Inode → Inode
finish_small i db_inode = record (unlock db_inode) {
  sub = i.sub;
  filesize = i.filesize;
  agg_inode_id = if is_empty i.agg_inode_id then db_inode.agg_inode_id else i.agg_inode_id;
}

module _ (kv : Kv) where
  open kv use {Db, read, write}

  unfoldable pub internal_put_batch : Handle kv → List Inode → Result (Handle kv)
  unfolding ready committed put_all
  internal_put_batch h inodes = do
    db ← ready kv (codes "internal_put_batch ") h
    committed kv (codes "internal put batch not ok: ") (write db (put_all inodes))

  -- The first loop: each parent is read once.
  gather : Handle kv → List Inode → Parents → Result Parents
  gather h [] parents = ok parents
  gather h (i ∷ inodes) parents =
      let skip = gather h inodes parents in
      let add =
        get_parent_inode kv h i >>= λ p. gather h inodes (parents ++ (parent_path i, p) ∷ []) in
      if has_parent (parent_path i) parents then skip else add

  -- The second loop: the files' own writes, and the parents with their new entries.
  finish_all : Handle kv → List Inode → Parents → Result (Batch × Parents)
  finish_all h [] parents = ok ([], parents)
  finish_all h (i ∷ inodes) parents = do
    db_inode ← get_inode kv h (inode_at i.fullpath)
    let parents' =
        set_parent (parent_path i) (add_sub (filename i) (parent_at (parent_path i) parents))
          parents
    let done = finish_small i db_inode
    (batch, parents'') ← finish_all h inodes parents'
    ok ((done.fullpath, inode done) ∷ batch, parents'')

  unfoldable pub internal_put_ok_batch : Handle kv → List Inode → Result (Handle kv)
  unfolding ready committed gather finish_all parent_puts
  internal_put_ok_batch h inodes = do
    db ← ready kv (codes "internal_put_ok_batch ") h
    parents ← gather h inodes []
    (batch, parents') ← finish_all h inodes parents
    committed kv (codes "batch write not ok: ") (write db (batch ++ parent_puts parents'))
