-- ===== src/Database/Reads.antt =====
-- What `get_inode` and the `prepare` functions return.
use thesis_dfs.Result.{
  ok, >>=-eq-ok, ◌>>◌, throw_if, message, path_exists_exception, path_not_exists_exception,
  expected_file_exception,
}
use thesis_dfs.Database.Writes.{IsKeyed, Fits}
use thesis_dfs.Prelude.{ℕ, ◌≡◌, some, false, true, arith, if◌then◌else◌, not, ◌∙◌, ap}
use thesis_dfs.Database.{get_inode, inode_status, prepare_put, as_inode, prepare_put_ok}
use thesis_dfs.Database.Store.{Kv, found, Status, inode, agg_inode, failed, not_found}
use thesis_dfs.Inode.{Inode, lock_until, lock}

module _ (kv : Kv) where
  open kv use {Db, read}

  pub get_inode-found :
      (db : Db) (i j : Inode)
      → read db i.fullpath ≡ found (inode j)
      → get_inode kv (some db) i ≡ ok j
  unfolding get_inode
  get_inode-found db i j e = rw e

  get_inode_status-fullpath :
      (i j : Inode) (s : Status)
      → Fits i.fullpath s
      → inode_status kv i s ≡ ok j
      → j.fullpath ≡ i.fullpath
  unfolding inode_status as_inode
  get_inode_status-fullpath i j not_found f e = ground arith
  get_inode_status-fullpath i j (found (inode k)) f e = ground arith
  get_inode_status-fullpath i j (found (agg_inode k)) f e = cc
  get_inode_status-fullpath i j (failed w) f e = cc

  -- The inode that is read has the path that was asked for.
  pub get_inode-fullpath :
      (db : Db) (i j : Inode)
      → IsKeyed kv db
      → get_inode kv (some db) i ≡ ok j
      → j.fullpath ≡ i.fullpath
  unfolding get_inode
  get_inode-fullpath db i j keyed e =
      get_inode_status-fullpath i j (read db i.fullpath) (keyed i.fullpath) e

  -- An inode that `prepare_put` returns is a valid file, locked from now on.
  pub record IsPrepared (now : ℕ) (i j : Inode) : Type 0 where
    pub fullpath : j.fullpath ≡ i.fullpath
    pub file : j.is_directory ≡ false
    pub is_valid : j.valid ≡ true
    pub locked : j.ddl_lock ≡ lock_until now

  lock-IsPrepared :
      (now : ℕ) (i k j : Inode)
      → k.fullpath ≡ i.fullpath
      → (do
        throw_if
            (if k.valid then k.is_directory else false)
            (message path_exists_exception k.fullpath)
        lock now (record k { is_directory = false; valid = true }))
        ≡ ok j
      → IsPrepared now i j
  unfolding lock
  lock-IsPrepared now i k j same e = ground arith

  pub prepare_put-IsPrepared :
      (now : ℕ) (db : Db) (i j : Inode)
      → IsKeyed kv db
      → prepare_put kv now (some db) i ≡ ok j
      → IsPrepared now i j
  unfolding prepare_put
  prepare_put-IsPrepared now db i j keyed e =
      let (k, g, rest) = >>=-eq-ok (get_inode kv (some db) i) _ e in
      lock-IsPrepared now i k j (get_inode-fullpath db i k keyed g) rest

  -- An inode that `prepare_put_ok` returns is a stored valid file.
  pub prepare_put_ok-stored :
      (db : Db) (i j : Inode)
      → prepare_put_ok kv (some db) i ≡ ok j
      → (get_inode kv (some db) i ≡ ok j) × (j.valid ≡ true) × (j.is_directory ≡ false)
  unfolding prepare_put_ok
  prepare_put_ok-stored db i j e =
      let (k, g, rest) = >>=-eq-ok (get_inode kv (some db) i) _ e in
      let (same, v, d) = checked k j rest in (g ∙ ap ok same, v, d)
    where
      checked :
          (k j : Inode)
          → (do
            throw_if (not k.valid) (message path_not_exists_exception k.fullpath)
            throw_if k.is_directory (message expected_file_exception k.fullpath)
            ok k)
            ≡ ok j
          → (k ≡ j) × (j.valid ≡ true) × (j.is_directory ≡ false)
      checked k j e = ground arith
