-- ===== src/Namenode/Put.antt =====
-- `put` and `put_ok`: the lock of a file that is being written, and the end of the upload.
use thesis_dfs.StorageType
use thesis_dfs.StorageType.{StorageType}
use thesis_dfs.RaftNn.{Task, op_put, apply_task, on_apply, success, on_apply_one}
use thesis_dfs.Database.Reads.{get_inode-found, IsPrepared, prepare_put-IsPrepared}
use thesis_dfs.Database.Writes.{IsKeyed, Accepts}
use thesis_dfs.Prelude.Split.{is_empty}
use thesis_dfs.Result.{ok, err, ◌>>=◌, >>=-eq-ok, Result}
use thesis_dfs.FilePath.{simplify_path}
use thesis_dfs.Namenode.{put, Server, PutRequest, check_leader, put_inode, path_required}
use thesis_dfs.Database.Store.{Kv, found, inode, overlay, written}
use thesis_dfs.Prelude.{
  ℕ, Text, ◌≡◌, false, ◌≤◌, some, true, arith, List, ◌∷◌, [], text_eq_iff, ◌+◌, ◌<◌, ◌^◌, subst,
  ◌∙◌, ap, sym,
}
use thesis_dfs.Inode.{Inode, inode_at, lock, lock_conflict, lock_refresh_interval}
use thesis_dfs.Database.{prepare_put, internal_put}

-- The stored inode is a file whose lock is still held at `now`.
pub record IsLocked (now : ℕ) (path : Text) (i : Inode) : Type 0 where
  pub at : i.fullpath ≡ simplify_path path
  pub file : i.is_directory ≡ false
  pub held : now ≤ i.ddl_lock

module _ (kv : Kv) where
  open kv use {Db, read, write}

  -- While its lock is held a file cannot be put again: the request fails with a lock conflict,
  -- which is the error that the client sees.
  put_locked :
      (server : Server) (db : Db) (request : PutRequest) (i : Inode)
      → check_leader server ≡ ok tt
      → is_empty request.path ≡ false
      → read db (simplify_path request.path) ≡ found (inode i)
      → IsLocked server.now request.path i
      → put kv server (some db) request
        ≡ err (lock_conflict server.now (record i { is_directory = false; valid = true }))
  unfolding put prepare_put lock inode_at
  put_locked server db request i leads path e locked =
      rw (leads, path, ◌>>=◌, get_inode-found kv db (inode_at request.path) i e)
        (ground (arith, locked.file, locked.held))

  typed-IsPrepared :
      (now : ℕ) (request : PutRequest) (j i : Inode) (typed : Result StorageType)
      → (typed >>= λ s. ok (record j { storage_type_ptr = some s })) ≡ ok i
      → IsPrepared kv now (inode_at request.path) j
      → IsPrepared kv now (inode_at request.path) i
  typed-IsPrepared now request j i (ok s) e p = ground arith
  typed-IsPrepared now request j i (err w) e p = cc

  pub put_inode-IsPrepared :
      (server : Server) (db : Db) (request : PutRequest) (i : Inode)
      → IsKeyed kv db
      → put_inode kv server (some db) request ≡ ok i
      → IsPrepared kv server.now (inode_at request.path) i × (is_empty request.path ≡ false)
  unfolding put_inode path_required
  put_inode-IsPrepared server db request i keyed e =
      let (_, nonempty, e₁) = >>=-eq-ok (path_required request.path) _ e in
      let (j, prepared, e₂) =
        >>=-eq-ok (prepare_put kv server.now (some db) (inode_at request.path)) _ e₁ in
      let p = prepare_put-IsPrepared kv server.now db (inode_at request.path) j keyed prepared in
      (
        typed-IsPrepared server.now request j i (StorageType.from_string request.storage_type) e₂ p,
        ground arith,
      )

  pub put_inversion :
      (server : Server) (db : Db) (request : PutRequest) (tasks : List Task)
      → IsKeyed kv db
      → put kv server (some db) request ≡ ok tasks
      → (i : Inode) × (tasks ≡ op_put i ∷ [])
        × IsPrepared kv server.now (inode_at request.path) i
        × (is_empty request.path ≡ false)
  unfolding put
  put_inversion server db request tasks keyed e =
      let (_, leads, e₁) = >>=-eq-ok (check_leader server) _ e in
      let (i, e₂, e₃) = >>=-eq-ok (put_inode kv server (some db) request) _ e₁ in
      let (p, nonempty) = put_inode-IsPrepared server db request i keyed e₂ in
      (i, ground arith, p, nonempty)

  as_prepared :
      (now : ℕ) (request : PutRequest) (i : Inode)
      → IsPrepared kv now (inode_at request.path) i
      → record i { is_directory = false; valid = true } ≡ i
  as_prepared now request i p = ground (arith, p.file, p.is_valid)

  pub read-put :
      (db db' : Db) (i : Inode)
      → write db ((i.fullpath, inode i) ∷ []) ≡ written db'
      → read db' i.fullpath ≡ found (inode i)
  unfolding overlay
  read-put db db' i w =
      rw (kv.read-write db db' _ i.fullpath w) (ground (arith, text_eq_iff i.fullpath i.fullpath))

  -- In a database where each value stands under its own key, a file that the leader agrees to put
  -- is locked, once the task is carried out, for sixty seconds, if the store takes the batch and
  -- the time fits in 64 bits with these added: a request to put the same path at a time up to then
  -- is refused with a lock conflict by any node that takes itself for the leader.
  pub put_excludes :
      (server later : Server) (db : Db) (request again : PutRequest) (tasks : List Task)
      → IsKeyed kv db
      → Accepts kv db
      → put kv server (some db) request ≡ ok tasks
      → again.path ≡ request.path
      → check_leader later ≡ ok tt
      → server.now + lock_refresh_interval < 2 ^ 64
      → later.now ≤ server.now + lock_refresh_interval
      → (db' : Db) × (i : Inode) × (on_apply kv (some db) tasks ≡ some (some db', success ∷ []))
        × (read db' (simplify_path request.path) ≡ found (inode i))
        × (put kv later (some db') again ≡ err (lock_conflict later.now i))
  unfolding apply_task internal_put inode_at
  put_excludes server later db request again tasks keyed accepts e same leads fits soon =
      let (i, one, prepared, nonempty) = put_inversion server db request tasks keyed e in
      let (db', w) = accepts ((i.fullpath, inode i) ∷ []) in
      let at : read db' (simplify_path again.path) ≡ found (inode i) =
        subst (λ k. read db' k ≡ found (inode i)) (prepared.fullpath ∙ ap simplify_path (sym same))
          (read-put db db' i w) in
      (
        db',
        i,
        ap (on_apply kv (some db)) one ∙ on_apply_one kv (some db) (some db') (op_put i) (rw w),
        subst (λ k. read db' k ≡ found (inode i)) prepared.fullpath (read-put db db' i w),
        put_locked later db' again i leads (ap is_empty same ∙ nonempty) at (record {
          at = prepared.fullpath ∙ ap simplify_path (sym same);
          file = prepared.file;
          held = omega (arith, prepared.locked);
        })
            ∙ ap (λ k. err (lock_conflict later.now k)) (as_prepared server.now request i prepared),
      )
