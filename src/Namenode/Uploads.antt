-- ===== src/Namenode/Uploads.antt =====
-- One upload at the namenode, from `put` over `update_lock` to `put_ok`.
use thesis_dfs.Namenode.Put.{read-put}
use thesis_dfs.Database.Writes.{IsKeyed, Accepts, IsNormal, write-IsKeyed}
use thesis_dfs.Prelude.Split.{is_empty}
use thesis_dfs.Result.{ok, ◌>>◌, throw_if, message, path_exists_exception, >>=-eq-ok, ◌>>=◌}
use thesis_dfs.RaftNn.{Task, op_put, on_apply, apply_task, success, op_putok, on_apply_one}
use thesis_dfs.Database.{prepare_put, get_inode, internal_put, prepare_put_ok, ls}
use thesis_dfs.Inode.{Inode, lock, lock_until, inode_at, update_ddl_lock}
use thesis_dfs.StorageType
use thesis_dfs.Namenode.{
  put, put_inode, Server, PutRequest, path_required, check_leader, update_lock, put_ok, refresh,
  PutOkRequest,
}
use thesis_dfs.StorageType.{StorageType}
use thesis_dfs.Database.Store.{Kv, found, inode, written, overlay}
use thesis_dfs.Prelude.{
  ℕ, false, true, List, some, ◌≡◌, ◌∷◌, if◌then◌else◌, [], arith, sym, ◌∙◌, subst, ap, Text, refl,
  ◌≢◌, text_eq_iff,
}
pub mod Finished

-- The inode that a `put` proposes for a stored one.
abbrev pub opened : ℕ → StorageType → Inode → Inode
opened now s i = record i {
  is_directory = false;
  valid = true;
  ddl_lock = lock_until now;
  storage_type_ptr = some s;
}

module _ (kv : Kv) where
  open kv use {Db, read, write}

  put_inode-opened :
      (server : Server) (db : Db) (request : PutRequest) (old i : Inode) (s : StorageType)
      → get_inode kv (some db) (inode_at request.path) ≡ ok old
      → StorageType.from_string request.storage_type ≡ ok s
      → put_inode kv server (some db) request ≡ ok i
      → i ≡ opened server.now s old
  unfolding put_inode prepare_put lock
  put_inode-opened server db request old i s g st e =
      let (u, nonempty, e₁) = >>=-eq-ok (path_required request.path) _ e in
      let (j, e₂, e₃) =
        >>=-eq-ok (prepare_put kv server.now (some db) (inode_at request.path)) _ e₁ in
      let (k, e₄, e₅) = >>=-eq-ok (get_inode kv (some db) (inode_at request.path)) _ e₂ in
      typed j (locked k j (sym e₄ ∙ g) e₅)
        (subst (λ r. (r >>= λ q. ok (record j { storage_type_ptr = some q })) ≡ ok i) st e₃)
    where
      locked :
          (k j : Inode)
          → ok k ≡ ok old
          → (do
            throw_if
                (if k.valid then k.is_directory else false)
                (message path_exists_exception k.fullpath)
            lock server.now (record k { is_directory = false; valid = true }))
            ≡ ok j
          → j ≡ record old { is_directory = false; valid = true; ddl_lock = lock_until server.now }
      locked k j e₁ e₂ = ground arith

      typed :
          (j : Inode)
          → j ≡ record old { is_directory = false; valid = true; ddl_lock = lock_until server.now }
          → ok (record j { storage_type_ptr = some s }) ≡ ok i
          → i ≡ opened server.now s old
      typed j e₁ e₂ = ground arith

  pub put-opened :
      (server : Server) (db : Db) (request : PutRequest) (old : Inode) (s : StorageType)
      (tasks : List Task)
      → get_inode kv (some db) (inode_at request.path) ≡ ok old
      → StorageType.from_string request.storage_type ≡ ok s
      → put kv server (some db) request ≡ ok tasks
      → (tasks ≡ op_put (opened server.now s old) ∷ []) × (is_empty request.path ≡ false)
  unfolding put
  put-opened server db request old s tasks g st e =
      let (u, leads, e₁) = >>=-eq-ok (check_leader server) _ e in
      let (i, e₂, e₃) = >>=-eq-ok (put_inode kv server (some db) request) _ e₁ in
      let (v, nonempty, e₄) = >>=-eq-ok (path_required request.path) _ (unfold put_inode in e₂) in
      let p = put_inode-opened server db request old i s g st e₂ in
      (one i e₃ ∙ ap (λ k. op_put k ∷ []) p, required nonempty)
    where
      one : (i : Inode) → ok (op_put i ∷ []) ≡ ok tasks → tasks ≡ op_put i ∷ []
      one i q = cc

      required : path_required request.path ≡ ok tt → is_empty request.path ≡ false
      required q = unfold path_required in ground arith

  -- A database after one inode was put in it.
  pub record IsWritten (db db' : Db) (i : Inode) : Type 0 where
    pub applied : on_apply kv (some db) (op_put i ∷ []) ≡ some (some db', success ∷ [])
    pub stored : read db' i.fullpath ≡ found (inode i)
    pub others : (key : Text) → key ≢ i.fullpath → read db' key ≡ read db key
    pub keyed : IsKeyed kv db'

  pub op_put-IsWritten :
      (db : Db) (i : Inode)
      → IsKeyed kv db
      → Accepts kv db
      → IsNormal i
      → (db' : Db) × IsWritten db db' i
  unfolding apply_task internal_put
  op_put-IsWritten db i keyed accepts normal =
      let (db', w) = accepts ((i.fullpath, inode i) ∷ []) in
      (
        db',
        record {
          applied = on_apply_one kv (some db) (some db') (op_put i) (rw w);
          stored = read-put kv db db' i w;
          others = λ key ne. kept db' key w (λ q. ne (sym q));
          keyed = write-IsKeyed kv db db' ((i.fullpath, inode i) ∷ []) keyed (refl, normal, tt) w;
        },
      )
    where
      kept :
          (db' : Db) (key : Text)
          → write db ((i.fullpath, inode i) ∷ []) ≡ written db'
          → i.fullpath ≢ key
          → read db' key ≡ read db key
      kept db' key w ne =
          rw (kv.read-write db db' _ key w)
            (unfold overlay in ground (arith, text_eq_iff i.fullpath key))

  -- The lock of a file that is stored as valid is refreshed.
  pub update_lock-one :
      (server : Server) (db : Db) (path : Text) (i : Inode)
      → check_leader server ≡ ok tt
      → get_inode kv (some db) (inode_at path) ≡ ok i
      → i.valid ≡ true
      → update_lock kv server (some db) (path ∷ [])
        ≡ (op_put (update_ddl_lock server.now i) ∷ [], ok tt)
  unfolding update_lock refresh ls
  update_lock-one server db path i leads g v = rw (leads, g, ◌>>=◌, v) refl

  -- The request to finish a file that is stored as valid is accepted.
  pub put_ok-one :
      (server : Server) (db : Db) (request : PutOkRequest) (i : Inode)
      → check_leader server ≡ ok tt
      → is_empty request.path ≡ false
      → get_inode kv (some db) (inode_at request.path) ≡ ok i
      → i.valid ≡ true
      → i.is_directory ≡ false
      → put_ok kv server (some db) request
        ≡ ok (op_putok (record i { sub = request.sub; filesize = request.filesize }) ∷ [])
  unfolding put_ok prepare_put_ok
  put_ok-one server db request i leads nonempty g v d = rw (leads, nonempty, ◌>>=◌, g, v, d) refl
