-- ===== src/Namenode/PutOk.antt =====
-- `put_ok`: the end of an upload.
use thesis_dfs.Database.Parents.{fullpath-add_sub, get_parent_inode-fullpath, contains-add_sub}
use thesis_dfs.FilePath.Normal.{simplify_path_idem}
use thesis_dfs.FilePath.{simplify_path}
use thesis_dfs.Database.Reads.{get_inode-fullpath, prepare_put_ok-stored}
use thesis_dfs.Result.{ok, >>=-eq-ok, ◌>>=◌}
use thesis_dfs.Database.Writes.{IsKeyed, Accepts, read-second, read-first, read_other}
use thesis_dfs.RaftNn.{apply_task, Task, op_putok, on_apply, success, on_apply_one}
use thesis_dfs.Prelude.{Text, ◌≡◌, List, some, ◌∷◌, ap, true, [], ◌≢◌, ◌∙◌, arith, sym, subst}
use thesis_dfs.Namenode.{PutOkRequest, put_ok, Server, check_leader, put_ok_inode, path_required}
use thesis_dfs.Database.Store.{Kv, found, inode}
use thesis_dfs.Inode.{Inode, parent_path, filename, inode_at, unlock, set_fullpath, new_inode}
use thesis_dfs.Database.{
  get_inode, internal_put_ok, add_sub, contains, get_parent_inode, prepare_put_ok,
}

module _ (kv : Kv) where
  open kv use {Db, read, write}

  -- A finished file: the stored inode with the blocks and the size of the request, unlocked, and
  -- listed by its parent.
  pub record IsFinished (db db' : Db) (request : PutOkRequest) (old parent : Inode) : Type 0 where
    pub stored :
        read db' old.fullpath
        ≡ found (inode (record (unlock old) { sub = request.sub; filesize = request.filesize }))
    pub listed : read db' (parent_path old) ≡ found (inode (add_sub (filename old) parent))
    pub entry : contains (filename old) (add_sub (filename old) parent).sub ≡ true
    pub others :
        (key : Text) → key ≢ old.fullpath → key ≢ parent_path old → read db' key ≡ read db key

  pub put_ok_inversion :
      (server : Server) (db : Db) (request : PutOkRequest) (tasks : List Task) (old : Inode)
      → get_inode kv (some db) (inode_at request.path) ≡ ok old
      → put_ok kv server (some db) request ≡ ok tasks
      → tasks ≡ op_putok (record old { sub = request.sub; filesize = request.filesize }) ∷ []
  unfolding put_ok
  put_ok_inversion server db request tasks old read_old e =
      let (_, leads, e₁) = >>=-eq-ok (check_leader server) _ e in
      let (i, e₂, e₃) = >>=-eq-ok (put_ok_inode kv server (some db) request) _ e₁ in
      let (_, nonempty, e₄) = >>=-eq-ok (path_required request.path) _ e₂ in
      let (seen, prepared, e₅) =
        >>=-eq-ok (prepare_put_ok kv (some db) (inode_at request.path)) _ e₄ in
      proposed seen i
        (sym (prepare_put_ok-stored kv db (inode_at request.path) seen prepared).0 ∙ read_old) e₅ e₃
    where
      proposed :
          (seen i : Inode)
          → ok seen ≡ ok old
          → ok (record seen { sub = request.sub; filesize = request.filesize }) ≡ ok i
          → ok (op_putok i ∷ []) ≡ ok tasks
          → tasks ≡ op_putok (record old { sub = request.sub; filesize = request.filesize }) ∷ []
      proposed seen i e₁ e₂ e₃ = ground arith

  -- The path is normal, so the inode that is read when the task is carried out is the one that the
  -- handler saw.
  same_inode :
      (db : Db) (path : Text) (old : Inode)
      → IsKeyed kv db
      → get_inode kv (some db) (inode_at path) ≡ ok old
      → get_inode kv (some db) (inode_at old.fullpath) ≡ ok old
  unfolding inode_at set_fullpath
  same_inode db path old keyed e =
      let at = get_inode-fullpath kv db (inode_at path) old keyed e in
      ap (λ p. get_inode kv (some db) (record new_inode { fullpath = p }))
        (ap simplify_path at ∙ simplify_path_idem path)
      ∙ e

  internal_put_ok-IsFinished :
      (db : Db) (request : PutOkRequest) (old parent : Inode)
      → IsKeyed kv db
      → Accepts kv db
      → get_inode kv (some db) (inode_at old.fullpath) ≡ ok old
      → get_parent_inode kv (some db) old ≡ ok parent
      → parent_path old ≢ old.fullpath
      → (db' : Db) × (internal_put_ok kv
            (some db)
            (record old { sub = request.sub; filesize = request.filesize })
          ≡ ok (some db'))
        × IsFinished db db' request old parent
  unfolding internal_put_ok filename parent_path get_parent_inode unlock
  internal_put_ok-IsFinished db request old parent keyed accepts read_old read_parent ne =
      let p = add_sub (filename old) parent in
      let new : Inode = record (unlock old) { sub = request.sub; filesize = request.filesize } in
      let at : p.fullpath ≡ parent_path old =
        fullpath-add_sub (filename old) parent
        ∙ get_parent_inode-fullpath kv db old parent keyed read_parent in
      let (db', w) = accepts ((p.fullpath, inode p) ∷ (old.fullpath, inode new) ∷ []) in
      (
        db',
        rw (read_parent, ◌>>=◌, read_old, w),
        record {
          stored = read-second kv db db' p.fullpath old.fullpath (inode p) (inode new) w;
          listed =
              subst (λ k. read db' k ≡ found (inode p)) at
                (read-first kv db db' p.fullpath old.fullpath (inode p) (inode new) w
                  (λ q. ne (sym at ∙ q)));
          entry = contains-add_sub (filename old) parent;
          others = λ key nk np.
              read_other kv db db' p.fullpath old.fullpath (inode p) (inode new) w key
                (λ q. np (sym q ∙ at)) (λ q. nk (sym q));
        },
      )

  -- In a database where each value stands under its own key, a request to finish an upload that
  -- the leader accepts is carried out, if the store takes the batch, the parent can be read and
  -- the file is not its own parent: the answer is success, the file gets the blocks and the size
  -- of the request and keeps its other fields, its lock is released, its name is among its
  -- parent's entries, and nothing else is changed.
  pub put_ok_finishes :
      (server : Server) (db : Db) (request : PutOkRequest) (tasks : List Task) (old parent : Inode)
      → IsKeyed kv db
      → Accepts kv db
      → put_ok kv server (some db) request ≡ ok tasks
      → get_inode kv (some db) (inode_at request.path) ≡ ok old
      → get_parent_inode kv (some db) old ≡ ok parent
      → parent_path old ≢ old.fullpath
      → (db' : Db) × (on_apply kv (some db) tasks ≡ some (some db', success ∷ []))
        × IsFinished db db' request old parent
  unfolding apply_task
  put_ok_finishes server db request tasks old parent keyed accepts e read_old read_parent ne =
      let (db', done, finished) =
        internal_put_ok-IsFinished db request old parent keyed accepts
          (same_inode db request.path old keyed read_old) read_parent ne in
      (
        db',
        ap (on_apply kv (some db)) (put_ok_inversion server db request tasks old read_old e)
            ∙ on_apply_one kv (some db) (some db') (op_putok _) done,
        finished,
      )
