-- ===== src/Namenode/Mkdir.antt =====
-- `mkdir`, from the request to the database after the task.
use thesis_dfs.Database.Parents.{fullpath-add_sub, get_parent_inode-fullpath, contains-add_sub}
use thesis_dfs.Database.Writes.{IsKeyed, Accepts, read-second, read_other, read-first}
use thesis_dfs.Prelude.{
  ◌≢◌, ◌≡◌, Text, true, false, List, [], ◌∷◌, arith, some, ◌∙◌, subst, ap, sym,
}
use thesis_dfs.Result.{ok, ◌>>=◌}
use thesis_dfs.Inode.{parent_path, get_default_dir, Inode, filename}
use thesis_dfs.Database.Store.{Kv, found, inode}
use thesis_dfs.Database.{
  path_exists, prepare_mkdir, try_to_add, Handle, internal_mkdir, add_sub, get_parent_inode,
  contains,
}
use thesis_dfs.RaftNn.{Task, op_mkdir, on_apply, apply_task, success, on_apply_one}
use thesis_dfs.Namenode.{Server, mkdir, rooted}

module _ (kv : Kv) where
  open kv use {Db, read, write}

  pub mkdir_inversion :
      (server : Server) (h : Handle kv) (path : Text) (tasks : List Task)
      → mkdir kv server h path ≡ ok tasks
      → let i = get_default_dir (rooted path) in
        (tasks ≡ op_mkdir i ∷ [])
        × (path_exists kv h (parent_path i) ≡ ok true)
        × (path_exists kv h i.fullpath ≡ ok false)
  unfolding mkdir prepare_mkdir try_to_add
  mkdir_inversion server h path tasks e = ground arith

  -- A directory that is made stands in the database, and in its parent's list of entries.
  pub record IsMade (db db' : Db) (i parent : Inode) : Type 0 where
    pub stored : read db' i.fullpath ≡ found (inode i)
    pub listed : read db' (parent_path i) ≡ found (inode (add_sub (filename i) parent))
    pub entry : contains (filename i) (add_sub (filename i) parent).sub ≡ true
    pub others : (key : Text) → key ≢ i.fullpath → key ≢ parent_path i → read db' key ≡ read db key

  internal_mkdir-IsMade :
      (db : Db) (i parent : Inode)
      → IsKeyed kv db
      → Accepts kv db
      → get_parent_inode kv (some db) i ≡ ok parent
      → parent_path i ≢ i.fullpath
      → (db' : Db) × (internal_mkdir kv (some db) i ≡ ok (some db')) × IsMade db db' i parent
  unfolding internal_mkdir
  internal_mkdir-IsMade db i parent keyed accepts e ne =
      let p = add_sub (filename i) parent in
      let at : p.fullpath ≡ parent_path i =
        fullpath-add_sub (filename i) parent ∙ get_parent_inode-fullpath kv db i parent keyed e in
      let (db', w) = accepts ((p.fullpath, inode p) ∷ (i.fullpath, inode i) ∷ []) in
      (
        db',
        rw (e, ◌>>=◌, w),
        record {
          stored = read-second kv db db' p.fullpath i.fullpath (inode p) (inode i) w;
          listed =
              subst (λ k. read db' k ≡ found (inode p)) at
                (read-first kv db db' p.fullpath i.fullpath (inode p) (inode i) w
                  (λ q. ne (sym at ∙ q)));
          entry = contains-add_sub (filename i) parent;
          others = λ key nk np.
              read_other kv db db' p.fullpath i.fullpath (inode p) (inode i) w key
                (λ q. np (sym q ∙ at)) (λ q. nk (sym q));
        },
      )

  -- In a database where each value stands under its own key, a request for a directory that the
  -- leader accepts is carried out, if the store takes the batch and the parent can be read: the
  -- answer is success, the new directory stands under its simplified path, its name is among its
  -- parent's entries, and nothing else is changed.
  pub mkdir_makes :
      (server : Server) (db : Db) (path : Text) (tasks : List Task) (parent : Inode)
      → IsKeyed kv db
      → Accepts kv db
      → mkdir kv server (some db) path ≡ ok tasks
      → get_parent_inode kv (some db) (get_default_dir (rooted path)) ≡ ok parent
      → (db' : Db) × (on_apply kv (some db) tasks ≡ some (some db', success ∷ []))
        × IsMade db db' (get_default_dir (rooted path)) parent
  unfolding apply_task
  mkdir_makes server db path tasks parent keyed accepts e found_parent =
      let i = get_default_dir (rooted path) in
      let (one, there, absent) = mkdir_inversion server (some db) path tasks e in
      let (db', done, made) =
        internal_mkdir-IsMade db i parent keyed accepts found_parent
          (λ same. cc (ap (path_exists kv (some db)) same)) in
      (
        db',
        ap (on_apply kv (some db)) one ∙ on_apply_one kv (some db) (some db') (op_mkdir i) done,
        made,
      )
