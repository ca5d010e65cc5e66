-- ===== src/Namenode/Rm.antt =====
-- `rm`, from the request to the database after the task.
use thesis_dfs.Database.Parents.{get_parent_inode-fullpath}
use thesis_dfs.Result.{ok, ◌>>=◌}
use thesis_dfs.Database.Writes.{IsKeyed, Accepts, read-second, read-first, read_other}
use thesis_dfs.RaftNn.{apply_task, Task, op_rm, on_apply, success, on_apply_one}
use thesis_dfs.Namenode.{rm, Server}
use thesis_dfs.Database.Store.{Kv, found, inode, not_found}
use thesis_dfs.Prelude.{
  Text, List, ◌≡◌, false, ◌∷◌, ◌++◌, arith, codes, [], ◌≢◌, some, ◌∙◌, ap, subst, sym, refl,
  text_eq,
}
use thesis_dfs.Inode.{Inode, parent_path, filename, inode_at}
use thesis_dfs.Database.{
  remove_text, Handle, contains, remove_sub, internal_rm, agg_rm, prepare_rm, get_inode, try_to_rm,
  get_parent_inode,
}

-- The removed names of an entry: the file's, and the directory's with a slash.
pub contains-remove_text :
    (name : Text) (sub : List Text) → contains name (remove_text name sub) ≡ false
unfolding contains remove_text
contains-remove_text name [] = refl
contains-remove_text name (s ∷ sub) = ground (arith, contains-remove_text name sub)

contains-remove_text-false :
    (name other : Text) (sub : List Text)
    → contains name sub ≡ false
    → contains name (remove_text other sub) ≡ false
unfolding contains remove_text
contains-remove_text-false name other [] h = refl
contains-remove_text-false name other (s ∷ sub) h =
    ground (arith, contains-remove_text-false name other sub)

remove_sub_gone :
    (name : Text) (p : Inode)
    → (contains name (remove_sub name p).sub ≡ false)
      × (contains (name ++ codes "/") (remove_sub name p).sub ≡ false)
unfolding remove_sub
remove_sub_gone name p = (
  contains-remove_text-false name (name ++ codes "/") (remove_text name p.sub)
      (contains-remove_text name p.sub),
  contains-remove_text (name ++ codes "/") (remove_text name p.sub),
)

fullpath-remove_sub : (name : Text) (p : Inode) → (remove_sub name p).fullpath ≡ p.fullpath
unfolding remove_sub
fullpath-remove_sub name p = refl

abbrev pub removed : Text → Inode
removed path = record (inode_at path) { valid = false }

module _ (kv : Kv) where
  open kv use {Db, read, write}

  rm_inversion :
      (server : Server) (h : Handle kv) (path : Text) (tasks : List Task)
      → rm kv server h path ≡ ok tasks
      → tasks ≡ op_rm (removed path) ∷ []
  unfolding rm prepare_rm try_to_rm
  rm_inversion server h path tasks e = ground arith

  -- A removed path stands in the database as an invalid inode; neither its file name nor its
  -- directory name is among the parent's entries.
  pub record IsRemoved (db db' : Db) (i parent : Inode) : Type 0 where
    pub stored : read db' i.fullpath ≡ found (inode i)
    pub listed : read db' (parent_path i) ≡ found (inode (remove_sub (filename i) parent))
    pub no_file : contains (filename i) (remove_sub (filename i) parent).sub ≡ false
    pub no_directory :
        contains (filename i ++ codes "/") (remove_sub (filename i) parent).sub ≡ false
    pub others : (key : Text) → key ≢ i.fullpath → key ≢ parent_path i → read db' key ≡ read db key

  internal_rm-IsRemoved :
      (db : Db) (i parent : Inode)
      → IsKeyed kv db
      → Accepts kv db
      → get_parent_inode kv (some db) i ≡ ok parent
      → agg_rm kv (some db) i.fullpath ≡ ok tt
      → parent_path i ≢ i.fullpath
      → (db' : Db) × (internal_rm kv (some db) i ≡ ok (some db')) × IsRemoved db db' i parent
  unfolding internal_rm
  internal_rm-IsRemoved db i parent keyed accepts e a ne =
      let p = remove_sub (filename i) parent in
      let at : p.fullpath ≡ parent_path i =
        fullpath-remove_sub (filename i) parent
        ∙ get_parent_inode-fullpath kv db i parent keyed e in
      let (db', w) = accepts ((p.fullpath, inode p) ∷ (i.fullpath, inode i) ∷ []) in
      (
        db',
        rw (e, ◌>>=◌, a, w),
        record {
          stored = read-second kv db db' p.fullpath i.fullpath (inode p) (inode i) w;
          listed =
              subst (λ k. read db' k ≡ found (inode p)) at
                (read-first kv db db' p.fullpath i.fullpath (inode p) (inode i) w
                  (λ q. ne (sym at ∙ q)));
          no_file = (remove_sub_gone (filename i) parent).0;
          no_directory = (remove_sub_gone (filename i) parent).1;
          others = λ key nk np.
              read_other kv db db' p.fullpath i.fullpath (inode p) (inode i) w key
                (λ q. np (sym q ∙ at)) (λ q. nk (sym q));
        },
      )

  -- The inode that `agg_rm` reads is that of the empty path, so it does nothing where none stands.
  agg_rm-ok : (db : Db) (path : Text) → read db [] ≡ not_found → agg_rm kv (some db) path ≡ ok tt
  unfolding agg_rm get_inode text_eq
  agg_rm-ok db path e = rw e

  -- In a database where each value stands under its own key, a path that the leader agrees to
  -- remove is removed, if the store takes the batch, nothing is stored under the empty path, the
  -- parent can be read and the path is not its own parent: the answer is success, the path is no
  -- longer valid, the parent lists it neither as a file nor as a directory, and nothing else is
  -- changed.
  pub rm_removes :
      (server : Server) (db : Db) (path : Text) (tasks : List Task) (parent : Inode)
      → IsKeyed kv db
      → Accepts kv db
      → read db [] ≡ not_found
      → rm kv server (some db) path ≡ ok tasks
      → get_parent_inode kv (some db) (removed path) ≡ ok parent
      → parent_path (removed path) ≢ (removed path).fullpath
      → (db' : Db) × (on_apply kv (some db) tasks ≡ some (some db', success ∷ []))
        × IsRemoved db db' (removed path) parent
  unfolding apply_task
  rm_removes server db path tasks parent keyed accepts empty e found_parent ne =
      let i = removed path in
      let (db', done, gone) =
        internal_rm-IsRemoved db i parent keyed accepts found_parent (agg_rm-ok db i.fullpath empty)
          ne in
      (
        db',
        ap (on_apply kv (some db)) (rm_inversion server (some db) path tasks e)
            ∙ on_apply_one kv (some db) (some db') (op_rm i) done,
        gone,
      )
