-- ===== src/Namenode/Listing.antt =====
-- What `ls` answers after `mkdir` and after `rm`.
use thesis_dfs.Database.{get_parent_inode}
use thesis_dfs.Database.Writes.{IsKeyed, Accepts}
use thesis_dfs.Database.Reads.{get_inode-found}
use thesis_dfs.RaftNn.{Task, on_apply, success}
use thesis_dfs.Database.{ls}
use thesis_dfs.Namenode.{handle_ls, Server, rm, mkdir, rooted}
use thesis_dfs.Prelude.{◌≢◌, ◌≡◌, Text, true, false, List, [], ◌∷◌, some, refl, arith}
use thesis_dfs.Prelude.Split.{is_empty}
use thesis_dfs.Result.{ok, err, ◌>>=◌, message, path_not_exists_exception}
use thesis_dfs.FilePath.{simplify_path}
use thesis_dfs.Inode.{Inode, parent_path, get_default_dir, inode_at, set_fullpath}
use thesis_dfs.Database.Store.{Kv, found, not_found, inode}
use thesis_dfs.Namenode.Rm.{rm_removes, removed}
use thesis_dfs.Namenode.Mkdir.{mkdir_makes}

module _ (kv : Kv) where
  open kv use {Db, read}

  pub ls-found :
      (reader : Server) (db : Db) (path : Text) (i : Inode)
      → is_empty path ≡ false
      → read db (simplify_path path) ≡ found (inode i)
      → i.valid ≡ true
      → handle_ls kv reader (some db) path ≡ ok i
  unfolding handle_ls ls inode_at set_fullpath
  ls-found reader db path i nonempty e v =
      rw (nonempty, get_inode-found kv db (inode_at path) i e, ◌>>=◌, v) refl

  ls-invalid :
      (reader : Server) (db : Db) (path : Text) (i : Inode)
      → is_empty path ≡ false
      → read db (simplify_path path) ≡ found (inode i)
      → i.valid ≡ false
      → handle_ls kv reader (some db) path ≡ err (message path_not_exists_exception i.fullpath)
  unfolding handle_ls ls inode_at set_fullpath
  ls-invalid reader db path i nonempty e v =
      rw (nonempty, get_inode-found kv db (inode_at path) i e, ◌>>=◌, v) refl

  -- In a database where each value stands under its own key, once a request to remove a path is
  -- accepted and carried out, `ls` of that path fails on this node, leader or not, for it does not
  -- exist any more. The conditions are that the path is not empty, the store takes the batch,
  -- nothing is stored under the empty path, the parent can be read and the path is not its own
  -- parent.
  pub rm-ls :
      (server reader : Server) (db : Db) (path : Text) (tasks : List Task) (parent : Inode)
      → IsKeyed kv db
      → Accepts kv db
      → read db [] ≡ not_found
      → is_empty path ≡ false
      → rm kv server (some db) path ≡ ok tasks
      → get_parent_inode kv (some db) (removed path) ≡ ok parent
      → parent_path (removed path) ≢ (removed path).fullpath
      → (db' : Db) × (on_apply kv (some db) tasks ≡ some (some db', success ∷ []))
        × (handle_ls kv reader (some db') path
            ≡ err (message path_not_exists_exception (simplify_path path)))
  unfolding inode_at set_fullpath
  rm-ls server reader db path tasks parent keyed accepts empty nonempty e p ne =
      let (db', done, gone) =
        rm_removes kv server db path tasks parent keyed accepts empty e p ne in
      (db', done, ls-invalid reader db' path (removed path) nonempty gone.stored refl)

  -- In a database where each value stands under its own key, once a request to make a directory is
  -- accepted and carried out, `ls` of its path, with the leading slash that `mkdir` adds where
  -- there is none, answers with an empty directory on this node. The conditions are that the store
  -- takes the batch and the parent can be read.
  mkdir-ls :
      (server reader : Server) (db : Db) (path : Text) (tasks : List Task) (parent : Inode)
      → IsKeyed kv db
      → Accepts kv db
      → mkdir kv server (some db) path ≡ ok tasks
      → get_parent_inode kv (some db) (get_default_dir (rooted path)) ≡ ok parent
      → (db' : Db) × (on_apply kv (some db) tasks ≡ some (some db', success ∷ []))
        × (handle_ls kv reader (some db') (rooted path) ≡ ok (get_default_dir (rooted path)))
  unfolding get_default_dir set_fullpath
  mkdir-ls server reader db path tasks parent keyed accepts e p =
      let (db', done, made) = mkdir_makes kv server db path tasks parent keyed accepts e p in
      (
        db',
        done,
        ls-found reader db' (rooted path) (get_default_dir (rooted path)) (nonempty path)
            made.stored refl,
      )
    where
      nonempty : (path : Text) → is_empty (rooted path) ≡ false
      nonempty [] = unfold rooted in refl
      nonempty (c ∷ t) = unfold rooted in ground arith
