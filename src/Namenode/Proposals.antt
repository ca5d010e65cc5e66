-- ===== src/Namenode/Proposals.antt =====
-- What the handlers of src/node/namenode.cpp propose: tasks whose inodes have normal paths.
pub mod Batches
use thesis_dfs.Prelude.Int.{ℤ, stoi}
use thesis_dfs.Database.Reads.{prepare_put_ok-stored}
use thesis_dfs.Namenode.Put.{put_inode-IsPrepared}
use thesis_dfs.Namenode.Mkdir.{mkdir_inversion}
use thesis_dfs.Prelude.{
  ◌≡◌, Text, List, [], ◌∷◌, none, some, arith, All, subst, sym, false, ℕ, ◌+◌, ◌%◌, not, ◌^◌, refl,
}
use thesis_dfs.Result.{
  ok, >>=-eq-ok, Result, err, ◌>>◌, throw_if, message, path_not_exists_exception,
}
use thesis_dfs.FilePath.{simplify_path}
use thesis_dfs.FilePath.Normal.{simplify_path_idem}
use thesis_dfs.Inode.{
  Inode, inode_at, get_default_dir, set_fullpath, FileInfo, AggInode, update_ddl_lock,
}
use thesis_dfs.Database.Store.{Kv}
use thesis_dfs.Database.{Handle, get_inode, prepare_rm, try_to_rm, prepare_put, prepare_put_ok, ls}
use thesis_dfs.Database.Writes.{IsNormal}
use thesis_dfs.Database.Keyed.{IsKeyedHandle, read-IsNormal}
use thesis_dfs.RaftNn.{Task, op_putbatch, op_rm, op_put, op_putok, op_putokbatch, op_putagg}
use thesis_dfs.RaftNn.Keyed.{IsNormalTask}
use thesis_dfs.Namenode.{
  Server, mkdir, rm, put, put_batch, put_ok, PutRequest, PutOkRequest, put_inode, rooted,
  path_required, put_inodes, check_leader, put_ok_inode, small_files, put_ok_batch, refresh,
  refresh_all, update_lock, start_refresh, last_octet, front, get_last_pair, refreshed,
}

inode_at-IsNormal : (path : Text) → IsNormal (inode_at path)
unfolding inode_at set_fullpath
inode_at-IsNormal path = simplify_path_idem path

default_dir-IsNormal : (path : Text) → IsNormal (get_default_dir path)
unfolding get_default_dir set_fullpath
default_dir-IsNormal path = simplify_path_idem path

pub moved : (i j : Inode) → i.fullpath ≡ j.fullpath → IsNormal i → IsNormal j
moved i j e n = subst (λ p. simplify_path p ≡ p) e n

module _ (kv : Kv) where
  pub get_inode-IsNormal :
      (h : Handle kv) (path : Text) (k : Inode)
      → IsKeyedHandle kv h
      → get_inode kv h (inode_at path) ≡ ok k
      → IsNormal k
  unfolding get_inode
  get_inode-IsNormal none path k keyed e = cc
  get_inode-IsNormal (some db) path k keyed e = read-IsNormal kv db none keyed path k e

  pub mkdir_normal :
      (server : Server) (h : Handle kv) (path : Text) (tasks : List Task)
      → mkdir kv server h path ≡ ok tasks
      → All IsNormalTask tasks
  mkdir_normal server h path tasks e =
      subst (All IsNormalTask) (sym (mkdir_inversion kv server h path tasks e).0)
        (default_dir-IsNormal (rooted path), tt)

  pub rm_normal :
      (server : Server) (h : Handle kv) (path : Text) (tasks : List Task)
      → rm kv server h path ≡ ok tasks
      → All IsNormalTask tasks
  unfolding rm prepare_rm try_to_rm
  rm_normal server h path tasks e =
      subst (All IsNormalTask) (proposed e) (inode_at-IsNormal path, tt)
    where
      proposed :
          rm kv server h path ≡ ok tasks
          → op_rm (record (inode_at path) { valid = false }) ∷ [] ≡ tasks
      proposed q = ground arith

  pub put_inode-IsNormal :
      (server : Server) (h : Handle kv) (request : PutRequest) (i : Inode)
      → IsKeyedHandle kv h
      → put_inode kv server h request ≡ ok i
      → IsNormal i
  unfolding put_inode path_required prepare_put
  put_inode-IsNormal server none request i keyed e = ground arith
  put_inode-IsNormal server (some db) request i keyed e =
      moved (inode_at request.path) i
        (sym (put_inode-IsPrepared kv server db request i keyed e).0.fullpath)
        (inode_at-IsNormal request.path)

  pub put_normal :
      (server : Server) (h : Handle kv) (request : PutRequest) (tasks : List Task)
      → IsKeyedHandle kv h
      → put kv server h request ≡ ok tasks
      → All IsNormalTask tasks
  unfolding put
  put_normal server h request tasks keyed e =
      let (_, leads, e₁) = >>=-eq-ok (check_leader server) _ e in
      let (i, e₂, e₃) = >>=-eq-ok (put_inode kv server h request) _ e₁ in
      subst (All IsNormalTask) (tasks_of i e₃) (put_inode-IsNormal server h request i keyed e₂, tt)
    where
      tasks_of : (i : Inode) → ok (op_put i ∷ []) ≡ ok tasks → op_put i ∷ [] ≡ tasks
      tasks_of i q = cc

  pub put_ok_inode-IsNormal :
      (server : Server) (h : Handle kv) (request : PutOkRequest) (i : Inode)
      → IsKeyedHandle kv h
      → put_ok_inode kv server h request ≡ ok i
      → IsNormal i
  unfolding put_ok_inode path_required prepare_put_ok
  put_ok_inode-IsNormal server none request i keyed e = ground arith
  put_ok_inode-IsNormal server (some db) request i keyed e =
      let (_, nonempty, e₁) = >>=-eq-ok (path_required request.path) _ e in
      let (k, e₂, e₃) = >>=-eq-ok (prepare_put_ok kv (some db) (inode_at request.path)) _ e₁ in
      moved k i (same k e₃) (
        get_inode-IsNormal (some db) request.path k keyed
          (prepare_put_ok-stored kv db (inode_at request.path) k e₂).0)
    where
      same :
          (k : Inode)
          → ok (record k { sub = request.sub; filesize = request.filesize }) ≡ ok i
          → k.fullpath ≡ i.fullpath
      same k q = ground arith

  pub put_ok_normal :
      (server : Server) (h : Handle kv) (request : PutOkRequest) (tasks : List Task)
      → IsKeyedHandle kv h
      → put_ok kv server h request ≡ ok tasks
      → All IsNormalTask tasks
  unfolding put_ok
  put_ok_normal server h request tasks keyed e =
      let (_, leads, e₁) = >>=-eq-ok (check_leader server) _ e in
      let (i, e₂, e₃) = >>=-eq-ok (put_ok_inode kv server h request) _ e₁ in
      subst (All IsNormalTask) (tasks_of i e₃)
        (put_ok_inode-IsNormal server h request i keyed e₂, tt)
    where
      tasks_of : (i : Inode) → ok (op_putok i ∷ []) ≡ ok tasks → op_putok i ∷ [] ≡ tasks
      tasks_of i q = cc
