-- ===== src/Namenode/Proposals/Batches.antt =====
-- What the handlers of several paths in src/node/namenode.cpp propose: tasks whose inodes have
-- normal paths.
use thesis_dfs.Namenode.Proposals.{
  moved, get_inode-IsNormal, put_inode-IsNormal, put_ok_inode-IsNormal,
}
use thesis_dfs.Prelude.Int.{ℤ, stoi}
use thesis_dfs.Prelude.{◌≡◌, Text, List, [], ◌∷◌, arith, All, subst, ℕ, ◌+◌, ◌%◌, not, ◌^◌, refl}
use thesis_dfs.Result.{
  ok, >>=-eq-ok, Result, err, ◌>>◌, throw_if, message, path_not_exists_exception,
}
use thesis_dfs.Inode.{Inode, inode_at, FileInfo, AggInode, update_ddl_lock}
use thesis_dfs.Database.Store.{Kv}
use thesis_dfs.Database.{Handle, get_inode, ls}
use thesis_dfs.Database.Writes.{IsNormal}
use thesis_dfs.Database.Keyed.{IsKeyedHandle}
use thesis_dfs.RaftNn.{Task, op_putbatch, op_put, op_putokbatch, op_putagg}
use thesis_dfs.RaftNn.Keyed.{IsNormalTask}
use thesis_dfs.Namenode.{
  Server, put_batch, PutRequest, PutOkRequest, put_inode, put_inodes, check_leader, put_ok_inode,
  small_files, put_ok_batch, refresh, refresh_all, update_lock, start_refresh, last_octet, front,
  get_last_pair, refreshed,
}

module _ (kv : Kv) where
  put_inodes-IsNormal :
      (server : Server) (h : Handle kv) (requests : List PutRequest) (is : List Inode)
      → IsKeyedHandle kv h
      → put_inodes kv server h requests ≡ ok is
      → All IsNormal is
  unfolding put_inodes
  put_inodes-IsNormal server h [] is keyed e = subst (All IsNormal) (listed e) tt
    where
      listed : ok [] ≡ ok is → [] ≡ is
      listed q = cc
  put_inodes-IsNormal server h (request ∷ requests) is keyed e =
      let (i, e₁, e₂) = >>=-eq-ok (put_inode kv server h request) _ e in
      let (rest, e₃, e₄) = >>=-eq-ok (put_inodes kv server h requests) _ e₂ in
      subst (All IsNormal) (listed i rest e₄) (
        put_inode-IsNormal kv server h request i keyed e₁,
        put_inodes-IsNormal server h requests rest keyed e₃,
      )
    where
      listed : (i : Inode) (rest : List Inode) → ok (i ∷ rest) ≡ ok is → i ∷ rest ≡ is
      listed i rest q = cc

  pub put_batch_normal :
      (server : Server) (h : Handle kv) (requests : List PutRequest) (tasks : List Task)
      → IsKeyedHandle kv h
      → put_batch kv server h requests ≡ ok tasks
      → All IsNormalTask tasks
  unfolding put_batch
  put_batch_normal server h requests tasks keyed e =
      let (_, leads, e₁) = >>=-eq-ok (check_leader server) _ e in
      let (is, e₂, e₃) = >>=-eq-ok (put_inodes kv server h requests) _ e₁ in
      subst (All IsNormalTask) (tasks_of is e₃)
        (put_inodes-IsNormal server h requests is keyed e₂, tt)
    where
      tasks_of :
          (is : List Inode) → ok (op_putbatch is ∷ []) ≡ ok tasks → op_putbatch is ∷ [] ≡ tasks
      tasks_of is q = cc

  small_files-IsNormal :
      (server : Server) (h : Handle kv) (id : Text) (requests : List PutOkRequest) (is : List Inode)
      (files : List FileInfo) (total : ℕ)
      → IsKeyedHandle kv h
      → small_files kv server h id requests ≡ ok (is, files, total)
      → All IsNormal is
  unfolding small_files
  small_files-IsNormal server h id [] is files total keyed e = subst (All IsNormal) (listed e) tt
    where
      listed :
          ◌≡◌ {A = Result (List Inode × List FileInfo × ℕ)} (ok ([], [], 0)) (ok (is, files, total))
          → [] ≡ is
      listed q = cc
  small_files-IsNormal server h id (request ∷ requests) is files total keyed e =
      let (i, e₁, e₂) = >>=-eq-ok (put_ok_inode kv server h request) _ e in
      let (_, e₃, e₄) = >>=-eq-ok (front request.sub) _ e₂ in
      let (pair, e₅, e₆) = >>=-eq-ok (get_last_pair _) _ e₄ in
      let (rest, e₇, e₈) = >>=-eq-ok (small_files kv server h id requests) _ e₆ in
      subst (All IsNormal) (listed i pair rest e₈) (
        put_ok_inode-IsNormal kv server h request i keyed e₁,
        small_files-IsNormal server h id requests rest.0 rest.1 rest.2 keyed e₇,
      )
    where
      listed :
          (i : Inode) (pair : ℤ × ℤ) (rest : List Inode × List FileInfo × ℕ)
          → ◌≡◌ {A = Result (List Inode × List FileInfo × ℕ)}
              (ok (
                record i { agg_inode_id = id } ∷ rest.0,
                record {
                  path = request.path;
                  size = request.filesize;
                  begin = pair.0;
                  end = pair.1;
                }
                    ∷ rest.1,
                (request.filesize + rest.2) % 2 ^ 64,
              ))
              (ok (is, files, total))
          → record i { agg_inode_id = id } ∷ rest.0 ≡ is
      listed i pair rest q = cc

  pub put_ok_batch_normal :
      (server : Server) (h : Handle kv) (requests : List PutOkRequest) (tasks : List Task)
      → IsKeyedHandle kv h
      → put_ok_batch kv server h requests ≡ ok tasks
      → All IsNormalTask tasks
  unfolding put_ok_batch
  put_ok_batch_normal server h requests tasks keyed e =
      let (_, leads, e₁) = >>=-eq-ok (check_leader server) _ e in
      let (machine, e₂, e₃) = >>=-eq-ok (stoi (last_octet server.my_ip)) _ e₁ in
      let (t, e₄, e₅) = >>=-eq-ok (small_files kv server h (server.new_id machine) requests) _ e₃ in
      let n = small_files-IsNormal server h (server.new_id machine) requests t.0 t.1 t.2 keyed e₄ in
      subst (All IsNormalTask) (tasks_of t.0 _ e₅) (n, (tt, tt))
    where
      tasks_of :
          (is : List Inode) (a : AggInode)
          → ok (op_putokbatch is ∷ op_putagg a ∷ []) ≡ ok tasks
          → op_putokbatch is ∷ op_putagg a ∷ [] ≡ tasks
      tasks_of is a q = cc

  refresh_normal :
      (server : Server) (h : Handle kv) (path : Text) (task : Task)
      → IsKeyedHandle kv h
      → refresh kv server h path ≡ ok task
      → IsNormalTask task
  unfolding refresh ls update_ddl_lock
  refresh_normal server h path task keyed e =
      let (i, e₁, e₂) = >>=-eq-ok (ls kv h (inode_at path)) _ e in
      let (k, g, e₃) = >>=-eq-ok (get_inode kv h (inode_at path)) _ e₁ in
      subst IsNormalTask (task_of i e₂)
        (moved k i (same k i e₃) (get_inode-IsNormal kv h path k keyed g))
    where
      task_of :
          (i : Inode)
          → ok (op_put (update_ddl_lock server.now i)) ≡ ok task
          → op_put (update_ddl_lock server.now i) ≡ task
      task_of i q = cc

      same :
          (k i : Inode)
          → (do throw_if (not k.valid) (message path_not_exists_exception k.fullpath); ok k) ≡ ok i
          → k.fullpath ≡ i.fullpath
      same k i q = ground arith

  refreshed_normal :
      (r : Result Task) (rest : List Task × Result (Unit {0}))
      → ((task : Task) → r ≡ ok task → IsNormalTask task)
      → All IsNormalTask rest.0
      → All IsNormalTask (refreshed r rest).0
  unfolding refreshed
  refreshed_normal (ok task) rest n ns = (n task refl, ns)
  refreshed_normal (err w) rest n ns = tt

  refresh_all_normal :
      (server : Server) (h : Handle kv) (paths : List Text)
      → IsKeyedHandle kv h
      → All IsNormalTask (refresh_all kv server h paths).0
  unfolding refresh_all
  refresh_all_normal server h [] keyed = tt
  refresh_all_normal server h (path ∷ paths) keyed =
      refreshed_normal (refresh kv server h path) (refresh_all kv server h paths)
        (λ task q. refresh_normal server h path task keyed q)
        (refresh_all_normal server h paths keyed)

  pub update_lock_normal :
      (server : Server) (h : Handle kv) (paths : List Text)
      → IsKeyedHandle kv h
      → All IsNormalTask (update_lock kv server h paths).0
  unfolding update_lock start_refresh
  update_lock_normal server h paths keyed = go (check_leader server) paths
    where
      go :
          (r : Result (Unit {0})) (ps : List Text)
          → All IsNormalTask (start_refresh kv server h ps r).0
      go (err w) ps = tt
      go (ok _) [] = tt
      go (ok _) (p ∷ ps) = refresh_all_normal server h (p ∷ ps) keyed
