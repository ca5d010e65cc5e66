-- ===== src/Namenode/System.antt =====
-- The namenode over time: requests that the leader's handlers answer, the tasks that wait in the
-- raft log, and `on_apply`, which takes them one by one. Requests may come while tasks wait.
use thesis_dfs.Namenode.Proposals.Batches.{
  put_batch_normal, put_ok_batch_normal, update_lock_normal,
}
use thesis_dfs.Database.Writes.{Fits}
use thesis_dfs.Database.Reads.{get_inode-fullpath}
use thesis_dfs.FilePath.{simplify_path}
use thesis_dfs.RaftNn.Keyed.{IsNormalTask, apply_one-IsKeyed}
use thesis_dfs.Database.Keyed.{IsKeyedHandle}
use thesis_dfs.RaftNn.{Task, Response, apply_one}
use thesis_dfs.Namenode.{
  PutRequest, Server, PutOkRequest, mkdir, rm, put, put_batch, put_ok, put_ok_batch, update_lock,
}
use thesis_dfs.Namenode.Proposals.{mkdir_normal, rm_normal, put_normal, put_ok_normal}
use thesis_dfs.Prelude.{Text, List, [], ◌∷◌, ◌++◌, All, some, ◌≡◌, refl, subst, sym}
use thesis_dfs.Result.{Result, ok, err}
use thesis_dfs.Inode.{Inode, inode_at, set_fullpath}
use thesis_dfs.Database.Store.{Kv, not_found}
use thesis_dfs.Database.{Handle, get_inode}

-- The requests that lead to tasks.
pub data Request : Type 0 where
  for_mkdir : Text → Request
  for_rm : Text → Request
  for_put : PutRequest → Request
  for_put_batch : List PutRequest → Request
  for_put_ok : PutOkRequest → Request
  for_put_ok_batch : List PutOkRequest → Request
  for_update_lock : List Text → Request

-- An error proposes nothing.
accepted : Result (List Task) → List Task
accepted (ok tasks) = tasks
accepted (err e) = []

append-All :
    (xs ys : List Task) → All IsNormalTask xs → All IsNormalTask ys → All IsNormalTask (xs ++ ys)
append-All [] ys px py = py
append-All (x ∷ xs) ys px py = (px.0, append-All xs ys px.1 py)

kept-All : (xs ys : List Task) → All IsNormalTask (xs ++ ys) → All IsNormalTask xs
kept-All [] ys p = tt
kept-All (x ∷ xs) ys p = (p.0, kept-All xs ys p.1)

module _ (kv : Kv) where
  open kv use {Db, read}

  -- What a handler hands to the raft node.
  unfoldable pub proposed : Server → Handle kv → Request → List Task
  unfolding accepted
  proposed server h (for_mkdir path) = accepted (mkdir kv server h path)
  proposed server h (for_rm path) = accepted (rm kv server h path)
  proposed server h (for_put request) = accepted (put kv server h request)
  proposed server h (for_put_batch requests) = accepted (put_batch kv server h requests)
  proposed server h (for_put_ok request) = accepted (put_ok kv server h request)
  proposed server h (for_put_ok_batch requests) = accepted (put_ok_batch kv server h requests)
  proposed server h (for_update_lock paths) = (update_lock kv server h paths).0

  -- The database, and the tasks that are proposed and not yet applied.
  pub record System : Type 0 where
    pub handle : Handle kv
    pub log : List Task

  -- A request is handled; the first task is applied; tasks that were never committed are lost with
  -- their leader.
  pub data Step : System → System → Type 0 where
    request :
        (s : System) (server : Server) (req : Request)
        → Step s (record { handle = s.handle; log = s.log ++ proposed server s.handle req })
    apply :
        (h h' : Handle kv) (task : Task) (rest : List Task) (r : Response)
        → apply_one kv h task ≡ some (h', r)
        → Step (record { handle = h; log = task ∷ rest }) (record { handle = h'; log = rest })
    lose :
        (h : Handle kv) (kept lost : List Task)
        → Step (record { handle = h; log = kept ++ lost }) (record { handle = h; log = kept })

  pub data Reach : System → System → Type 0 where
    start : (s : System) → Reach s s
    next : (s t u : System) → Reach s t → Step t u → Reach s u

  -- The database is keyed, and every waiting task has normal paths.
  pub record IsConsistent (s : System) : Type 0 where
    pub keyed : IsKeyedHandle kv s.handle
    pub normal : All IsNormalTask s.log

  accepted-All :
      (r : Result (List Task))
      → ((tasks : List Task) → r ≡ ok tasks → All IsNormalTask tasks)
      → All IsNormalTask (accepted r)
  unfolding accepted
  accepted-All (ok tasks) n = n tasks refl
  accepted-All (err e) n = tt

  proposed-All :
      (server : Server) (h : Handle kv) (req : Request)
      → IsKeyedHandle kv h
      → All IsNormalTask (proposed server h req)
  unfolding proposed
  proposed-All server h (for_mkdir path) k = accepted-All _ (mkdir_normal kv server h path)
  proposed-All server h (for_rm path) k = accepted-All _ (rm_normal kv server h path)
  proposed-All server h (for_put q) k = accepted-All _ (λ ts. put_normal kv server h q ts k)
  proposed-All server h (for_put_batch qs) k =
      accepted-All _ (λ ts. put_batch_normal kv server h qs ts k)
  proposed-All server h (for_put_ok q) k = accepted-All _ (λ ts. put_ok_normal kv server h q ts k)
  proposed-All server h (for_put_ok_batch qs) k =
      accepted-All _ (λ ts. put_ok_batch_normal kv server h qs ts k)
  proposed-All server h (for_update_lock ps) k = update_lock_normal kv server h ps k

  Step-IsConsistent : (s t : System) → Step s t → IsConsistent s → IsConsistent t
  Step-IsConsistent _ _ (request s server req) c = record {
    keyed = c.keyed;
    normal = append-All s.log _ c.normal (proposed-All server s.handle req c.keyed);
  }
  Step-IsConsistent _ _ (apply h h' task rest r e) c = record {
    keyed = apply_one-IsKeyed kv h h' task r c.keyed c.normal.0 e;
    normal = c.normal.1;
  }
  Step-IsConsistent _ _ (lose h kept lost) c = record {
    keyed = c.keyed;
    normal = kept-All kept lost c.normal;
  }

  -- Whatever the requests, the order in which tasks are applied between them and the tasks that a
  -- change of the leader loses: from a consistent state the namenode stays in consistent states,
  -- where each inode is stored under its own simplified path, and so are all the tasks that wait.
  pub Reach-IsConsistent : (s t : System) → Reach s t → IsConsistent s → IsConsistent t
  Reach-IsConsistent _ _ (start s) c = c
  Reach-IsConsistent _ _ (next s u t before step) c =
      Step-IsConsistent u t step (Reach-IsConsistent s u before c)

  -- A namenode that starts with an empty database answers a look-up of a path, at any later time,
  -- with an inode of that path in its simplified form.
  pub Reach-get_inode :
      (db₀ db : Db) (log : List Task) (path : Text) (i : Inode)
      → ((key : Text) → read db₀ key ≡ not_found)
      → Reach (record { handle = some db₀; log = [] }) (record { handle = some db; log = log })
      → get_inode kv (some db) (inode_at path) ≡ ok i
      → i.fullpath ≡ simplify_path path
  unfolding inode_at set_fullpath
  Reach-get_inode db₀ db log path i empty reached e =
      get_inode-fullpath kv db (inode_at path) i
        (Reach-IsConsistent _ _ reached
          (record { keyed = λ key. subst (Fits key) (sym (empty key)) tt; normal = tt })).keyed
        e
