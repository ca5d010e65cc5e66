-- ===== src/Namenode/Races.antt =====
-- Requests that the leader takes although what they ask for cannot be carried out as it expects.
use thesis_dfs.Namenode.Put.{put_inversion, read-put}
use thesis_dfs.FilePath.{simplify_path}
use thesis_dfs.Database.Writes.{Accepts, IsKeyed}
use thesis_dfs.Namenode.PutOk.{put_ok_inversion}
use thesis_dfs.Database.Parents.{get_parent_inode_missing}
use thesis_dfs.Namenode.{Server, PutOkRequest, put_ok, PutRequest, put}
use thesis_dfs.RaftNn.{
  apply_task, Task, on_apply, on_apply_aborted, op_putok, apply_one, op_put, success,
}
use thesis_dfs.Database.{internal_put_ok, root, get_inode, internal_put}
use thesis_dfs.Prelude.{List, [], some, none, ◌≡◌, ◌≢◌, ap, ◌∙◌, ◌∷◌, refl, ◌++◌, subst}
use thesis_dfs.Result.{ok, err, aborted}
use thesis_dfs.Inode.{Inode, inode_at, parent_path}
use thesis_dfs.Database.Store.{Kv, not_found, inode, written, found}

module _ (kv : Kv) where
  open kv use {Db, read, write}

  internal_put_ok-orphan :
      (db : Db) (i : Inode)
      → read db (parent_path i) ≡ not_found
      → parent_path i ≢ root
      → internal_put_ok kv (some db) i ≡ err aborted
  unfolding internal_put_ok
  internal_put_ok-orphan db i absent ne = rw (get_parent_inode_missing kv db i absent ne)

  -- If the leader accepts the end of an upload of a file whose directory is not stored, and is not
  -- the root, the task stops every node that applies it: a failed `assert` ends the process.
  -- `prepare_put` and `prepare_put_ok` look at the file only.
  pub put_ok_orphan_aborts :
      (server : Server) (db : Db) (request : PutOkRequest) (tasks : List Task) (old : Inode)
      → put_ok kv server (some db) request ≡ ok tasks
      → get_inode kv (some db) (inode_at request.path) ≡ ok old
      → read db (parent_path old) ≡ not_found
      → parent_path old ≢ root
      → on_apply kv (some db) tasks ≡ none
  unfolding apply_task parent_path
  put_ok_orphan_aborts server db request tasks old e read_old absent ne =
      ap (on_apply kv (some db)) (put_ok_inversion kv server db request tasks old read_old e)
      ∙ on_apply_aborted kv (some db) (op_putok _) [] (internal_put_ok-orphan db _ absent ne)

  internal_put-accepted :
      (db : Db) (i : Inode)
      → Accepts kv db
      → (db' : Db) × (internal_put kv (some db) i ≡ ok (some db'))
        × (write db ((i.fullpath, inode i) ∷ []) ≡ written db')
  unfolding internal_put
  internal_put-accepted db i accepts =
      let (db', w) = accepts ((i.fullpath, inode i) ∷ []) in (db', rw w refl, w)

  -- The lock is taken only when the task is applied. So if, in a database where each value stands
  -- under its own key, two requests to put one path are accepted before the first task is applied,
  -- and the store takes every batch, both are answered with success once their tasks are applied
  -- in turn, and the file that is stored then is the one of the second request, with its lock.
  pub put_race :
      (server later : Server) (db : Db) (one two : PutRequest) (first second : List Task)
      → IsKeyed kv db
      → ((db' : Db) → Accepts kv db')
      → put kv server (some db) one ≡ ok first
      → put kv later (some db) two ≡ ok second
      → two.path ≡ one.path
      → (db' : Db) × (i : Inode) × (second ≡ op_put i ∷ [])
        × (on_apply kv (some db) (first ++ second) ≡ some (some db', success ∷ success ∷ []))
        × (read db' (simplify_path one.path) ≡ found (inode i))
  unfolding on_apply apply_one apply_task inode_at
  put_race server later db one two first second keyed accepts e₁ e₂ same =
      let (i, f, p, _) = put_inversion kv server db one first keyed e₁ in
      let (j, s, q, _) = put_inversion kv later db two second keyed e₂ in
      let (db₁, a₁, w₁) = internal_put-accepted db i (accepts db) in
      let (db₂, a₂, w₂) = internal_put-accepted db₁ j (accepts db₁) in
      (
        db₂,
        j,
        s,
        rw (f, s) (rw (a₁, on_apply) (rw (a₂, on_apply) refl)),
        subst (λ k. read db₂ k ≡ found (inode j)) (q.fullpath ∙ ap simplify_path same)
            (read-put kv db₁ db₂ j w₂),
      )
