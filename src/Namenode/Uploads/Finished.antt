-- ===== src/Namenode/Uploads/Finished.antt =====
-- The requests `put`, `update_lock` and `put_ok` of one upload, one after another, and `ls` after them.
use thesis_dfs.Namenode.Listing.{ls-found}
use thesis_dfs.Namenode.PutOk.{put_ok_finishes}
use thesis_dfs.Namenode.Answers.{
  answer, answer_update_lock, answered, answer-success, answer_update_lock-success,
}
use thesis_dfs.StorageType
use thesis_dfs.Database.Parents.{get_parent_inode_same}
use thesis_dfs.FilePath.Normal.{simplify_path_idem}
use thesis_dfs.Database.Reads.{get_inode-fullpath, get_inode-found}
use thesis_dfs.Result.{ok}
use thesis_dfs.Namenode.Uploads.{
  opened, IsWritten, op_put-IsWritten, update_lock-one, put-opened, put_ok-one,
}
use thesis_dfs.Database.{get_parent_inode, get_inode}
use thesis_dfs.FilePath.{simplify_path, get_parent_path}
use thesis_dfs.Database.Writes.{IsKeyed, Accepts}
use thesis_dfs.StorageType.{StorageType}
use thesis_dfs.Inode.{Inode, update_ddl_lock, inode_at, set_fullpath, parent_path, unlock}
use thesis_dfs.RaftNn.{Task, success, on_apply, op_put}
use thesis_dfs.Prelude.{List, some, ◌≡◌, ap, ◌∙◌, sym, subst, [], Text, ◌≢◌, ℕ, ◌∷◌, refl}
use thesis_dfs.Namenode.{
  Server, PutRequest, put, update_lock, check_leader, put_ok, handle_ls, PutOkRequest,
}
use thesis_dfs.Database.Store.{Kv, found, inode}

-- What an upload is started with: the path can be put, its parent can be read, and the three requests
-- find a leader. The file may be there before, but not as a part of an aggregate.
pub record IsStarted (kv : Kv) (putter locker finisher : Server) (db : kv.Db) (request : PutRequest)
    (tasks : List Task) (old parent : Inode) (s : StorageType) : Type 0 where
  pub keyed : IsKeyed kv db
  pub accepted : put kv putter (some db) request ≡ ok tasks
  pub storage_type : StorageType.from_string request.storage_type ≡ ok s
  pub before : get_inode kv (some db) (inode_at request.path) ≡ ok old
  pub whole : old.agg_inode_id ≡ []
  pub parent_read : get_parent_inode kv (some db) (inode_at request.path) ≡ ok parent
  pub below : parent_path (inode_at request.path) ≢ (inode_at request.path).fullpath
  pub locker_leads : check_leader locker ≡ ok tt
  pub finisher_leads : check_leader finisher ≡ ok tt

module _ (kv : Kv) (putter locker finisher : Server) (db : kv.Db) (request : PutRequest)
    (tasks : List Task) (old parent : Inode) (s : StorageType)
    (accepts : (d : kv.Db) → Accepts kv d)
    (start : IsStarted kv putter locker finisher db request tasks old parent s) where
  open kv use {Db, read}

  abbrev first : Inode
  first = opened putter.now s old

  abbrev second : Inode
  second = update_ddl_lock locker.now first

  at : old.fullpath ≡ simplify_path request.path
  unfolding inode_at set_fullpath
  at = get_inode-fullpath kv db (inode_at request.path) old start.keyed start.before

  normal : simplify_path old.fullpath ≡ old.fullpath
  normal = ap simplify_path at ∙ simplify_path_idem request.path ∙ sym at

  -- What is stored for the path is what is read for it.
  read_at :
      (d : Db) (i : Inode)
      → i.fullpath ≡ old.fullpath
      → read d i.fullpath ≡ found (inode i)
      → get_inode kv (some d) (inode_at request.path) ≡ ok i
  unfolding inode_at set_fullpath
  read_at d i same e =
      get_inode-found kv d (inode_at request.path) i
        (subst (λ k. read d k ≡ found (inode i)) (same ∙ at) e)

  -- The path is open for an upload, with its lock.
  pub locked : (d₁ : Db) × (d₂ : Db) × IsWritten kv db d₁ first × IsWritten kv d₁ d₂ second
  unfolding update_ddl_lock
  locked =
      let (d₁, p₁) = op_put-IsWritten kv db first start.keyed (accepts db) normal in
      let (d₂, p₂) = op_put-IsWritten kv d₁ second p₁.keyed (accepts d₁) normal in (d₁, d₂, p₁, p₂)

  -- The parent is read as before.
  parent_kept :
      (d₁ d₂ : Db)
      → IsWritten kv db d₁ first
      → IsWritten kv d₁ d₂ second
      → get_parent_inode kv (some d₂) second ≡ ok parent
  unfolding parent_path update_ddl_lock inode_at set_fullpath
  parent_kept d₁ d₂ p₁ p₂ =
      let key = get_parent_path (simplify_path request.path) in
      get_parent_inode_same kv db d₂ (inode_at request.path) second (ap get_parent_path at)
        (p₂.others key (λ q. start.below (q ∙ at)) ∙ p₁.others key (λ q. start.below (q ∙ at)))
      ∙ start.parent_read

  pub put-answer :
      (d₁ : Db)
      → IsWritten kv db d₁ first
      → answer kv (some db) (put kv putter (some db) request) ≡ (answered success, some d₁)
  put-answer d₁ p₁ =
      ap (answer kv (some db)) (start.accepted)
      ∙ answer-success kv (some db) (some d₁) tasks (
          ap (on_apply kv (some db))
            (put-opened kv putter db request old s tasks start.before start.storage_type
              start.accepted).0
          ∙ p₁.applied)

  pub update_lock-answer :
      (d₁ d₂ : Db)
      → IsWritten kv db d₁ first
      → IsWritten kv d₁ d₂ second
      → answer_update_lock kv (some d₁) (update_lock kv locker (some d₁) (request.path ∷ []))
        ≡ (answered success, some d₂)
  update_lock-answer d₁ d₂ p₁ p₂ =
      ap (answer_update_lock kv (some d₁)) (
        update_lock-one kv locker d₁ request.path first start.locker_leads
          (read_at d₁ first refl p₁.stored) refl)
      ∙ answer_update_lock-success kv (some d₁) (some d₂) (op_put second ∷ []) p₂.applied

  -- The finished file, as `ls` shows it.
  abbrev pub uploaded : List Text → ℕ → Inode
  uploaded sub filesize = record (unlock second) { sub = sub; filesize = filesize }

  second_below : parent_path second ≢ second.fullpath
  unfolding parent_path update_ddl_lock inode_at set_fullpath
  second_below q = start.below (ap get_parent_path (sym at) ∙ q ∙ at)

  pub put_ok-answer :
      (reader : Server) (d₁ d₂ : Db) (sub : List Text) (filesize : ℕ)
      → IsWritten kv db d₁ first
      → IsWritten kv d₁ d₂ second
      → (d₃ : Db) × (answer kv (some d₂) (
            put_ok kv finisher
              (some d₂)
              (record { path = request.path; filesize = filesize; sub = sub }))
          ≡ (answered success, some d₃))
        × (handle_ls kv reader (some d₃) request.path ≡ ok (uploaded sub filesize))
  unfolding update_ddl_lock unlock
  put_ok-answer reader d₁ d₂ sub filesize p₁ p₂ =
      let ok_request : PutOkRequest = record {
        path = request.path;
        filesize = filesize;
        sub = sub;
      } in
      let nonempty =
        (put-opened kv putter db request old s tasks start.before start.storage_type
          start.accepted).1 in
      let here = read_at d₂ second refl p₂.stored in
      let e =
        put_ok-one kv finisher d₂ ok_request second start.finisher_leads nonempty here refl refl in
      let (d₃, done, finished) =
        put_ok_finishes kv finisher d₂ ok_request _ second parent p₂.keyed (accepts d₂) e here
          (parent_kept d₁ d₂ p₁ p₂) (second_below) in
      (
        d₃,
        ap (answer kv (some d₂)) e ∙ answer-success kv (some d₂) (some d₃) _ done,
        ls-found kv reader d₃ request.path (uploaded sub filesize) nonempty
            (subst (λ k. read d₃ k ≡ found (inode (uploaded sub filesize))) at finished.stored)
            refl,
      )
