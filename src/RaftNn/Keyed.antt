-- ===== src/RaftNn/Keyed.antt =====
-- Carrying out tasks keeps the database keyed.
use thesis_dfs.Database.PutBatch.{internal_put_batch, internal_put_ok_batch}
use thesis_dfs.Database.PutBatch.Keyed.{internal_put_batch-IsKeyed, internal_put_ok_batch-IsKeyed}
use thesis_dfs.Database.Keyed.{
  IsKeyedHandle, internal_mkdir-IsKeyed, internal_put-IsKeyed, internal_put_ok-IsKeyed,
  internal_put_agg-IsKeyed, internal_rm-IsKeyed,
}
use thesis_dfs.Result.{Result, ok, err}
use thesis_dfs.Database.{
  Handle, internal_mkdir, internal_put, internal_put_ok, internal_put_agg, internal_rm,
}
use thesis_dfs.Prelude.{All, some, ◌≡◌, none, arith, subst, Bool-cases, inl, inr, Option, refl, sym}
use thesis_dfs.Database.Store.{Kv}
use thesis_dfs.Database.Writes.{IsNormal, IsKeyed}
use thesis_dfs.RaftNn.{
  Task, op_mkdir, op_put, op_putok, op_putbatch, op_putokbatch, op_putagg, op_rm, op_unknown,
  apply_task, apply_one, respond, Response, success, fail_response, is_caught,
}

-- The inodes of a task have normal paths.
abbrev pub IsNormalTask : Task → Type 0
IsNormalTask (op_mkdir i) = IsNormal i
IsNormalTask (op_put i) = IsNormal i
IsNormalTask (op_putok i) = IsNormal i
IsNormalTask (op_putbatch is) = All IsNormal is
IsNormalTask (op_putokbatch is) = All IsNormal is
IsNormalTask (op_putagg a) = Unit {0}
IsNormalTask (op_rm i) = IsNormal i
IsNormalTask (op_unknown i) = Unit {0}

module _ (kv : Kv) where
  open kv use {Db}

  apply_task-IsKeyed :
      (db : Db) (h' : Handle kv) (task : Task)
      → IsKeyed kv db
      → IsNormalTask task
      → apply_task kv (some db) task ≡ ok h'
      → IsKeyedHandle kv h'
  unfolding apply_task
  apply_task-IsKeyed db h' (op_mkdir i) keyed n e = internal_mkdir-IsKeyed kv db h' keyed i n e
  apply_task-IsKeyed db h' (op_put i) keyed n e = internal_put-IsKeyed kv db h' keyed i n e
  apply_task-IsKeyed db h' (op_putok i) keyed n e = internal_put_ok-IsKeyed kv db h' keyed i e
  apply_task-IsKeyed db h' (op_putbatch is) keyed n e =
      internal_put_batch-IsKeyed kv db h' keyed is n e
  apply_task-IsKeyed db h' (op_putokbatch is) keyed n e =
      internal_put_ok_batch-IsKeyed kv db h' keyed is e
  apply_task-IsKeyed db h' (op_putagg a) keyed n e = internal_put_agg-IsKeyed kv db h' keyed a e
  apply_task-IsKeyed db h' (op_rm i) keyed n e = internal_rm-IsKeyed kv db h' keyed i n e
  apply_task-IsKeyed db h' (op_unknown i) keyed n e = subst (IsKeyedHandle kv) (ok_inj e) keyed
    where
      ok_inj : ok (some db) ≡ ok h' → some db ≡ h'
      ok_inj q = cc

  respond-IsKeyed :
      (h h' : Handle kv) (res : Result (Handle kv)) (r : Response)
      → IsKeyedHandle kv h
      → ((k : Handle kv) → res ≡ ok k → IsKeyedHandle kv k)
      → respond kv h res ≡ some (h', r)
      → IsKeyedHandle kv h'
  unfolding respond
  respond-IsKeyed h h' (ok k) r keyed step e = subst (IsKeyedHandle kv) (same e) (step k refl)
    where
      same : ◌≡◌ {A = Option (Handle kv × Response)} (some (k, success)) (some (h', r)) → k ≡ h'
      same q = ground arith
  respond-IsKeyed h h' (err w) r keyed step e = elim (Bool-cases (is_caught w)) [
    | inl caught ↦ subst (IsKeyedHandle kv) (same (rw (caught, respond) at e)) keyed
    | inr fatal ↦ absurd (none_some (rw (fatal, respond) at e))
  ]
    where
      same :
          ◌≡◌ {A = Option (Handle kv × Response)} (some (h, fail_response w)) (some (h', r))
          → h ≡ h'
      same q = ground arith

      none_some : ◌≡◌ {A = Option (Handle kv × Response)} none (some (h', r)) → ⊥
      none_some q = cc

  -- A closed database takes no task.
  apply_task-closed : (k : Handle kv) (task : Task) → apply_task kv none task ≡ ok k → k ≡ none
  unfolding apply_task internal_mkdir internal_put internal_put_ok internal_put_batch
      internal_put_ok_batch internal_put_agg internal_rm
  apply_task-closed k (op_mkdir i) e = cc
  apply_task-closed k (op_put i) e = cc
  apply_task-closed k (op_putok i) e = cc
  apply_task-closed k (op_putbatch is) e = cc
  apply_task-closed k (op_putokbatch is) e = cc
  apply_task-closed k (op_putagg a) e = cc
  apply_task-closed k (op_rm i) e = cc
  apply_task-closed k (op_unknown i) e = cc

  -- One round of `on_apply`, whatever it answers.
  pub apply_one-IsKeyed :
      (h h' : Handle kv) (task : Task) (r : Response)
      → IsKeyedHandle kv h
      → IsNormalTask task
      → apply_one kv h task ≡ some (h', r)
      → IsKeyedHandle kv h'
  unfolding apply_one
  apply_one-IsKeyed none h' task r keyed n e =
      respond-IsKeyed none h' (apply_task kv none task) r keyed
        (λ k q. subst (IsKeyedHandle kv) (sym (apply_task-closed k task q)) tt) e
  apply_one-IsKeyed (some db) h' task r keyed n e =
      respond-IsKeyed (some db) h' (apply_task kv (some db) task) r keyed
        (λ k q. apply_task-IsKeyed db k task keyed n q) e
