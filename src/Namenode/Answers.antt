-- ===== src/Namenode/Answers.antt =====
-- The answers that a client gets from src/node/namenode.cpp. A request that is accepted is answered when its task
-- has been applied, by `RaftCommonClosure` of include/node/namenode.h.
use thesis_dfs.Result.{Error, Result, ok, err}
use thesis_dfs.Database.{Handle}
use thesis_dfs.Database.Store.{Kv}
use thesis_dfs.RaftNn.{Response, Task, is_caught, on_apply, fail_response, success}
use thesis_dfs.Prelude.{refl, Text, List, ◌∷◌, Option, if◌then◌else◌, [], some, ◌≡◌, none}

-- What the client's stub sees of a call: it failed, with a text, or a response came.
pub data Reply : Type 0 where
  no_answer : Text → Reply
  answered : Response → Reply

-- The response of the last task stands.
last_response : Response → List Response → Response
last_response r [] = r
last_response r (q ∷ rs) = last_response q rs

module _ (kv : Kv) where
  -- If the process ends there is no answer.
  applied : Handle kv → Option (Handle kv × List Response) → Reply × Handle kv
  unfolding last_response
  applied h none = (no_answer [], h)
  applied h (some (h', [])) = (answered success, h')
  applied h (some (h', r ∷ rs)) = (answered (last_response r rs), h')

  refused : Error → Reply
  refused e = if is_caught e then answered (fail_response e) else no_answer []

  -- The answer to a request, after what was proposed is committed and applied.
  unfoldable pub answer : Handle kv → Result (List Task) → Reply × Handle kv
  unfolding applied refused
  answer h (ok tasks) = applied h (on_apply kv h tasks)
  answer h (err e) = (refused e, h)

  -- The answer of `update_lock`, whose tasks before an error stay proposed.
  unfoldable pub answer_update_lock : Handle kv → List Task × Result (Unit {0}) → Reply × Handle kv
  unfolding applied refused
  answer_update_lock h (tasks, ok done) = applied h (on_apply kv h tasks)
  answer_update_lock h (tasks, err e) = (refused e, (applied h (on_apply kv h tasks)).1)

  pub answer-success :
      (h h' : Handle kv) (tasks : List Task)
      → on_apply kv h tasks ≡ some (h', success ∷ [])
      → answer h (ok tasks) ≡ (answered success, h')
  unfolding answer
  answer-success h h' tasks e = rw e refl

  pub answer_update_lock-success :
      (h h' : Handle kv) (tasks : List Task)
      → on_apply kv h tasks ≡ some (h', success ∷ [])
      → answer_update_lock h (tasks, ok tt) ≡ (answered success, h')
  unfolding answer_update_lock
  answer_update_lock-success h h' tasks e = rw e refl
