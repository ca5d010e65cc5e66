-- ===== src/Sdk/Calls.antt =====
-- The calls of the namenode in src/client/sdk.cpp, with the macro RETRY_WITH_CONDITION of include/common/utils.h
-- around them and `check_response` after them.
use thesis_dfs.UploadQueue.{UploadStatus}
use thesis_dfs.RaftNn.{Response, failure, success}
use thesis_dfs.Result.{Result, ok, err, runtime, message}
use thesis_dfs.Namenode.{PutRequest, PutOkRequest}
use thesis_dfs.Prelude.{refl, ℕ, List, suc, Text, zero, ◌≡◌, codes, ◌++◌}
use thesis_dfs.Namenode.Answers.{Reply, no_answer, answered}

-- `check_response`
unfoldable pub check_response : Reply → Result (Unit {0})
check_response (no_answer error_text) = err (runtime (codes "brpc not success: " ++ error_text))
check_response (answered success) = ok tt
check_response (answered (failure code info)) = err (message code info)

module _ {World : Type 0} where
  again : (World → Reply × World) → Reply × World → Reply × World
  again call (no_answer error_text, w) = call w
  again call (answered response, w) = (answered response, w)

  -- RETRY_WITH_CONDITION_TIMES of a call whose condition is `cntl.Failed()`, with one try and some more.
  unfoldable pub retry : ℕ → (World → Reply × World) → World → Reply × World
  unfolding again
  retry zero call w = call w
  retry (suc retries) call w = again (retry retries call) (call w)

  -- RETRY_WITH_CONDITION has three tries.
  abbrev pub three_tries : (World → Reply × World) → World → Reply × World
  three_tries = retry 2

  -- An answer at the first try, success or not, is the answer.
  pub retry-answered :
      (retries : ℕ) (call : World → Reply × World) (w w' : World) (r : Response)
      → call w ≡ (answered r, w')
      → retry retries call w ≡ (answered r, w')
  unfolding retry
  retry-answered zero call w w' r e = e
  retry-answered (suc retries) call w w' r e = rw e refl

-- The stub of the master namenode, the status of the task that is uploaded, and `remoteLocks`.
pub record Master (World : Type 0) : Type 0 where
  pub put : PutRequest → World → Reply × World
  pub update_lock : List Text → World → Reply × World
  pub put_ok : PutOkRequest → World → Reply × World
  pub change_status : UploadStatus → World → World
  pub unlock_remote : Text → World → World

module _ {World : Type 0} (m : Master World) where
  with_world : Result (Unit {0}) × World → Result World
  with_world (ok done, w) = ok w
  with_world (err e, w) = err e

  -- `_lock_remote(paths)`
  unfoldable pub lock_remote : List Text → World → Result World
  unfolding with_world
  lock_remote paths w =
      let (reply, w') = three_tries (m.update_lock paths) w in with_world (check_response reply, w')

  pub lock_remote-answered :
      (paths : List Text) (w w' : World)
      → m.update_lock paths w ≡ (answered success, w')
      → lock_remote paths w ≡ ok w'
  unfolding lock_remote check_response
  lock_remote-answered paths w w' e =
      rw (retry-answered 2 (m.update_lock paths) w w' success e) refl
