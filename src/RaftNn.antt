-- ===== src/RaftNn.antt =====
-- src/node/raft_nn.cpp and include/node/raft_nn.h: the state machine that braft drives on every namenode, and the responses
-- of src/node/namenode.cpp. A task is its operation byte and the inode that its JSON text stands for.
pub mod Keyed
use thesis_dfs.Prelude.{ℕ, Text, codes, Bool, true, false, List, [], ◌∷◌, Option, none, some, ◌≡◌}
use thesis_dfs.Prelude.Int.{pos}
use thesis_dfs.Result.{
  ErrorCode, common_exception, Error, message, runtime, invalid_argument, out_of_range, aborted,
  undefined, Result, ok, err,
}
use thesis_dfs.Node.{Node, new_node}
use thesis_dfs.Node
use thesis_dfs.Inode.{Inode, AggInode}
use thesis_dfs.Database.Store.{Kv}
use thesis_dfs.Database.{
  Handle, internal_mkdir, internal_put, internal_put_ok, internal_put_agg, internal_rm,
}
use thesis_dfs.Database.PutBatch.{internal_put_batch, internal_put_ok_batch}

-- `enum OpType`, with the payload of each.
pub data Task : Type 0 where
  op_mkdir : Inode → Task
  op_put : Inode → Task
  op_putok : Inode → Task
  op_putbatch : List Inode → Task
  op_putokbatch : List Inode → Task
  op_putagg : AggInode → Task
  op_rm : Inode → Task
  op_unknown : Inode → Task

-- The message `Response`.
pub data Response : Type 0 where
  success : Response
  failure : ErrorCode → Text → Response

-- The overloads of `fail_response`; a `MessageException` carries its own code.
unfoldable pub fail_response : Error → Response
fail_response (message code info) = failure code info
fail_response (runtime what) = failure common_exception what
fail_response invalid_argument = failure common_exception (codes "stoi")
fail_response out_of_range = failure common_exception (codes "stoi")
fail_response aborted = failure common_exception []
fail_response undefined = failure common_exception []

-- Whether an error is an exception that a handler catches. A failed `assert` ends the process, and
-- after undefined behaviour nothing is known.
abbrev pub is_caught : Error → Bool
is_caught (message code info) = true
is_caught (runtime what) = true
is_caught invalid_argument = true
is_caught out_of_range = true
is_caught aborted = false
is_caught undefined = false

-- `RaftNN::leader`: with no leader known the node names itself.
unfoldable pub leader : Text → ℕ → Option Node → Result Node
leader my_ip nn_port none =
    ok (record { ip = my_ip; port = pos nn_port; node_status = Node.unknown })
leader my_ip nn_port (some peer) = ok peer

module _ (kv : Kv) where
  -- The `switch` of `on_apply`; an unknown operation is logged only.
  unfoldable pub apply_task : Handle kv → Task → Result (Handle kv)
  apply_task h (op_mkdir i) = internal_mkdir kv h i
  apply_task h (op_put i) = internal_put kv h i
  apply_task h (op_putok i) = internal_put_ok kv h i
  apply_task h (op_putbatch inodes) = internal_put_batch kv h inodes
  apply_task h (op_putokbatch inodes) = internal_put_ok_batch kv h inodes
  apply_task h (op_putagg a) = internal_put_agg kv h a
  apply_task h (op_rm i) = internal_rm kv h i
  apply_task h (op_unknown i) = ok h

  -- One round of `on_apply`: the handle and the response after it; `none` if the process ends.
  respond : Handle kv → Result (Handle kv) → Option (Handle kv × Response)
  respond h (ok h') = some (h', success)
  respond h (err e) = elim (is_caught e) [ true ↦ some (h, fail_response e) | false ↦ none ]

  unfoldable pub apply_one : Handle kv → Task → Option (Handle kv × Response)
  unfolding respond
  apply_one h task = respond h (apply_task h task)

  and_then : Response → Option (Handle kv × List Response) → Option (Handle kv × List Response)
  and_then r none = none
  and_then r (some (h, rs)) = some (h, r ∷ rs)

  -- `for (; iter.valid(); iter.next())`
  unfoldable pub on_apply : Handle kv → List Task → Option (Handle kv × List Response)
  unfolding and_then
  on_apply h [] = some (h, [])
  on_apply h (task ∷ tasks) = elim (apply_one h task) [
    | none ↦ none
    | some (h', r) ↦ and_then r (on_apply h' tasks)
  ]

  -- One task that is carried out.
  pub on_apply_one :
      (h h' : Handle kv) (task : Task)
      → apply_task h task ≡ ok h'
      → on_apply h (task ∷ []) ≡ some (h', success ∷ [])
  unfolding on_apply apply_one
  on_apply_one h h' task e = rw (e, on_apply)

  -- One task at which the process ends.
  pub on_apply_aborted :
      (h : Handle kv) (task : Task) (tasks : List Task)
      → apply_task h task ≡ err aborted
      → on_apply h (task ∷ tasks) ≡ none
  unfolding on_apply apply_one
  on_apply_aborted h task tasks e = rw (e, on_apply)
