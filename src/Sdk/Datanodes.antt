-- ===== src/Sdk/Datanodes.antt =====
-- `put_to_datanode` and `get_from_datanode` of src/client/sdk.cpp, with the datanode at the other end.
pub mod Kept
pub mod Reliable
use thesis_dfs.Prelude.{
  ℕ, Text, codes, text_eq, Bool, true, false, ◌++◌, if◌then◌else◌, length, Option,
}
use thesis_dfs.Result.{Result, ok, err, runtime, ◌>>=◌, ◌>>◌, throw_if}
use thesis_dfs.Stream.{
  Sent, StreamReceiver, new_receiver, on_received_messages, on_closed, send_block,
}
use thesis_dfs.Datanode
use thesis_dfs.Datanode.{Disk, receive_block}
use thesis_dfs.Sdk.Download.{checked}

-- How one call goes: whether the stream is created, the call is answered and the datanode accepts the
-- stream, which messages are written, whether the stream is closed, and whether the file opens.
pub record Link : Type 0 where
  pub created : Bool
  pub answered : Bool
  pub accepted : Bool
  pub outcome : ℕ → Bool
  pub closed : Bool
  pub opened : Bool

-- The disks by the datanodes' texts.
abbrev pub Disks : Type 0
Disks = Text → Disk

-- The disk of one datanode is another.
unfoldable pub set_disk : Text → (Disk → Disk) → Disks → Disks
set_disk datanode change disks node =
    if text_eq node datanode then change (disks node) else disks node

failed : Bool → Bool
failed succeeded = if succeeded then false else true

-- `SetFailed` at the datanode.
call_failed : Result (Unit {0}) → Result (Unit {0})
call_failed (ok u) = ok u
call_failed (err e) = err (runtime (codes "brpc not success: Fail to accept stream"))

-- The call, and `check_response` after it; the error texts of brpc are left out.
check_link : Link → Result (Unit {0})
unfolding failed call_failed
check_link link = do
  throw_if (failed link.created) (runtime (codes "Fail to create stream"))
  throw_if (failed link.answered) (runtime (codes "brpc not success: "))
  call_failed (Datanode.put link.accepted)

module _ (cal_sha256sum : Text → Text) (data_dir : Text) where
  -- After the call: the chunks, the end of the stream at the datanode, and the hash. The flag of the
  -- loop is not looked at.
  send : Link → Text → Text → Disks → Result (Unit {0}) → Result Text × Disks
  unfolding failed
  send link datanode block disks (err e) = (err e, disks)
  send link datanode block disks (ok u) =
      let (messages, error_flag) = send_block link.outcome (length block) 0 block 0 in
      if link.closed
      then (
        ok (cal_sha256sum block),
        set_disk datanode (receive_block data_dir (cal_sha256sum block) link.opened messages) disks,
      )
      else (err (runtime (codes "stream close fail")), disks)

  unfoldable pub put_to_datanode : Link → Text → Text → Disks → Result Text × Disks
  unfolding send check_link
  put_to_datanode link datanode block disks = send link datanode block disks (check_link link)

  -- The receiver is given what the datanode sends; the `start` message has to be written, too.
  unfoldable pub get_from_datanode : Link → Bool → Disks → Text → Text → Result Text
  unfolding failed check_link
  get_from_datanode link started disks datanode blkid = do
    check_link link
    throw_if (failed started) (runtime (codes "stream start write failed"))
    let (messages, error_flag) = Datanode.get data_dir blkid link.outcome (disks datanode) in
        let receiver = on_received_messages messages new_receiver in
        checked cal_sha256sum blkid receiver.ss
