-- ===== src/Datanode.antt =====
-- src/node/datanode.cpp: the files of a datanode. The response of a call is what it returns or throws.
use thesis_dfs.Prelude.{
  ℕ, Text, codes, text_eq, Bool, true, false, List, [], ◌++◌, Option, none, some, if◌then◌else◌,
  length,
}
use thesis_dfs.Prelude.Split.{is_empty}
use thesis_dfs.Result.{Result, runtime, throw_if}
use thesis_dfs.Stream.{Sent, new_receiver, on_received_messages, on_closed, send_file}

-- The contents of the files by their paths.
abbrev pub Disk : Type 0
Disk = Text → Option Text

unfoldable pub file_path : Text → Text → Text
file_path data_dir blkid = data_dir ++ (codes "/blk_" ++ blkid)

-- The function of the receiver in `put`; a file that does not open is only logged.
unfoldable pub write_file : Bool → Text → Text → Disk → Disk
write_file opened path content disk =
    if opened then (λ p. if text_eq p path then some content else disk p) else disk

-- `put`, up to its response; `get` accepts its stream in the same way.
unfoldable pub put : Bool → Result (Unit {0})
put accepted = throw_if (if accepted then false else true) (runtime (codes "Fail to accept stream"))

-- The receiver in `put`, from the messages that come to the end of the stream.
unfoldable pub receive_block : Text → Text → Bool → List Text → Disk → Disk
receive_block data_dir blkid opened messages disk =
    (on_closed (write_file opened (file_path data_dir blkid))
      (on_received_messages messages new_receiver) disk).1

-- The function of the sender in `get`: a file that is not there or is empty sends nothing.
unfoldable pub send_blk : (ℕ → Bool) → Option Text → Sent
send_blk outcome none = ([], false)
send_blk outcome (some file) =
    if is_empty file then ([], false) else send_file outcome (length file) 0 file

unfoldable pub get : Text → Text → (ℕ → Bool) → Disk → Sent
unfolding send_blk
get data_dir blkid outcome disk = send_blk outcome (disk (file_path data_dir blkid))
