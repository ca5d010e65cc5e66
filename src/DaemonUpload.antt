-- ===== src/DaemonUpload.antt =====
-- src/client/daemon_upload.cpp: the upload daemon with its two queues. A function runs under the mutex
-- of the queue that it changes. What it has the SDK do is part of the result.
pub mod Aggregate
pub mod Rm
use thesis_dfs.Prelude.{
  ℕ, suc, ◌+◌, Text, codes, Bool, true, false, not, ◌||◌, List, [], ◌∷◌, ◌++◌, Option, none, some,
  if◌then◌else◌, leb, length,
}
use thesis_dfs.Prelude.Int.{ℤ, pos, int_to_text}
use thesis_dfs.Result.{Result, ok, err, runtime, ◌>>=◌}
use thesis_dfs.FilePath.{filename}
use thesis_dfs.Sdk.Ranges.{to_int}
use thesis_dfs.Inode.{Inode, FileInfo}
use thesis_dfs.UploadQueue.{
  Heap, UploadQueue, UploadTask, UploadStatus, waiting, data_uploading, meta_uploading, canceled,
  finished, update, push_back, exist_in_que, find_in_map, find_dir_in_map,
}
use thesis_dfs.UploadQueue

-- The heap holds the tasks of both queues; the tasks from `next_task` on are not in use.
pub record DaemonUpload : Type 0 where
  pub stopped : Bool
  pub filesize_boundary : ℕ
  pub heap : Heap
  pub next_task : ℕ
  pub small_file_que : UploadQueue
  pub big_file_que : UploadQueue

small_pushed : DaemonUpload → Heap × UploadQueue → DaemonUpload
small_pushed d (heap, que) = record d {
  heap = heap;
  next_task = suc d.next_task;
  small_file_que = que;
}

big_pushed : DaemonUpload → Heap × UploadQueue → DaemonUpload
big_pushed d (heap, que) = record d { heap = heap; next_task = suc d.next_task; big_file_que = que }

-- The constructor `UploadTask`; the status is set when the task is pushed.
new_task : Text → Text → ℕ → ℕ → UploadTask
new_task local_path remote_path size que = record {
  local_path = local_path;
  remote_path = remote_path;
  size = size;
  upload_status = waiting;
  belong_que = some que;
}

-- `upload`, with the size of the local file.
unfoldable pub upload : Text → Text → ℕ → DaemonUpload → Result DaemonUpload
unfolding new_task small_pushed big_pushed
upload local_path remote_path size d =
    if d.stopped
    then err (runtime (codes "daemon is going to quit"))
    else (let small = leb size d.filesize_boundary in
        let que = if small then d.small_file_que else d.big_file_que in
        let task = new_task local_path remote_path size que.self in
        let heap = update d.next_task task d.heap in
        if small
        then (push_back d.next_task heap d.small_file_que >>= λ r. ok (small_pushed d r))
        else (push_back d.next_task heap d.big_file_que >>= λ r. ok (big_pushed d r)))

-- A task that `fsync` took out of the small queue goes to the big one.
to_big : DaemonUpload → Option ℕ × UploadQueue → Result (Bool × DaemonUpload)
to_big d (none, que) = ok (false, d)
to_big d (some p, que) =
    let heap = update p (record (d.heap p) { belong_que = some d.big_file_que.self }) d.heap in
    push_back p heap d.big_file_que >>= λ r.
    ok (true, record d { heap = r.0; small_file_que = que; big_file_que = r.1 })

unfoldable pub fsync : Text → Text → DaemonUpload → Result (Bool × DaemonUpload)
unfolding to_big
fsync local_path remote_path d =
    to_big d (exist_in_que d.heap local_path remote_path d.small_file_que)

-- The tasks that `ls` adds to the names of the directory.
is_over : UploadStatus → Bool
is_over finished = true
is_over canceled = true
is_over waiting = false
is_over data_uploading = false
is_over meta_uploading = false

uploading : Heap → List ℕ → List Text
unfolding is_over
uploading heap [] = []
uploading heap (p ∷ ps) =
    let rest = uploading heap ps in
    if is_over (heap p).upload_status then rest else filename (heap p).remote_path ∷ rest

-- `ls`, with what the SDK answers.
unfoldable pub ls : Text → Result Inode → DaemonUpload → Result Inode
unfolding uploading
ls path answer d = do
  inode ← answer
  ok (record inode { sub = inode.sub ++ uploading d.heap (find_dir_in_map path d.small_file_que) })

-- What `rm` does: it waits while a task of the big queue is not finished; it has the SDK remove the file;
-- or it is done with the tasks as they are now.
pub data Removal : Type 0 where
  waits : Removal
  sdk_rm : Text → Removal
  done : Heap → Removal

is_finished : UploadStatus → Bool
is_finished finished = true
is_finished waiting = false
is_finished data_uploading = false
is_finished meta_uploading = false
is_finished canceled = false

rm_small : Text → DaemonUpload → Option ℕ → Removal
rm_small path d none = sdk_rm path
rm_small path d (some p) = done (UploadQueue.rm path d.heap d.small_file_que)

rm_from : Text → DaemonUpload → Option ℕ → Removal
unfolding is_finished rm_small
rm_from path d none = rm_small path d (find_in_map path d.small_file_que)
rm_from path d (some p) = if is_finished (d.heap p).upload_status then sdk_rm path else waits

unfoldable pub rm : Text → DaemonUpload → Removal
unfolding rm_from
rm path d = rm_from path d (find_in_map path d.big_file_que)

-- The loop of `small_file_aggregate_upload`, with the local files, from a position on.
unfoldable pub aggregate_from :
    (Text → Option Text) → ℕ → List UploadTask → Result (List FileInfo × Text)
aggregate_from files current_pos [] = ok ([], [])
aggregate_from files current_pos (task ∷ tasks) = elim (files task.local_path) [
  | none ↦ err (runtime (codes "Failed to open file: " ++ task.local_path))
  | some file_data ↦ (do
    (infos, agg_data) ← aggregate_from files (current_pos + length file_data) tasks
    ok (
      record {
        path = task.remote_path;
        size = task.size;
        begin = to_int current_pos;
        end = to_int (current_pos + length file_data);
      }
          ∷ infos,
      file_data ++ agg_data,
    ))
]

-- The text of a small file in `putAggFile`: the aggregate's location, and the file's place in it.
unfoldable pub agg_sub : Text → FileInfo → Text
agg_sub res file = res ++ b',' ∷ (int_to_text file.begin ++ b'|' ∷ int_to_text file.end)
