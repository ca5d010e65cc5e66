-- ===== src/DaemonUpload/Rm.antt =====
-- Removing a small file that the daemon has taken for an aggregate.
use thesis_dfs.Prelude.{ℕ, ◌≡◌, ap, ◌∙◌, none, ◌<◌, length}
use thesis_dfs.Result.{ok}
use thesis_dfs.UploadQueue.{Heap, UploadQueue, find_in_map, canceled, get_until_size, push_back}
use thesis_dfs.UploadQueue.Cancel.{rm-waiting_task, find_in_map-get_until_size}
use thesis_dfs.UploadQueue.Push.{push_back-find_in_map}
use thesis_dfs.UploadQueue
use thesis_dfs.DaemonUpload.{DaemonUpload, done, rm, rm_from, rm_small}

-- A small file that was queued while there was room, and whose path the big queue does not know, cannot be
-- removed once a batch was taken from the queue for an aggregate, its task in it or not: rm finds the
-- task in the map, from which no batch takes it, and cancels it, but does not have the SDK remove the
-- file.
pub rm-get_until_size :
    (p size : ℕ) (d : DaemonUpload)
    → length d.small_file_que.que < d.small_file_que.capacity
    → find_in_map (d.heap p).remote_path d.big_file_que ≡ none
    → (heap' : Heap) × (q' : UploadQueue) × (push_back p d.heap d.small_file_que ≡ ok (heap', q'))
      × (heap'' : Heap) × (rm
            (d.heap p).remote_path
            (record d { heap = heap'; small_file_que = (get_until_size heap' q' size).1 })
          ≡ done heap'')
      × ((heap'' p).upload_status ≡ canceled)
unfolding rm rm_from rm_small
rm-get_until_size p size d room big =
    let (heap', q', pushed, is) = push_back-find_in_map p d.heap d.small_file_que room in
    let path = (d.heap p).remote_path in
    let after = (get_until_size heap' q' size).1 in
    let found = find_in_map-get_until_size path heap' q' size ∙ is.mapped in
    (
      heap',
      q',
      pushed,
      UploadQueue.rm path heap' after,
      ap (rm_from path (record d { heap = heap'; small_file_que = after })) big
          ∙ ap (rm_small path (record d { heap = heap'; small_file_que = after })) found,
      rm-waiting_task path p heap' after found is.status,
    )
