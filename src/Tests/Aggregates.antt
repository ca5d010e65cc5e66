-- ===== src/Tests/Aggregates.antt =====
-- Two small files in one aggregate, and a small file that is removed after its batch was taken.
use thesis_dfs.Prelude.{
  ℕ, Text, codes, text_eq, false, ◌≡◌, refl, List, [], ◌∷◌, Option, none, some, if◌then◌else◌,
  arith, inl, All,
}
use thesis_dfs.Prelude.Int.{pos}
use thesis_dfs.Prelude.Split.{lines, before, after}
use thesis_dfs.Result.{Result, ok}
use thesis_dfs.StorageType.{re, encode, get_decode_blocks}
use thesis_dfs.Inode.{Inode, FileInfo, new_inode, decode_one_sub}
use thesis_dfs.UploadQueue.{
  UploadTask, UploadQueue, Heap, waiting, find_in_map, push_back, get_until_size, canceled,
}
use thesis_dfs.Sdk.Ranges.{to_int}
use thesis_dfs.Sdk.Download.{decode_one_block}
use thesis_dfs.Sdk.Download.Fragments.{IsServed, answers, decode_one_block-IsServed}
use thesis_dfs.DaemonUpload.{DaemonUpload, aggregate_from, rm, done}
use thesis_dfs.DaemonUpload.Aggregate.{HasFile, AreGot, get-aggregate}
use thesis_dfs.DaemonUpload.Rm.{rm-get_until_size}
use thesis_dfs.Tests.Daemon.{copy_code}

abbrev small_task : Text → ℕ → UploadTask
small_task path size = record {
  local_path = path;
  remote_path = path;
  size = size;
  upload_status = waiting;
  belong_que = some 0;
}

abbrev small_tasks : List UploadTask
small_tasks = small_task (codes "/a") 2 ∷ small_task (codes "/b") 3 ∷ []

abbrev small_files : Text → Option Text
small_files path = if text_eq path (codes "/a") then some (codes "ab") else some (codes "cde")

abbrev places : List FileInfo
places =
    record { path = codes "/a"; size = 2; begin = pos 0; end = pos 2 }
    ∷ record { path = codes "/b"; size = 3; begin = pos 2; end = pos 5 }
    ∷ []

abbrev together : Text
together = codes "abcde"

aggregated : aggregate_from small_files 0 small_tasks ≡ ok (places, together)
unfolding aggregate_from to_int text_eq
aggregated = refl

have_files : All (HasFile small_files) small_tasks
unfolding text_eq
have_files = (
  record { content = codes "ab"; opens = refl; sized = refl; some_bytes = omega arith },
  (record { content = codes "cde"; opens = refl; sized = refl; some_bytes = omega arith }, tt),
)

abbrev send_together : Text → Text → Result Text
send_together node blkid = ok together

abbrev agg_place : Text
agg_place = codes "a:1|h"

agg_copy : encode copy_code (re 1 64) together ≡ ok (together ∷ [])
unfolding encode
agg_copy = refl

agg_place-IsServed : IsServed send_together (together ∷ []) (decode_one_sub agg_place)
unfolding decode_one_sub lines before after
agg_place-IsServed = (inl refl, tt)

agg_decoded : decode_one_block copy_code send_together (re 1 64) agg_place ≡ ok together
unfolding get_decode_blocks answers decode_one_sub lines before after
agg_decoded =
    decode_one_block-IsServed copy_code send_together (re 1 64) together (together ∷ []) agg_copy
      agg_place (omega arith) agg_place-IsServed

abbrev agg_inode : Inode
agg_inode = record new_inode { storage_type_ptr = some (re 1 64); agg_inode_id = codes "id" }

get-aggregate_example :
    AreGot copy_code send_together
      (re 1 64)
      small_files
      agg_place
      agg_inode
      refl
      refl
      small_tasks
      places
get-aggregate_example =
    get-aggregate copy_code send_together (re 1 64) small_files agg_place agg_inode refl refl
      small_tasks places together have_files aggregated agg_decoded (omega arith)

abbrev no_big : UploadQueue
no_big = record { self = 1; capacity = 8; que = []; map = [] }

abbrev before_upload : DaemonUpload
before_upload = record {
  stopped = false;
  filesize_boundary = 100;
  heap = λ p. small_task (codes "/d/a") 2;
  next_task = 1;
  small_file_que = record { self = 0; capacity = 8; que = []; map = [] };
  big_file_que = no_big;
}

not_in_big : find_in_map (codes "/d/a") no_big ≡ none
unfolding find_in_map
not_in_big = refl

rm-get_until_size_example :
    (heap' : Heap) × (q' : UploadQueue) × (push_back 0 before_upload.heap
        before_upload.small_file_que
      ≡ ok (heap', q'))
    × (heap'' : Heap) × (rm
          (codes "/d/a")
          (record before_upload { heap = heap'; small_file_que = (get_until_size heap' q' 64).1 })
        ≡ done heap'')
    × ((heap'' 0).upload_status ≡ canceled)
rm-get_until_size_example = rm-get_until_size 0 64 before_upload (omega arith) not_in_big
