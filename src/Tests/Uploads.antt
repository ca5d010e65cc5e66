-- ===== src/Tests/Uploads.antt =====
-- Whole uploads and syncs, to a namenode with an empty database and two datanodes, of which one is down.
use thesis_dfs.Namenode.Answers.{answered}
use thesis_dfs.Sdk.Put.Swallowed.{put_swallows}
use thesis_dfs.Sdk.Transfer.Files.{get-datanode_put}
use thesis_dfs.DataRetrive.Put.{datanode_put}
use thesis_dfs.Sdk.Calls.{Master, retry, lock_remote, check_response}
use thesis_dfs.Namenode
use thesis_dfs.StorageType
use thesis_dfs.Node.{to_string}
use thesis_dfs.Sdk.Put.{put}
use thesis_dfs.Namenode.Uploads.{opened}
use thesis_dfs.Tests.Daemon.{copy_code}
use thesis_dfs.UploadQueue.{waiting}
use thesis_dfs.Result.{ok, path_exists_exception, expected_file_exception}
use thesis_dfs.RaftNn.{failure, success}
use thesis_dfs.Sdk.Datanodes.{Disks}
use thesis_dfs.Database.Store.{list_kv}
use thesis_dfs.Tests.Transfers.{
  twice, no_disks, two_nodes, both, content, two_nodes-IsNodes, copied, content_blocks, six_rounds,
  content_encoded,
}
use thesis_dfs.StorageType.{get_block_size, get_decode_blocks, get_blocks}
use thesis_dfs.Sdk.Put.Stored.{Site}
use thesis_dfs.StorageType.Laws.{IsInRange, from_string-to_string}
use thesis_dfs.Inode.{Inode, inode_at, new_inode}
use thesis_dfs.Namenode.{PutRequest}
use thesis_dfs.Prelude.{Text, codes, false, arith, some, ◌≢◌, [], ◌≡◌, ◌∷◌, refl, map, List, ℕ}

abbrev path : Text
path = codes "/f"

abbrev request : PutRequest
request = record { path = path; storage_type = thesis_dfs.StorageType.to_string twice }

abbrev absent_file : Inode
absent_file = record (inode_at path) { valid = false }

abbrev opened_file : Inode
opened_file = opened 100 twice absent_file

in_range : IsInRange twice
in_range = (omega arith, omega arith)

abbrev new_site : Site list_kv Disks
new_site = record { handle = some []; datanodes = no_disks; status = waiting; remote_locks = [] }

some_content : content ≢ []
some_content e = cc

-- A namenode that refuses every file.
abbrev refusing : Master Disks
refusing = record {
  put = λ request w. (answered (failure path_exists_exception path), w);
  update_lock = λ paths w. (answered success, w);
  put_ok = λ request w. (answered (failure expected_file_exception path), w);
  change_status = λ status w. w;
  unlock_remote = λ path w. w;
}

abbrev opened_content : Inode
opened_content = record new_inode { fullpath = path; filesize = 4; storage_type_ptr = some twice }

abbrev written_blocks : List (ℕ × Text)
written_blocks = (1, content) ∷ []

all_placed :
    (sub : List Text) × (w' : Disks) × (datanode_put two_nodes.put_to_datanode 6 twice
        (map to_string both)
        (copied content_blocks.0)
        no_disks
      ≡ some (ok (sub, w')))
unfolding get_decode_blocks get_blocks get_block_size
all_placed =
    let (sub, w', placed, got) =
      get-datanode_put two_nodes twice both two_nodes-IsNodes copy_code 6 (omega arith)
        (omega arith) six_rounds content (copied content_blocks.0) opened_content no_disks
        (omega arith) content_encoded refl refl refl in
    (sub, w', placed)

put_swallows_example :
    put refusing two_nodes.put_to_datanode copy_code 6
      (map to_string both)
      (some content)
      (thesis_dfs.StorageType.to_string twice)
      path
      no_disks
    ≡ some (ok all_placed.1)
unfolding retry lock_remote check_response
put_swallows_example =
    put_swallows refusing two_nodes.put_to_datanode copy_code 6 (map to_string both) content
      (thesis_dfs.StorageType.to_string twice) path twice (copied content_blocks.0) all_placed.0
      no_disks no_disks all_placed.1 some_content (from_string-to_string twice in_range)
      content_encoded refl all_placed.2
