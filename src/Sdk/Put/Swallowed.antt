-- ===== src/Sdk/Put/Swallowed.antt =====
-- What `SDK::put` makes of the namenode's refusals.
use thesis_dfs.UploadQueue.{finished, data_uploading, meta_uploading}
use thesis_dfs.DataRetrive.Put.{datanode_put}
use thesis_dfs.DataRetrive.{encode_content}
use thesis_dfs.StorageType
use thesis_dfs.RaftNn.{failure, success}
use thesis_dfs.StorageType.{ErasureCode, StorageType}
use thesis_dfs.Result.{ok, Result}
use thesis_dfs.Prelude.{◌≡◌, Text, ℕ, List, refl, ◌∷◌, [], some, length, ◌≢◌}
use thesis_dfs.Namenode.Answers.{Reply, no_answer, answered}
use thesis_dfs.Sdk.Calls.{Master, check_response, lock_remote, three_tries}
use thesis_dfs.Sdk.Put.{swallow, namenode_put, namenode_putok, put, put_steps}

swallow_check :
    {World : Type 0} (reply : Reply) (w : World) → swallow (check_response reply) w ≡ ok w
unfolding swallow check_response
swallow_check (no_answer error_text) w = refl
swallow_check (answered success) w = refl
swallow_check (answered (failure code info)) w = refl

module _ {World : Type 0} (m : Master World) where
  -- The exceptions of `namenode_put` and `namenode_putok` are caught and only printed. So if the fragments
  -- can be made and put, of a file that is not empty, and the lock refreshed, `put` returns normally and the task is shown as finished,
  -- whatever the namenode answers to the requests `put` and `put_ok`, errors and failed calls included.
  pub put_swallows :
      (put_to_datanode : Text → Text → World → Result Text × World) (code : ErasureCode) (fuel : ℕ)
      (nodes : List Text) (content storage_type path : Text) (s : StorageType)
      (encoded_res : List (List Text)) (sub_res : List Text) (w w₂ w₃ : World)
      → content ≢ []
      → StorageType.from_string storage_type ≡ ok s
      → encode_content code s content ≡ ok encoded_res
      → lock_remote m
          (path ∷ [])
          (three_tries (m.put (record { path = path; storage_type = StorageType.to_string s })) w).1
        ≡ ok w₂
      → datanode_put put_to_datanode fuel s nodes encoded_res (m.change_status data_uploading w₂)
        ≡ some (ok (sub_res, w₃))
      → put m put_to_datanode code fuel nodes (some content) storage_type path w
        ≡ some (
            ok (
              m.change_status finished
                (three_tries
                  (m.put_ok (record { path = path; filesize = length content; sub = sub_res }))
                  (m.unlock_remote path (m.change_status meta_uploading w₃))).1))
  unfolding namenode_put namenode_putok
  put_swallows put_to_datanode code fuel nodes content storage_type path s encoded_res sub_res w w₂
        w₃ some_bytes st e l d =
      put_steps m put_to_datanode code fuel nodes content storage_type path s encoded_res sub_res w
        _ w₂ w₃ _ some_bytes st
        (swallow_check
          (three_tries (m.put (record { path = path; storage_type = StorageType.to_string s })) w).0
          _)
        e l d
        (swallow_check
          (three_tries (m.put_ok (record { path = path; filesize = length content; sub = sub_res }))
            (m.unlock_remote path (m.change_status meta_uploading w₃))).0
          _)
