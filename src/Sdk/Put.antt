-- ===== src/Sdk/Put.antt =====
-- `SDK::put` of src/client/sdk.cpp, with the constructor, `namenode_put` and `namenode_putok` of
-- include/common/data_retrive.hpp: the upload of one file.
pub mod Stored
pub mod Swallowed
use thesis_dfs.Namenode.Answers.{answered}
use thesis_dfs.StorageType
use thesis_dfs.DataRetrive.Put.{datanode_put}
use thesis_dfs.UploadQueue.{meta_uploading, finished, data_uploading}
use thesis_dfs.DataRetrive.{encode_content}
use thesis_dfs.RaftNn.{is_caught, Response, success, failure}
use thesis_dfs.StorageType.{ErasureCode, StorageType}
use thesis_dfs.Prelude.{
  refl, Text, ℕ, if◌then◌else◌, List, Option, some, length, ◌∷◌, [], none, ◌≡◌, ◌≢◌, codes,
}
use thesis_dfs.Sdk.Calls.{Master, three_tries, check_response, lock_remote, retry-answered}
use thesis_dfs.Result.{Result, ok, err, ◌>>=◌, runtime}

-- The `catch` clauses, which print the exception, and go on.
swallow : {World : Type 0} → Result (Unit {0}) → World → Result World
swallow (ok done) w = ok w
swallow (err e) w = if is_caught e then ok w else err e

-- `open_from_file`, of a local file that may be missing. An empty one cannot be mapped to memory.
unfoldable pub open_from_file : Option Text → Result Text
open_from_file none = err (runtime (codes "open file error"))
open_from_file (some []) = err (runtime (codes "Failed to create anonymous mmap"))
open_from_file (some (c ∷ t)) = ok (c ∷ t)

-- The constructor, for a local file.
unfoldable pub data_retrive : Option Text → Text → Result (StorageType × Text)
unfolding open_from_file
data_retrive local_file storage_type = do
  s ← StorageType.from_string storage_type
  content ← open_from_file local_file
  ok (s, content)

module _ {World : Type 0} (m : Master World) where
  unfoldable pub namenode_put : Text → StorageType → World → Result World
  unfolding swallow
  namenode_put path s w =
      let (reply, w') =
        three_tries (m.put (record { path = path; storage_type = StorageType.to_string s })) w in
      swallow (check_response reply) w'

  unfoldable pub namenode_putok : Text → ℕ → List Text → World → Result World
  unfolding swallow
  namenode_putok path size sub w =
      let (reply, w') =
        three_tries (m.put_ok (record { path = path; filesize = size; sub = sub }))
          (m.unlock_remote path w) in
      swallow (check_response reply) w'

  -- The steps in front of `datanode_put`.
  begin_put :
      ErasureCode
      → Option Text
      → Text
      → Text
      → World
      → Result (StorageType × Text × List (List Text) × World)
  begin_put code local_file storage_type path w = do
    (s, content) ← data_retrive local_file storage_type
    w₁ ← namenode_put path s w
    encoded_res ← encode_content code s content
    w₂ ← lock_remote m (path ∷ []) w₁
    ok (s, content, encoded_res, m.change_status data_uploading w₂)

  -- And those behind it.
  end_put : Text → ℕ → Option (Result (List Text × World)) → Option (Result World)
  end_put path size none = none
  end_put path size (some (err e)) = some (err e)
  end_put path size (some (ok (sub_res, w))) = some (do
    w' ← namenode_putok path size sub_res (m.change_status meta_uploading w)
    ok (m.change_status finished w'))

  -- `put` of a task, with its local file, the nodes that are online and the fuel of
  -- `datanode_put`.
  unfoldable pub put :
      (Text → Text → World → Result Text × World)
      → ErasureCode
      → ℕ
      → List Text
      → Option Text
      → Text
      → Text
      → World
      → Option (Result World)
  unfolding begin_put end_put
  put put_to_datanode code fuel nodes local_file storage_type path w =
      elim (begin_put code local_file storage_type path w) [
        | err e ↦ some (err e)
        | ok (s, content, encoded_res, w') ↦
            end_put path (length content) (datanode_put put_to_datanode fuel s nodes encoded_res w')
      ]

  -- A put all of whose steps succeed.
  pub put_steps :
      (put_to_datanode : Text → Text → World → Result Text × World) (code : ErasureCode) (fuel : ℕ)
      (nodes : List Text) (content storage_type path : Text) (s : StorageType)
      (encoded_res : List (List Text)) (sub_res : List Text) (w w₁ w₂ w₃ w₄ : World)
      → content ≢ []
      → StorageType.from_string storage_type ≡ ok s
      → namenode_put path s w ≡ ok w₁
      → encode_content code s content ≡ ok encoded_res
      → lock_remote m (path ∷ []) w₁ ≡ ok w₂
      → datanode_put put_to_datanode fuel s nodes encoded_res (m.change_status data_uploading w₂)
        ≡ some (ok (sub_res, w₃))
      → namenode_putok path (length content) sub_res (m.change_status meta_uploading w₃) ≡ ok w₄
      → put put_to_datanode code fuel nodes (some content) storage_type path w
        ≡ some (ok (m.change_status finished w₄))
  unfolding put
  put_steps put_to_datanode code fuel nodes content storage_type path s encoded_res sub_res w w₁ w₂
        w₃ w₄ some_bytes st a e l d f =
      rw (begun, put, d, f) refl
    where
      mapped : (t : Text) → t ≢ [] → open_from_file (some t) ≡ ok t
      mapped [] some_bytes = absurd (some_bytes refl)
      mapped (c ∷ t) some_bytes = unfold open_from_file in refl

      begun :
          begin_put code (some content) storage_type path w
          ≡ ok (s, content, encoded_res, m.change_status data_uploading w₂)
      begun = unfold data_retrive in rw (st, ◌>>=◌, mapped content some_bytes, a, e, l) refl

  pub namenode_put-answered :
      (path : Text) (s : StorageType) (w w₁ : World)
      → m.put (record { path = path; storage_type = StorageType.to_string s }) w
        ≡ (answered success, w₁)
      → namenode_put path s w ≡ ok w₁
  unfolding namenode_put check_response
  namenode_put-answered path s w w₁ e =
      rw
        (retry-answered 2 (m.put (record { path = path; storage_type = StorageType.to_string s })) w
          w₁ success e)
        refl

  pub namenode_putok-answered :
      (path : Text) (size : ℕ) (sub : List Text) (w w₁ : World) (r : Response)
      → m.put_ok (record { path = path; filesize = size; sub = sub }) (m.unlock_remote path w)
        ≡ (answered r, w₁)
      → namenode_putok path size sub w ≡ ok w₁
  unfolding namenode_putok check_response
  namenode_putok-answered path size sub w w₁ success e =
      rw
        (retry-answered 2 (m.put_ok (record { path = path; filesize = size; sub = sub }))
          (m.unlock_remote path w) w₁ success e)
        refl
  namenode_putok-answered path size sub w w₁ (failure code info) e =
      rw
        (retry-answered 2 (m.put_ok (record { path = path; filesize = size; sub = sub }))
          (m.unlock_remote path w) w₁ (failure code info) e)
        refl
