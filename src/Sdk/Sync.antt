-- ===== src/Sdk/Sync.antt =====
-- `SDK::fsync` of src/client/sdk.cpp: the blocks that were written are put on the datanodes, and the
-- namenode gets the new locations and size.
pub mod Blocks
pub mod Sorted
pub mod Flushed
use Prim.Native.Nat.{max}
use thesis_dfs.StorageType.{get_block_size}
use thesis_dfs.Sdk.Upload.{encode_one_block}
use thesis_dfs.Inode.{Inode}
use thesis_dfs.StorageType.{ErasureCode, StorageType}
use thesis_dfs.Result.{Result, ok, err, runtime, ◌>>=◌, undefined}
use thesis_dfs.Sdk.Ranges.{to_int}
use thesis_dfs.Sdk.Calls.{Master, three_tries, check_response}
use thesis_dfs.Prelude.Int.{ℤ, pos, negsuc}
use thesis_dfs.Prelude.{
  List, ℕ, Text, ◌∷◌, ◌++◌, if◌then◌else◌, [], replicate, leb, suc, ◌^◌, Option, ◌-◌, some, length,
  codes, none, set, ◌*◌, ◌+◌, ◌%◌,
}

-- The directory of the blocks that were written, each under its index, in the order in which it is listed;
-- it may be missing, or something else.
pub data WriteDir : Type 0 where
  absent : WriteDir
  not_directory : WriteDir
  entries : List (ℕ × Text) → WriteDir

-- `sort(res)`; the names in a directory are distinct.
insert : ℕ × Text → List (ℕ × Text) → List (ℕ × Text)
insert p [] = p ∷ []
insert p (q ∷ qs) = let rest = insert p qs in if leb p.0 q.0 then p ∷ q ∷ qs else q ∷ rest

unfoldable pub sort_indexs : List (ℕ × Text) → List (ℕ × Text)
unfolding insert
sort_indexs [] = []
sort_indexs (p ∷ ps) = insert p (sort_indexs ps)

-- `res.back()`, with its block.
unfoldable pub last_of : ℕ × Text → List (ℕ × Text) → ℕ × Text
last_of p [] = p
last_of p (q ∷ qs) = last_of q qs

-- `inode.sub.resize(res.back() + 1)`, if it is shorter.
unfoldable pub resize_sub : ℕ → List Text → List Text
resize_sub last sub = sub ++ replicate (suc last - length sub) []

-- A 64-bit number that went through an `int`.
through_int : ℤ → ℕ
through_int (pos n) = n
through_int (negsuc n) = 2 ^ 64 - 1 - n

-- The size in the request: that of the inode, or where the last block that was written ends.
unfoldable pub synced_size : ℕ → ℕ → ℕ × Text → ℕ
unfolding through_int
synced_size block_size filesize (last, block) =
    through_int (to_int (max filesize ((last * block_size + length block) % 2 ^ 64)))

module _ {World : Type 0} (put_to_datanode : Text → Text → World → Result Text × World)
    (code : ErasureCode) (fuel : ℕ) (s : StorageType) (nodes : List Text) where
  -- The loop over the indices; each block's file is removed behind it.
  pub sync_blocks : List (ℕ × Text) → List Text → World → Option (Result (List Text × World))
  sync_blocks [] sub w = some (ok (sub, w))
  sync_blocks ((i, index_block) ∷ res) sub w =
      elim (encode_one_block put_to_datanode code fuel s nodes index_block w) [
        | none ↦ none
        | some r ↦ elim r [
          | err e ↦ some (err e)
          | ok (location, w') ↦ sync_blocks res (set sub i location) w'
        ]
      ]

module _ {World : Type 0} (m : Master World) where
  -- The request to the namenode. All files of the directory are gone by then.
  unfoldable pub end_sync :
      Text → ℕ → Option (Result (List Text × World)) → Option (Result (WriteDir × World))
  end_sync path size none = none
  end_sync path size (some (err e)) = some (err e)
  end_sync path size (some (ok (sub, w))) =
      let (reply, w') =
        three_tries (m.put_ok (record { path = path; filesize = size; sub = sub })) w in
      some (do done ← check_response reply; ok (entries [], w'))

module _ {World : Type 0} (m : Master World)
    (put_to_datanode : Text → Text → World → Result Text × World) (code : ErasureCode) (fuel : ℕ)
    (nodes : List Text) where
  sync_inode :
      Text → ℕ × Text → List (ℕ × Text) → Inode → World → Option (Result (WriteDir × World))
  unfolding end_sync
  sync_inode path p res i w = elim i.storage_type_ptr [
    | none ↦ some (err undefined)
    | some s ↦
        let last = last_of p res in
        end_sync m path (synced_size (get_block_size s) i.filesize last)
          (sync_blocks put_to_datanode code fuel s nodes (p ∷ res) (resize_sub last.0 i.sub) w)
  ]

  sync_entries : Text → Option Inode → List (ℕ × Text) → World → Option (Result (WriteDir × World))
  unfolding sync_inode
  sync_entries path cached [] w = some (ok (entries [], w))
  sync_entries path none (p ∷ res) w =
      some (err (runtime (codes "cannot find inode in local_inode_cache")))
  sync_entries path (some i) (p ∷ res) w = sync_inode path p res i w

  -- `fsync` of a path, with the name and the content of its directory of written blocks, and the inode in
  -- `local_inode_cache`.
  unfoldable pub fsync :
      Text → Text → WriteDir → Option Inode → World → Option (Result (WriteDir × World))
  unfolding sync_entries
  fsync path write_dst absent cached w = some (ok (absent, w))
  fsync path write_dst not_directory cached w =
      some (err (runtime (write_dst ++ codes " is not directory")))
  fsync path write_dst (entries res) cached w = sync_entries path cached (sort_indexs res) w
