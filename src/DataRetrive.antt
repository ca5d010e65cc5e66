-- ===== src/DataRetrive.antt =====
-- include/common/data_retrive.hpp: the splitting of a file into blocks, and their encoding.
pub mod Blocks
pub mod Put
use thesis_dfs.Prelude.{
  ℕ, zero, suc, ◌*◌, ◌/◌, ◌%◌, Text, List, [], ◌∷◌, ◌++◌, length, take, drop, replicate,
  if◌then◌else◌, ltb, ◌==◌,
}
use thesis_dfs.Result.{Result, ok, err, undefined, ◌>>=◌}
use thesis_dfs.StorageType
use thesis_dfs.StorageType.{StorageType, ErasureCode}

-- `memcpy(tmp, source, n)`
memcpy : Text → Text → ℕ → Text
memcpy tmp source n = take n source ++ drop n tmp

-- The loop over the whole blocks from the i-th, with the rounds left. All rounds use one buffer.
copy_blocks : ℕ → Text → ℕ → ℕ → Text → Text × List Text
unfolding memcpy
copy_blocks block_size raw_data zero i tmp = (tmp, [])
copy_blocks block_size raw_data (suc rounds) i tmp =
    let tmp' = memcpy tmp (drop (i * block_size) raw_data) block_size in
    let (last, vec) = copy_blocks block_size raw_data rounds (suc i) tmp' in (last, tmp' ∷ vec)

-- The last block is what is left of the file, on top of what the buffer still holds.
last_block : ℕ → Text → Text × List Text → List Text
unfolding memcpy
last_block block_size raw_data (tmp, vec) =
    let block_nums = length raw_data / block_size in
    let bytes_remained = length raw_data % block_size in
    if ltb 0 bytes_remained
    then vec ++ memcpy tmp (drop (block_nums * block_size) raw_data) bytes_remained ∷ []
    else vec

-- A block size of 0 divides by zero.
pub split_all_block : ℕ → Text → Result (List Text)
unfolding copy_blocks last_block
split_all_block zero raw_data = err undefined
split_all_block (suc b) raw_data = ok (
    last_block (suc b) raw_data
      (copy_blocks (suc b) raw_data (length raw_data / suc b) 0 (replicate (suc b) 0)))

unfoldable pub encode_all : ErasureCode → StorageType → List Text → Result (List (List Text))
encode_all code s [] = ok []
encode_all code s (block ∷ blocks) = do
  vec ← StorageType.encode code s block
  rest ← encode_all code s blocks
  ok (vec ∷ rest)

-- `encode_content`, of the file that the constructor has read.
unfoldable pub encode_content : ErasureCode → StorageType → Text → Result (List (List Text))
unfolding encode_all
encode_content code s content = do
  blocks ← split_all_block (StorageType.get_block_size s) content
  encode_all code s blocks
