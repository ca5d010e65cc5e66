-- ===== src/Sdk/Ranges.antt =====
-- `read_data` of src/client/sdk.cpp, with the index functions of include/common/utils.h.
pub mod Window
pub mod Amount
pub mod Read
use thesis_dfs.Prelude.{
  ℕ, zero, suc, ◌+◌, ◌-◌, ◌*◌, ◌/◌, ◌%◌, ◌^◌, Text, Bool, true, false, List, [], ◌∷◌, ◌++◌,
  if◌then◌else◌, ltb, leb, ◌==◌, take, drop, length, replicate, Option, some, none, get_elem?,
}
use thesis_dfs.Prelude.Int.{ℤ, pos, negsuc}
use thesis_dfs.Prelude.Split.{is_empty}
use thesis_dfs.Result.{Error, Result, ok, err, undefined, ◌>>=◌}

-- A 64-bit number as the argument of an `int` parameter.
unfoldable pub to_int : ℕ → ℤ
to_int n = let low = n % 2 ^ 32 in if ltb low (2 ^ 31) then pos low else negsuc (2 ^ 32 - 1 - low)

minus_int : ℕ → ℤ
minus_int zero = pos 0
minus_int (suc n) = negsuc n

-- `n / alignment`, which is cut off towards zero.
unfoldable pub align_index_down : ℤ → ℕ → ℤ
unfolding minus_int
align_index_down (pos n) alignment = pos (n / alignment)
align_index_down (negsuc n) alignment = minus_int (suc n / alignment)

-- `n / alignment + 1`
unfoldable pub align_index_up : ℤ → ℕ → ℤ
unfolding minus_int
align_index_up (pos n) alignment = pos (n / alignment + 1)
align_index_up (negsuc n) alignment =
    let quotient = suc n / alignment in if quotient == 0 then pos 1 else minus_int (quotient - 1)

unfoldable pub get_indexs : ℕ → ℕ → ℕ → ℤ × ℤ
unfolding to_int align_index_down align_index_up
get_indexs block_size offset size = (
  align_index_down (to_int offset) block_size,
  align_index_up (to_int ((offset + size) % 2 ^ 64)) block_size,
)

-- The local files of the blocks of one path, by their indices.
abbrev pub Files : Type 0
Files = ℕ → Option Text

set_file : ℕ → Text → Files → Files
set_file index content files i = if i == index then some content else files i

-- `fs::exists(tmp_path) && fs::file_size(tmp_path) > 0`, with the content.
unfoldable pub local_block : Option Text → Option Text
local_block none = none
local_block (some content) = if is_empty content then none else some content

-- `string(count, '\0')` for an `int` product, which must not overflow.
zeros : ℕ → Files → Result (Text × Files)
zeros count files = if ltb count (2 ^ 31) then ok (replicate count 0, files) else err undefined

append_rest : Text → Result (Text × Files) → Result (Text × Files)
append_rest block (err e) = err e
append_rest block (ok (rest, files)) = ok (block ++ rest, files)

-- `decode_one_block` of a location.
module _ (decode_one_block : Text → Result Text) where
  -- The block at an index, from the local file, or from the datanodes into the local file.
  load : Text → ℕ → Files → Option Text → Result (Text × Files)
  unfolding set_file
  load blks index files (some block) = ok (block, files)
  load blks index files none = do
    block ← decode_one_block blks
    ok (block, set_file index block files)

  -- The loop of `read_data` over the indices that are left; behind the last location it is zeros.
  unfoldable pub read_blocks : ℕ → List Text → ℕ → ℕ → Files → Result (Text × Files)
  unfolding load local_block append_rest zeros
  read_blocks block_size sub zero index files = ok ([], files)
  read_blocks block_size sub (suc rounds) index files = elim (get_elem? sub index) [
    | none ↦ zeros (suc rounds * block_size) files
    | some blks ↦ elim (load blks index files (local_block (files index))) [
      | err e ↦ err e
      | ok r ↦ append_rest r.0 (read_blocks block_size sub rounds (suc index) r.1)
    ]
  ]

  -- `read_data` of a range of indices; `sub.begin()` plus a negative number is undefined.
  unfoldable pub read_indexs : ℕ → List Text → ℤ × ℤ → Files → Result (Text × Files)
  unfolding read_blocks
  read_indexs block_size sub (pos first, pos second) files =
      read_blocks block_size sub (second - first) first files
  read_indexs block_size sub (pos first, negsuc second) files = ok ([], files)
  read_indexs block_size sub (negsuc first, second) files = err undefined

  -- The part of the blocks that is returned, from `offset - indexs.first * block_size` on.
  slice : ℕ → ℕ → Text × Files → Result (Text × Files)
  slice start size (s, files) =
      if ltb (length s) (start + size) then err undefined else ok (take size (drop start s), files)

  cut : ℕ → ℕ → ℕ → ℤ → Text × Files → Result (Text × Files)
  unfolding slice
  cut block_size offset size (pos first) r =
      if ltb offset (first * block_size)
      then err undefined
      else slice (offset - first * block_size) size r
  cut block_size offset size (negsuc first) r = err undefined

  -- `read_data` of a file, of its size and its locations, at an offset.
  unfoldable pub read_data : ℕ → ℕ → List Text → ℕ → ℕ → Files → Result (Text × Files)
  unfolding read_indexs get_indexs cut
  read_data block_size filesize sub offset size files =
      if ltb filesize offset
      then ok ([], files)
      else (let size' =
            if ltb filesize ((offset + size) % 2 ^ 64) then filesize - offset else size in
          let indexs = get_indexs block_size offset size' in
          (read_indexs block_size sub indexs files >>= cut block_size offset size' indexs.0))
