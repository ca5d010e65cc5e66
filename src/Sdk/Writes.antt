-- ===== src/Sdk/Writes.antt =====
-- `write_data` of src/client/sdk.cpp, on the local files of the blocks of one path.
pub mod Pieces
use thesis_dfs.Prelude.{
  ℕ, zero, suc, ◌+◌, ◌-◌, ◌*◌, ◌/◌, ◌%◌, ◌^◌, Text, Bool, true, false, not, ◌&&◌, List, [], ◌∷◌,
  ◌++◌, if◌then◌else◌, ltb, ◌==◌, take, drop, length, Option, some, none,
}
use thesis_dfs.Prelude.Int.{ℤ, pos, negsuc}
use thesis_dfs.Result.{Error, Result, ok, err, undefined, ◌>>=◌}
use thesis_dfs.Sdk.Ranges.{Files, read_indexs, get_indexs}

text_of : Option Text → Text
text_of none = []
text_of (some content) = content

-- A stream that is opened with `ios::app` writes at the end of the file, wherever it was sought to.
unfoldable pub append_file : ℕ → Text → Files → Files
unfolding text_of
append_file index piece files k =
    if k == index then some (text_of (files index) ++ piece) else files k

-- `left` and `right` of the block at an index.
unfoldable pub left_of : ℕ → ℕ → ℕ → ℕ → ℕ
left_of block_size first offset index = if index == first then offset % block_size else 0

unfoldable pub right_of : ℕ → ℕ → ℕ → ℕ → ℕ
right_of block_size second end index = if suc index == second then end % block_size else block_size

-- The loop over the indices, with `s` from `iter` on, and the rounds left. A size below 0 wraps, and
-- reading behind the end of `s` is undefined.
unfoldable pub write_blocks : ℕ → ℕ → ℕ → ℕ → ℕ → ℕ → ℕ → Text → Files → Result Files
write_blocks block_size first second offset end zero index s files = ok files
write_blocks block_size first second offset end (suc rounds) index s files =
    let left = left_of block_size first offset index in
    let right = right_of block_size second end index in
    let local_size = right - left in
    let rest =
      write_blocks block_size first second offset end rounds (suc index) (drop local_size s)
        (append_file index (take local_size s) files) in
    if ltb right left
    then err undefined
    else if ltb (length s) local_size
    then err undefined
    else rest

-- A negative index is out of the range of the locations.
unfoldable pub write_indexs : ℕ → ℤ × ℤ → ℕ → ℕ → Text → Files → Result Files
unfolding write_blocks
write_indexs block_size (pos first, pos second) offset end s files =
    write_blocks block_size first second offset end (second - first) first s files
write_indexs block_size (pos first, negsuc second) offset end s files = ok files
write_indexs block_size (negsuc first, second) offset end s files = err undefined

module _ (decode_one_block : Text → Result Text) where
  -- `read_data` of one block, for the local file that it leaves.
  load_index : Bool → ℕ → List Text → ℤ → Files → Result Files
  load_index false block_size sub i files = ok files
  load_index true block_size sub (negsuc n) files = err undefined
  load_index true block_size sub (pos n) files = do
    r ← read_indexs decode_one_block block_size sub (pos n, pos (suc n)) files
    ok r.1

  before_index : ℤ → ℤ
  before_index (pos zero) = negsuc 0
  before_index (pos (suc n)) = pos n
  before_index (negsuc n) = negsuc (suc n)

  same_int : ℤ → ℤ → Bool
  same_int (pos a) (pos b) = a == b
  same_int (pos a) (negsuc b) = false
  same_int (negsuc a) (pos b) = false
  same_int (negsuc a) (negsuc b) = a == b

  -- The blocks at both ends are loaded first, where bytes of them are to stay.
  unfoldable pub load_ends : ℕ → ℕ → List Text → ℕ → ℕ → Files → Result Files
  unfolding load_index before_index same_int
  load_ends block_size filesize sub offset size files = do
    let indexs = get_indexs block_size offset size in
        let last = before_index indexs.1 in
        let end = (offset + size) % 2 ^ 64 in
        load_index (ltb offset filesize && not (offset % block_size == 0)) block_size sub indexs.0
          files
        >>= load_index
            (ltb end filesize && (not (same_int indexs.0 last) && not (end % block_size == 0)))
            block_size sub last

  -- `write_data` of a file, of its size and its locations, at an offset.
  unfoldable pub write_data : ℕ → ℕ → List Text → ℕ → Text → Files → Result Files
  unfolding load_ends
  write_data block_size filesize sub offset s files = do
    loaded ← load_ends block_size filesize sub offset (length s) files
    write_indexs block_size (get_indexs block_size offset (length s)) offset
        ((offset + length s) % 2 ^ 64) s loaded
