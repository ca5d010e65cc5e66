-- ===== src/Sdk/Writes/Pieces.antt =====
-- The pieces into which `write_data` cuts what it writes.
use native.Mathlib.Nat.{mod-eq_of_lt, div-add-mod', le-div_iff_mul-le}
use thesis_dfs.Prelude.{
  ℕ, zero, suc, ◌+◌, ◌-◌, ◌*◌, ◌/◌, ◌%◌, ◌^◌, ◌≤◌, ◌<◌, ◌≡◌, refl, ap, ◌∙◌, sym, Text, false, List,
  [], ◌∷◌, ◌++◌, ltb, ◌==◌, take, drop, length, arith, take-append-drop, append-nil, length-drop,
  take_all, Bool-cases, inl, inr, ==_iff,
}
use thesis_dfs.Result.{Result, ok}
use thesis_dfs.DataRetrive.Blocks.{concat}
use thesis_dfs.Sdk.Ranges.{Files}
use thesis_dfs.Sdk.Ranges.Read.{get_indexs-small}
use thesis_dfs.Sdk.Writes.{
  append_file, left_of, right_of, write_blocks, write_indexs, load_ends, write_data,
}

-- The pieces, one behind each local file from an index on.
unfoldable pub append_all : ℕ → List Text → Files → Files
append_all index [] files = files
append_all index (piece ∷ pieces) files =
    append_all (suc index) pieces (append_file index piece files)

module _ (b first offset end : ℕ) (some_size : 0 < b) where
  write-step :
      (rounds index : ℕ) (s : Text) (files : Files) (n : ℕ)
      → right_of b (end / b + 1) end index - left_of b first offset index ≡ n
      → left_of b first offset index ≤ right_of b (end / b + 1) end index
      → n ≤ length s
      → write_blocks b first (end / b + 1) offset end (suc rounds) index s files
        ≡ write_blocks b first
            (end / b + 1)
            offset
            end
            rounds
            (suc index)
            (drop n s)
            (append_file index (take n s) files)
  unfolding write_blocks
  write-step rounds index s files n e h k =
      rw (not_less, fits)
        (ap
          (λ m.
            write_blocks b first (end / b + 1) offset end rounds (suc index) (drop m s)
              (append_file index (take m s) files))
          e)
    where
      not_less : ltb (right_of b (end / b + 1) end index) (left_of b first offset index) ≡ false
      not_less = ground (arith, h)

      fits :
          ltb (length s) (right_of b (end / b + 1) end index - left_of b first offset index) ≡ false
      fits = ground (arith, e, k)

  write-none :
      (index : ℕ) (s : Text) (files : Files)
      → write_blocks b first (end / b + 1) offset end 0 index s files ≡ ok files
  unfolding write_blocks
  write-none index s files = refl

  left-le : (index : ℕ) → left_of b first offset index < b
  unfolding left_of
  left-le index = elim (Bool-cases (index == first)) [
    | inl here ↦ rw here (mod_less offset)
    | inr later ↦ rw later some_size
  ]
    where
      mod_less : (m : ℕ) → m % b < b
      mod_less m = omega (arith, some_size)

  left-later : (index : ℕ) → first ≤ index → left_of b first offset (suc index) ≡ 0
  unfolding left_of
  left-later index h = ground (arith, h)

  right-last : (index : ℕ) → index ≡ end / b → right_of b (end / b + 1) end index ≡ end % b
  unfolding right_of
  right-last index h = ground (arith, h)

  right-inner : (index : ℕ) → index < end / b → right_of b (end / b + 1) end index ≡ b
  unfolding right_of
  right-inner index h = ground (arith, h)

  more : (i : ℕ) → suc i * b ≡ i * b + b
  more i = grind arith

  -- The rounds write consecutive pieces, together all of the text.
  write_blocks-pieces :
      (rounds index : ℕ) (s : Text) (files : Files)
      → index + rounds ≡ end / b
      → first ≤ index
      → length s + (index * b + left_of b first offset index) ≡ end
      → (pieces : List Text) × (write_blocks b first
            (end / b + 1)
            offset
            end
            (suc rounds)
            index
            s
            files
          ≡ ok (append_all index pieces files))
        × (concat pieces ≡ s)
        × (length pieces ≡ suc rounds)
  unfolding append_all concat
  write_blocks-pieces zero index s files e h k = (
    s ∷ [],
    write-step 0 index s files (length s)
          (ap (λ r. r - left_of b first offset index) (right-last index here)
            ∙ omega (arith, parts))
          (omega (arith, right-last index here, parts)) (omega arith)
        ∙ write-none (suc index) (drop (length s) s) (append_file index (take (length s) s) files)
        ∙ ap (λ t. ok (append_file index t files)) (take_all (length s) s (omega arith)),
    append-nil s,
    refl,
  )
    where
      here : index ≡ end / b
      here = omega (arith, e)

      parts : length s + left_of b first offset index ≡ end % b
      parts = omega (arith, k, ap (λ i. i * b) here, div-add-mod' end b)
  write_blocks-pieces (suc rounds) index s files e h k =
      let n = b - left_of b first offset index in
      let (pieces, run, joined, count) =
        write_blocks-pieces rounds (suc index) (drop n s) (append_file index (take n s) files)
          (omega (arith, e)) (omega (arith, h)) after in
      (
        take n s ∷ pieces,
        write-step (suc rounds) index s files n
              (ap (λ r. r - left_of b first offset index) (right-inner index inner))
              (omega (arith, left-le index, right-inner index inner)) fits
            ∙ run,
        ap (λ t. take n s ++ t) joined ∙ take-append-drop n s,
        ap suc count,
      )
    where
      inner : index < end / b
      inner = omega (arith, e)

      whole : suc index * b ≤ end
      whole = (le-div_iff_mul-le some_size).0 (omega (arith, inner))

      fits : b - left_of b first offset index ≤ length s
      fits = omega (arith, whole, more index, k)

      after :
          length (drop (b - left_of b first offset index) s)
            + (suc index * b + left_of b first offset (suc index))
          ≡ end
      after = omega (
        arith,
        length-drop (b - left_of b first offset index) s,
        left-later index h,
        more index,
        k,
        left-le index,
        fits,
      )

left-first : (b offset : ℕ) → left_of b (offset / b) offset (offset / b) ≡ offset % b
unfolding left_of
left-first b offset = rw ((==_iff (offset / b) (offset / b)).1 refl) refl

module _ (decode_one_block : Text → Result Text) (b : ℕ) (some_size : 0 < b) where
  write_data-loaded :
      (filesize : ℕ) (sub : List Text) (offset : ℕ) (s : Text) (files loaded : Files)
      → offset + length s < 2 ^ 31
      → load_ends decode_one_block b filesize sub offset (length s) files ≡ ok loaded
      → write_data decode_one_block b filesize sub offset s files
        ≡ write_blocks b
            (offset / b)
            ((offset + length s) / b + 1)
            offset
            (offset + length s)
            ((offset + length s) / b + 1 - offset / b)
            (offset / b)
            s
            loaded
  unfolding write_data write_indexs
  write_data-loaded filesize sub offset s files loaded short e =
      rw (e, write_data, get_indexs-small b offset (length s) short, mod-eq_of_lt wide) refl
    where
      wide : offset + length s < 2 ^ 64
      wide = omega (arith, short)

  -- Once the blocks at both ends are loaded, write_data cuts what it writes into consecutive pieces, one
  -- for each index from that of the offset to that of the end, and puts each piece behind what the
  -- local file of its block holds, not over it, whatever the offset. The block size is not 0, and
  -- the end of the range is below 2 GB.
  pub write_data-append_all :
      (filesize : ℕ) (sub : List Text) (offset : ℕ) (s : Text) (files loaded : Files)
      → offset + length s < 2 ^ 31
      → load_ends decode_one_block b filesize sub offset (length s) files ≡ ok loaded
      → (pieces : List Text) × (write_data decode_one_block b filesize sub offset s files
          ≡ ok (append_all (offset / b) pieces loaded))
        × (concat pieces ≡ s)
        × (length pieces ≡ (offset + length s) / b + 1 - offset / b)
  write_data-append_all filesize sub offset s files loaded short e =
      let (pieces, run, joined, count) =
        write_blocks-pieces b (offset / b) offset (offset + length s) some_size
          ((offset + length s) / b - offset / b) (offset / b) s loaded (omega (arith, ordered))
          (omega arith) (omega (arith, left-first b offset, div-add-mod' offset b)) in
      (
        pieces,
        write_data-loaded filesize sub offset s files loaded short e
            ∙ ap
                (λ n.
                  write_blocks b (offset / b) ((offset + length s) / b + 1) offset
                    (offset + length s) n (offset / b) s loaded)
                rounds
            ∙ run,
        joined,
        count ∙ sym rounds,
      )
    where
      ordered : offset / b ≤ (offset + length s) / b
      ordered = (le-div_iff_mul-le {x = offset / b} {y = offset + length s} some_size).1 (
          omega
            (arith, (le-div_iff_mul-le {x = offset / b} {y = offset} some_size).0 (omega arith)))

      rounds : (offset + length s) / b + 1 - offset / b ≡ suc ((offset + length s) / b - offset / b)
      rounds = omega (arith, ordered)
