-- ===== src/Sdk/Ranges/Read.antt =====
-- `read_data` of a file gives the bytes of the file in the range that is asked for.
use native.Mathlib.Nat.{mod-eq_of_lt, le-div_iff_mul-le, div-lt_iff_lt-mul}
use thesis_dfs.Prelude.{
  ℕ, zero, suc, ◌+◌, ◌-◌, ◌*◌, ◌/◌, ◌^◌, ◌≤◌, ◌<◌, ◌≡◌, refl, ap, ◌∙◌, sym, Text, true, false, List,
  [], ◌∷◌, ◌++◌, ltb, take, drop, length, replicate, arith, length-append, length-take, length-drop,
  length-replicate, drop_add, drop_all, take_all, take-append-drop, Bool-cases, inl, inr, lt→ltb,
}
use thesis_dfs.Prelude.Int.{pos}
use thesis_dfs.Result.{Result, ok, ◌>>=◌}
use thesis_dfs.DataRetrive.Blocks.{concat}
use thesis_dfs.Sdk.Download.{resize_file}
use thesis_dfs.Sdk.Ranges.{
  Files, read_indexs, read_data, slice, cut, get_indexs, to_int, align_index_down, align_index_up,
}
use thesis_dfs.Sdk.Ranges.Window.{AreBlocks, AreLocal, length-AreBlocks, read_blocks-AreBlocks}

-- A part that ends inside of the text in front.
take-drop_front :
    (n k : ℕ) (a z : Text) → n + k ≤ length a → take k (drop n (a ++ z)) ≡ take k (drop n a)
take-drop_front zero zero a z h = refl
take-drop_front zero (suc k) [] z h = absurd (omega (arith, h))
take-drop_front zero (suc k) (c ∷ a) z h =
    ap (λ t. c ∷ t) (take-drop_front zero k a z (omega (arith, h)))
take-drop_front (suc n) k [] z h = absurd (omega (arith, h))
take-drop_front (suc n) k (c ∷ a) z h = take-drop_front n k a z (omega (arith, h))

take-drop-take :
    (m n k : ℕ) (t : Text)
    → n + k ≤ m
    → n + k ≤ length t
    → take k (drop n (take m t)) ≡ take k (drop n t)
take-drop-take m n k t h h' =
    sym (take-drop_front n k (take m t) (drop m t) (ground (arith, length-take m t, h, h')))
    ∙ ap (λ u. take k (drop n u)) (take-append-drop m t)

take-drop-resize_file :
    (m n k : ℕ) (t : Text)
    → n + k ≤ m
    → n + k ≤ length t
    → take k (drop n (resize_file m t)) ≡ take k (drop n t)
unfolding resize_file
take-drop-resize_file m n k t h h' =
    take-drop_front n k (take m t) _ (ground (arith, length-take m t, h, h'))
    ∙ take-drop-take m n k t h h'

length-resize_file : (m : ℕ) (t : Text) → length (resize_file m t) ≡ m
unfolding resize_file
length-resize_file m t =
    length-append (take m t) (replicate (m - length t) 0)
    ∙ ground (arith, length-take m t, length-replicate {A = ℕ} (m - length t) 0)

pub get_indexs-small :
    (b offset size : ℕ)
    → offset + size < 2 ^ 31
    → get_indexs b offset size ≡ (pos (offset / b), pos ((offset + size) / b + 1))
unfolding get_indexs to_int align_index_down align_index_up
get_indexs-small b offset size h =
    rw
      (
        mod-eq_of_lt (wide h),
        mod-eq_of_lt (narrow offset (omega (arith, h))),
        mod-eq_of_lt (narrow (offset + size) h),
        lt→ltb offset (2 ^ 31) (omega (arith, h)),
        lt→ltb (offset + size) (2 ^ 31) h,
      )
      refl
  where
    wide : offset + size < 2 ^ 31 → offset + size < 2 ^ 64
    wide q = omega (arith, q)

    narrow : (n : ℕ) → n < 2 ^ 31 → n < 2 ^ 32
    narrow n q = omega (arith, q)

minus_times : (b m n : ℕ) → n ≤ m → (m - n) * b + n * b ≡ m * b
minus_times b m n h = grind arith

module _ (decode_one_block : Text → Result Text) (b : ℕ) (some_size : 0 < b)
    (small : b < 2 ^ 31) where
  read_indexs-part :
      (sub blocks : List Text) (offset size : ℕ) (files : Files)
      → AreBlocks decode_one_block b sub blocks
      → AreLocal decode_one_block b blocks files
      → offset + size ≤ length (concat blocks)
      → offset + size < 2 ^ 31
      → (files' : Files) × ((read_indexs decode_one_block b sub (get_indexs b offset size) files
            >>= cut decode_one_block b offset size (get_indexs b offset size).0)
          ≡ ok (take size (drop offset (concat blocks)), files'))
        × AreLocal decode_one_block b blocks files'
  unfolding read_indexs cut slice
  read_indexs-part sub blocks offset size files p local inside short =
      let (files', e, local') =
        read_blocks-AreBlocks decode_one_block b sub blocks
          (((offset + size) / b + 1) - (offset / b)) (offset / b) files p local first_in
          (omega (arith, ordered, second_in)) small in
      (
        files',
        rw
            (
              get_indexs-small b offset size short,
              read_indexs,
              e,
              not_less,
              length-resize_file ((((offset + size) / b + 1) - (offset / b)) * b)
                  (drop ((offset / b) * b) (concat blocks)),
              enough,
            )
            (ap (λ t. ok (t, files')) part),
        local',
      )
    where
      more : (l : ℕ) → suc l * b ≡ l * b + b
      more l = grind arith

      lower : offset / b * b ≤ offset
      lower = (le-div_iff_mul-le some_size).0 (omega arith)

      upper : offset + size < ((offset + size) / b + 1) * b
      upper = (div-lt_iff_lt-mul some_size).0 (omega arith)

      between : offset / b ≤ (offset + size) / b
      between =
          (le-div_iff_mul-le {x = offset / b} {y = offset + size} some_size).1
            (omega (arith, lower))

      ordered : (offset / b) ≤ ((offset + size) / b + 1)
      ordered = omega (arith, between)

      apart :
          ((offset + size) / b + 1 - offset / b) * b + offset / b * b
          ≡ ((offset + size) / b + 1) * b
      apart = minus_times b ((offset + size) / b + 1) (offset / b) (omega (arith, ordered))

      second_in : ((offset + size) / b + 1) ≤ suc (length blocks)
      second_in = omega (
        arith,
        (div-lt_iff_lt-mul {x = offset + size} {y = suc (length blocks)} some_size).1 (
            omega (
              arith,
              inside,
              (length-AreBlocks decode_one_block b sub blocks p).1,
              more (length blocks),
            )),
      )

      first_in : (offset / b) ≤ length blocks
      first_in = omega (arith, between, second_in)

      not_less : ltb offset ((offset / b) * b) ≡ false
      not_less = ground (arith, lower)

      enough :
          ltb ((((offset + size) / b + 1) - (offset / b)) * b) (offset - (offset / b) * b + size)
          ≡ false
      enough = ground (arith, apart, upper, lower)

      whole : offset / b * b + (offset - offset / b * b) ≡ offset
      whole = omega (arith, lower)

      part :
          take size (
            drop (offset - (offset / b) * b) (
              resize_file
                ((((offset + size) / b + 1) - (offset / b)) * b)
                (drop ((offset / b) * b) (concat blocks))))
          ≡ take size (drop offset (concat blocks))
      part =
          take-drop-resize_file (((offset + size) / b + 1 - offset / b) * b)
            (offset - offset / b * b) size (drop (offset / b * b) (concat blocks))
            (omega (arith, apart, upper, lower))
            (omega (arith, lower, inside, length-drop (offset / b * b) (concat blocks)))
          ∙ ap (take size) (
              sym (drop_add (offset / b * b) (offset - offset / b * b) (concat blocks))
              ∙ ap (λ n. drop n (concat blocks)) whole)

  -- Reading a file at an offset gives the bytes of the file from there, up to the size asked for or the
  -- end of the file, and nothing from an offset behind the end. The locations have blocks of the block
  -- size, which is not 0, local files that are not empty hold their blocks, the file ends in its blocks,
  -- and the block size and the end of the range are below 2 GB.
  pub read_data-part :
      (sub blocks : List Text) (filesize offset size : ℕ) (files : Files)
      → AreBlocks decode_one_block b sub blocks
      → AreLocal decode_one_block b blocks files
      → filesize ≤ length (concat blocks)
      → offset + size < 2 ^ 31
      → (files' : Files) × (read_data decode_one_block b filesize sub offset size files
          ≡ ok (take size (drop offset (take filesize (concat blocks))), files'))
        × AreLocal decode_one_block b blocks files'
  unfolding read_data
  read_data-part sub blocks filesize offset size files p local whole short =
      elim (Bool-cases (ltb filesize offset)) [
        | inl behind ↦ (files, rw behind (ap (λ t. ok (t, files)) (sym (nothing behind))), local)
        | inr before ↦ elim (Bool-cases (ltb filesize (offset + size))) [
          | inl over ↦
              let (files', e, local') =
                read_indexs-part sub blocks offset (filesize - offset) files p local
                  (ground (arith, whole, before)) (ground (arith, short, over, before)) in
              (
                files',
                rw (mod-eq_of_lt wide, before, over)
                    (e ∙ ap (λ t. ok (t, files')) (to_the_end before over)),
                local',
              )
          | inr within ↦
              let (files', e, local') =
                read_indexs-part sub blocks offset size files p local
                  (ground (arith, whole, within)) short in
              (
                files',
                rw (mod-eq_of_lt wide, before, within)
                    (e
                      ∙ ap (λ t. ok (t, files'))
                          (sym (
                            take-drop-take filesize offset size (concat blocks)
                              (ground (arith, within)) (ground (arith, whole, within))))),
                local',
              )
        ]
      ]
    where
      wide : offset + size < 2 ^ 64
      wide = omega (arith, short)

      nothing :
          ltb filesize offset ≡ true → take size (drop offset (take filesize (concat blocks))) ≡ []
      nothing q =
          ap (take size) (
            drop_all offset (take filesize (concat blocks))
              (ground (arith, q, length-take filesize (concat blocks))))
          ∙ take_all size [] (omega arith)

      to_the_end :
          ltb filesize offset ≡ false
          → ltb filesize (offset + size) ≡ true
          → take (filesize - offset) (drop offset (concat blocks))
            ≡ take size (drop offset (take filesize (concat blocks)))
      to_the_end q r =
          sym (
            take-drop-take filesize offset (filesize - offset) (concat blocks) (ground (arith, q))
              (ground (arith, whole, q)))
          ∙ take_all (filesize - offset) (drop offset (take filesize (concat blocks))) (left q)
          ∙ sym (
              take_all size (drop offset (take filesize (concat blocks)))
                (ground (arith, left q, r)))
        where
          left :
              ltb filesize offset ≡ false
              → length (drop offset (take filesize (concat blocks))) ≤ filesize - offset
          left s = ground (
            arith,
            length-drop offset (take filesize (concat blocks)),
            length-take filesize (concat blocks),
          )
