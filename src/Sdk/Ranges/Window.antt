-- ===== src/Sdk/Ranges/Window.antt =====
-- What `read_data` returns of a file whose blocks are known.
use thesis_dfs.Prelude.Split.{is_empty}
use thesis_dfs.Prelude.{
  ℕ, zero, suc, ◌+◌, ◌-◌, ◌*◌, ◌^◌, ◌≤◌, ◌<◌, ◌≡◌, refl, ap, ◌∙◌, sym, subst, Text, List, [], ◌∷◌,
  ◌++◌, if◌then◌else◌, ◌==◌, take, drop, length, replicate, some, none, get_elem?, arith,
  append_assoc, length-append, take_add, drop_add, drop_all, take_left, drop_left, Option-cases,
  Bool-cases, inl, inr, ==_iff, lt→ltb,
}
use thesis_dfs.Result.{Result, ok}
use thesis_dfs.DataRetrive.Blocks.{concat}
use thesis_dfs.Sdk.Download.{resize_file}
use thesis_dfs.Sdk.Ranges.{Files, read_blocks, local_block, set_file, load, zeros, append_rest}

pub get_elem?-lt :
    {A : Type 0} (xs : List A) (i : ℕ) {x : A} → get_elem? xs i ≡ some x → i < length xs
get_elem?-lt [] i e = cc
get_elem?-lt (x ∷ xs) zero e = omega arith
get_elem?-lt (x ∷ xs) (suc i) e = omega (arith, get_elem?-lt xs i e)

pub get_elem?-none : {A : Type 0} (xs : List A) (i : ℕ) → get_elem? xs i ≡ none → length xs ≤ i
get_elem?-none [] i e = omega arith
get_elem?-none (x ∷ xs) zero e = cc
get_elem?-none (x ∷ xs) (suc i) e = omega (arith, get_elem?-none xs i e)

module _ (decode_one_block : Text → Result Text) (b : ℕ) where
  -- The blocks of the locations, each of the block size.
  abbrev pub AreBlocks : List Text → List Text → Type 0
  AreBlocks [] [] = Unit {0}
  AreBlocks [] (x ∷ blocks) = ⊥
  AreBlocks (l ∷ sub) [] = ⊥
  AreBlocks (l ∷ sub) (x ∷ blocks) =
      (decode_one_block l ≡ ok x) × (length x ≡ b) × AreBlocks sub blocks

  -- A local file that is not empty holds the block.
  pub record AreLocal (blocks : List Text) (files : Files) : Type 0 where
    pub same :
        (i : ℕ) (content : Text)
        → local_block (files i) ≡ some content
        → get_elem? blocks i ≡ some content

  pub record IsBlock (blocks : List Text) (l : Text) (i : ℕ) : Type 0 where
    pub block : Text
    pub at_i : get_elem? blocks i ≡ some block
    pub decoded : decode_one_block l ≡ ok block
    pub full : length block ≡ b
    pub first_of : drop (i * b) (concat blocks) ≡ block ++ drop (suc i * b) (concat blocks)

  suc_times : (i : ℕ) → suc i * b ≡ b + i * b
  suc_times i = grind arith

  zero_times : 0 * b ≡ 0
  zero_times = omega arith

  drop_first :
      (x : Text) (rest : Text) (n : ℕ) → length x ≡ b → drop (b + n) (x ++ rest) ≡ drop n rest
  drop_first x rest n e =
      drop_add b n (x ++ rest)
      ∙ ap (λ m. drop n (drop m (x ++ rest))) (sym e)
      ∙ ap (drop n) (drop_left x rest)

  pub block_at :
      (sub blocks : List Text) (i : ℕ) (l : Text)
      → AreBlocks sub blocks
      → get_elem? sub i ≡ some l
      → IsBlock blocks l i
  unfolding concat
  block_at [] blocks i l p e = cc
  block_at (l' ∷ sub) [] i l p e = absurd p
  block_at (l' ∷ sub) (x ∷ blocks) zero l p e = record {
    block = x;
    at_i = refl;
    decoded = ap decode_one_block (sym (same e)) ∙ p.0;
    full = p.1;
    first_of =
        ap (λ n. drop n (x ++ concat blocks)) zero_times
        ∙ ap (λ t. x ++ t)
            (sym (
              ap (λ n. drop n (x ++ concat blocks)) (suc_times 0 ∙ ap (λ n. b + n) zero_times)
              ∙ drop_first x (concat blocks) 0 p.1));
  }
    where
      same : some l' ≡ some l → l' ≡ l
      same q = cc
  block_at (l' ∷ sub) (x ∷ blocks) (suc i) l p e =
      let c = block_at sub blocks i l p.2 e in
      record {
        block = c.block;
        at_i = c.at_i;
        decoded = c.decoded;
        full = c.full;
        first_of =
            ap (λ n. drop n (x ++ concat blocks)) (suc_times i)
            ∙ drop_first x (concat blocks) (i * b) p.1
            ∙ c.first_of
            ∙ ap (λ t. c.block ++ t)
                (sym (
                  ap (λ n. drop n (x ++ concat blocks)) (suc_times (suc i))
                  ∙ drop_first x (concat blocks) (suc i * b) p.1));
      }

  pub length-AreBlocks :
      (sub blocks : List Text)
      → AreBlocks sub blocks
      → (length sub ≡ length blocks) × (length (concat blocks) ≡ length blocks * b)
  unfolding concat
  length-AreBlocks [] [] p = (refl, sym zero_times)
  length-AreBlocks [] (x ∷ blocks) p = absurd p
  length-AreBlocks (l ∷ sub) [] p = absurd p
  length-AreBlocks (l ∷ sub) (x ∷ blocks) p =
      let (n, m) = length-AreBlocks sub blocks p.2 in
      (ap suc n, length-append x (concat blocks) ∙ omega (arith, m, p.1, suc_times (length blocks)))

  resize_file-block :
      (x rest : Text) (n : ℕ)
      → length x ≡ b
      → resize_file (b + n) (x ++ rest) ≡ x ++ resize_file n rest
  unfolding resize_file
  resize_file-block x rest n e =
      ap (λ t. t ++ replicate (b + n - length (x ++ rest)) 0) taken
      ∙ append_assoc x (take n rest) (replicate (b + n - length (x ++ rest)) 0)
      ∙ ap (λ k. x ++ (take n rest ++ replicate k 0)) lengths
    where
      taken : take (b + n) (x ++ rest) ≡ x ++ take n rest
      taken =
          take_add b n (x ++ rest)
          ∙ ap (λ t. t ++ take n (drop b (x ++ rest)))
              (ap (λ m. take m (x ++ rest)) (sym e) ∙ take_left x rest)
          ∙ ap (λ t. x ++ take n t) (ap (λ m. drop m (x ++ rest)) (sym e) ∙ drop_left x rest)

      lengths : b + n - length (x ++ rest) ≡ n - length rest
      lengths = omega (arith, length-append x rest, e)

  resize_file-zero : (t : Text) → resize_file 0 t ≡ []
  unfolding resize_file
  resize_file-zero t = ap (λ k. replicate k 0) none_left
    where
      none_left : 0 - length t ≡ 0
      none_left = omega arith

  resize_file-nil : (n : ℕ) → resize_file n [] ≡ replicate n 0
  unfolding resize_file
  resize_file-nil zero = refl
  resize_file-nil (suc n) = ap (λ k. replicate k 0) whole
    where
      whole : suc n - 0 ≡ suc n
      whole = omega arith

  AreLocal-set_file :
      (blocks : List Text) (i : ℕ) (x : Text) (files : Files)
      → get_elem? blocks i ≡ some x
      → AreLocal blocks files
      → AreLocal blocks (set_file i x files)
  unfolding set_file local_block
  AreLocal-set_file blocks i x files at_i local = record {
    same = λ k content e. elim (Bool-cases (k == i)) [
      | inl here ↦
          ap (get_elem? blocks) ((==_iff k i).0 here)
          ∙ at_i
          ∙ not_empty content (sym (ap (λ t. local_block (if t then some x else files k)) here) ∙ e)
      | inr other ↦
          local.same k content
            (sym (ap (λ t. local_block (if t then some x else files k)) other) ∙ e)
    ];
  }
    where
      not_none : {content : Text} → none ≡ some content → ⊥
      not_none q = cc

      not_empty : (content : Text) → local_block (some x) ≡ some content → some x ≡ some content
      not_empty content e = elim (Bool-cases (is_empty x)) [
        | inl no_byte ↦ absurd (not_none (sym (ap (λ t. if t then none else some x) no_byte) ∙ e))
        | inr bytes ↦ sym (ap (λ t. if t then none else some x) bytes) ∙ e
      ]

  load-block :
      (blocks : List Text) (l : Text) (i : ℕ) (files : Files) (c : IsBlock blocks l i)
      → AreLocal blocks files
      → (files' : Files) × (load decode_one_block l i files (local_block (files i))
          ≡ ok (c.block, files'))
        × AreLocal blocks files'
  unfolding load
  load-block blocks l i files c local = elim (Option-cases (local_block (files i))) [
    | inl missing ↦ (
      set_file i c.block files,
      rw (missing, c.decoded) refl,
      AreLocal-set_file blocks i c.block files c.at_i local,
    )
    | inr (content, here) ↦ (
      files,
      rw here (ap (λ t. ok (t, files)) (one content (sym (local.same i content here) ∙ c.at_i))),
      local,
    )
  ]
    where
      one : (content : Text) → some content ≡ some c.block → content ≡ c.block
      one content q = cc

  read_blocks-behind :
      (sub : List Text) (rounds i : ℕ) (files : Files)
      → get_elem? sub i ≡ none
      → suc rounds * b < 2 ^ 31
      → read_blocks decode_one_block b sub (suc rounds) i files
        ≡ ok (replicate (suc rounds * b) 0, files)
  unfolding read_blocks zeros
  read_blocks-behind sub rounds i files e h =
      rw (e, read_blocks, lt→ltb (suc rounds * b) (2 ^ 31) h) refl

  read_blocks-load :
      (sub : List Text) (rounds i : ℕ) (l x rest : Text) (files files₁ files₂ : Files)
      → get_elem? sub i ≡ some l
      → load decode_one_block l i files (local_block (files i)) ≡ ok (x, files₁)
      → read_blocks decode_one_block b sub rounds (suc i) files₁ ≡ ok (rest, files₂)
      → read_blocks decode_one_block b sub (suc rounds) i files ≡ ok (x ++ rest, files₂)
  unfolding read_blocks append_rest
  read_blocks-load sub rounds i l x rest files files₁ files₂ at_i loaded more =
      rw (at_i, read_blocks, loaded, more) refl

  -- The loop gives the blocks of the indices, and zeros behind the last one.
  pub read_blocks-AreBlocks :
      (sub blocks : List Text) (rounds i : ℕ) (files : Files)
      → AreBlocks sub blocks
      → AreLocal blocks files
      → i ≤ length blocks
      → i + rounds ≤ suc (length blocks)
      → b < 2 ^ 31
      → (files' : Files) × (read_blocks decode_one_block b sub rounds i files
          ≡ ok (resize_file (rounds * b) (drop (i * b) (concat blocks)), files'))
        × AreLocal blocks files'
  unfolding read_blocks
  read_blocks-AreBlocks sub blocks zero i files p local h k small = (
    files,
    ap (λ t. ok (t, files))
        (sym
          (ap (λ n. resize_file n (drop (i * b) (concat blocks))) zero_times ∙ resize_file-zero _)),
    local,
  )
  read_blocks-AreBlocks sub blocks (suc rounds) i files p local h k small =
      elim (Option-cases (get_elem? sub i)) [
        | inl behind ↦ (
          files,
          read_blocks-behind sub rounds i files behind (fits behind)
              ∙ ap (λ t. ok (t, files))
                  (sym (
                    ap (resize_file (suc rounds * b)) (nothing behind)
                    ∙ resize_file-nil (suc rounds * b))),
          local,
        )
        | inr (l, at_i) ↦
            let c = block_at sub blocks i l p at_i in
            let (files₁, loaded, local₁) = load-block blocks l i files c local in
            let (files₂, rest, local₂) =
              read_blocks-AreBlocks sub blocks rounds (suc i) files₁ p local₁
                (omega (arith, within at_i)) (omega (arith, k)) small in
            (
              files₂,
              read_blocks-load sub rounds i l c.block _ files files₁ files₂ at_i loaded rest
                  ∙ ap (λ t. ok (t, files₂))
                      (sym (
                        ap (λ n. resize_file n (drop (i * b) (concat blocks))) (suc_times rounds)
                        ∙ ap (resize_file (b + rounds * b)) c.first_of
                        ∙ resize_file-block c.block (drop (suc i * b) (concat blocks)) (rounds * b)
                            c.full)),
              local₂,
            )
      ]
    where
      at_end : get_elem? sub i ≡ none → i ≡ length blocks
      at_end e = omega (arith, h, get_elem?-none sub i e, (length-AreBlocks sub blocks p).0)

      fits : get_elem? sub i ≡ none → suc rounds * b < 2 ^ 31
      fits e = subst (λ r. suc r * b < 2 ^ 31) (no_more e) (omega (arith, small))
        where
          no_more : get_elem? sub i ≡ none → 0 ≡ rounds
          no_more q = omega (arith, at_end q, k)

      nothing : get_elem? sub i ≡ none → drop (i * b) (concat blocks) ≡ []
      nothing e = drop_all (i * b) (concat blocks) (
          subst (λ n. length (concat blocks) ≤ n * b) (sym (at_end e))
            (omega (arith, (length-AreBlocks sub blocks p).1)))

      within : {l : Text} → get_elem? sub i ≡ some l → i < length blocks
      within e = omega (arith, get_elem?-lt sub i e, (length-AreBlocks sub blocks p).0)
