-- ===== src/StorageType/Fragments.antt =====
-- Decoding from some of the fragments of a block.
use thesis_dfs.StorageType.{
  front, encode, decode, Chosen, ErasureCode, keep, rs_decode, get_decode_blocks, skip, or_no_data,
  done, StorageType, rs, re, agg,
}
use thesis_dfs.Prelude.{
  ℕ, zero, suc, ◌+◌, ◌≤◌, ◌<◌, Text, List, [], ◌∷◌, ◌≡◌, refl, arith, length, replicate, take, ltb,
  ap, sym, ◌∙◌, false, subst, All,
}
use thesis_dfs.Result.{ok}

take_all : (gs : List Text) → take (length gs) gs ≡ gs
take_all [] = refl
take_all (g ∷ gs) = ap (λ t. g ∷ t) (take_all gs)

Chosen-length : (fs gs : List Text) → Chosen fs gs → length gs ≤ length fs
Chosen-length _ _ done = omega arith
Chosen-length _ _ (keep c) = omega (arith, Chosen-length _ _ c)
Chosen-length _ _ (skip c) = omega (arith, Chosen-length _ _ c)

pub Chosen-All : (P : Text → Type 0) (fs gs : List Text) → All P fs → Chosen fs gs → All P gs
Chosen-All P _ _ ps done = tt
Chosen-All P _ _ ps (keep c) = (ps.0, Chosen-All P _ _ ps.1 c)
Chosen-All P _ _ ps (skip c) = Chosen-All P _ _ ps.1 c

pub replicate-All : (n : ℕ) (block : Text) → All (λ g. g ≡ block) (replicate n block)
replicate-All zero block = tt
replicate-All (suc n) block = (refl, replicate-All n block)

front-All :
    (code : ErasureCode) (block : Text) (gs : List Text)
    → All (λ g. g ≡ block) gs
    → length gs ≡ 1
    → front code gs ≡ ok block
unfolding front
front-All code block [] ps n = absurd (omega (arith, n))
front-All code block (g ∷ gs) ps n = ap ok ps.0

module _ (code : ErasureCode) where
  rs_decode-encode :
      (k m : ℕ) (block : Text) (fs gs : List Text)
      → 0 < k
      → code.encode k m block ≡ ok fs
      → Chosen fs gs
      → length gs ≡ k
      → rs_decode code k m gs ≡ ok block
  unfolding rs_decode
  rs_decode-encode k m block fs [] pos e c n = absurd (omega (arith, pos, n))
  rs_decode-encode k m block fs (g ∷ gs) pos e c n =
      ap (code.decode k m) (ap (λ j. take j (g ∷ gs)) (sym n) ∙ take_all (g ∷ gs))
      ∙ code.decode-encode k m block fs (g ∷ gs) e c n

  -- Whichever fragments of a block are at hand, if they are as many as the storage type needs, and that
  -- is at least one, and come in their order, decoding them gives the block back.
  pub decode-encode-Chosen :
      (s : StorageType) (block : Text) (fs gs : List Text)
      → 0 < get_decode_blocks s
      → encode code s block ≡ ok fs
      → Chosen fs gs
      → length gs ≡ get_decode_blocks s
      → decode code s gs ≡ ok block
  unfolding encode decode get_decode_blocks or_no_data
  decode-encode-Chosen (rs k m b) block fs gs pos e c n =
      rw (enough n, few (code.encode-length k m block fs e) (Chosen-length fs gs c))
        (rs_decode-encode k m block fs gs pos e c n)
    where
      enough : length gs ≡ k → ltb (length gs) k ≡ false
      enough q = ground arith

      few : length fs ≡ k + m → length gs ≤ length fs → ltb (k + m) (length gs) ≡ false
      few p q = ground arith
  decode-encode-Chosen (re replications b) block fs gs pos e c n =
      front-All code block gs
        (Chosen-All (λ g. g ≡ block) fs gs
          (subst (All (λ g. g ≡ block)) (same e) (replicate-All replications block)) c)
        n
    where
      same : ok (replicate replications block) ≡ ok fs → replicate replications block ≡ fs
      same q = cc
  decode-encode-Chosen (agg k m b) block fs [] pos e c n = absurd (omega (arith, pos, n))
  decode-encode-Chosen (agg k m b) block fs (g ∷ gs) pos e c n =
      rs_decode-encode k m block fs (g ∷ gs) pos e c n
