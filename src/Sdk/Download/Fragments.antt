-- ===== src/Sdk/Download/Fragments.antt =====
-- The loop of `decode_one_block` over the fragments of a block.
use thesis_dfs.Inode.{decode_one_sub}
use thesis_dfs.Sdk.Download.{gather, arrived, or_continue, decode_one_block}
use thesis_dfs.RaftNn.{is_caught}
use thesis_dfs.StorageType.{
  StorageType, ErasureCode, Chosen, done, keep, skip, get_decode_blocks, encode,
}
use thesis_dfs.StorageType.Fragments.{decode-encode-Chosen}
use thesis_dfs.Prelude.{
  ℕ, ◌+◌, ◌≤◌, ◌<◌, Text, true, List, [], ◌∷◌, ◌++◌, ◌≡◌, refl, ◌⊎◌, inl, inr, arith, ◌∙◌, subst,
  length, length-append, Bool-cases, leb, ◌==◌, append_assoc, append-nil, suc, ==_iff,
  if◌then◌else◌,
}
use thesis_dfs.Result.{Error, Result, ok, err}

skip_all : (fs : List Text) → Chosen fs []
skip_all [] = done
skip_all (f ∷ fs) = skip (skip_all fs)

Chosen-append :
    (xs ys cs ds : List Text) → Chosen xs ys → Chosen cs ds → Chosen (xs ++ cs) (ys ++ ds)
Chosen-append _ _ cs ds done d = d
Chosen-append _ _ cs ds (keep c) d = keep (Chosen-append _ _ cs ds c d)
Chosen-append _ _ cs ds (skip c) d = skip (Chosen-append _ _ cs ds c d)

-- Each request is answered with the fragment, or fails with an exception that is caught.
abbrev pub IsServed : (Text → Text → Result Text) → List Text → List (Text × Text) → Type 0
IsServed get [] [] = Unit {0}
IsServed get [] (p ∷ ps) = ⊥
IsServed get (f ∷ fs) [] = ⊥
IsServed get (f ∷ fs) ((node, blkid) ∷ ps) =
    ((get node blkid ≡ ok f) ⊎ ((e : Error) × (get node blkid ≡ err e) × (is_caught e ≡ true)))
    × IsServed get fs ps

-- How many requests are answered.
unfoldable pub answers : (Text → Text → Result Text) → List (Text × Text) → ℕ
answers get [] = 0
answers get ((node, blkid) ∷ ps) = elim (get node blkid) [
  | ok f ↦ suc (answers get ps)
  | err e ↦ answers get ps
]

module _ (code : ErasureCode) (get : Text → Text → Result Text) (s : StorageType) (block : Text)
    (fs : List Text) (encoded : encode code s block ≡ ok fs) where
  arrived-last :
      (got got' : List Text) (rest : Result Text)
      → length got < get_decode_blocks s
      → length got' ≡ get_decode_blocks s
      → Chosen fs got'
      → arrived code get s got got' rest ≡ ok block
  unfolding arrived or_continue
  arrived-last got got' rest few all chosen =
      rw (decode-encode-Chosen code s block fs got' (omega (arith, few)) encoded chosen all)
        (ground (arith, few, all))

  arrived-more :
      (got got' : List Text) (rest : Result Text)
      → length got < get_decode_blocks s
      → length got' < get_decode_blocks s
      → arrived code get s got got' rest ≡ rest
  unfolding arrived
  arrived-more got got' rest few more = ground (arith, few, more)

  gather-ok :
      (node blkid f : Text) (ps : List (Text × Text)) (got : List Text)
      → get node blkid ≡ ok f
      → gather code get s ((node, blkid) ∷ ps) got
        ≡ arrived code get s got (got ++ f ∷ []) (gather code get s ps (got ++ f ∷ []))
  unfolding gather
  gather-ok node blkid f ps got e = rw (e, gather) refl

  gather-err :
      (node blkid : Text) (e : Error) (ps : List (Text × Text)) (got : List Text)
      → get node blkid ≡ err e
      → is_caught e ≡ true
      → gather code get s ((node, blkid) ∷ ps) got ≡ gather code get s ps got
  unfolding gather
  gather-err node blkid e ps got g caught = rw (g, gather, caught) refl

  answers-ok :
      (node blkid f : Text) (ps : List (Text × Text))
      → get node blkid ≡ ok f
      → answers get ((node, blkid) ∷ ps) ≡ suc (answers get ps)
  unfolding answers
  answers-ok node blkid f ps g = rw (g, answers) refl

  answers-err :
      (node blkid : Text) (e : Error) (ps : List (Text × Text))
      → get node blkid ≡ err e
      → answers get ((node, blkid) ∷ ps) ≡ answers get ps
  unfolding answers
  answers-err node blkid e ps g = rw (g, answers) refl

  -- With too few answers the loop runs to its end.
  gather-nothing :
      (ps : List (Text × Text)) (rest got : List Text)
      → length got + answers get ps < get_decode_blocks s
      → IsServed get rest ps
      → gather code get s ps got ≡ ok []
  unfolding gather
  gather-nothing [] rest got few served = refl
  gather-nothing (p ∷ ps) [] got few served = absurd served
  gather-nothing ((node, blkid) ∷ ps) (f ∷ rest) got few (inr (e, g, caught), served) =
      gather-err node blkid e ps got g caught
      ∙ gather-nothing ps rest got
          (subst (λ n. length got + n < get_decode_blocks s) (answers-err node blkid e ps g) few)
          served
  gather-nothing ((node, blkid) ∷ ps) (f ∷ rest) got few (inl g, served) =
      gather-ok node blkid f ps got g
      ∙ arrived-more got (got ++ f ∷ []) _ (omega (arith, fewer))
          (omega (arith, fewer, length-append got (f ∷ [])))
      ∙ gather-nothing ps rest (got ++ f ∷ []) (omega (arith, fewer, length-append got (f ∷ [])))
          served
    where
      fewer : length got + suc (answers get ps) < get_decode_blocks s
      fewer = subst (λ n. length got + n < get_decode_blocks s) (answers-ok node blkid f ps g) few

  gather-block :
      (ps : List (Text × Text)) (pre rest got : List Text)
      → pre ++ rest ≡ fs
      → Chosen pre got
      → length got < get_decode_blocks s
      → get_decode_blocks s ≤ length got + answers get ps
      → IsServed get rest ps
      → gather code get s ps got ≡ ok block
  unfolding answers
  gather-block [] pre rest got split chosen few enough served = absurd (omega (arith, few, enough))
  gather-block (p ∷ ps) pre [] got split chosen few enough served = absurd served
  gather-block ((node, blkid) ∷ ps) pre (f ∷ rest) got split chosen few enough
        (inr (e, g, caught), served) =
      gather-err node blkid e ps got g caught
      ∙ gather-block ps (pre ++ f ∷ []) rest got (append_assoc pre (f ∷ []) rest ∙ split)
          (subst (Chosen (pre ++ f ∷ [])) (append-nil got)
            (Chosen-append pre got (f ∷ []) [] chosen (skip done)))
          few
          (subst (λ n. get_decode_blocks s ≤ length got + n) (answers-err node blkid e ps g) enough)
          served
  gather-block ((node, blkid) ∷ ps) pre (f ∷ rest) got split chosen few enough (inl g, served) =
      gather-ok node blkid f ps got g
      ∙ elim (Bool-cases (length (got ++ f ∷ []) == get_decode_blocks s)) [
        | inl all ↦
            arrived-last got (got ++ f ∷ []) _ few
              ((==_iff (length (got ++ f ∷ [])) (get_decode_blocks s)).0 all)
              (subst (λ l. Chosen l (got ++ f ∷ [])) split
                (Chosen-append pre got (f ∷ rest) (f ∷ []) chosen (keep (skip_all rest))))
        | inr more ↦
            arrived-more got (got ++ f ∷ []) _ few
              (ground (arith, more, few, length-append got (f ∷ [])))
            ∙ gather-block ps (pre ++ f ∷ []) rest (got ++ f ∷ [])
                (append_assoc pre (f ∷ []) rest ∙ split)
                (Chosen-append pre got (f ∷ []) (f ∷ []) chosen (keep done))
                (ground (arith, more, few, length-append got (f ∷ [])))
                (omega (arith, length-append got (f ∷ []), answers-ok node blkid f ps g, enough))
                served
      ]

  -- Each fragment of a block is either sent by its datanode or fails: the block comes back if at least as
  -- many are sent as its storage type needs, one or more; and else an empty text, without an error.
  pub decode_one_block-IsServed :
      (location : Text)
      → 0 < get_decode_blocks s
      → IsServed get fs (decode_one_sub location)
      → decode_one_block code get s location
        ≡ ok (
            if leb (get_decode_blocks s) (answers get (decode_one_sub location)) then block else [])
  unfolding decode_one_block
  decode_one_block-IsServed location pos served =
      elim (Bool-cases (leb (get_decode_blocks s) (answers get (decode_one_sub location)))) [
        | inl enough ↦
            gather-block (decode_one_sub location) [] fs [] refl done pos (ground (arith, enough))
              served
            ∙ rw enough refl
        | inr few ↦
            gather-nothing (decode_one_sub location) fs [] (ground (arith, few)) served
            ∙ rw few refl
      ]
