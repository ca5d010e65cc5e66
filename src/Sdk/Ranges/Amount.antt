-- ===== src/Sdk/Ranges/Amount.antt =====
-- How many bytes `read_data` returns.
use thesis_dfs.Prelude.Int.{ℤ, pos, negsuc}
use thesis_dfs.Result.{Error, ok, Result, err, undefined, ◌>>=◌, >>=-eq-ok}
use thesis_dfs.Prelude.{
  Bool, Text, if◌then◌else◌, ◌≡◌, ℕ, length, List, false, ltb, ◌+◌, true, ◌-◌, ◌<◌, refl, take, ◌*◌,
  ◌^◌, drop, arith, inl, ap, length-take, length-drop, [], inr, ◌⊎◌, ◌%◌, sym, ◌∙◌,
}
use Prim.Native.Nat.{min}
use thesis_dfs.Sdk.Ranges.{slice, cut, read_data, Files, read_indexs, get_indexs}

-- A guard that throws was passed.
guarded :
    {A : Type 0} (t : Bool) (x : Error) (r : Result A) {a : A}
    → (if t then err x else r) ≡ ok a
    → (t ≡ false) × (r ≡ ok a)
guarded true x r e = cc
guarded false x r e = (refl, e)

texts : (p q : Text × Files) → ok p ≡ ok q → p.0 ≡ q.0
texts p q e = cc

-- Nothing was read, or the other branch was taken.
or_nothing :
    (t : Bool) (files : Files) (r : Result (Text × Files)) (q : Text × Files)
    → (if t then ok ([], files) else r) ≡ ok q
    → ((t ≡ true) × (q.0 ≡ [])) ⊎ ((t ≡ false) × (r ≡ ok q))
or_nothing true files r q e = inl (refl, sym (texts ([], files) q e))
or_nothing false files r q e = inr (refl, e)

module _ (decode_one_block : Text → Result Text) where
  length-slice :
      (start size : ℕ) (r : Text × Files) (s : Text) (files' : Files)
      → slice decode_one_block start size r ≡ ok (s, files')
      → length s ≡ size
  unfolding slice
  length-slice start size (b, files) s files' e =
      let (enough, rest) =
        guarded (ltb (length b) (start + size)) undefined (ok (take size (drop start b), files))
          e in
      ground (
        arith,
        ap length (texts (take size (drop start b), files) (s, files') rest),
        length-take size (drop start b),
        length-drop start b,
        enough,
      )

  length-cut :
      (block_size offset size : ℕ) (first : ℤ) (r : Text × Files) (s : Text) (files' : Files)
      → cut decode_one_block block_size offset size first r ≡ ok (s, files')
      → length s ≡ size
  unfolding cut
  length-cut block_size offset size (pos first) r s files' e =
      length-slice (offset - first * block_size) size r s files'
        (guarded (ltb offset (first * block_size)) undefined
          (slice decode_one_block (offset - first * block_size) size r) e).1
  length-cut block_size offset size (negsuc first) r s files' e = cc

  -- As many bytes as are asked for, or as are left of the file.
  pub length-read_data :
      (block_size filesize : ℕ) (sub : List Text) (offset size : ℕ) (files files' : Files)
      (s : Text)
      → offset + size < 2 ^ 64
      → read_data decode_one_block block_size filesize sub offset size files ≡ ok (s, files')
      → length s ≡ min size (filesize - offset)
  unfolding read_data
  length-read_data block_size filesize sub offset size files files' s fits e =
      elim (or_nothing (ltb filesize offset) files (inside size') (s, files') e) [
        | inl (behind, nothing) ↦ ground (arith, behind, ap length nothing)
        | inr (within, rest) ↦
            let (r, e₁, e₂) =
              >>=-eq-ok (read_indexs decode_one_block block_size sub indexs files)
                (cut decode_one_block block_size offset size' indexs.0) rest in
            length-cut block_size offset size' indexs.0 r s files' e₂ ∙ amount within
      ]
    where
      size' : ℕ
      size' = if ltb filesize ((offset + size) % 2 ^ 64) then filesize - offset else size

      indexs : ℤ × ℤ
      indexs = get_indexs block_size offset size'

      inside : ℕ → Result (Text × Files)
      inside n =
          read_indexs decode_one_block block_size sub indexs files
          >>= cut decode_one_block block_size offset n indexs.0

      amount : ltb filesize offset ≡ false → size' ≡ min size (filesize - offset)
      amount within = ground (arith, within, fits)
