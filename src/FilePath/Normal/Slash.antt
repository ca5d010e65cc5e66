-- ===== src/FilePath/Normal/Slash.antt =====
-- Where `simplify_path` leaves a slash at the end of a path.
use thesis_dfs.Prelude.Split.{split, join, split-snoc}
use thesis_dfs.Prelude.{
  subst, ℕ, Text, List, [], ◌∷◌, ◌++◌, Bool, true, false, reverse, ◌==◌, ◌≡◌, ◌⊎◌, inl, inr, refl,
  ap, ◌∙◌, sym, subst,
}
use thesis_dfs.FilePath.{slash, push, push_all, or_dot, root_slash, simplify_path, is_absolute}
use thesis_dfs.FilePath.Normal.Render.{
  rendered, rendered_last, simplify_path-rendered, split-lacks_all,
}
use thesis_dfs.FilePath.Normal.Stack.{is_normal, push_all-is_normal}

-- The root, or a text whose last character is not a slash.
abbrev pub IsPlainEnd : Text → Type 0
IsPlainEnd t =
    (t ≡ slash ∷ []) ⊎ ((d : ℕ) × (w : Text) × (reverse t ≡ d ∷ w) × ((d == slash) ≡ false))

or_dot-IsPlainEnd :
    (t : Text) (d : ℕ) (w : Text) → reverse t ≡ d ∷ w → (d == slash) ≡ false → IsPlainEnd (or_dot t)
unfolding or_dot
or_dot-IsPlainEnd [] d w r n = cc
or_dot-IsPlainEnd (a ∷ t) d w r n = inr (d, w, r, n)

rendered-IsPlainEnd :
    (absolute : Bool) (stack : List Text)
    → is_normal absolute stack ≡ true
    → IsPlainEnd (or_dot (rendered absolute stack))
unfolding or_dot root_slash join
rendered-IsPlainEnd true [] h = inl refl
rendered-IsPlainEnd false [] h = inr (b'.', [], refl, refl)
rendered-IsPlainEnd absolute (p ∷ stack) h =
    let (d, w, r, n) = rendered_last absolute p stack h in
    or_dot-IsPlainEnd (rendered absolute (p ∷ stack)) d w r n

push_all_nothing :
    (absolute : Bool) (stack ps : List Text)
    → push_all absolute stack (ps ++ [] ∷ []) ≡ push_all absolute stack ps
unfolding push_all push
push_all_nothing absolute stack [] = refl
push_all_nothing absolute stack (p ∷ ps) = push_all_nothing absolute (push absolute stack p) ps

-- A slash behind a path makes no difference to its simplified form, which itself ends in no slash,
-- unless it is the root. The path is not empty.
pub simplify_path-slash :
    (c : ℕ) (t : Text)
    → (simplify_path ((c ∷ t) ++ slash ∷ []) ≡ simplify_path (c ∷ t))
      × IsPlainEnd (simplify_path (c ∷ t))
simplify_path-slash c t = (
  simplify_path-rendered c (t ++ slash ∷ [])
      ∙ ap (λ s. or_dot (rendered (is_absolute (c ∷ t)) s))
          (ap (push_all (is_absolute (c ∷ t)) []) (split-snoc slash (c ∷ t))
            ∙ push_all_nothing (is_absolute (c ∷ t)) [] (split slash (c ∷ t)))
      ∙ sym (simplify_path-rendered c t),
  subst IsPlainEnd (sym (simplify_path-rendered c t)) (
      rendered-IsPlainEnd (is_absolute (c ∷ t)) _ (
        push_all-is_normal (is_absolute (c ∷ t)) [] (split slash (c ∷ t)) (split-lacks_all (c ∷ t))
          refl)),
)
