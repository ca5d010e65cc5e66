-- ===== src/FilePath/Normal/Stack.antt =====
-- The components that `lexically_normal` keeps, the last one first.
use thesis_dfs.Prelude.{true, false, not, ap, ◌∙◌}
use thesis_dfs.Prelude.Split.{lacks, all_lack, is_empty}
use thesis_dfs.Prelude.{
  List, Bool, Text, true, not, ◌≡◌, ◌++◌, ◌∷◌, [], arith, refl, text_eq, ◌&&◌, text_eq_iff, reverse,
  ◌||◌, text_eq_refl,
}
use mathlib.Core.List.{reverse-cons}
use thesis_dfs.FilePath.{slash, dot, dot_dot, up, push, push_all}

abbrev pub top_up : List Text → Bool
top_up [] = true
top_up (q ∷ stack) = text_eq q dot_dot

-- A name, or a dot-dot with nothing but dot-dots below it in a relative path.
abbrev pub may_stand : Bool → Text → List Text → Bool
may_stand absolute p stack =
    not (is_empty p)
    && (not (text_eq p dot)
        && (lacks slash p && (not (text_eq p dot_dot) || (not absolute && top_up stack))))

abbrev pub is_normal : Bool → List Text → Bool
is_normal absolute [] = true
is_normal absolute (p ∷ stack) = may_stand absolute p stack && is_normal absolute stack

push-may_stand :
    (absolute : Bool) (p : Text) (stack : List Text)
    → may_stand absolute p stack ≡ true
    → push absolute stack p ≡ p ∷ stack
unfolding push up
push-may_stand true p stack h = ground arith
push-may_stand false p [] h = ground (arith, text_eq_iff p dot_dot)
push-may_stand false p (q ∷ stack) h = ground (arith, text_eq_iff p dot_dot)

push_all-append :
    (absolute : Bool) (stack ps qs : List Text)
    → push_all absolute stack (ps ++ qs) ≡ push_all absolute (push_all absolute stack ps) qs
unfolding push_all
push_all-append absolute stack [] qs = refl
push_all-append absolute stack (p ∷ ps) qs = push_all-append absolute (push absolute stack p) ps qs

-- Components in normal form are kept as they are.
pub push_all-normal :
    (absolute : Bool) (stack : List Text)
    → is_normal absolute stack ≡ true
    → push_all absolute [] (reverse stack) ≡ stack
unfolding push_all
push_all-normal absolute [] h = refl
push_all-normal absolute (p ∷ stack) h =
    ap (push_all absolute []) (reverse-cons p stack)
    ∙ push_all-append absolute [] (reverse stack) (p ∷ [])
    ∙ ap (λ s. push absolute s p) (push_all-normal absolute stack (ground arith))
    ∙ push-may_stand absolute p stack (ground arith)

push-normal :
    (absolute : Bool) (p : Text) (stack : List Text)
    → lacks slash p ≡ true
    → is_normal absolute stack ≡ true
    → is_normal absolute (push absolute stack p) ≡ true
unfolding push up text_eq
push-normal true p [] l h = ground arith
push-normal false p [] l h = ground (arith, text_eq_iff p dot_dot)
push-normal true p (q ∷ stack) l h = ground (arith, text_eq_refl dot_dot)
push-normal false p (q ∷ stack) l h = ground (arith, text_eq_refl dot_dot)

-- What is kept is in normal form.
pub push_all-is_normal :
    (absolute : Bool) (stack ps : List Text)
    → all_lack slash ps ≡ true
    → is_normal absolute stack ≡ true
    → is_normal absolute (push_all absolute stack ps) ≡ true
unfolding push_all
push_all-is_normal absolute stack [] l h = h
push_all-is_normal absolute stack (p ∷ ps) l h =
    push_all-is_normal absolute (push absolute stack p) ps (ground arith)
      (push-normal absolute p stack (ground arith) h)
