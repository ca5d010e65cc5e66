-- ===== src/FilePath/Normal/Render.antt =====
-- The text of a normal form, and what comes of simplifying it once more.
use thesis_dfs.Prelude.Split.{split, join, all_lack, lacks, none_empty, split-join}
use mathlib.Core.List.{reverse-cons, reverse-append, reverse-reverse}
use thesis_dfs.Prelude.{
  true, false, [], Bool, ℕ, Text, List, reverse, ◌==◌, ◌≡◌, ◌∷◌, ◌++◌, arith, sym, ap, refl, ◌∙◌,
  append_assoc, ◌⊎◌, inl, append-nil, inr,
}
use thesis_dfs.FilePath.{
  slash, dot, push_all, or_dot, pop_slash, root_slash, tail_slash, simplify_path, is_absolute,
  ends_open, push,
}
use thesis_dfs.FilePath.Normal.Stack.{is_normal, push_all-normal, push_all-is_normal}

abbrev pub rendered : Bool → List Text → Text
rendered absolute stack = root_slash absolute ++ join slash (reverse stack)

pub split-lacks_all : (t : Text) → all_lack slash (split slash t) ≡ true
unfolding split
split-lacks_all [] = refl
split-lacks_all (c ∷ t) = ground (arith, split-lacks_all t)

-- A name ends in no slash.
last_char :
    (c : ℕ) (p : Text)
    → lacks slash (c ∷ p) ≡ true
    → (d : ℕ) × (w : Text) × (reverse (c ∷ p) ≡ d ∷ w) × ((d == slash) ≡ false)
last_char c [] h = (c, [], refl, ground arith)
last_char c (e ∷ p) h =
    let (d, w, r, n) = last_char e p (ground arith) in
    (d, w ++ c ∷ [], reverse-cons c (e ∷ p) ∙ ap (λ q. q ++ c ∷ []) r, n)

join_last : (xs : List Text) (p : Text) → (front : Text) × (join slash (xs ++ p ∷ []) ≡ front ++ p)
unfolding join
join_last [] p = ([], refl)
join_last (x ∷ []) p = (x ++ slash ∷ [], sym (append_assoc x (slash ∷ []) p))
join_last (x ∷ y ∷ xs) p =
    let (front, e) = join_last (y ∷ xs) p in
    (x ++ slash ∷ front, ap (λ t. x ++ slash ∷ t) e ∙ sym (append_assoc x (slash ∷ front) p))

-- So no normal form with a component ends in one.
pub rendered_last :
    (absolute : Bool) (p : Text) (stack : List Text)
    → is_normal absolute (p ∷ stack) ≡ true
    → (d : ℕ) × (w : Text) × (reverse (rendered absolute (p ∷ stack)) ≡ d ∷ w)
      × ((d == slash) ≡ false)
rendered_last absolute [] stack h = cc
rendered_last absolute (c ∷ p) stack h =
    let (front, e) = join_last (reverse stack) (c ∷ p) in
    let (d, w, r, n) = last_char c p (ground arith) in
    (
      d,
      w ++ reverse (root_slash absolute ++ front),
      ap (λ t. reverse (root_slash absolute ++ t))
            (ap (join slash) (reverse-cons (c ∷ p) stack) ∙ e)
          ∙ ap reverse (sym (append_assoc (root_slash absolute) front (c ∷ p)))
          ∙ reverse-append (root_slash absolute ++ front) (c ∷ p)
          ∙ ap (λ t. t ++ reverse (root_slash absolute ++ front)) r,
      n,
    )

abbrev trim : Text → Text
trim t = reverse (pop_slash (reverse t))

trim-slash :
    (t : Text) (d : ℕ) (w : Text) → reverse t ≡ d ∷ w → trim (or_dot (t ++ slash ∷ [])) ≡ or_dot t
unfolding or_dot pop_slash
trim-slash [] d w r = cc
trim-slash (a ∷ t) d w r =
    rw (reverse-append (a ∷ t) (slash ∷ []), r) (ap reverse (sym r) ∙ reverse-reverse (a ∷ t))

pop_slash_same : (d : ℕ) (w : Text) → (d == slash) ≡ false → pop_slash (d ∷ w) ≡ d ∷ w
unfolding pop_slash
pop_slash_same d [] n = refl
pop_slash_same d (e ∷ w) n = ground arith

trim_same :
    (t : Text) (d : ℕ) (w : Text)
    → reverse t ≡ d ∷ w
    → (d == slash) ≡ false
    → trim (or_dot t) ≡ or_dot t
unfolding or_dot
trim_same [] d w r n = cc
trim_same (a ∷ t) d w r n =
    ap (λ q. reverse (pop_slash q)) r
    ∙ ap reverse (pop_slash_same d w n ∙ sym r)
    ∙ reverse-reverse (a ∷ t)

trim_root :
    (absolute : Bool)
    → trim (or_dot (root_slash absolute ++ [])) ≡ or_dot (root_slash absolute ++ [])
unfolding or_dot root_slash pop_slash
trim_root true = refl
trim_root false = refl

tail_slash_cases :
    (open_end : Bool) (p : Text) (stack : List Text)
    → (tail_slash open_end (p ∷ stack) ≡ []) ⊎ (tail_slash open_end (p ∷ stack) ≡ slash ∷ [])
unfolding tail_slash
tail_slash_cases open_end p stack = ground arith

module _ (absolute open_end : Bool) where
  -- What `pop_back` leaves of a normal form, with or without a slash at its end.
  trim-rendered :
      (stack : List Text)
      → is_normal absolute stack ≡ true
      → trim (
          or_dot (root_slash absolute ++ (join slash (reverse stack) ++ tail_slash open_end stack)))
        ≡ or_dot (rendered absolute stack)
  unfolding tail_slash join
  trim-rendered [] h = trim_root absolute
  trim-rendered (p ∷ stack) h =
      let (d, w, r, n) = rendered_last absolute p stack h in
      let joined : Text = join slash (reverse (p ∷ stack)) in
      let with_tail = λ (u : Text). trim (or_dot (root_slash absolute ++ (joined ++ u))) in
      elim (tail_slash_cases open_end p stack) [
        | inl e ↦
            ap with_tail e
            ∙ ap (λ u. trim (or_dot (root_slash absolute ++ u))) (append-nil joined)
            ∙ trim_same (rendered absolute (p ∷ stack)) d w r n
        | inr e ↦
            ap with_tail e
            ∙ ap (λ u. trim (or_dot u))
                (sym (append_assoc (root_slash absolute) joined (slash ∷ [])))
            ∙ trim-slash (rendered absolute (p ∷ stack)) d w r
      ]

pub simplify_path-rendered :
    (c : ℕ) (t : Text)
    → let absolute = is_absolute (c ∷ t) in
      simplify_path (c ∷ t)
      ≡ or_dot (rendered absolute (push_all absolute [] (split slash (c ∷ t))))
unfolding simplify_path
simplify_path-rendered c t =
    trim-rendered (is_absolute (c ∷ t)) (ends_open (split slash (c ∷ t)))
      (push_all (is_absolute (c ∷ t)) [] (split slash (c ∷ t)))
      (push_all-is_normal (is_absolute (c ∷ t)) [] (split slash (c ∷ t)) (split-lacks_all (c ∷ t))
        refl)

all_lack-append :
    (xs ys : List Text)
    → all_lack slash xs ≡ true
    → all_lack slash ys ≡ true
    → all_lack slash (xs ++ ys) ≡ true
all_lack-append [] ys h k = k
all_lack-append (x ∷ xs) ys h k = ground (arith, all_lack-append xs ys)

-- The components in reading order: none has a slash, and none is empty.
normal_lacks :
    (absolute : Bool) (stack : List Text)
    → is_normal absolute stack ≡ true
    → all_lack slash (reverse stack) ≡ true
normal_lacks absolute [] h = refl
normal_lacks absolute (p ∷ stack) h = rw (reverse-cons p stack) (
    all_lack-append (reverse stack) (p ∷ []) (normal_lacks absolute stack (ground arith))
      (ground arith))

none_empty-append :
    (xs ys : List Text) → none_empty xs ≡ true → none_empty ys ≡ true → none_empty (xs ++ ys) ≡ true
none_empty-append [] ys h k = k
none_empty-append (x ∷ xs) ys h k = ground (arith, none_empty-append xs ys)

normal_none_empty :
    (absolute : Bool) (stack : List Text)
    → is_normal absolute stack ≡ true
    → none_empty (reverse stack) ≡ true
normal_none_empty absolute [] h = refl
normal_none_empty absolute (p ∷ stack) h = rw (reverse-cons p stack) (
    none_empty-append (reverse stack) (p ∷ []) (normal_none_empty absolute stack (ground arith))
      (ground arith))

push_all-join :
    (absolute : Bool) (xs : List Text)
    → all_lack slash xs ≡ true
    → push_all absolute [] (split slash (join slash xs)) ≡ push_all absolute [] xs
unfolding join split push_all push
push_all-join absolute [] h = refl
push_all-join absolute (p ∷ ps) h = ap (push_all absolute []) (split-join slash p ps h)

relative_join :
    (xs : List Text)
    → all_lack slash xs ≡ true
    → none_empty xs ≡ true
    → is_absolute (join slash xs) ≡ false
unfolding join
relative_join [] h e = refl
relative_join ([] ∷ ps) h e = cc
relative_join ((c ∷ p) ∷ []) h e = ground arith
relative_join ((c ∷ p) ∷ q ∷ ps) h e = ground arith

-- A normal form is split into its own components.
resplit :
    (absolute : Bool) (stack : List Text)
    → is_normal absolute stack ≡ true
    → push_all absolute [] (split slash (join slash (reverse stack))) ≡ stack
resplit absolute stack h =
    push_all-join absolute (reverse stack) (normal_lacks absolute stack h)
    ∙ push_all-normal absolute stack h

resplit_root :
    (stack : List Text)
    → is_normal true stack ≡ true
    → push_all true [] (split slash (slash ∷ join slash (reverse stack))) ≡ stack
unfolding split push_all push
resplit_root stack h = resplit true stack h

simplify_path-dot : simplify_path dot ≡ dot
unfolding simplify_path
simplify_path-dot = refl

simplify_path-relative :
    (stack : List Text) (t : Text)
    → is_normal false stack ≡ true
    → join slash (reverse stack) ≡ t
    → simplify_path (or_dot t) ≡ or_dot t
unfolding or_dot root_slash
simplify_path-relative stack [] h e = simplify_path-dot
simplify_path-relative stack (c ∷ t) h e =
    simplify_path-rendered c t
    ∙ ap (λ b. or_dot (root_slash b ++ join slash (reverse (push_all b [] (split slash (c ∷ t))))))
        (ap is_absolute (sym e)
          ∙ relative_join (reverse stack) (normal_lacks false stack h)
              (normal_none_empty false stack h))
    ∙ ap (λ u. or_dot (join slash (reverse (push_all false [] (split slash u))))) (sym e)
    ∙ ap (λ s. or_dot (join slash (reverse s))) (resplit false stack h)
    ∙ ap or_dot e

simplify_path-normal :
    (absolute : Bool) (stack : List Text)
    → is_normal absolute stack ≡ true
    → simplify_path (or_dot (rendered absolute stack)) ≡ or_dot (rendered absolute stack)
unfolding or_dot root_slash
simplify_path-normal true stack h =
    simplify_path-rendered slash (join slash (reverse stack))
    ∙ ap (λ s. slash ∷ join slash (reverse s)) (resplit_root stack h)
simplify_path-normal false stack h =
    simplify_path-relative stack (join slash (reverse stack)) h refl

-- Simplifying a path that is simplified already leaves it as it is.
pub simplify_path_idem : (path : Text) → simplify_path (simplify_path path) ≡ simplify_path path
simplify_path_idem [] = unfold simplify_path in refl
simplify_path_idem (c ∷ t) =
    let absolute = is_absolute (c ∷ t) in
    let stack = push_all absolute [] (split slash (c ∷ t)) in
    let e = simplify_path-rendered c t in
    ap simplify_path e
    ∙ simplify_path-normal absolute stack
        (push_all-is_normal absolute [] (split slash (c ∷ t)) (split-lacks_all (c ∷ t)) refl)
    ∙ sym e
