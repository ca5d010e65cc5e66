-- ===== src/Prelude/Split.antt =====
-- Texts cut at a separator: `std::getline` with a delimiter, and the components of a path.
use mathlib.Core.Logic.{inl, inr}
use Prim.Native.Nat.{ℕ}
use mathlib.Core.Path.{◌≡◌, refl, ap}
use mathlib.Core.Bool.{Bool, true, false, not, ◌&&◌}
use mathlib.Core.List.{List, [], ◌∷◌, ◌++◌}
use native.Mathlib.Omega.{arith}
use thesis_dfs.Prelude.Tests.{Bool-cases, ◌==◌, if◌then◌else◌}
use thesis_dfs.Prelude.Texts.{Text}

-- What one `getline(stream, s, c)` puts in `s`, and what it leaves in the stream.
unfoldable pub before : ℕ → Text → Text
before c [] = []
before c (d ∷ t) = let more = before c t in if d == c then [] else d ∷ more

unfoldable pub after : ℕ → Text → Text
after c [] = []
after c (d ∷ t) = let more = after c t in if d == c then t else more

cons_head : ℕ → List Text → List Text
cons_head d [] = (d ∷ []) ∷ []
cons_head d (p ∷ ps) = (d ∷ p) ∷ ps

-- The pieces between the separators, one more than there are separators.
unfoldable pub split : ℕ → Text → List Text
unfolding cons_head
split c [] = [] ∷ []
split c (d ∷ t) = let more = split c t in if d == c then [] ∷ more else cons_head d more

drop_empty_last : List Text → List Text
drop_empty_last [] = []
drop_empty_last ([] ∷ []) = []
drop_empty_last (p ∷ ps) = p ∷ drop_empty_last ps

-- `while (getline(stream, s, c))`: an empty last piece is no line.
unfoldable pub lines : ℕ → Text → List Text
unfolding split drop_empty_last
lines c t = drop_empty_last (split c t)

abbrev pub lacks : ℕ → Text → Bool
lacks c [] = true
lacks c (d ∷ t) = not (d == c) && lacks c t

pub split-append : (c : ℕ) (s t : Text) → lacks c s ≡ true → split c (s ++ c ∷ t) ≡ s ∷ split c t
unfolding split
split-append c [] t h = ground arith
split-append c (d ∷ s) t h = ground (arith, split-append c s t)

split-cons : (c : ℕ) (t : Text) → (p : Text) × (ps : List Text) × (split c t ≡ p ∷ ps)
unfolding split
split-cons c [] = ([], [], refl)
split-cons c (d ∷ t) =
    let (p, ps, e) = split-cons c t in
    elim (Bool-cases (d == c)) [
      | inl same ↦ ([], split c t, rw same refl)
      | inr other ↦ (d ∷ p, ps, rw (other, e) refl)
    ]

-- A separator at the end adds an empty piece.
pub split-snoc : (c : ℕ) (t : Text) → split c (t ++ c ∷ []) ≡ split c t ++ [] ∷ []
unfolding split
split-snoc c [] = ground arith
split-snoc c (d ∷ t) =
    let (p, ps, e) = split-cons c t in rw (split-snoc c t, e) (by_test (d == c) p ps)
  where
    by_test :
        (b : Bool) (p : Text) (ps : List Text)
        → (if b then [] ∷ ((p ∷ ps) ++ [] ∷ []) else (d ∷ p) ∷ (ps ++ [] ∷ []))
          ≡ (if b then [] ∷ p ∷ ps else (d ∷ p) ∷ ps) ++ [] ∷ []
    by_test true p ps = refl
    by_test false p ps = refl

pub split-lacks : (c : ℕ) (s : Text) → lacks c s ≡ true → split c s ≡ s ∷ []
unfolding split
split-lacks c [] h = refl
split-lacks c (d ∷ s) h = ground (arith, split-lacks c s)

pub before-append : (c : ℕ) (s t : Text) → lacks c s ≡ true → before c (s ++ c ∷ t) ≡ s
unfolding before
before-append c [] t h = ground arith
before-append c (d ∷ s) t h = ground (arith, before-append c s t)

pub after-append : (c : ℕ) (s t : Text) → lacks c s ≡ true → after c (s ++ c ∷ t) ≡ t
unfolding after
after-append c [] t h = ground arith
after-append c (d ∷ s) t h = ground (arith, after-append c s t)

pub before-lacks : (c : ℕ) (s : Text) → lacks c s ≡ true → before c s ≡ s
unfolding before
before-lacks c [] h = refl
before-lacks c (d ∷ s) h = ground (arith, before-lacks c s)

pub lacks-append : (c : ℕ) (s t : Text) → lacks c (s ++ t) ≡ (lacks c s && lacks c t)
lacks-append c [] t = refl
lacks-append c (d ∷ s) t = rw (lacks-append c s t) (ground arith)

-- The pieces joined by the separator.
unfoldable pub join : ℕ → List Text → Text
join c [] = []
join c (p ∷ []) = p
join c (p ∷ q ∷ ps) = p ++ c ∷ join c (q ∷ ps)

abbrev pub all_lack : ℕ → List Text → Bool
all_lack c [] = true
all_lack c (p ∷ ps) = lacks c p && all_lack c ps

pub split-join :
    (c : ℕ) (p : Text) (ps : List Text)
    → all_lack c (p ∷ ps) ≡ true
    → split c (join c (p ∷ ps)) ≡ p ∷ ps
unfolding join
split-join c p [] h = split-lacks c p (ground arith)
split-join c p (q ∷ ps) h =
    rw (split-append c p (join c (q ∷ ps)) (ground arith), split-join c q ps (ground arith))

abbrev pub is_empty : Text → Bool
is_empty [] = true
is_empty (c ∷ t) = false

abbrev pub none_empty : List Text → Bool
none_empty [] = true
none_empty (p ∷ ps) = not (is_empty p) && none_empty ps

drop_empty_last-none_empty : (ps : List Text) → none_empty ps ≡ true → drop_empty_last ps ≡ ps
unfolding drop_empty_last
drop_empty_last-none_empty [] h = refl
drop_empty_last-none_empty ([] ∷ ps) h = cc
drop_empty_last-none_empty ((c ∷ p) ∷ []) h = refl
drop_empty_last-none_empty ((c ∷ p) ∷ q ∷ ps) h =
    ap (◌∷◌ (c ∷ p)) (drop_empty_last-none_empty (q ∷ ps) h)

-- Pieces that lack the separator and are not empty are read back one by one.
pub lines-join :
    (c : ℕ) (p : Text) (ps : List Text)
    → all_lack c (p ∷ ps) ≡ true
    → none_empty (p ∷ ps) ≡ true
    → lines c (join c (p ∷ ps)) ≡ p ∷ ps
unfolding lines
lines-join c p ps h e = rw (split-join c p ps h) (drop_empty_last-none_empty (p ∷ ps) e)
