-- ===== src/Sdk/Sync/Sorted.antt =====
-- The sorting of the indices that were written.
use thesis_dfs.Sdk.Sync.Blocks.{AreDistinct, IsNew}
use thesis_dfs.Sdk.Sync.{sort_indexs, last_of, insert}
use thesis_dfs.Prelude.{
  List, ℕ, Text, ◌∷◌, All, ◌≤◌, ◌≡◌, [], ◌⊎◌, ◌≢◌, arith, inl, subst, inr, sym, refl, Bool-cases,
  leb, Bool, leb→le, if◌then◌else◌,
}

abbrev pub IsAscending : List (ℕ × Text) → Type 0
IsAscending [] = Unit {0}
IsAscending (p ∷ ps) = All (λ q. p.0 ≤ q.0) ps × IsAscending ps

-- The element is one of the list.
abbrev pub IsIn : ℕ × Text → List (ℕ × Text) → Type 0
IsIn p [] = ⊥
IsIn p (q ∷ qs) = (p ≡ q) ⊎ IsIn p qs

All-insert :
    (P : ℕ × Text → Type 0) (p : ℕ × Text) (ps : List (ℕ × Text))
    → P p
    → All P ps
    → All P (insert p ps)
unfolding insert
All-insert P p [] h hs = (h, tt)
All-insert P p (q ∷ qs) h hs = elim (Bool-cases (leb p.0 q.0)) [
  | inl le ↦ rw le (h, hs)
  | inr gt ↦ rw gt (hs.0, All-insert P p qs h hs.1)
]

insert-All :
    (P : ℕ × Text → Type 0) (p : ℕ × Text) (ps : List (ℕ × Text))
    → All P (insert p ps)
    → P p × All P ps
unfolding insert
insert-All P p [] hs = (hs.0, tt)
insert-All P p (q ∷ qs) hs = elim (Bool-cases (leb p.0 q.0)) [
  | inl le ↦
      let h = subst (λ (b : Bool). All P (if b then p ∷ q ∷ qs else q ∷ insert p qs)) le hs in
      (h.0, h.1)
  | inr gt ↦
      let h = subst (λ (b : Bool). All P (if b then p ∷ q ∷ qs else q ∷ insert p qs)) gt hs in
      let r = insert-All P p qs h.1 in (r.0, (h.0, r.1))
]

pub All-sort_indexs :
    (P : ℕ × Text → Type 0) (ps : List (ℕ × Text)) → All P ps → All P (sort_indexs ps)
unfolding sort_indexs
All-sort_indexs P [] hs = tt
All-sort_indexs P (p ∷ ps) hs = All-insert P p (sort_indexs ps) hs.0 (All-sort_indexs P ps hs.1)

pub sort_indexs-All :
    (P : ℕ × Text → Type 0) (ps : List (ℕ × Text)) → All P (sort_indexs ps) → All P ps
unfolding sort_indexs
sort_indexs-All P [] hs = tt
sort_indexs-All P (p ∷ ps) hs =
    let r = insert-All P p (sort_indexs ps) hs in (r.0, sort_indexs-All P ps r.1)

insert-AreDistinct :
    (p : ℕ × Text) (ps : List (ℕ × Text))
    → IsNew p.0 ps
    → AreDistinct ps
    → AreDistinct (insert p ps)
unfolding insert
insert-AreDistinct p [] n d = (tt, tt)
insert-AreDistinct p (q ∷ qs) n d = elim (Bool-cases (leb p.0 q.0)) [
  | inl le ↦ rw le ((n.0, n.1), (d.0, d.1))
  | inr gt ↦
      rw gt
        (All-insert (λ x. q.0 ≢ x.0) p qs (λ e. n.0 (sym e)) d.0, insert-AreDistinct p qs n.1 d.1)
]

pub sort_indexs-AreDistinct : (ps : List (ℕ × Text)) → AreDistinct ps → AreDistinct (sort_indexs ps)
unfolding sort_indexs
sort_indexs-AreDistinct [] d = tt
sort_indexs-AreDistinct (p ∷ ps) d =
    insert-AreDistinct p (sort_indexs ps) (All-sort_indexs (λ x. p.0 ≢ x.0) ps d.0)
      (sort_indexs-AreDistinct ps d.1)

above : (m n : ℕ) (ps : List (ℕ × Text)) → m ≤ n → All (λ q. n ≤ q.0) ps → All (λ q. m ≤ q.0) ps
above m n [] le h = tt
above m n (p ∷ ps) le h = (omega (arith, le, h.0), above m n ps le h.1)

insert-IsAscending :
    (p : ℕ × Text) (ps : List (ℕ × Text)) → IsAscending ps → IsAscending (insert p ps)
unfolding insert
insert-IsAscending p [] a = (tt, tt)
insert-IsAscending p (q ∷ qs) a = elim (Bool-cases (leb p.0 q.0)) [
  | inl le ↦ let h = leb→le p.0 q.0 le in rw le ((h, above p.0 q.0 qs h a.0), (a.0, a.1))
  | inr gt ↦
      rw gt (All-insert (λ x. q.0 ≤ x.0) p qs (ground arith) a.0, insert-IsAscending p qs a.1)
]

pub sort_indexs-IsAscending : (ps : List (ℕ × Text)) → IsAscending (sort_indexs ps)
unfolding sort_indexs
sort_indexs-IsAscending [] = tt
sort_indexs-IsAscending (p ∷ ps) =
    insert-IsAscending p (sort_indexs ps) (sort_indexs-IsAscending ps)

pub last_of-max :
    (p : ℕ × Text) (ps : List (ℕ × Text))
    → IsAscending (p ∷ ps)
    → All (λ q. q.0 ≤ (last_of p ps).0) (p ∷ ps)
unfolding last_of
last_of-max p [] a = (omega arith, tt)
last_of-max p (q ∷ qs) a = let h = last_of-max q qs a.1 in (omega (arith, a.0.0, h.0), h)

last_of-IsIn : (p : ℕ × Text) (ps : List (ℕ × Text)) → IsIn (last_of p ps) (p ∷ ps)
unfolding last_of
last_of-IsIn p [] = inl refl
last_of-IsIn p (q ∷ qs) = inr (last_of-IsIn q qs)

insert-IsIn : (x p : ℕ × Text) (ps : List (ℕ × Text)) → IsIn x (insert p ps) → IsIn x (p ∷ ps)
unfolding insert
insert-IsIn x p [] h = h
insert-IsIn x p (q ∷ qs) h = elim (Bool-cases (leb p.0 q.0)) [
  | inl le ↦ subst (λ (b : Bool). IsIn x (if b then p ∷ q ∷ qs else q ∷ insert p qs)) le h
  | inr gt ↦ elim (subst (λ (b : Bool). IsIn x (if b then p ∷ q ∷ qs else q ∷ insert p qs)) gt h) [
    | inl here ↦ inr (inl here)
    | inr there ↦ elim (insert-IsIn x p qs there) [
      | inl first ↦ inl first
      | inr later ↦ inr (inr later)
    ]
  ]
]

sort_indexs-IsIn : (x : ℕ × Text) (ps : List (ℕ × Text)) → IsIn x (sort_indexs ps) → IsIn x ps
unfolding sort_indexs
sort_indexs-IsIn x [] h = h
sort_indexs-IsIn x (p ∷ ps) h = elim (insert-IsIn x p (sort_indexs ps) h) [
  | inl here ↦ inl here
  | inr there ↦ inr (sort_indexs-IsIn x ps there)
]

-- The last one after sorting is one of the list.
pub last_of-sort_indexs :
    (p : ℕ × Text) (ps qs : List (ℕ × Text)) → sort_indexs qs ≡ p ∷ ps → IsIn (last_of p ps) qs
last_of-sort_indexs p ps qs e =
    sort_indexs-IsIn (last_of p ps) qs (subst (IsIn (last_of p ps)) (sym e) (last_of-IsIn p ps))

pub sort_indexs-ne-nil : (p : ℕ × Text) (ps : List (ℕ × Text)) → sort_indexs (p ∷ ps) ≢ []
unfolding sort_indexs
sort_indexs-ne-nil p ps e =
    (insert-All (λ q. ⊥) p (sort_indexs ps) (subst (All (λ (q : ℕ × Text). ⊥)) (sym e) tt)).0
