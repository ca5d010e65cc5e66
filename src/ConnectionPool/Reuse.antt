-- ===== src/ConnectionPool/Reuse.antt =====
-- A stub is made once.
use thesis_dfs.Prelude.{
  Text, text_eq, text_eq_iff, text_eq_refl, false, ◌≡◌, refl, ap, ◌∙◌, sym, [], ◌∷◌, Option, some,
  if◌then◌else◌, Bool-cases, Option-cases, inl, inr, codes, ◌⊎◌,
}
use thesis_dfs.Result.{Result, ok, err, runtime}
use thesis_dfs.ConnectionPool.{Stubs, find, set_stub, get_stub, made}

find-set_stub :
    {Stub : Type 0} (node : Text) (p : Option Stub) (stubs : Stubs Stub)
    → find node (set_stub node p stubs) ≡ p
unfolding find set_stub
find-set_stub node p [] = rw (text_eq_refl node) refl
find-set_stub node p ((n, s) ∷ stubs) = elim (Bool-cases (text_eq n node)) [
  | inl here ↦ rw (here, here) refl
  | inr other ↦ rw (other, other) (find-set_stub node p stubs)
]

find-set_stub_other :
    {Stub : Type 0} (node other : Text) (p : Option Stub) (stubs : Stubs Stub)
    → text_eq node other ≡ false
    → find other (set_stub node p stubs) ≡ find other stubs
unfolding find set_stub
find-set_stub_other node other p [] h = rw h refl
find-set_stub_other node other p ((n, s) ∷ stubs) h = elim (Bool-cases (text_eq n node)) [
  | inl here ↦ rw here (
      ap (λ m. if text_eq m other then p else find other stubs) ((text_eq_iff n node).0 here)
      ∙ ap (λ t. if t then p else find other stubs) h
      ∙ sym (
          ap (λ m. if text_eq m other then s else find other stubs) ((text_eq_iff n node).0 here)
          ∙ ap (λ t. if t then s else find other stubs) h))
  | inr away ↦
      rw away
        (ap (λ t. if text_eq n other then s else t) (find-set_stub_other node other p stubs h))
]

-- The stub was there, or was made and is there now.
after_made :
    {Stub : Type 0} (node : Text) (stubs stubs' : Stubs Stub) (stub : Stub) (r : Result Stub)
    → made node stubs r ≡ (ok stub, stubs')
    → set_stub node (some stub) stubs ≡ stubs'
unfolding made
after_made node stubs stubs' stub (ok q) e =
    ap (λ x. set_stub node (some x) stubs) (sym (same (ap (λ y. y.0) e))) ∙ ap (λ y. y.1) e
  where
    same : ok q ≡ ok stub → q ≡ stub
    same h = cc
after_made node stubs stubs' stub (err x) e = absurd (apart (ap (λ y. y.0) e))
  where
    apart : err (runtime (codes "node not online: ")) ≡ ok stub → ⊥
    apart h = cc

get_stub-found :
    {Stub : Type 0} (make : Text → Result Stub) (node : Text) (stubs : Stubs Stub) (stub : Stub)
    → find node stubs ≡ some stub
    → get_stub make node stubs ≡ (ok stub, stubs)
unfolding get_stub
get_stub-found make node stubs stub h = rw (h, get_stub) refl

some_of_ok : {Stub : Type 0} (q stub : Stub) → ok q ≡ ok stub → some q ≡ some stub
some_of_ok q stub h = cc

after_get_stub :
    {Stub : Type 0} (make : Text → Result Stub) (node : Text) (stubs stubs' : Stubs Stub)
    (stub : Stub)
    → get_stub make node stubs ≡ (ok stub, stubs')
    → ((find node stubs ≡ some stub) × (stubs ≡ stubs'))
      ⊎ (set_stub node (some stub) stubs ≡ stubs')
unfolding get_stub
after_get_stub make node stubs stubs' stub e = elim (Option-cases (find node stubs)) [
  | inl missing ↦
      inr (after_made node stubs stubs' stub (make node) (sym (rw (missing, get_stub) refl) ∙ e))
  | inr (q, there) ↦
      let found = sym (get_stub-found make node stubs q there) ∙ e in
      inl (there ∙ some_of_ok q stub (ap (λ y. y.0) found), ap (λ y. y.1) found)
]

-- The stub that get_stub returns is returned by every later call for that node, from whatever make would
-- then do, and without another change; what is found for other nodes stays as it is.
pub get_stub-again :
    {Stub : Type 0} (make make' : Text → Result Stub) (node : Text) (stubs stubs' : Stubs Stub)
    (stub : Stub)
    → get_stub make node stubs ≡ (ok stub, stubs')
    → (get_stub make' node stubs' ≡ (ok stub, stubs'))
      × ((other : Text) → text_eq node other ≡ false → find other stubs' ≡ find other stubs)
get_stub-again make make' node stubs stubs' stub e =
    elim (after_get_stub make node stubs stubs' stub e) [
      | inl (there, same) ↦ (
        get_stub-found make' node stubs' stub (ap (find node) (sym same) ∙ there),
        λ other away. ap (find other) (sym same),
      )
      | inr set ↦ (
        get_stub-found make' node stubs' stub
            (ap (find node) (sym set) ∙ find-set_stub node (some stub) stubs),
        λ other away.
            ap (find other) (sym set) ∙ find-set_stub_other node other (some stub) stubs away,
      )
    ]
