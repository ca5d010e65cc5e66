-- ===== src/UploadQueue/Batches.antt =====
-- `get_until_size`: the batch of small files for one aggregate.
use thesis_dfs.UploadQueue.{Heap, take_until, get_until_size, UploadQueue}
use thesis_dfs.Prelude.{
  ℕ, ◌+◌, ◌<◌, ◌≤◌, ◌^◌, ◌%◌, List, [], ◌∷◌, ◌++◌, ◌≡◌, refl, arith, inl, inr, Bool-cases, ltb, ap,
  false, ltb→lt,
}

-- The sizes of the tasks, added up without a bound.
unfoldable pub total : Heap → List ℕ → ℕ
total heap [] = 0
total heap (p ∷ ps) = (heap p).size + total heap ps

-- The tasks that stay are none, or the first of them does not fit any more.
abbrev pub IsFull : Heap → ℕ → ℕ → List ℕ → Type 0
IsFull heap size sum [] = Unit {0}
IsFull heap size sum (p ∷ ps) = size ≤ sum + (heap p).size

-- What the loop leaves of the queue `ps`, with `sum` taken before it.
abbrev IsSplit : Heap → ℕ → ℕ → List ℕ → List ℕ × List ℕ → Type 0
IsSplit heap size sum ps r =
    (r.0 ++ r.1 ≡ ps) × (sum + total heap r.0 < size) × IsFull heap size (sum + total heap r.0) r.1

IsSplit-more :
    (heap : Heap) (size sum p : ℕ) (ps : List ℕ) (r : List ℕ × List ℕ)
    → IsSplit heap size (sum + (heap p).size) ps r
    → IsSplit heap size sum (p ∷ ps) (p ∷ r.0, r.1)
unfolding total
IsSplit-more heap size sum p ps r h = (
  ap (λ qs. p ∷ qs) h.0,
  rw (assoc (heap p).size (total heap r.0)) h.1,
  rw (assoc (heap p).size (total heap r.0)) h.2,
)
  where
    assoc : (a b : ℕ) → sum + (a + b) ≡ sum + a + b
    assoc a b = omega arith

IsSplit-none :
    (heap : Heap) (size sum p : ℕ) (ps : List ℕ)
    → sum < size
    → size ≤ sum + (heap p).size
    → IsSplit heap size sum (p ∷ ps) ([], p ∷ ps)
unfolding total
IsSplit-none heap size sum p ps h full = (refl, omega (arith, h), omega (arith, full))

take_until-IsSplit :
    (heap : Heap) (size sum : ℕ) (ps : List ℕ)
    → sum < size
    → sum + total heap ps < 2 ^ 64
    → IsSplit heap size sum ps (take_until heap size sum ps)
unfolding take_until total
take_until-IsSplit heap size sum [] h fits = (refl, omega (arith, h), tt)
take_until-IsSplit heap size sum (p ∷ ps) h fits =
    rw (no_wrap (heap p).size (total heap ps) fits)
      (elim (Bool-cases (ltb (sum + (heap p).size) size)) [
        | inl more ↦ rw more (
            IsSplit-more heap size sum p ps _ (
              take_until-IsSplit heap size (sum + (heap p).size) ps (ltb→lt _ size more)
                (omega (arith, fits))))
        | inr full ↦
            rw full (IsSplit-none heap size sum p ps h (reached (sum + (heap p).size) size full))
      ])
  where
    no_wrap : (a b : ℕ) → sum + (a + b) < 2 ^ 64 → (sum + a) % 2 ^ 64 ≡ sum + a
    no_wrap a b q = omega (arith, q)

    reached : (a b : ℕ) → ltb a b ≡ false → b ≤ a
    reached a b q = ground arith

-- A batch is taken from the front of the queue, in order, and the rest stays: the sizes of the batch
-- are together less than the limit, and the next task, if there is one, would reach it. The limit is
-- not 0, and the sizes in the queue add up to less than 2^64.
pub get_until_size-split :
    (heap : Heap) (q : UploadQueue) (size : ℕ)
    → 0 < size
    → total heap q.que < 2 ^ 64
    → let (taken, q') = get_until_size heap q size in
      (taken ++ q'.que ≡ q.que)
      × (total heap taken < size)
      × IsFull heap size (total heap taken) q'.que
unfolding get_until_size
get_until_size-split heap q size h fits =
    rw (← zero_add (total heap (take_until heap size 0 q.que).0))
      (take_until-IsSplit heap size 0 q.que h (omega (arith, fits)))
  where
    zero_add : (n : ℕ) → 0 + n ≡ n
    zero_add n = omega arith
