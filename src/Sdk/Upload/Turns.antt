-- ===== src/Sdk/Upload/Turns.antt =====
-- Turns of the nodes, one after another and then from the first again.
use native.Mathlib.Nat.{mod_self, mod-eq_of_lt}
use thesis_dfs.Prelude.{
  inl, inr, ℕ, ◌<◌, if◌then◌else◌, suc, leb, arith, ◌≢◌, ltb, ◌%◌, ◌-◌, ◌≡◌, ◌+◌, ◌⊎◌, false,
  Bool-cases, ltb→lt,
}

-- The index goes on by one, or back to the first node.
pub next_cases :
    (i n : ℕ) → i < n → ((suc i % n ≡ suc i) × (suc i < n)) ⊎ ((suc i % n ≡ 0) × (suc i ≡ n))
next_cases i n h = elim (Bool-cases (ltb (suc i) n)) [
  | inl more ↦ inl (mod-eq_of_lt (ltb→lt (suc i) n more), ltb→lt (suc i) n more)
  | inr last ↦ inr (wrapped (suc i) n (reached last))
]
  where
    reached : ltb (suc i) n ≡ false → suc i ≡ n
    reached e = ground arith

    wrapped : (m n : ℕ) → m ≡ n → (m % n ≡ 0) × (m ≡ n)
    wrapped m n e = (rw e (mod_self n), e)

-- Rounds until the node at `j` has its turn, from the index `i` of `n`.
unfoldable pub until : ℕ → ℕ → ℕ → ℕ
until j n i = if leb i j then j - i else j + n - i

pub until-lt : (j n i : ℕ) → j < n → i < n → until j n i < n
unfolding until
until-lt j n i p q = ground arith

pub until_next : (j n i : ℕ) → j < n → i < n → i ≢ j → until j n (suc i % n) < until j n i
unfolding until
until_next j n i p q ne = elim (next_cases i n q) [
  | inl (e, more) ↦ rw e (ground (arith, ne, more))
  | inr (e, last) ↦ rw e (ground (arith, ne, last))
]

-- One more when the turn of the node at `j` is over.
unfoldable pub passed : ℕ → ℕ → ℕ
passed j i = if ltb j i then 1 else 0
