-- ===== src/StorageType/Laws.antt =====
-- The round trip of the textual form.
use thesis_dfs.Prelude.{ℕ, ◌<◌, ◌^◌, ◌≡◌, refl, [], ◌∷◌, ◌++◌, some, arith}
use thesis_dfs.Prelude.Decimal.{to_text, read_nat-to_text}
use thesis_dfs.Result.{ok}
use thesis_dfs.StorageType.{
  StorageType, rs, re, agg, to_string, from_string, match_two, match_three, triple,
}

-- The parameters are values of a 32-bit `int`.
abbrev pub IsInRange : StorageType → Type 0
IsInRange (rs k m b) = (k < 2 ^ 31) × (m < 2 ^ 31) × (b < 2 ^ 31)
IsInRange (re replications b) = (replications < 2 ^ 31) × (b < 2 ^ 31)
IsInRange (agg k m b) = (k < 2 ^ 31) × (m < 2 ^ 31) × (b < 2 ^ 31)

match_two_lem : (m b : ℕ) → match_two (to_text m ++ b',' ∷ (to_text b ++ b'>' ∷ [])) ≡ some (m, b)
unfolding match_two
match_two_lem m b =
    rw (
      read_nat-to_text m (b',' ∷ (to_text b ++ b'>' ∷ [])) refl,
      read_nat-to_text b (b'>' ∷ []) refl,
    )

match_three_lem : (k m b : ℕ) → match_three (triple k m b) ≡ some (k, m, b)
unfolding match_three
match_three_lem k m b =
    rw (read_nat-to_text k _ refl, read_nat-to_text m _ refl, read_nat-to_text b (b'>' ∷ []) refl)

-- Reading the text of a storage type gives that type back, if its numbers are 32-bit integers.
pub from_string-to_string : (s : StorageType) → IsInRange s → from_string (to_string s) ≡ ok s
unfolding from_string to_string
from_string-to_string (rs k m b) h = rw (match_three_lem k m b) (ground arith)
from_string-to_string (re replications b) h = rw (match_two_lem replications b) (ground arith)
from_string-to_string (agg k m b) h = rw (match_three_lem k m b) (ground arith)
