-- ===== src/StorageType.antt =====
-- src/common/storage_type.cpp and include/common/storage_type.h. The Reed-Solomon code is
-- liberasurecode's, a parameter.
pub mod Laws
pub mod Fragments
use thesis_dfs.Prelude.{
  ℕ, zero, suc, ◌+◌, ◌*◌, ◌<◌, ◌≤◌, ◌^◌, ◌≡◌, Text, codes, Bool, true, false, List, [], ◌∷◌, ◌++◌,
  ltb, leb, ◌==◌, if◌then◌else◌, Option, none, some, length, take, replicate,
}
use thesis_dfs.Prelude.Decimal.{to_text, read_nat}
use thesis_dfs.Result.{
  Result, ok, err, runtime, out_of_range, aborted, undefined, ◌>>=◌, ◌>>◌, throw_if,
}

-- The classes, with the block size `b` in MB.
pub data StorageType : Type 0 where
  rs : ℕ → ℕ → ℕ → StorageType
  re : ℕ → ℕ → StorageType
  agg : ℕ → ℕ → ℕ → StorageType

abbrev triple : ℕ → ℕ → ℕ → Text
triple k m b = to_text k ++ b',' ∷ (to_text m ++ b',' ∷ (to_text b ++ b'>' ∷ []))

unfoldable pub to_string : StorageType → Text
to_string (rs k m b) = codes "RS<" ++ triple k m b
to_string (re replications b) =
    codes "RE<" ++ (to_text replications ++ b',' ∷ (to_text b ++ b'>' ∷ []))
to_string (agg k m b) = codes "AGG<" ++ triple k m b

-- The parts of the regular expression: a literal, and `(\d+)`.
literal : Text → Text → Option Text
literal [] t = some t
literal (c ∷ p) [] = none
literal (c ∷ p) (d ∷ t) = if c == d then literal p t else none

and_then {ℓ κ} : {A : Type ℓ} {B : Type κ} → Option A → (A → Option B) → Option B
and_then none f = none
and_then (some a) f = f a

at_end : Text → Option (Unit {0})
at_end [] = some tt
at_end (c ∷ t) = none

-- `(\d+),(\d+)>` and `(\d+),(\d+),(\d+)>` up to the end of the text.
match_two : Text → Option (ℕ × ℕ)
unfolding literal and_then at_end
match_two t = and_then (read_nat t) λ r. and_then (literal (codes ",") r.1) λ t₁.
    and_then (read_nat t₁)
      λ s. and_then (literal (codes ">") s.1) λ t₂. and_then (at_end t₂) λ _. some (r.0, s.0)

match_three : Text → Option (ℕ × ℕ × ℕ)
unfolding literal and_then at_end match_two
match_three t =
    and_then (read_nat t) λ r.
      and_then (literal (codes ",") r.1) λ t₁. and_then (match_two t₁) λ s. some (r.0, s.0, s.1)

-- `std::stoi` on a match of `\d+`.
stoi_digits : ℕ → Result ℕ
stoi_digits n = if ltb n (2 ^ 31) then ok n else err out_of_range

make_three : (ℕ → ℕ → ℕ → StorageType) → ℕ × ℕ × ℕ → Result StorageType
unfolding stoi_digits
make_three make (a, b, c) = do
  k ← stoi_digits a
  m ← stoi_digits b
  size ← stoi_digits c
  ok (make k m size)

make_two : ℕ × ℕ → Result StorageType
unfolding stoi_digits
make_two (a, b) = do replications ← stoi_digits a; size ← stoi_digits b; ok (re replications size)

otherwise {ℓ κ} : {A : Type ℓ} {B : Type κ} → Option A → (A → B) → B → B
otherwise none f b = b
otherwise (some a) f b = f a

-- The static function `from_string`: the three alternatives of the pattern in turn.
unfoldable pub from_string : Text → Result StorageType
unfolding literal and_then match_two match_three make_three make_two otherwise
from_string input = otherwise (and_then (literal (codes "RS<") input) match_three) (make_three rs) (
    otherwise (and_then (literal (codes "RE<") input) match_two) make_two (
      otherwise (and_then (literal (codes "AGG<") input) match_three) (make_three agg)
        (err (runtime (codes "cannot solve " ++ input)))))

-- `int` arithmetic; with `b` from 2048 on it overflows.
unfoldable pub get_block_size : StorageType → ℕ
get_block_size (rs k m b) = b * 1024 * 1024
get_block_size (re replications b) = b * 1024 * 1024
get_block_size (agg k m b) = b * 1024 * 1024

unfoldable pub get_blocks : StorageType → ℕ
get_blocks (rs k m b) = k + m
get_blocks (re replications b) = replications
get_blocks (agg k m b) = k + m

unfoldable pub get_decode_blocks : StorageType → ℕ
get_decode_blocks (rs k m b) = k
get_decode_blocks (re replications b) = 1
get_decode_blocks (agg k m b) = k

-- `check(success)`
unfoldable pub check : StorageType → ℕ → Bool
check (rs k m b) success = ltb k success
check (re replications b) success = leb 1 success
check (agg k m b) success = ltb k success

-- `Chosen fs gs`: the fragments `gs` are some of `fs`, in their order.
pub data Chosen : List Text → List Text → Type 0 where
  done : Chosen [] []
  keep : {f : Text} {fs gs : List Text} → Chosen fs gs → Chosen (f ∷ fs) (f ∷ gs)
  skip : {f : Text} {fs gs : List Text} → Chosen fs gs → Chosen (f ∷ fs) gs

-- liberasurecode with the Vandermonde Reed-Solomon backend: it encodes into k + m fragments, and any
-- k of these give the data back.
pub record ErasureCode : Type 0 where
  pub encode : ℕ → ℕ → Text → Result (List Text)
  pub decode : ℕ → ℕ → List Text → Result Text
  pub encode-length :
      (k m : ℕ) (block : Text) (fs : List Text) → encode k m block ≡ ok fs → length fs ≡ k + m
  pub decode-encode :
      (k m : ℕ) (block : Text) (fs gs : List Text)
      → encode k m block ≡ ok fs
      → Chosen fs gs
      → length gs ≡ k
      → decode k m gs ≡ ok block

module _ (code : ErasureCode) where
  -- The virtual function `encode`, with `rs_encode`.
  unfoldable pub encode : StorageType → Text → Result (List Text)
  encode (rs k m b) block = code.encode k m block
  encode (re replications b) block = ok (replicate replications block)
  encode (agg k m b) block = code.encode k m block

  -- `rs_decode` hands the first k fragments over; without any it reads `vec[0]`.
  rs_decode : ℕ → ℕ → List Text → Result Text
  rs_decode k m [] = err undefined
  rs_decode k m (f ∷ fs) = code.decode k m (take k (f ∷ fs))

  front : List Text → Result Text
  front [] = err undefined
  front (f ∷ fs) = ok f

  or_no_data : List Text → Result Text → Result Text
  or_no_data [] r = err (runtime (codes "no data"))
  or_no_data (f ∷ fs) r = r

  -- The virtual function `decode`.
  unfoldable pub decode : StorageType → List Text → Result Text
  unfolding rs_decode front or_no_data
  decode (rs k m b) vec = do
    throw_if (ltb (length vec) k) aborted
    throw_if (ltb (k + m) (length vec)) aborted
    rs_decode k m vec
  decode (re replications b) vec = front vec
  decode (agg k m b) vec = or_no_data vec (rs_decode k m vec)
