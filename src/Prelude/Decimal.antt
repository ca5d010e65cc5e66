-- ===== src/Prelude/Decimal.antt =====
-- `std::to_string` of a non-negative integer, and the reading of digits that `stoi` makes.
use Prim.Native.Nat.{ℕ, zero, suc, ◌+◌, ◌-◌, ◌*◌, ◌/◌, ◌%◌, ◌<◌}
use mathlib.Core.Path.{◌≡◌, refl}
use mathlib.Core.Logic.{inl, inr}
use mathlib.Core.Bool.{Bool, true, false, ◌&&◌}
use mathlib.Core.List.{[], ◌∷◌, ◌++◌}
use mathlib.Core.Option.{Option, none, some}
use native.Mathlib.Omega.{arith}
use thesis_dfs.Prelude.Tests.{ltb, leb, if◌then◌else◌, Bool-cases}
use thesis_dfs.Prelude.Texts.{Text}

-- `isdigit`
abbrev pub is_digit : ℕ → Bool
is_digit c = leb 48 c && leb c 57

-- The digits of `n` in front of `rest`; each round divides by ten, so `n + 1` rounds are enough.
print : ℕ → ℕ → Text → Text
print zero n rest = rest
print (suc f) n rest =
    let more = print f (n / 10) ((48 + n % 10) ∷ rest) in if ltb n 10 then (48 + n) ∷ rest else more

-- `std::to_string`
unfoldable pub to_text : ℕ → Text
unfolding print
to_text n = print (suc n) n []

abbrev pub starts_digit : Text → Bool
starts_digit [] = false
starts_digit (c ∷ t) = is_digit c

-- The number that the leading digits spell, after `acc`, and the rest of the text.
unfoldable pub read : ℕ → Text → ℕ × Text
read acc [] = (acc, [])
read acc (c ∷ t) =
    let more = read (acc * 10 + (c - 48)) t in if is_digit c then more else (acc, c ∷ t)

-- `(\d+)`
unfoldable pub read_nat : Text → Option (ℕ × Text)
unfolding read
read_nat t = if starts_digit t then some (read 0 t) else none

print-append : (f n : ℕ) (rest more : Text) → print f n rest ++ more ≡ print f n (rest ++ more)
unfolding print
print-append zero n rest more = refl
print-append (suc f) n rest more =
    ground (arith, print-append f (n / 10) ((48 + n % 10) ∷ rest) more)

read-print : (f n : ℕ) (rest : Text) → n < f → read 0 (print f n rest) ≡ read n rest
unfolding print read
read-print zero n rest h = elim h [ ]
read-print (suc f) n rest h = elim (Bool-cases (ltb n 10)) [
  | inl small ↦ rw small (ground arith)
  | inr large ↦ rw large (ground (arith, read-print f (n / 10) ((48 + n % 10) ∷ rest)))
]

starts_digit-print : (f n : ℕ) (rest : Text) → n < f → starts_digit (print f n rest) ≡ true
unfolding print
starts_digit-print zero n rest h = elim h [ ]
starts_digit-print (suc f) n rest h =
    ground (arith, starts_digit-print f (n / 10) ((48 + n % 10) ∷ rest))

read_stop : (n : ℕ) (rest : Text) → starts_digit rest ≡ false → read n rest ≡ (n, rest)
unfolding read
read_stop n [] h = refl
read_stop n (c ∷ t) h = rw h

-- Printing and reading back, whatever follows, if that is not a digit.
pub read_nat-to_text :
    (n : ℕ) (rest : Text)
    → starts_digit rest ≡ false
    → read_nat (to_text n ++ rest) ≡ some (n, rest)
unfolding read_nat to_text
read_nat-to_text n rest h =
    rw (print-append (suc n) n [] rest, starts_digit-print (suc n) n rest (omega arith))
      (rw (read-print (suc n) n rest (omega arith), read_stop n rest h))

pub starts_digit-to_text : (n : ℕ) (rest : Text) → starts_digit (to_text n ++ rest) ≡ true
unfolding to_text
starts_digit-to_text n rest =
    rw (print-append (suc n) n [] rest) (starts_digit-print (suc n) n rest (omega arith))

abbrev pub all_digits : Text → Bool
all_digits [] = true
all_digits (c ∷ t) = is_digit c && all_digits t

all_digits-print :
    (f n : ℕ) (rest : Text) → all_digits rest ≡ true → all_digits (print f n rest) ≡ true
unfolding print
all_digits-print zero n rest h = h
all_digits-print (suc f) n rest h =
    ground (arith, all_digits-print f (n / 10) ((48 + n % 10) ∷ rest))

pub all_digits-to_text : (n : ℕ) → all_digits (to_text n) ≡ true
unfolding to_text
all_digits-to_text n = all_digits-print (suc n) n [] refl
