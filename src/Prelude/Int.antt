-- ===== src/Prelude/Int.antt =====
-- Signed integers over the native numbers, and `int` as text: `std::to_string` and `std::stoi`.
use Prim.Native.Nat.{ℕ, zero, suc, ◌<◌, ◌^◌}
use mathlib.Core.Path.{◌≡◌}
use mathlib.Core.Bool.{Bool, true, false, ◌&&◌, ◌||◌}
use mathlib.Core.List.{[], ◌∷◌, ◌++◌}
use mathlib.Core.Option.{Option, none, some}
use native.Mathlib.Omega.{arith}
use thesis_dfs.Prelude.Tests.{ltb, leb, ◌==◌, if◌then◌else◌}
use thesis_dfs.Prelude.Texts.{Text}
use thesis_dfs.Prelude.Decimal.{
  to_text, read_nat, read_nat-to_text, starts_digit, starts_digit-to_text,
}
use thesis_dfs.Result.{Result, ok, err, invalid_argument, out_of_range}

-- `negsuc n` is -(n + 1).
pub data ℤ : Type 0 where
  pos : ℕ → ℤ
  negsuc : ℕ → ℤ

-- `std::to_string(int)`
unfoldable pub int_to_text : ℤ → Text
int_to_text (pos n) = to_text n
int_to_text (negsuc n) = b'-' ∷ to_text (suc n)

-- The values of a 32-bit `int`.
abbrev pub IsInt : ℤ → Type 0
IsInt (pos n) = n < 2 ^ 31
IsInt (negsuc n) = n < 2 ^ 31

-- `isspace` in the C locale
abbrev pub is_space : ℕ → Bool
is_space c = c == 32 || (leb 9 c && leb c 13)

unfoldable pub skip_spaces : Text → Text
skip_spaces [] = []
skip_spaces (c ∷ t) = let rest = skip_spaces t in if is_space c then rest else c ∷ t

positive : Option (ℕ × Text) → Result ℤ
positive none = err invalid_argument
positive (some (n, _)) = if ltb n (2 ^ 31) then ok (pos n) else err out_of_range

negative : Option (ℕ × Text) → Result ℤ
negative none = err invalid_argument
negative (some (zero, _)) = ok (pos 0)
negative (some (suc n, _)) = if ltb n (2 ^ 31) then ok (negsuc n) else err out_of_range

signed : Text → Result ℤ
unfolding positive negative
signed [] = err invalid_argument
signed (c ∷ t) =
    if c == b'-'
    then negative (read_nat t)
    else if c == b'+'
    then positive (read_nat t)
    else positive (read_nat (c ∷ t))

-- `std::stoi`: what follows the digits is ignored.
unfoldable pub stoi : Text → Result ℤ
unfolding skip_spaces signed
stoi t = signed (skip_spaces t)

stoi-digits : (t : Text) → starts_digit t ≡ true → stoi t ≡ positive (read_nat t)
unfolding stoi
stoi-digits [] h = cc
stoi-digits (c ∷ t) h = ground arith

-- An `int` is read back from its text, whatever follows, if that is not a digit.
pub stoi-int_to_text :
    (z : ℤ) (rest : Text)
    → IsInt z
    → starts_digit rest ≡ false
    → stoi (int_to_text z ++ rest) ≡ ok z
unfolding int_to_text
stoi-int_to_text (pos n) rest h e =
    rw (stoi-digits (to_text n ++ rest) (starts_digit-to_text n rest), read_nat-to_text n rest e)
      (unfold positive in ground arith)
stoi-int_to_text (negsuc n) rest h e =
    unfold stoi in rw (read_nat-to_text (suc n) rest e) (ground arith)
