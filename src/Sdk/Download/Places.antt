-- ===== src/Sdk/Download/Places.antt =====
-- The place of a small file in an aggregate, read back from the text that `putAggFile` writes.
use thesis_dfs.Prelude.{
  ℕ, ◌+◌, ◌-◌, ◌≤◌, ◌<◌, ◌^◌, ◌≡◌, refl, ap, ◌∙◌, sym, Text, true, false, [], ◌∷◌, ◌++◌, reverse,
  reverse-append, reverse-reverse, some, ◌==◌, arith, append-nil, lt→ltb, Bool, ◌&&◌, append_assoc,
  length, take, drop,
}
use thesis_dfs.Prelude.Int.{pos, skip_spaces, is_space}
use thesis_dfs.Prelude.Decimal.{
  to_text, read_nat, read_nat-to_text, starts_digit, starts_digit-to_text, is_digit,
  all_digits-to_text,
}
use thesis_dfs.Prelude.Split.{lacks, after-append, before-append, lacks-append}
use thesis_dfs.Node.Lines.{lacks-digits}
use thesis_dfs.Result.{ok}
use thesis_dfs.Sdk.Download.{
  agg_range, begin_end, extract, extract_signed, in_range, after_begin, second_of, before_last,
  after_last, range_of, agg_slice,
}

lacks-reverse : (c : ℕ) (t : Text) → lacks c t ≡ true → lacks c (reverse t) ≡ true
lacks-reverse c [] h = refl
lacks-reverse c (d ∷ t) h =
    ap (lacks c) (reverse-append (d ∷ []) t)
    ∙ lacks-append c (reverse t) (d ∷ [])
    ∙ ground (arith, lacks-reverse c t, h)

skip_spaces-digit : (t : Text) → starts_digit t ≡ true → skip_spaces t ≡ t
unfolding skip_spaces
skip_spaces-digit [] h = refl
skip_spaces-digit (c ∷ t) h = rw (no_space c h) refl
  where
    no_space : (d : ℕ) → is_digit d ≡ true → is_space d ≡ false
    no_space d q = ground arith

extract_signed-digit :
    (t : Text) → starts_digit t ≡ true → extract_signed t ≡ in_range pos (2 ^ 31) (read_nat t)
unfolding extract_signed
extract_signed-digit [] h = cc
extract_signed-digit (c ∷ t) h = rw (no_minus c h, no_plus c h) refl
  where
    no_minus : (d : ℕ) → is_digit d ≡ true → (d == b'-') ≡ false
    no_minus d q = ground arith

    no_plus : (d : ℕ) → is_digit d ≡ true → (d == b'+') ≡ false
    no_plus d q = ground arith

extract-to_text :
    (n : ℕ) (rest : Text)
    → n < 2 ^ 31
    → starts_digit rest ≡ false
    → extract (to_text n ++ rest) ≡ some (pos n, rest)
unfolding extract in_range
extract-to_text n rest h stop =
    ap extract_signed (skip_spaces-digit (to_text n ++ rest) (starts_digit-to_text n rest))
    ∙ extract_signed-digit (to_text n ++ rest) (starts_digit-to_text n rest)
    ∙ ap (in_range pos (2 ^ 31)) (read_nat-to_text n rest stop)
    ∙ rw (lt→ltb n (2 ^ 31) h) refl

begin_end-place :
    (b e : ℕ)
    → b < 2 ^ 31
    → e < 2 ^ 31
    → begin_end (to_text b ++ b'|' ∷ to_text e) ≡ some (pos b, pos e)
unfolding begin_end after_begin second_of skip_spaces
begin_end-place b e hb he =
    ap after_begin (extract-to_text b (b'|' ∷ to_text e) hb refl)
    ∙ ap (second_of (pos b))
        (ap extract (sym (append-nil (to_text e))) ∙ extract-to_text e [] he refl)

-- A location with a place behind it is read back as both.
pub agg_range-place :
    (location : Text) (b e : ℕ)
    → b < 2 ^ 31
    → e < 2 ^ 31
    → agg_range (location ++ b',' ∷ (to_text b ++ b'|' ∷ to_text e)) ≡ ok (location, pos b, pos e)
unfolding agg_range before_last after_last range_of
agg_range-place location b e hb he =
    rw
      (
        some_comma,
        turned,
        before-append b',' (reverse place) (reverse location) lacks_comma,
        after-append b',' (reverse place) (reverse location) lacks_comma,
        reverse-reverse place,
        reverse-reverse location,
        begin_end-place b e hb he,
      )
      refl
  where
    place : Text
    place = to_text b ++ b'|' ∷ to_text e

    never : (x : Bool) → (x && false) ≡ false
    never true = refl
    never false = refl

    some_comma : lacks b',' (location ++ b',' ∷ place) ≡ false
    some_comma = lacks-append b',' location (b',' ∷ place) ∙ never (lacks b',' location)

    turned : reverse (location ++ b',' ∷ place) ≡ reverse place ++ b',' ∷ reverse location
    turned =
        reverse-append location (b',' ∷ place)
        ∙ ap (λ t. t ++ reverse location) (reverse-append (b',' ∷ []) place)
        ∙ append_assoc (reverse place) (b',' ∷ []) (reverse location)

    lacks_comma : lacks b',' (reverse place) ≡ true
    lacks_comma = lacks-reverse b',' place (
        rw
          (
            lacks-append b',' (to_text b) (b'|' ∷ to_text e),
            lacks-digits b',' (to_text b) refl (all_digits-to_text b),
            lacks-digits b',' (to_text e) refl (all_digits-to_text e),
          )
          refl)

pub agg_slice-inside :
    (b e : ℕ) (block : Text)
    → b < e
    → e ≤ length block
    → agg_slice (pos b) (pos e) block ≡ ok (take (e - b + 1) (drop b block))
unfolding agg_slice
agg_slice-inside b e block h k = ground (arith, h, k)
