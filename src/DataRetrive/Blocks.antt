-- ===== src/DataRetrive/Blocks.antt =====
-- The blocks of a file, put together again.
use thesis_dfs.Result.{ok}
use thesis_dfs.DataRetrive.{memcpy, copy_blocks, last_block, split_all_block}
use thesis_dfs.Prelude.{
  ℕ, zero, suc, ◌+◌, ◌-◌, ◌*◌, ◌/◌, ◌%◌, ◌≤◌, ◌≡◌, refl, Text, List, [], ◌∷◌, ◌++◌, length, take,
  drop, arith, ap, ◌∙◌, sym, All, append-nil, append_assoc, take_add, drop_add, drop_all, take_all,
  length-take, length-drop, length-append, subst, ◌<◌, ltb, false, Bool-cases, inl,
  take-append-drop, inr, replicate, length-replicate,
}

-- The blocks one after the other.
unfoldable pub concat : List Text → Text
concat [] = []
concat (block ∷ blocks) = block ++ concat blocks

concat-append : (xs ys : List Text) → concat (xs ++ ys) ≡ concat xs ++ concat ys
unfolding concat
concat-append [] ys = refl
concat-append (x ∷ xs) ys = rw (concat-append xs ys) (sym (append_assoc x (concat xs) (concat ys)))

-- What the loop leaves: blocks of the full size that hold the bytes of these rounds, and the buffer.
record IsCopied (b : ℕ) (data_left : Text) (rounds : ℕ) (r : Text × List Text) : Type 0 where
  buffer : length r.0 ≡ b
  full : All (λ block. length block ≡ b) r.1
  bytes : concat r.1 ≡ take (rounds * b) data_left

memcpy_full : (b : ℕ) (tmp source : Text) → length tmp ≡ b → memcpy tmp source b ≡ take b source
unfolding memcpy
memcpy_full b tmp source e = rw (drop_all b tmp (omega (arith, e))) (append-nil (take b source))

suc_times : (r b : ℕ) → suc r * b ≡ b + r * b
suc_times r b = grind arith

times_suc : (r b : ℕ) → suc r * b ≡ r * b + b
times_suc r b = grind arith

zero_times : (b : ℕ) → 0 * b ≡ 0
zero_times b = omega arith

IsCopied-more :
    (b : ℕ) (left : Text) (rounds : ℕ) (r : Text × List Text)
    → b ≤ length left
    → IsCopied b (drop b left) rounds r
    → IsCopied b left (suc rounds) (r.0, take b left ∷ r.1)
unfolding concat
IsCopied-more b left rounds r h c = record {
  buffer = c.buffer;
  full = (omega (arith, h, length-take b left), c.full);
  bytes =
      ap (λ t. take b left ++ t) c.bytes
      ∙ sym (take_add b (rounds * b) left)
      ∙ ap (λ n. take n left) (sym (suc_times rounds b));
}

copy_blocks-IsCopied :
    (b : ℕ) (raw : Text) (rounds i : ℕ) (tmp : Text)
    → length tmp ≡ b
    → rounds * b ≤ length (drop (i * b) raw)
    → IsCopied b (drop (i * b) raw) rounds (copy_blocks b raw rounds i tmp)
unfolding copy_blocks concat
copy_blocks-IsCopied b raw zero i tmp e h = record {
  buffer = e;
  full = tt;
  bytes = ap (λ n. take n (drop (i * b) raw)) (sym (zero_times b));
}
copy_blocks-IsCopied b raw (suc rounds) i tmp e h =
    let left = drop (i * b) raw in
    let next : drop (suc i * b) raw ≡ drop b left =
      ap (λ n. drop n raw) (times_suc i b) ∙ drop_add (i * b) b raw in
    let fits : b ≤ length left = first_fits rounds (length left) h in
    rw (memcpy_full b tmp left e) (
      IsCopied-more b left rounds _ fits (
        subst (λ t. IsCopied b t rounds (copy_blocks b raw rounds (suc i) (take b left))) next
          (copy_blocks-IsCopied b raw rounds (suc i) (take b left)
            (omega (arith, fits, length-take b left))
            (rw next (omega (arith, length-drop b left, rest_fits rounds (length left) h))))))
  where
    first_fits : (r n : ℕ) → suc r * b ≤ n → b ≤ n
    first_fits r n q = omega (arith, suc_times r b, q)

    rest_fits : (r n : ℕ) → suc r * b ≤ n → r * b ≤ n - b
    rest_fits r n q = omega (arith, suc_times r b, q)

-- What the blocks of a file are: each of the block size, and after one another the bytes of the file
-- with something behind them.
pub record IsSplit (b : ℕ) (raw : Text) (vec : List Text) : Type 0 where
  pub full : All (λ block. length block ≡ b) vec
  pub rest : Text
  pub bytes : concat vec ≡ raw ++ rest

append-All :
    (b : ℕ) (xs : List Text) (y : Text)
    → All (λ block. length block ≡ b) xs
    → length y ≡ b
    → All (λ block. length block ≡ b) (xs ++ y ∷ [])
append-All b [] y h e = (e, tt)
append-All b (x ∷ xs) y h e = (h.0, append-All b xs y h.1 e)

div_mod : (n b : ℕ) → 0 < b → n / b * b + n % b ≡ n
div_mod n b pos = grind arith

mod_less : (n b : ℕ) → 0 < b → n % b < b
mod_less n b pos = omega arith

last_block-IsSplit :
    (b : ℕ) (raw : Text) (r : Text × List Text)
    → 0 < b
    → IsCopied b raw (length raw / b) r
    → IsSplit b raw (last_block b raw r)
unfolding last_block memcpy concat
last_block-IsSplit b raw (tmp, vec) pos c =
    let rem = length raw % b in
    let n = length raw / b * b in
    elim (Bool-cases (ltb 0 rem)) [
      | inl some_left ↦ rw some_left (record {
        full = append-All b vec _ c.full (last_full c.buffer);
        rest = drop rem tmp;
        bytes =
            concat-append vec _
            ∙ ap (λ t. t ++ ((take rem (drop n raw) ++ drop rem tmp) ++ [])) c.bytes
            ∙ ap (λ t. take n raw ++ t) (append-nil _)
            ∙ ap (λ t. take n raw ++ (t ++ drop rem tmp)) (take_all rem (drop n raw) left)
            ∙ sym (append_assoc (take n raw) (drop n raw) (drop rem tmp))
            ∙ ap (λ t. t ++ drop rem tmp) (take-append-drop n raw);
      })
      | inr none_left ↦ rw none_left (record {
        full = c.full;
        rest = [];
        bytes = c.bytes ∙ take_all n raw (whole none_left) ∙ sym (append-nil raw);
      })
    ]
  where
    left : length (drop (length raw / b * b) raw) ≤ length raw % b
    left = omega (arith, length-drop (length raw / b * b) raw, div_mod (length raw) b pos)

    last_full :
        length tmp ≡ b
        → length
            (take (length raw % b) (drop (length raw / b * b) raw) ++ drop (length raw % b) tmp)
          ≡ b
    last_full e = omega (
      arith,
      e,
      pos,
      length-append (take (length raw % b) (drop (length raw / b * b) raw))
          (drop (length raw % b) tmp),
      length-take (length raw % b) (drop (length raw / b * b) raw),
      length-drop (length raw / b * b) raw,
      length-drop (length raw % b) tmp,
      div_mod (length raw) b pos,
      mod_less (length raw) b pos,
    )

    whole : ltb 0 (length raw % b) ≡ false → length raw ≤ length raw / b * b
    whole e = ground (arith, div_mod (length raw) b pos)

-- Splitting a file by a block size other than 0 gives blocks of exactly that size, which hold the
-- file's bytes in their order, with something behind the last of them if the file does not fill it.
pub split_all_block-IsSplit :
    (b : ℕ) (raw : Text)
    → 0 < b
    → (vec : List Text) × (split_all_block b raw ≡ ok vec) × IsSplit b raw vec
unfolding split_all_block
split_all_block-IsSplit zero raw pos = absurd (omega (arith, pos))
split_all_block-IsSplit (suc b) raw pos =
    let copied =
      copy_blocks-IsCopied (suc b) raw (length raw / suc b) 0 (replicate (suc b) 0)
        (length-replicate (suc b) 0)
        (rw (zero_times (suc b)) (omega (arith, div_mod (length raw) (suc b) pos))) in
    (
      _,
      refl,
      last_block-IsSplit (suc b) raw _ pos (
          subst
            (λ n.
              IsCopied (suc b) (drop n raw) (length raw / suc b)
                (copy_blocks (suc b) raw (length raw / suc b) 0 (replicate (suc b) 0)))
            (zero_times (suc b)) copied),
    )
