-- ===== src/Stream/Chunks.antt =====
-- What a receiver has after the chunks of a text were written to a stream.
use thesis_dfs.Prelude.Split.{is_empty}
use thesis_dfs.Stream.{
  Sent, StreamReceiver, chunk_size, send_block, send_file, on_received_messages, min, write_first,
  new_receiver,
}
use thesis_dfs.DataRetrive.Blocks.{concat}
use thesis_dfs.Prelude.{
  ℕ, zero, suc, ◌+◌, ◌-◌, ◌≤◌, ◌<◌, ◌≡◌, refl, ◌∙◌, ap, sym, Text, Bool, true, false, List, [], ◌∷◌,
  ◌++◌, length, take, drop, arith, Bool-cases, ltb, inl, inr, append_assoc, append-nil, take_all,
  drop_all, drop_add, take-append-drop, length-drop, take_add, leb, not, ◌⊎◌, subst,
}

positive : 0 < chunk_size
unfolding chunk_size
positive = omega arith

-- Either all of the text was written, or the flag is set and a part from its front was.
pub record IsSent (text : Text) (s : Sent) : Type 0 where
  pub count : ℕ
  pub part : concat s.0 ≡ take count text
  pub all : s.1 ≡ false → concat s.0 ≡ text

received :
    (messages : List Text) (r : StreamReceiver)
    → (on_received_messages messages r).ss ≡ r.ss ++ concat messages
unfolding on_received_messages concat
received [] r = sym (append-nil r.ss)
received (m ∷ messages) r =
    received messages (record r { ss = r.ss ++ m }) ∙ append_assoc r.ss m (concat messages)

min_cases : (n m : ℕ) → (min n m ≡ n) ⊎ ((min n m ≡ m) × (m ≤ n))
min_cases n m = elim (Bool-cases (leb n m)) [
  | inl within ↦ inl (ground (arith, within))
  | inr more ↦ inr (ground (arith, more), ground (arith, more))
]

take-min : (n : ℕ) (ys : Text) → take (min n (length ys)) ys ≡ take n ys
take-min n ys = elim (min_cases n (length ys)) [
  | inl e ↦ ap (λ m. take m ys) e
  | inr (e, less) ↦
      ap (λ m. take m ys) e ∙ take_all (length ys) ys (omega arith) ∙ sym (take_all n ys less)
]

drop-min : (n : ℕ) (ys : Text) → drop (min n (length ys)) ys ≡ drop n ys
drop-min n ys = elim (min_cases n (length ys)) [
  | inl e ↦ ap (λ m. drop m ys) e
  | inr (e, less) ↦
      ap (λ m. drop m ys) e ∙ drop_all (length ys) ys (omega arith) ∙ sym (drop_all n ys less)
]

no_text : (t : Text) → length t ≤ 0 → [] ≡ t
no_text [] h = refl
no_text (c ∷ t) h = absurd (omega (arith, h))

is_empty-take : (n : ℕ) (ys : Text) → 0 < n → is_empty (take n ys) ≡ not (ltb 0 (length ys))
is_empty-take zero ys h = absurd (omega (arith, h))
is_empty-take (suc n) [] h = refl
is_empty-take (suc n) (y ∷ ys) h = ground arith

-- The sender in the client and the one in the datanode write the same messages.
send_block-send_file :
    (outcome : ℕ → Bool) (fuel k : ℕ) (block : Text) (offset : ℕ)
    → send_block outcome fuel k block offset ≡ send_file outcome fuel k (drop offset block)
unfolding send_block send_file
send_block-send_file outcome zero k block offset = refl
send_block-send_file outcome (suc fuel) k block offset =
    elim (Bool-cases (ltb offset (length block))) [
      | inl more ↦
          rw (more, is_empty-take chunk_size (drop offset block) positive, is_more more)
            (ap (write_first (outcome k) _) (
                send_block-send_file outcome fuel (suc k) block _
                ∙ ap (send_file outcome fuel (suc k)) next)
              ∙ ap
                  (λ m.
                    write_first (outcome k) m
                      (send_file outcome fuel (suc k) (drop chunk_size (drop offset block))))
                  chunk)
      | inr over ↦
          rw (over, is_empty-take chunk_size (drop offset block) positive, is_over over) refl
    ]
  where
    is_more : ltb offset (length block) ≡ true → ltb 0 (length (drop offset block)) ≡ true
    is_more e = ground (arith, length-drop offset block)

    is_over : ltb offset (length block) ≡ false → ltb 0 (length (drop offset block)) ≡ false
    is_over e = ground (arith, length-drop offset block)

    chunk :
        take (min chunk_size (length block - offset)) (drop offset block)
        ≡ take chunk_size (drop offset block)
    chunk =
        ap (λ l. take (min chunk_size l) (drop offset block)) (sym (length-drop offset block))
        ∙ take-min chunk_size (drop offset block)

    next :
        drop (offset + min chunk_size (length block - offset)) block
        ≡ drop chunk_size (drop offset block)
    next =
        drop_add offset _ block
        ∙ ap (λ l. drop (min chunk_size l) (drop offset block)) (sym (length-drop offset block))
        ∙ drop-min chunk_size (drop offset block)

send_file-IsSent :
    (outcome : ℕ → Bool) (fuel k : ℕ) (file : Text)
    → length file ≤ fuel
    → IsSent file (send_file outcome fuel k file)
unfolding send_file concat write_first
send_file-IsSent outcome zero k file h = record {
  count = 0;
  part = refl;
  all = λ e. no_text file h;
}
send_file-IsSent outcome (suc fuel) k file h = elim (Bool-cases (is_empty (take chunk_size file))) [
  | inl over ↦ rw over (record { count = 0; part = refl; all = λ e. no_text file (none_left over) })
  | inr more ↦ elim (Bool-cases (outcome k)) [
    | inl written ↦
        rw (more, written)
          (IsSent-more (send_file-IsSent outcome fuel (suc k) (drop chunk_size file) (less more)))
    | inr failed ↦ rw (more, failed) (record { count = 0; part = refl; all = λ e. cc })
  ]
]
  where
    none_left : is_empty (take chunk_size file) ≡ true → length file ≤ 0
    none_left e = ground (arith, is_empty-take chunk_size file positive)

    less : is_empty (take chunk_size file) ≡ false → length (drop chunk_size file) ≤ fuel
    less e =
        ground
          (arith, is_empty-take chunk_size file positive, length-drop chunk_size file, positive, h)

    IsSent-more :
        {r : Sent} → IsSent (drop chunk_size file) r → IsSent file (take chunk_size file ∷ r.0, r.1)
    IsSent-more sent = record {
      count = chunk_size + sent.count;
      part =
          ap (λ t. take chunk_size file ++ t) sent.part ∙ sym (take_add chunk_size sent.count file);
      all =
          λ e. ap (λ t. take chunk_size file ++ t) (sent.all e) ∙ take-append-drop chunk_size file;
    }

send_file-written :
    (outcome : ℕ → Bool) (fuel k : ℕ) (file : Text)
    → ((n : ℕ) → outcome n ≡ true)
    → (send_file outcome fuel k file).1 ≡ false
unfolding send_file write_first
send_file-written outcome zero k file w = refl
send_file-written outcome (suc fuel) k file w =
    elim (Bool-cases (is_empty (take chunk_size file))) [
      | inl over ↦ rw over refl
      | inr more ↦ rw (more, w k) (send_file-written outcome fuel (suc k) (drop chunk_size file) w)
    ]

-- What comes out of a stream into which a text was written by chunks.
pub record IsReceived (outcome : ℕ → Bool) (text : Text) (s : Sent) : Type 0 where
  pub sent : IsSent text s
  pub joined : (on_received_messages s.0 new_receiver).ss ≡ concat s.0
  pub whole : s.1 ≡ false → (on_received_messages s.0 new_receiver).ss ≡ text
  pub flag : ((n : ℕ) → outcome n ≡ true) → s.1 ≡ false

-- The messages of either sender come together as a part from the front of the text; as the whole text if
-- no write failed; and the flag is not set if all writes succeed.
pub send_file-IsReceived :
    (outcome : ℕ → Bool) (file : Text)
    → IsReceived outcome file (send_file outcome (length file) 0 file)
send_file-IsReceived outcome file = record {
  sent = send_file-IsSent outcome (length file) 0 file (omega arith);
  joined = received _ new_receiver;
  whole = λ e.
      received _ new_receiver ∙ (send_file-IsSent outcome (length file) 0 file (omega arith)).all e;
  flag = send_file-written outcome (length file) 0 file;
}

pub send_block-IsReceived :
    (outcome : ℕ → Bool) (block : Text)
    → IsReceived outcome block (send_block outcome (length block) 0 block 0)
send_block-IsReceived outcome block =
    subst (IsReceived outcome block) (sym (send_block-send_file outcome (length block) 0 block 0))
      (send_file-IsReceived outcome block)
