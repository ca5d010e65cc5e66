-- ===== src/Inode/Sub.antt =====
-- The round trip of the block locations, `encode_one_sub` and `decode_one_sub`.
use thesis_dfs.Inode.{node_text, concat_sub, pop_back, decode_pairs, encode_one_sub, decode_one_sub}
use thesis_dfs.Node.Lines.{IsPlain, from_string-to_string_plain, lacks-int_to_text, lacks-to_string}
use thesis_dfs.Node.{Node, unknown, new_node}
use thesis_dfs.Node
use thesis_dfs.Prelude.{
  ℕ, ◌≡◌, refl, Text, true, false, List, [], ◌∷◌, ◌++◌, append_assoc, ap, ◌∙◌, sym, map, All,
}
use thesis_dfs.Prelude.Int.{pos, int_to_text}
use thesis_dfs.Prelude.Split.{
  lacks, lines, join, all_lack, none_empty, is_empty, lines-join, lacks-append, before-append,
  after-append, before-lacks,
}
use thesis_dfs.Result.{ok, ◌>>=◌}

-- The node's text and the block's hash.
unfoldable pub location : Node × Text → Text × Text
location l = (Node.to_string l.0, l.1)

-- A plain address, and a hash, without `|`; a hash is hexadecimal.
pub record IsLocation (l : Node × Text) : Type 0 where
  pub plain : IsPlain l.0
  pub address : lacks b'|' l.0.ip ≡ true
  pub hash_bar : lacks b'|' l.1 ≡ true
  pub hash_comma : lacks b',' l.1 ≡ true

node_text-to_string : (n : Node) → IsPlain n → node_text (Node.to_string n) ≡ ok (Node.to_string n)
unfolding node_text new_node Node.to_string
node_text-to_string n p =
    rw
      (from_string-to_string_plain n
        (record { ip = Node.to_string n; port = pos 0; node_status = unknown }) p)
      refl

piece : Node × Text → Text
piece l = Node.to_string l.0 ++ b'|' ∷ l.1

concat_sub-join :
    (l : Node × Text) (ls : List (Node × Text))
    → All IsLocation (l ∷ ls)
    → concat_sub (map location (l ∷ ls)) ≡ ok (join b',' (map piece (l ∷ ls)) ++ b',' ∷ [])
unfolding concat_sub location piece join
concat_sub-join l [] ps =
    rw (node_text-to_string l.0 ps.0.plain, ◌>>=◌)
      (ap ok (sym (append_assoc (Node.to_string l.0) (b'|' ∷ l.1) (b',' ∷ []))))
concat_sub-join l (m ∷ ls) ps =
    rw (node_text-to_string l.0 ps.0.plain, ◌>>=◌, concat_sub-join m ls ps.1)
      (ap ok (
        sym (append_assoc (Node.to_string l.0) (b'|' ∷ l.1) _)
        ∙ sym (append_assoc (piece l) (b',' ∷ join b',' (map piece (m ∷ ls))) (b',' ∷ []))))

pop_back-append : (s : Text) (c : ℕ) → pop_back (s ++ c ∷ []) ≡ ok s
unfolding pop_back
pop_back-append [] c = refl
pop_back-append (d ∷ []) c = refl
pop_back-append (d ∷ e ∷ s) c = rw (pop_back-append (e ∷ s) c) refl

lacks-piece : (l : Node × Text) → IsLocation l → lacks b',' (piece l) ≡ true
unfolding piece
lacks-piece l p =
    rw
      (
        lacks-append b',' (Node.to_string l.0) (b'|' ∷ l.1),
        lacks-to_string l.0 p.plain,
        p.hash_comma,
      )
      refl

is_empty-piece : (l : Node × Text) → is_empty (piece l) ≡ false
unfolding piece
is_empty-piece l = go (Node.to_string l.0)
  where
    go : (t : Text) → is_empty (t ++ b'|' ∷ l.1) ≡ false
    go [] = refl
    go (c ∷ t) = refl

all_lack-piece : (ls : List (Node × Text)) → All IsLocation ls → all_lack b',' (map piece ls) ≡ true
all_lack-piece [] ps = refl
all_lack-piece (l ∷ ls) ps = rw (lacks-piece l ps.0) (all_lack-piece ls ps.1)

none_empty-piece : (ls : List (Node × Text)) → none_empty (map piece ls) ≡ true
none_empty-piece [] = refl
none_empty-piece (l ∷ ls) = rw (is_empty-piece l) (none_empty-piece ls)

lacks_bar-to_string : (l : Node × Text) → IsLocation l → lacks b'|' (Node.to_string l.0) ≡ true
unfolding Node.to_string
lacks_bar-to_string l p =
    rw
      (
        lacks-append b'|' l.0.ip (b':' ∷ int_to_text l.0.port),
        p.address,
        lacks-int_to_text b'|' l.0.port refl refl,
      )
      refl

decode_pairs-piece :
    (ls : List (Node × Text)) → All IsLocation ls → decode_pairs (map piece ls) ≡ map location ls
unfolding decode_pairs piece location
decode_pairs-piece [] ps = refl
decode_pairs-piece (l ∷ ls) ps =
    rw
      (
        before-append b'|' (Node.to_string l.0) l.1 (lacks_bar-to_string l ps.0),
        after-append b'|' (Node.to_string l.0) l.1 (lacks_bar-to_string l ps.0),
        before-lacks b'|' l.1 ps.0.hash_bar,
        decode_pairs-piece ls ps.1,
      )
      refl

-- The nodes and hashes of the fragments of a block, written as one text, are read back as they were,
-- if there are any, the addresses have no `:`, `,` or `|`, the ports are 32-bit integers, and the
-- hashes have no `,` or `|`.
pub decode_one_sub-encode_one_sub :
    (l : Node × Text) (ls : List (Node × Text))
    → All IsLocation (l ∷ ls)
    → (encode_one_sub (map location (l ∷ ls)) >>= λ t. ok (decode_one_sub t))
      ≡ ok (map location (l ∷ ls))
unfolding encode_one_sub decode_one_sub
decode_one_sub-encode_one_sub l ls ps =
    ap (λ r. r >>= pop_back >>= λ t. ok (decode_pairs (lines b',' t))) (concat_sub-join l ls ps)
    ∙ ap (λ r. r >>= λ t. ok (decode_pairs (lines b',' t)))
        (pop_back-append (join b',' (map piece (l ∷ ls))) b',')
    ∙ ap (λ ts. ok (decode_pairs ts))
        (lines-join b',' (piece l) (map piece ls) (all_lack-piece (l ∷ ls) ps)
          (none_empty-piece (l ∷ ls)))
    ∙ ap ok (decode_pairs-piece (l ∷ ls) ps)
