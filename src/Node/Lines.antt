-- ===== src/Node/Lines.antt =====
-- Reading back the text of a list of nodes.
use thesis_dfs.Node.{
  Node, to_string, drop_last, concat_nodes, parse_tokens, nodes_to_string, parse_nodes, blank,
}
use thesis_dfs.Node.{from_string, unknown}
use thesis_dfs.Prelude.{
  ℕ, suc, Text, true, false, List, [], ◌∷◌, ◌++◌, ◌≡◌, refl, arith, ap, ◌∙◌, sym, append-nil,
  append_assoc, ◌==◌, All, map,
}
use thesis_dfs.Prelude.Decimal.{
  is_digit, all_digits, all_digits-to_text, to_text, starts_digit, starts_digit-to_text,
}
use thesis_dfs.Prelude.Int.{ℤ, pos, negsuc, int_to_text, stoi, IsInt, stoi-int_to_text}
use thesis_dfs.Prelude.Split.{
  lacks, join, all_lack, none_empty, is_empty, lines, lines-join, lacks-append, before-append,
  after-append, before-lacks,
}
use thesis_dfs.Result.{ok, ◌>>=◌}

pub lacks-digits : (c : ℕ) (t : Text) → is_digit c ≡ false → all_digits t ≡ true → lacks c t ≡ true
lacks-digits c [] h d = refl
lacks-digits c (e ∷ t) h d = ground (arith, lacks-digits c t)

-- A number's text has neither `,`, `:` nor a line break in it.
pub lacks-int_to_text :
    (c : ℕ) (z : ℤ) → is_digit c ≡ false → (c == b'-') ≡ false → lacks c (int_to_text z) ≡ true
unfolding int_to_text
lacks-int_to_text c (pos n) h m = lacks-digits c (to_text n) h (all_digits-to_text n)
lacks-int_to_text c (negsuc n) h m =
    ground (arith, lacks-digits c (to_text (suc n)) h (all_digits-to_text (suc n)))

starts_digit_nonempty : (t : Text) → starts_digit t ≡ true → is_empty t ≡ false
starts_digit_nonempty [] h = cc
starts_digit_nonempty (c ∷ t) h = refl

is_empty-int_to_text : (z : ℤ) → is_empty (int_to_text z) ≡ false
unfolding int_to_text
is_empty-int_to_text (pos n) =
    starts_digit_nonempty (to_text n)
      (ap starts_digit (sym (append-nil (to_text n))) ∙ starts_digit-to_text n [])
is_empty-int_to_text (negsuc n) = refl

stoi-int_to_text_alone : (z : ℤ) → IsInt z → stoi (int_to_text z) ≡ ok z
stoi-int_to_text_alone z h =
    ap stoi (sym (append-nil (int_to_text z))) ∙ stoi-int_to_text z [] h refl

-- An address without `:` and `,`, and a port that an `int` holds.
pub record IsPlain (n : Node) : Type 0 where
  pub no_colon : lacks b':' n.ip ≡ true
  pub no_comma : lacks b',' n.ip ≡ true
  pub port : IsInt n.port

pub from_string-to_string_plain :
    (n old : Node)
    → IsPlain n
    → from_string (to_string n) old ≡ ok (record n { node_status = old.node_status })
unfolding from_string to_string
from_string-to_string_plain n old p =
    rw
      (
        after-append b':' n.ip (int_to_text n.port) p.no_colon,
        before-append b':' n.ip (int_to_text n.port) p.no_colon,
        before-lacks 10 (int_to_text n.port) (lacks-int_to_text 10 n.port refl refl),
        is_empty-int_to_text n.port,
        stoi-int_to_text_alone n.port p.port,
      )
      refl

pub lacks-to_string : (n : Node) → IsPlain n → lacks b',' (to_string n) ≡ true
unfolding to_string
lacks-to_string n p =
    rw (lacks-append b',' n.ip (b':' ∷ int_to_text n.port))
      (ground (arith, p.no_comma, lacks-int_to_text b',' n.port))

is_empty-to_string : (n : Node) → is_empty (to_string n) ≡ false
unfolding to_string
is_empty-to_string n = go n.ip
  where
    go : (ip : Text) → is_empty (ip ++ b':' ∷ int_to_text n.port) ≡ false
    go [] = refl
    go (c ∷ ip) = refl

drop_last-append : (s : Text) (c : ℕ) → drop_last (s ++ c ∷ []) ≡ s
unfolding drop_last
drop_last-append [] c = refl
drop_last-append (d ∷ []) c = refl
drop_last-append (d ∷ e ∷ s) c = ap (◌∷◌ d) (drop_last-append (e ∷ s) c)

concat_nodes-join :
    (n : Node) (ns : List Node)
    → concat_nodes (n ∷ ns) ≡ join b',' (map to_string (n ∷ ns)) ++ b',' ∷ []
unfolding concat_nodes join
concat_nodes-join n [] = refl
concat_nodes-join n (m ∷ ns) =
    ap (λ t. to_string n ++ b',' ∷ t) (concat_nodes-join m ns)
    ∙ sym (append_assoc (to_string n) (b',' ∷ join b',' (map to_string (m ∷ ns))) (b',' ∷ []))

all_lack-map : (ns : List Node) → All IsPlain ns → all_lack b',' (map to_string ns) ≡ true
all_lack-map [] ps = refl
all_lack-map (n ∷ ns) ps = rw (lacks-to_string n ps.0) (all_lack-map ns ps.1)

none_empty-map : (ns : List Node) → none_empty (map to_string ns) ≡ true
none_empty-map [] = refl
none_empty-map (n ∷ ns) = rw (is_empty-to_string n) (none_empty-map ns)

-- The status is not part of the text.
pub unscanned : Node → Node
unscanned n = record n { node_status = unknown }

parse_tokens-map :
    (old : Node) (ns : List Node)
    → old.node_status ≡ unknown
    → All IsPlain ns
    → parse_tokens old (map to_string ns) ≡ ok (map unscanned ns)
unfolding parse_tokens unscanned
parse_tokens-map old [] e ps = refl
parse_tokens-map old (n ∷ ns) e ps =
    rw
      (
        from_string-to_string_plain n old ps.0,
        e,
        ◌>>=◌,
        parse_tokens-map (unscanned n) ns refl ps.1,
      )
      refl

-- The text of a list of nodes that is not empty is read back as the same addresses and ports, each
-- with an unknown status, if every address is without `:` and `,` and every port is a 32-bit
-- integer.
pub parse_nodes-nodes_to_string :
    (n : Node) (ns : List Node)
    → All IsPlain (n ∷ ns)
    → (nodes_to_string (n ∷ ns) >>= parse_nodes) ≡ ok (map unscanned (n ∷ ns))
unfolding nodes_to_string parse_nodes
parse_nodes-nodes_to_string n ns ps =
    ap (λ t. parse_tokens blank (lines b',' t))
      (ap drop_last (concat_nodes-join n ns)
        ∙ drop_last-append (join b',' (map to_string (n ∷ ns))) b',')
    ∙ ap (parse_tokens blank) (
        lines-join b',' (to_string n) (map to_string ns) (all_lack-map (n ∷ ns) ps)
          (none_empty-map (n ∷ ns)))
    ∙ parse_tokens-map blank (n ∷ ns) refl ps
