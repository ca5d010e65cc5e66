-- ===== src/Node.antt =====
-- src/common/node.cpp and include/common/node.h.
pub mod Lines
use thesis_dfs.Prelude.{Text, codes, text_eq, Bool, not, List, [], ◌∷◌, ◌++◌, if◌then◌else◌}
use thesis_dfs.Prelude.Int.{ℤ, pos, int_to_text, stoi}
use thesis_dfs.Prelude.Split.{before, after, lines, is_empty}
use thesis_dfs.Result.{Result, ok, err, undefined, ◌>>=◌}

pub data NodeStatus : Type 0 where
  online offline unknown : NodeStatus

pub record Node : Type 0 where
  pub ip : Text
  pub port : ℤ
  pub node_status : NodeStatus

abbrev blank : Node
blank = record { ip = []; port = pos 0; node_status = unknown }

-- The port stays as it was if the text has none. `getline` ends at a line break.
unfoldable pub from_string : Text → Node → Result Node
from_string node_str node =
    let port_str = before 10 (after b':' node_str) in
    let named = record node { ip = before b':' node_str } in
    if is_empty port_str
    then ok named
    else (do port ← stoi port_str; ok (record named { port = port }))

-- The constructor.
unfoldable pub new_node : Text → ℤ → NodeStatus → Result Node
unfolding from_string
new_node ip port node_status =
    from_string ip (record { ip = ip; port = port; node_status = node_status })

unfoldable pub to_string : Node → Text
to_string node = node.ip ++ b':' ∷ int_to_text node.port

-- `operator==`
unfoldable pub node_eq : Node → Node → Bool
node_eq a b = text_eq a.ip b.ip

abbrev pub invalid_node : Node
invalid_node = record { ip = codes "0.0.0.0"; port = pos 0; node_status = unknown }

unfoldable pub is_valid : Node → Bool
unfolding node_eq
is_valid node = not (node_eq node invalid_node)

concat_nodes : List Node → Text
concat_nodes [] = []
concat_nodes (n ∷ ns) = to_string n ++ b',' ∷ concat_nodes ns

drop_last : Text → Text
drop_last [] = []
drop_last (c ∷ []) = []
drop_last (c ∷ d ∷ t) = c ∷ drop_last (d ∷ t)

-- `s.pop_back()` on an empty string is undefined.
unfoldable pub nodes_to_string : List Node → Result Text
unfolding concat_nodes drop_last
nodes_to_string [] = err undefined
nodes_to_string (n ∷ ns) = ok (drop_last (concat_nodes (n ∷ ns)))

-- One `node` serves all rounds, so a token without a port takes the port of the one before.
parse_tokens : Node → List Text → Result (List Node)
parse_tokens node [] = ok []
parse_tokens node (token ∷ tokens) = do
  named ← from_string token node
  rest ← parse_tokens named tokens
  ok (named ∷ rest)

unfoldable pub parse_nodes : Text → Result (List Node)
unfolding parse_tokens from_string
parse_nodes nodes_str = parse_tokens blank (lines b',' nodes_str)
