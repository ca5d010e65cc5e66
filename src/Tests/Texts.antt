-- ===== src/Tests/Texts.antt =====
-- Texts of nodes and of block locations, and the locks of one path.
use thesis_dfs.FilePath.{simplify_path, slash}
use thesis_dfs.FilePath.Normal.Slash.{IsPlainEnd, simplify_path-slash}
use thesis_dfs.Result.{ok, ◌>>=◌, err, undefined}
use thesis_dfs.Prelude.Int.{pos}
use thesis_dfs.Inode.{encode_one_sub, decode_one_sub}
use thesis_dfs.Prelude.{codes, arith, ◌∷◌, Text, refl, [], map, false, text_eq, ◌≡◌, some, ◌++◌}
use thesis_dfs.PathLocks.{Locks, find_lock}
use thesis_dfs.Node.{Node, unknown, nodes_to_string, parse_nodes}
use thesis_dfs.Node.Lines.{IsPlain, unscanned, parse_nodes-nodes_to_string}
use thesis_dfs.Inode.Sub.{IsLocation, location, decode_one_sub-encode_one_sub}
use thesis_dfs.PathLocks.Release.{free, IsReleased, unlock-flag}

abbrev node : Node
node = record { ip = codes "10.0.0.1"; port = pos 8000; node_status = unknown }

abbrev other : Node
other = record { ip = codes "10.0.0.2"; port = pos 8001; node_status = unknown }

node-IsPlain : IsPlain node
node-IsPlain = record { no_colon = refl; no_comma = refl; port = omega arith }

other-IsPlain : IsPlain other
other-IsPlain = record { no_colon = refl; no_comma = refl; port = omega arith }

parse_nodes-nodes_to_string_example :
    (nodes_to_string (node ∷ other ∷ []) >>= parse_nodes) ≡ ok (map unscanned (node ∷ other ∷ []))
parse_nodes-nodes_to_string_example =
    parse_nodes-nodes_to_string node (other ∷ []) (node-IsPlain, (other-IsPlain, tt))

abbrev first_fragment : Node × Text
first_fragment = (node, codes "ab12")

abbrev second_fragment : Node × Text
second_fragment = (other, codes "cd34")

first-IsLocation : IsLocation first_fragment
first-IsLocation = record {
  plain = node-IsPlain;
  address = refl;
  hash_bar = refl;
  hash_comma = refl;
}

second-IsLocation : IsLocation second_fragment
second-IsLocation = record {
  plain = other-IsPlain;
  address = refl;
  hash_bar = refl;
  hash_comma = refl;
}

decode_one_sub-encode_one_sub_example :
    (encode_one_sub (map location (first_fragment ∷ second_fragment ∷ [])) >>= λ t.
    ok (decode_one_sub t))
    ≡ ok (map location (first_fragment ∷ second_fragment ∷ []))
decode_one_sub-encode_one_sub_example =
    decode_one_sub-encode_one_sub first_fragment (second_fragment ∷ [])
      (first-IsLocation, (second-IsLocation, tt))

abbrev read_first : Locks
read_first = (codes "/a", free false) ∷ []

found_free : find_lock (codes "/a") read_first ≡ some (free false)
unfolding find_lock text_eq
found_free = refl

unlock-flag_example : IsReleased (codes "/a") read_first (ok read_first) (err undefined)
unlock-flag_example = unlock-flag (codes "/a") false read_first found_free

simplify_path-slash_example :
    (simplify_path (codes "/a/../b" ++ slash ∷ []) ≡ simplify_path (codes "/a/../b"))
    × IsPlainEnd (simplify_path (codes "/a/../b"))
simplify_path-slash_example = simplify_path-slash slash (codes "a/../b")
