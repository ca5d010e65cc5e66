-- ===== src/RaftDn.antt =====
-- src/node/raft_dn.cpp: the datanodes' raft group, whose leader chooses the namenodes, and
-- `node_discovery` of src/common/node.cpp.
pub mod Choice
pub mod Timer
use thesis_dfs.Prelude.{
  ℕ, zero, suc, Text, Bool, true, false, not, List, [], ◌∷◌, ◌++◌, Option, none, some,
  if◌then◌else◌, leb, ltb, length, take, drop, ◌==◌, ◌&&◌, ◌||◌,
}
use thesis_dfs.Prelude.Split.{is_empty}
use thesis_dfs.Prelude.Int.{pos}
use thesis_dfs.Result.{Result, ok, err, runtime, undefined}
use thesis_dfs.Node.{Node, NodeStatus, online, offline, to_string}
use thesis_dfs.Prelude.{codes}

-- `std::string::operator<`
text_less : Text → Text → Bool
text_less [] [] = false
text_less [] (d ∷ t) = true
text_less (c ∷ s) [] = false
text_less (c ∷ s) (d ∷ t) = ltb c d || (c == d && text_less s t)

-- `Node::operator<`
unfoldable pub node_less : Node → Node → Bool
unfolding text_less
node_less a b = text_less a.ip b.ip

-- `std::sort`; nodes of one address are kept in their order.
insert : Node → List Node → List Node
insert n [] = n ∷ []
insert n (m ∷ ms) = let rest = insert n ms in if node_less m n then m ∷ rest else n ∷ m ∷ ms

pub sort : List Node → List Node
sort [] = []
sort (n ∷ ns) = insert n (sort ns)

-- `std::binary_search` on a sorted range: whether some node is neither smaller nor larger.
binary_search : List Node → Node → Bool
binary_search [] n = false
binary_search (m ∷ ms) n = (not (node_less m n) && not (node_less n m)) || binary_search ms n

unfoldable pub is_online : Node → Bool
is_online n = elim n.node_status [ online ↦ true | _ ↦ false ]

-- `remove_if`, by a status other than ONLINE.
pub online_only : List Node → List Node
online_only [] = []
online_only (n ∷ ns) = let rest = online_only ns in if is_online n then n ∷ rest else rest

-- The datanodes that are not among `nodes`.
pub others : List Node → List Node → List Node
others nodes [] = []
others nodes (n ∷ ns) =
    let rest = others nodes ns in if binary_search nodes n then rest else n ∷ rest

-- `echo address`: whether the call of the common service there succeeds, its retries included.
module _ (echo : Text → Bool) where
  unfoldable pub scan : Node → Node
  scan n = record n { node_status = if echo (to_string n) then online else offline }

  -- One thread for each node, and all of them joined.
  unfoldable pub node_discovery : List Node → List Node
  node_discovery [] = []
  node_discovery (n ∷ ns) = scan n ∷ node_discovery ns

-- `nn_port` and `expected_nn` are the flags.
module _ (echo : Text → Bool) (nn_port expected_nn : ℕ) where
  -- The inner loop, over the nodes just scanned.
  pub push_online : List Node → List Node → List Node
  push_online [] nodes = nodes
  push_online (n ∷ sub) nodes =
      let nodes' = nodes ++ record n { port = pos nn_port } ∷ [] in
      let more = push_online sub nodes' in
      let skip = push_online sub nodes in
      if is_online n then (if leb expected_nn (length nodes') then nodes' else more) else skip

  -- The outer loop, from the first node not yet looked at; `none` when the fuel runs out.
  pub fill : ℕ → List Node → List Node → Option (List Node)
  fill zero [] nodes = some nodes
  fill zero (n ∷ ns) nodes = none
  fill (suc fuel) [] nodes = some nodes
  fill (suc fuel) (n ∷ ns) nodes =
      let more =
        fill fuel (drop expected_nn (n ∷ ns))
          (push_online (node_discovery echo (take expected_nn (n ∷ ns))) nodes) in
      if ltb (length nodes) expected_nn then more else some nodes

  pub proposal : Option (List Node) → Result (List Node)
  proposal none = err undefined
  proposal (some []) = err (runtime (codes "no node ready"))
  proposal (some (n ∷ ns)) = ok (n ∷ ns)

  -- The list of namenodes that a new leader proposes. Each round looks at one more node at least.
  pub on_leader_start : List Node → List Node → Result (List Node)
  unfolding sort online_only others fill proposal
  on_leader_start namenode_list datanode_list =
      let nodes = online_only (node_discovery echo (sort namenode_list)) in
      let allnodes = others nodes datanode_list in proposal (fill (length allnodes) allnodes nodes)
