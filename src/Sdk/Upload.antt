-- ===== src/Sdk/Upload.antt =====
-- `SDK::encode_one_block` of src/client/sdk.cpp: the fragments of a block are put on the datanodes in
-- turn; a fragment whose datanode fails is tried on the next one.
pub mod Turns
pub mod Placed
pub mod Turn
pub mod Rounds
pub mod Located
pub mod Stuck
use thesis_dfs.Prelude.{
  ℕ, zero, suc, ◌%◌, Text, Bool, true, false, not, ◌&&◌, List, [], ◌∷◌, ◌++◌, Option, none, some,
  if◌then◌else◌, ◌==◌, get_elem?, length,
}
use thesis_dfs.Result.{Error, Result, ok, err, undefined, ◌>>=◌}
use thesis_dfs.RaftNn.{is_caught}
use thesis_dfs.Inode.{encode_one_sub}
use thesis_dfs.StorageType
use thesis_dfs.StorageType.{StorageType, ErasureCode}

-- The variables of the loop; `left` are the fragments from the i-th on.
pub record Round (World : Type 0) : Type 0 where
  pub left : List Text
  pub node_index : ℕ
  pub succ : ℕ
  pub fail_count : ℕ
  pub nodes_hashs : List (Text × Text)
  pub world : World

-- After a round the loop goes on, or has ended; or an exception leaves it.
pub data Outcome (World : Type 0) : Type 0 where
  goes_on : Round World → Outcome World
  ended : Round World → Outcome World
  thrown : Error → Outcome World

-- `put_to_datanode node fragment` changes the world, and gives the fragment's hash or fails.
module _ {World : Type 0} (put_to_datanode : Text → Text → World → Result Text × World) where
  -- The end of a round: the next node, and the test when all nodes have had their turn.
  pub next_node : StorageType → ℕ → Round World → Outcome World
  next_node storage_type count r =
      let node_index = suc r.node_index % count in
      let moved = record r { node_index = node_index } in
      if (node_index == 0) && not (StorageType.check storage_type r.succ)
      then (if r.fail_count == count
          then ended moved
          else goes_on (record moved { fail_count = 0 }))
      else goes_on moved

  after_put : StorageType → ℕ → Round World → List Text → Text → Result Text × World → Outcome World
  unfolding next_node
  after_put storage_type count r rest node (ok hash, world) =
      next_node storage_type count (record r {
        left = rest;
        succ = suc r.succ;
        nodes_hashs = r.nodes_hashs ++ (node, hash) ∷ [];
        world = world;
      })
  after_put storage_type count r rest node (err e, world) =
      if is_caught e
      then next_node storage_type count (record r { fail_count = suc r.fail_count; world = world })
      else thrown e

  try_node : StorageType → ℕ → Round World → Text → List Text → Option Text → Outcome World
  unfolding after_put
  try_node storage_type count r fragment rest none = thrown undefined
  try_node storage_type count r fragment rest (some node) =
      after_put storage_type count r rest node (put_to_datanode node fragment r.world)

  -- One round; there is no node to index if none is online.
  round_from : StorageType → List Text → Round World → List Text → Outcome World
  unfolding try_node
  round_from storage_type nodes r [] = ended r
  round_from storage_type nodes r (fragment ∷ rest) =
      try_node storage_type (length nodes) r fragment rest (get_elem? nodes r.node_index)

  pub round : StorageType → List Text → Round World → Outcome World
  unfolding round_from
  round storage_type nodes r = round_from storage_type nodes r r.left

  -- The loop; `none` when the fuel runs out.
  pub upload : ℕ → StorageType → List Text → Round World → Option (Result (Round World))
  upload zero storage_type nodes r = none
  upload (suc fuel) storage_type nodes r = elim (round storage_type nodes r) [
    | goes_on r' ↦ upload fuel storage_type nodes r'
    | ended r' ↦ some (ok r')
    | thrown e ↦ some (err e)
  ]

  abbrev pub first_round : List Text → World → Round World
  first_round vec world = record {
    left = vec;
    node_index = 0;
    succ = 0;
    fail_count = 0;
    nodes_hashs = [];
    world = world;
  }

  located : Round World → Result (Text × World)
  located r = do location ← encode_one_sub r.nodes_hashs; ok (location, r.world)

  -- `encode_one_block`, with the nodes that are online and the fuel: the block's location, and the world after.
  unfoldable pub encode_one_block :
      ErasureCode → ℕ → StorageType → List Text → Text → World → Option (Result (Text × World))
  unfolding located
  encode_one_block code fuel storage_type nodes block world =
      elim (StorageType.encode code storage_type block) [
        | err e ↦ some (err e)
        | ok vec ↦ elim (upload fuel storage_type nodes (first_round vec world)) [
          | none ↦ none
          | some r ↦ some (r >>= located)
        ]
      ]
