-- ===== src/Sdk/Upload/Turn.antt =====
-- The end of a round of `encode_one_block`: the turn goes to the next node, and the failures are
-- forgotten where a new turn over all nodes begins.
use thesis_dfs.Sdk.Upload.Turns.{passed, next_cases}
use thesis_dfs.Sdk.Upload.{Round, goes_on, next_node}
use thesis_dfs.StorageType.{check, StorageType}
use thesis_dfs.Prelude.{
  ℕ, suc, ◌+◌, ◌%◌, ◌≤◌, ◌<◌, Text, false, List, ◌≡◌, refl, inl, inr, arith, Bool-cases, length,
}
use thesis_dfs.Result.{Result}

module _ {World : Type 0} (put_to_datanode : Text → Text → World → Result Text × World)
    (s : StorageType) (nodes : List Text) (j : ℕ) (inside : j < length nodes) where
  -- The end of a round goes on to the next node.
  pub record IsNext (r r' : Round World) : Type 0 where
    pub left : r'.left ≡ r.left
    pub world : r'.world ≡ r.world
    pub hashs : r'.nodes_hashs ≡ r.nodes_hashs
    pub turn : r'.node_index ≡ suc r.node_index % length nodes
    pub few : check s r'.succ ≡ false → r'.fail_count + passed j r'.node_index ≤ r'.node_index

  pub next_node-IsNext :
      (r : Round World)
      → r.node_index < length nodes
      → (check s r.succ ≡ false → r.fail_count + passed j (suc r.node_index) ≤ suc r.node_index)
      → (r' : Round World) × (next_node put_to_datanode s (length nodes) r ≡ goes_on r')
        × IsNext r r'
  unfolding next_node passed
  next_node-IsNext r h few = elim (next_cases r.node_index (length nodes) h) [
    | inl (e, more) ↦ (
      record r { node_index = suc r.node_index % length nodes },
      ground (arith, e),
      record { left = refl; world = refl; hashs = refl; turn = refl; few = λ c. rw e (few c) },
    )
    | inr (e, last) ↦ elim (Bool-cases (check s r.succ)) [
      | inl enough ↦ (
        record r { node_index = suc r.node_index % length nodes },
        ground (arith, enough),
        record {
          left = refl;
          world = refl;
          hashs = refl;
          turn = refl;
          few = λ c. ground (arith, enough, c);
        },
      )
      | inr short ↦ (
        record r { node_index = suc r.node_index % length nodes; fail_count = 0 },
        ground (arith, e, short, few short, last, inside),
        record {
          left = refl;
          world = refl;
          hashs = refl;
          turn = refl;
          few = λ c. rw e (ground arith);
        },
      )
    ]
  ]
