-- ===== src/DataRetrive/Put.antt =====
-- `datanode_put` of include/common/data_retrive.hpp: the blocks of a file, one after another. The node
-- index and the two counters go on from block to block.
use thesis_dfs.Prelude.{ℕ, Text, List, [], ◌∷◌, Option, none, some, ◌≡◌, refl}
use thesis_dfs.Result.{Result, ok, err}
use thesis_dfs.Inode.{encode_one_sub}
use thesis_dfs.StorageType.{StorageType}
use thesis_dfs.Sdk.Upload.{Round, upload, first_round}

-- The text of a block is put before those of the blocks after it.
unfoldable pub push_front :
    {World : Type 0}
    → Result Text
    → Option (Result (List Text × World))
    → Option (Result (List Text × World))
push_front (err e) rest = some (err e)
push_front (ok one_sub_hash) none = none
push_front (ok one_sub_hash) (some (err e)) = some (err e)
push_front (ok one_sub_hash) (some (ok (sub, world))) = some (ok (one_sub_hash ∷ sub, world))

module _ {World : Type 0} (put_to_datanode : Text → Text → World → Result Text × World) where
  -- The variables as the loop over the fragments of the next block finds them.
  abbrev pub next_block : List Text → Round World → Round World
  next_block vec r = record r { left = vec; nodes_hashs = [] }

  unfoldable pub put_blocks :
      ℕ
      → StorageType
      → List Text
      → List (List Text)
      → Round World
      → Option (Result (List Text × World))
  unfolding push_front
  put_blocks fuel storage_type nodes [] r = some (ok ([], r.world))
  put_blocks fuel storage_type nodes (vec ∷ encoded_data) r =
      elim (upload put_to_datanode fuel storage_type nodes (next_block vec r)) [
        | none ↦ none
        | some res ↦ elim res [
          | err e ↦ some (err e)
          | ok r' ↦
              push_front (encode_one_sub r'.nodes_hashs)
                (put_blocks fuel storage_type nodes encoded_data r')
        ]
      ]

  -- `datanode_put`, with the nodes that are online, and fuel for the loop of each block.
  unfoldable pub datanode_put :
      ℕ → StorageType → List Text → List (List Text) → World → Option (Result (List Text × World))
  unfolding put_blocks
  datanode_put fuel storage_type nodes encoded_data world =
      put_blocks fuel storage_type nodes encoded_data (first_round put_to_datanode [] world)

  pub put_blocks-upload :
      (fuel : ℕ) (s : StorageType) (nodes : List Text) (vec : List Text) (vecs : List (List Text))
      (r r' : Round World) (t : Text) (ts : List Text) (w : World)
      → upload put_to_datanode fuel s nodes (next_block vec r) ≡ some (ok r')
      → encode_one_sub r'.nodes_hashs ≡ ok t
      → put_blocks fuel s nodes vecs r' ≡ some (ok (ts, w))
      → put_blocks fuel s nodes (vec ∷ vecs) r ≡ some (ok (t ∷ ts, w))
  unfolding put_blocks push_front
  put_blocks-upload fuel s nodes vec vecs r r' t ts w u l rest = rw (u, put_blocks, l, rest) refl
