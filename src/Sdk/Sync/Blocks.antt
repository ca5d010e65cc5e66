-- ===== src/Sdk/Sync/Blocks.antt =====
-- What the loop of `fsync` leaves: the locations of the blocks that were written, and the others.
use thesis_dfs.StorageType
use thesis_dfs.Inode.{decode_one_sub}
use thesis_dfs.Sdk.Upload.Placed.{Placed, Placed-put}
use thesis_dfs.Sdk.Sync.{sync_blocks}
use thesis_dfs.Sdk.Download.{decode_one_block}
use thesis_dfs.Node.{Node, to_string}
use thesis_dfs.Result.{Result, ok}
use thesis_dfs.Sdk.Transfer.{
  Cluster, IsNodes, enough_rounds, encode_one_block-Placed, decode_one_block-Placed,
}
use thesis_dfs.StorageType.{ErasureCode, StorageType, get_decode_blocks, get_blocks}
use thesis_dfs.Prelude.{
  ℕ, List, Text, All, ◌∷◌, ◌≢◌, [], get_elem?, ◌≡◌, ◌<◌, some, ◌≤◌, length, map, set, arith,
  length-set, ◌∙◌, get_elem?-set_self, get_elem?-set_ne, refl,
}

-- The index is none of those in the list.
abbrev pub IsNew : ℕ → List (ℕ × Text) → Type 0
IsNew i = All (λ p. i ≢ p.0)

abbrev pub AreDistinct : List (ℕ × Text) → Type 0
AreDistinct [] = Unit {0}
AreDistinct (p ∷ ps) = IsNew p.0 ps × AreDistinct ps

module _ (code : ErasureCode) (s : StorageType) where
  -- Every block can be encoded.
  abbrev pub AreEncodable : List (ℕ × Text) → Type 0
  AreEncodable = All (λ p. (fs : List Text) × (StorageType.encode code s p.1 ≡ ok fs))

  -- Each block is read back by the location at its index.
  abbrev pub AreBack : (Text → Text → Result Text) → List Text → List (ℕ × Text) → Type 0
  AreBack get sub =
      All
        (λ p. (t : Text) × (get_elem? sub p.0 ≡ some t) × (decode_one_block code get s t ≡ ok p.1))

module _ {World : Type 0} (c : Cluster World) (s : StorageType) (ns : List Node)
    (known : IsNodes c ns) (code : ErasureCode) (fuel : ℕ) (pos : 0 < get_decode_blocks s)
    (within : get_decode_blocks s ≤ get_blocks s) (enough : enough_rounds s ns ≤ fuel) where
  -- The loop ends, with the locations at the indices of the list and the others as they were.
  pub record IsSynced (res : List (ℕ × Text)) (sub sub' : List Text) (w' : World) : Type 0 where
    pub size : length sub' ≡ length sub
    pub back : AreBack code s (c.get_from_datanode w') sub' res
    pub others : (j : ℕ) → IsNew j res → get_elem? sub' j ≡ get_elem? sub j

  pub sync_blocks-IsSynced :
      (res : List (ℕ × Text)) (Kept : World → Type 0)
      (kept-put : (node fragment : Text) (w : World)
        → Kept w
        → Kept (c.put_to_datanode node fragment w).1)
      (sub : List Text) (w : World)
      → Kept w
      → AreEncodable code s res
      → AreDistinct res
      → All (λ p. p.0 < length sub) res
      → (sub' : List Text) × (w' : World) × (sync_blocks c.put_to_datanode code fuel s
            (map to_string ns)
            res
            sub
            w
          ≡ some (ok (sub', w')))
        × IsSynced res sub sub' w'
        × Kept w'
  unfolding sync_blocks
  sync_blocks-IsSynced [] Kept kept-put sub w k es ds inside =
      (sub, w, refl, record { size = refl; back = tt; others = λ j n. refl }, k)
  sync_blocks-IsSynced ((i, block) ∷ res) Kept kept-put sub w k es ds inside =
      let (fs, encoded) = es.0 in
      let (t, w₁, put, placed, k₁) =
        encode_one_block-Placed c s ns known Kept kept-put code fuel block fs w encoded
          (omega (arith, pos, within)) enough k in
      let (sub', w', rest, synced, (k', here)) =
        sync_blocks-IsSynced res
          (λ v. Kept v × Placed c.hash c.Stored (map to_string ns) v fs (decode_one_sub t))
          (λ node fragment v q. (
            kept-put node fragment v q.0,
            Placed-put c.put_to_datanode c.hash c.up c.Stored c.reliable (map to_string ns) v node
                fragment fs (decode_one_sub t) q.1,
          ))
          (set sub i t) w₁ (k₁, placed) es.1 ds.1 (still sub i t res inside.1) in
      (
        sub',
        w',
        rw (put, sync_blocks) rest,
        record {
          size = synced.size ∙ length-set sub i t;
          back = (
            (
              t,
              synced.others i ds.0 ∙ get_elem?-set_self sub i t inside.0,
              decode_one_block-Placed c s ns known code w' block fs t encoded pos within here,
            ),
            synced.back,
          );
          others = λ j n. synced.others j n.1 ∙ get_elem?-set_ne sub i j t n.0;
        },
        k',
      )
    where
      still :
          (sub : List Text) (i : ℕ) (t : Text) (res : List (ℕ × Text))
          → All (λ p. p.0 < length sub) res
          → All (λ p. p.0 < length (set sub i t)) res
      still sub i t [] h = tt
      still sub i t (p ∷ ps) h = (omega (arith, length-set sub i t, h.0), still sub i t ps h.1)
