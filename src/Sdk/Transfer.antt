-- ===== src/Sdk/Transfer.antt =====
-- `encode_one_block` and then `decode_one_block` of src/client/sdk.cpp, over datanodes of which some
-- may be down while the block is put.
pub mod Files
use thesis_dfs.Prelude.{
  ℕ, zero, suc, ◌+◌, ◌*◌, ◌≤◌, ◌<◌, Text, true, List, [], ◌∷◌, ◌≡◌, refl, ap, ◌∙◌, sym, some, none,
  Option, All, map, get_elem?, length, Bool, arith, subst, leb, inl, replicate, if◌then◌else◌,
  length-replicate,
}
use thesis_dfs.Result.{Result, Error, ok, err, ◌>>=◌}
use thesis_dfs.Node.{Node, to_string}
use thesis_dfs.Inode.{encode_one_sub, decode_one_sub}
use thesis_dfs.StorageType.{
  StorageType, ErasureCode, encode, rs, re, agg, get_blocks, get_decode_blocks,
}
use thesis_dfs.Sdk.Upload.{Round, upload, first_round, encode_one_block}
use thesis_dfs.Sdk.Upload.Placed.{IsReliable, Placed}
use thesis_dfs.Sdk.Upload.Rounds.{IsRunning, rounds_left, upload-Placed, rounds_left-lt}
use thesis_dfs.Sdk.Upload.Located.{
  IsAddress, IsHash, encode_one_sub-Placed, encode_one_block-upload,
}
use thesis_dfs.Sdk.Upload.Turns.{until, until-lt, passed}
use thesis_dfs.Sdk.Download.{decode_one_block}
use thesis_dfs.Sdk.Download.Fragments.{IsServed, answers, decode_one_block-IsServed}

-- As many fragments as the storage type says.
pub length-encode :
    (code : ErasureCode) (s : StorageType) (block : Text) (fs : List Text)
    → encode code s block ≡ ok fs
    → length fs ≡ get_blocks s
unfolding encode get_blocks
length-encode code (rs k m b) block fs e = code.encode-length k m block fs e
length-encode code (re n b) block fs e =
    subst (λ l. length l ≡ n) (same e) (length-replicate n block)
  where
    same : ok (replicate n block) ≡ ok fs → replicate n block ≡ fs
    same q = cc
length-encode code (agg k m b) block fs e = code.encode-length k m block fs e

-- The datanodes and the client's access to them: a fragment that is stored is sent when asked for.
pub record Cluster (World : Type 0) : Type 1 where
  pub put_to_datanode : Text → Text → World → Result Text × World
  pub get_from_datanode : World → Text → Text → Result Text
  pub hash : Text → Text
  pub up : Text → Bool
  pub Stored : Text → Text → World → Type 0
  pub reliable : IsReliable put_to_datanode hash up Stored
  pub hex : IsHash hash
  pub readable :
      (node f : Text) (w : World) → Stored node f w → get_from_datanode w node (hash f) ≡ ok f

-- The nodes that the client knows, with one at least that is up.
pub record IsNodes {World : Type 0} (c : Cluster World) (ns : List Node) : Type 0 where
  pub addresses : All IsAddress ns
  pub index : ℕ
  pub inside : index < length (map to_string ns)
  pub node : Text
  pub at_index : get_elem? (map to_string ns) index ≡ some node
  pub is_up : c.up node ≡ true

-- Rounds that are enough for a block: each fragment waits for at most one turn of all nodes.
unfoldable pub enough_rounds : StorageType → List Node → ℕ
enough_rounds s ns = get_blocks s * length (map to_string ns) + length (map to_string ns)

module _ {World : Type 0} (c : Cluster World) (s : StorageType) (ns : List Node)
    (known : IsNodes c ns) where
  pub IsServed-Placed :
      (w : World) (fs : List Text) (ps : List (Text × Text))
      → Placed c.hash c.Stored (map to_string ns) w fs ps
      → IsServed (c.get_from_datanode w) fs ps × (answers (c.get_from_datanode w) ps ≡ length fs)
  unfolding answers
  IsServed-Placed w [] [] p = (tt, refl)
  IsServed-Placed w [] (q ∷ ps) p = absurd p
  IsServed-Placed w (f ∷ fs) [] p = absurd p
  IsServed-Placed w (f ∷ fs) ((node, h) ∷ ps) p =
      let (served, n) = IsServed-Placed w fs ps p.3 in
      let sent = ap (c.get_from_datanode w node) p.1 ∙ c.readable node f w p.2 in
      ((inl sent, served), rw (sent, answers) (ap suc n))

  -- A block that was put is read back as it was.
  pub decode_one_block-Placed :
      (code : ErasureCode) (w : World) (block : Text) (fs : List Text) (t : Text)
      → encode code s block ≡ ok fs
      → 0 < get_decode_blocks s
      → get_decode_blocks s ≤ get_blocks s
      → Placed c.hash c.Stored (map to_string ns) w fs (decode_one_sub t)
      → decode_one_block code (c.get_from_datanode w) s t ≡ ok block
  decode_one_block-Placed code w block fs t e pos enough p =
      let (served, n) = IsServed-Placed w fs (decode_one_sub t) p in
      decode_one_block-IsServed code (c.get_from_datanode w) s block fs e t pos served
      ∙ ap (λ b. ok (if b then block else [])) all
    where
      all : leb (get_decode_blocks s) (answers (c.get_from_datanode w) (decode_one_sub t)) ≡ true
      all = ground (
        arith,
        (IsServed-Placed w fs (decode_one_sub t) p).1,
        enough,
        length-encode code s block fs e,
      )

module _ {World : Type 0} (c : Cluster World) (s : StorageType) (ns : List Node)
    (known : IsNodes c ns) (Kept : World → Type 0)
    (kept-put : (node fragment : Text) (w : World)
      → Kept w
      → Kept (c.put_to_datanode node fragment w).1) where
  -- Between two blocks.
  abbrev pub IsBetween : List Text → Round World → Type 0
  IsBetween =
      IsRunning c.put_to_datanode c.hash c.up c.Stored c.reliable s (map to_string ns) known.index
        known.node known.inside known.at_index known.is_up Kept kept-put

  pub first_round-IsBetween :
      (fs : List Text) (w : World) → Kept w → IsBetween fs (first_round c.put_to_datanode fs w)
  unfolding passed
  first_round-IsBetween fs w k = record {
    done = [];
    split = refl;
    placed = tt;
    holds = k;
    index = omega (arith, known.inside);
    few = λ q. ground arith;
  }

  pub upload-IsBetween :
      (fs : List Text) (fuel : ℕ) (r : Round World)
      → IsBetween fs r
      → r.left ≡ fs
      → length fs ≡ get_blocks s
      → enough_rounds s ns ≤ fuel
      → (r' : Round World) × (upload c.put_to_datanode fuel s (map to_string ns) r ≡ some (ok r'))
        × Placed c.hash c.Stored (map to_string ns) r'.world fs r'.nodes_hashs
        × IsBetween fs r'
  unfolding enough_rounds
  upload-IsBetween fs fuel r run e n enough =
      upload-Placed c.put_to_datanode c.hash c.up c.Stored c.reliable s (map to_string ns)
        known.index known.node known.inside known.at_index known.is_up Kept kept-put fs fuel r run
        (omega (
          arith,
          enough,
          ap (λ l. l * length (map to_string ns)) (ap length e ∙ n),
          rounds_left-lt c.put_to_datanode c.hash c.up c.Stored c.reliable s (map to_string ns)
              known.index known.node known.inside known.at_index known.is_up Kept kept-put fs r run,
        ))

  -- With fuel for all rounds, a block that is encoded is put, whichever nodes are down, as long as one is
  -- up: the loop ends, each fragment is on a node, and the location that is returned tells on which.
  pub encode_one_block-Placed :
      (code : ErasureCode) (fuel : ℕ) (block : Text) (fs : List Text) (w : World)
      → encode code s block ≡ ok fs
      → 0 < get_blocks s
      → enough_rounds s ns ≤ fuel
      → Kept w
      → (t : Text) × (w' : World) × (encode_one_block c.put_to_datanode code fuel s
            (map to_string ns)
            block
            w
          ≡ some (ok (t, w')))
        × Placed c.hash c.Stored (map to_string ns) w' fs (decode_one_sub t)
        × Kept w'
  encode_one_block-Placed code fuel block [] w e pos enough k =
      absurd (omega (arith, pos, length-encode code s block [] e))
  encode_one_block-Placed code fuel block (f ∷ fs) w e pos enough k =
      let (r, ends, placed, run) =
        upload-IsBetween (f ∷ fs) fuel (first_round c.put_to_datanode (f ∷ fs) w)
          (first_round-IsBetween (f ∷ fs) w k) refl (length-encode code s block (f ∷ fs) e)
          enough in
      let (t, written, back) =
        encode_one_sub-Placed c.hash c.Stored c.hex ns known.addresses r.world f fs r.nodes_hashs
          placed in
      (
        t,
        r.world,
        encode_one_block-upload c.put_to_datanode code fuel s (map to_string ns) block (f ∷ fs) w r
            t e ends written,
        subst (Placed c.hash c.Stored (map to_string ns) r.world (f ∷ fs)) (sym back) placed,
        run.holds,
      )

module _ {World : Type 0} (c : Cluster World) (s : StorageType) (ns : List Node)
    (known : IsNodes c ns) where
  -- A block that is encoded and put, with fuel for all rounds, and then got by the location that was
  -- returned, is the same block, whichever nodes are down while it is put, as long as one is up, and if a
  -- node sends the fragments that it stored. The storage type needs at least one fragment to decode,
  -- and not more than it makes.
  decode_one_block-encode_one_block :
      (code : ErasureCode) (fuel : ℕ) (block : Text) (fs : List Text) (w : World)
      → encode code s block ≡ ok fs
      → 0 < get_decode_blocks s
      → get_decode_blocks s ≤ get_blocks s
      → enough_rounds s ns ≤ fuel
      → (t : Text) × (w' : World) × (encode_one_block c.put_to_datanode code fuel s
            (map to_string ns)
            block
            w
          ≡ some (ok (t, w')))
        × (decode_one_block code (c.get_from_datanode w') s t ≡ ok block)
  decode_one_block-encode_one_block code fuel block fs w e pos within enough =
      let (t, w', put, placed, k) =
        encode_one_block-Placed c s ns known (λ v. Unit {0}) (λ node f v u. tt) code fuel block fs w
          e (omega (arith, pos, within)) enough tt in
      (t, w', put, decode_one_block-Placed c s ns known code w' block fs t e pos within placed)
