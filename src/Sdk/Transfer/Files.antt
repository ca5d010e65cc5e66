-- ===== src/Sdk/Transfer/Files.antt =====
-- A whole file: `encode_content` and `datanode_put` of include/common/data_retrive.hpp, and then `get`
-- of src/client/sdk.cpp.
use thesis_dfs.Prelude.{
  ℕ, ◌≤◌, ◌<◌, Text, List, [], ◌∷◌, ◌≡◌, refl, ap, ◌∙◌, sym, some, map, length, arith, subst,
}
use thesis_dfs.Result.{ok, ◌>>=◌, >>=-eq-ok}
use thesis_dfs.Node.{Node, to_string}
use thesis_dfs.Inode.{Inode, decode_one_sub}
use thesis_dfs.StorageType.{
  StorageType, ErasureCode, encode, get_blocks, get_decode_blocks, get_block_size,
}
use thesis_dfs.Sdk.Upload.{Round, first_round}
use thesis_dfs.Sdk.Upload.Placed.{Placed, Placed-put}
use thesis_dfs.Sdk.Upload.Located.{encode_one_sub-Placed}
use thesis_dfs.Sdk.Download.{concat_blocks, get, resize_file, get-whole, resize_file-append}
use thesis_dfs.Sdk.Transfer.{
  Cluster, IsNodes, enough_rounds, IsBetween, upload-IsBetween, decode_one_block-Placed,
  length-encode, first_round-IsBetween,
}
use thesis_dfs.DataRetrive.{encode_all, encode_content}
use thesis_dfs.DataRetrive.Blocks.{split_all_block-IsSplit, concat}
use thesis_dfs.DataRetrive.Put.{put_blocks-upload, put_blocks, next_block, datanode_put}

-- The blocks of a file with their fragments.
abbrev AreEncoded : ErasureCode → StorageType → List Text → List (List Text) → Type 0
AreEncoded code s [] [] = Unit {0}
AreEncoded code s [] (fs ∷ vecs) = ⊥
AreEncoded code s (block ∷ blocks) [] = ⊥
AreEncoded code s (block ∷ blocks) (fs ∷ vecs) =
    (encode code s block ≡ ok fs) × AreEncoded code s blocks vecs

encode_all-AreEncoded :
    (code : ErasureCode) (s : StorageType) (blocks : List Text) (vecs : List (List Text))
    → encode_all code s blocks ≡ ok vecs
    → AreEncoded code s blocks vecs
unfolding encode_all
encode_all-AreEncoded code s [] vecs e = subst (AreEncoded code s []) (same e) tt
  where
    same : ok [] ≡ ok vecs → [] ≡ vecs
    same q = cc
encode_all-AreEncoded code s (block ∷ blocks) vecs e =
    let (fs, e₁, e₂) = >>=-eq-ok (encode code s block) _ e in
    let (rest, e₃, e₄) = >>=-eq-ok (encode_all code s blocks) _ e₂ in
    subst (AreEncoded code s (block ∷ blocks)) (same fs rest e₄)
      (e₁, encode_all-AreEncoded code s blocks rest e₃)
  where
    same : (fs : List Text) (rest : List (List Text)) → ok (fs ∷ rest) ≡ ok vecs → fs ∷ rest ≡ vecs
    same fs rest q = cc

module _ {World : Type 0} (c : Cluster World) (s : StorageType) (ns : List Node)
    (known : IsNodes c ns) (code : ErasureCode) (fuel : ℕ) (pos : 0 < get_decode_blocks s)
    (within : get_decode_blocks s ≤ get_blocks s) (enough : enough_rounds s ns ≤ fuel) where
  -- Each block's fragments are where its location says.
  abbrev AllPlaced : World → List (List Text) → List Text → Type 0
  AllPlaced w [] [] = Unit {0}
  AllPlaced w [] (t ∷ ts) = ⊥
  AllPlaced w (fs ∷ vecs) [] = ⊥
  AllPlaced w (fs ∷ vecs) (t ∷ ts) =
      Placed c.hash c.Stored (map to_string ns) w fs (decode_one_sub t) × AllPlaced w vecs ts

  concat_blocks-AllPlaced :
      (w : World) (blocks : List Text) (vecs : List (List Text)) (ts : List Text)
      → AreEncoded code s blocks vecs
      → AllPlaced w vecs ts
      → concat_blocks code (c.get_from_datanode w) s ts ≡ ok (concat blocks)
  unfolding concat_blocks concat
  concat_blocks-AllPlaced w [] [] [] es ps = refl
  concat_blocks-AllPlaced w [] [] (t ∷ ts) es ps = absurd ps
  concat_blocks-AllPlaced w [] (fs ∷ vecs) ts es ps = absurd es
  concat_blocks-AllPlaced w (block ∷ blocks) [] ts es ps = absurd es
  concat_blocks-AllPlaced w (block ∷ blocks) (fs ∷ vecs) [] es ps = absurd ps
  concat_blocks-AllPlaced w (block ∷ blocks) (fs ∷ vecs) (t ∷ ts) es ps =
      rw
        (
          decode_one_block-Placed c s ns known code w block fs t es.0 pos within ps.0,
          concat_blocks-AllPlaced w blocks vecs ts es.1 ps.1,
        )
        refl

  put_blocks-AllPlaced :
      (blocks : List Text) (vecs : List (List Text)) (Kept : World → Type 0)
      (kept-put : (node fragment : Text) (w : World)
        → Kept w
        → Kept (c.put_to_datanode node fragment w).1)
      (r : Round World)
      → AreEncoded code s blocks vecs
      → ((fs : List Text)
          → IsBetween c s ns known Kept kept-put fs (next_block c.put_to_datanode fs r))
      → (ts : List Text) × (w' : World) × (put_blocks c.put_to_datanode fuel s
            (map to_string ns)
            vecs
            r
          ≡ some (ok (ts, w')))
        × AllPlaced w' vecs ts
        × Kept w'
  unfolding put_blocks
  put_blocks-AllPlaced [] [] Kept kept-put r es start = ([], r.world, refl, tt, (start []).holds)
  put_blocks-AllPlaced [] (fs ∷ vecs) Kept kept-put r es start = absurd es
  put_blocks-AllPlaced (block ∷ blocks) [] Kept kept-put r es start = absurd es
  put_blocks-AllPlaced (block ∷ blocks) ([] ∷ vecs) Kept kept-put r es start =
      absurd (omega (arith, pos, within, length-encode code s block [] es.0))
  put_blocks-AllPlaced (block ∷ blocks) ((f ∷ fs) ∷ vecs) Kept kept-put r es start =
      let (r', ends, placed, run) =
        upload-IsBetween c s ns known Kept kept-put (f ∷ fs) fuel
          (next_block c.put_to_datanode (f ∷ fs) r) (start (f ∷ fs)) refl
          (length-encode code s block (f ∷ fs) es.0) enough in
      let (t, written, back) =
        encode_one_sub-Placed c.hash c.Stored c.hex ns known.addresses r'.world f fs r'.nodes_hashs
          placed in
      let (ts, w', rest, all, (kept, here)) =
        put_blocks-AllPlaced blocks vecs
          (λ w. Kept w × Placed c.hash c.Stored (map to_string ns) w (f ∷ fs) r'.nodes_hashs)
          (λ node fragment w k. (
            kept-put node fragment w k.0,
            Placed-put c.put_to_datanode c.hash c.up c.Stored c.reliable (map to_string ns) w node
                fragment (f ∷ fs) r'.nodes_hashs k.1,
          ))
          r' es.1
          (λ gs. record {
            done = [];
            split = refl;
            placed = tt;
            holds = (run.holds, placed);
            index = run.index;
            few = run.few;
          }) in
      (
        t ∷ ts,
        w',
        put_blocks-upload c.put_to_datanode fuel s (map to_string ns) (f ∷ fs) vecs r r' t ts w'
            ends written rest,
        (subst (Placed c.hash c.Stored (map to_string ns) w' (f ∷ fs)) (sym back) here, all),
        kept,
      )

  -- What the puts keep holds after all of them.
  datanode_put-AllPlaced :
      (blocks : List Text) (vecs : List (List Text)) (Kept : World → Type 0)
      (kept-put : (node fragment : Text) (w : World)
        → Kept w
        → Kept (c.put_to_datanode node fragment w).1)
      (w : World)
      → AreEncoded code s blocks vecs
      → Kept w
      → (ts : List Text) × (w' : World) × (datanode_put c.put_to_datanode fuel s
            (map to_string ns)
            vecs
            w
          ≡ some (ok (ts, w')))
        × AllPlaced w' vecs ts
        × Kept w'
  unfolding datanode_put
  datanode_put-AllPlaced blocks vecs Kept kept-put w es k =
      put_blocks-AllPlaced blocks vecs Kept kept-put (first_round c.put_to_datanode [] w) es
        (λ fs. first_round-IsBetween c s ns known Kept kept-put fs w k)

  -- `get-datanode_put`, with a property of the world that each put keeps.
  pub get-datanode_put_kept :
      (content : Text) (vecs : List (List Text)) (i : Inode) (Kept : World → Type 0)
      (kept-put : (node fragment : Text) (w : World)
        → Kept w
        → Kept (c.put_to_datanode node fragment w).1)
      (w : World)
      → 0 < get_block_size s
      → encode_content code s content ≡ ok vecs
      → i.storage_type_ptr ≡ some s
      → i.agg_inode_id ≡ []
      → i.filesize ≡ length content
      → Kept w
      → (sub : List Text) × (w' : World) × (datanode_put c.put_to_datanode fuel s
            (map to_string ns)
            vecs
            w
          ≡ some (ok (sub, w')))
        × (get code (c.get_from_datanode w') (record i { sub = sub }) ≡ ok content)
        × Kept w'
  unfolding encode_content
  get-datanode_put_kept content vecs i Kept kept-put w some_size e st whole size k =
      let (blocks, split, is) = split_all_block-IsSplit (get_block_size s) content some_size in
      let es =
        encode_all-AreEncoded code s blocks vecs
          (subst (λ r. (r >>= encode_all code s) ≡ ok vecs) split e) in
      let (sub, w', put, all, kept) = datanode_put-AllPlaced blocks vecs Kept kept-put w es k in
      (
        sub,
        w',
        put,
        get-whole code (c.get_from_datanode w') (record i { sub = sub }) s (concat blocks) st whole
              (concat_blocks-AllPlaced w' blocks vecs sub es all)
            ∙ ap ok (
                ap (λ n. resize_file n (concat blocks)) size
                ∙ ap (resize_file (length content)) is.bytes
                ∙ resize_file-append content is.rest),
        kept,
      )

  -- A file that is split, encoded and put block by block, and then got through an inode with the locations
  -- that were returned, the file's size and the same storage type, is the same file, whichever nodes are
  -- down while it is put, as long as one is up, and if a node sends the fragments that it stored. The
  -- block size is not 0, and the storage type needs at least one fragment to decode and not more than it
  -- makes; the fuel is for each block's rounds.
  pub get-datanode_put :
      (content : Text) (vecs : List (List Text)) (i : Inode) (w : World)
      → 0 < get_block_size s
      → encode_content code s content ≡ ok vecs
      → i.storage_type_ptr ≡ some s
      → i.agg_inode_id ≡ []
      → i.filesize ≡ length content
      → (sub : List Text) × (w' : World) × (datanode_put c.put_to_datanode fuel s
            (map to_string ns)
            vecs
            w
          ≡ some (ok (sub, w')))
        × (get code (c.get_from_datanode w') (record i { sub = sub }) ≡ ok content)
  get-datanode_put content vecs i w some_size e st whole size =
      let (sub, w', put, got, k) =
        get-datanode_put_kept content vecs i (λ v. Unit {0}) (λ node f v u. tt) w some_size e st
          whole size tt in
      (sub, w', put, got)
