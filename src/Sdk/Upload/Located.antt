-- ===== src/Sdk/Upload/Located.antt =====
-- The location text of a block, after the loop of `encode_one_block`.
use thesis_dfs.Sdk.Upload.Placed.{Placed}
use thesis_dfs.Prelude.{
  ℕ, zero, suc, Text, true, List, [], ◌∷◌, ◌≡◌, refl, ap, ◌∙◌, some, All, map, get_elem?, subst,
}
use thesis_dfs.Prelude.Split.{lacks}
use thesis_dfs.Result.{Result, ok, err, ◌>>=◌}
use thesis_dfs.Node.{Node, to_string}
use thesis_dfs.Node.Lines.{IsPlain}
use thesis_dfs.Inode.{encode_one_sub, decode_one_sub}
use thesis_dfs.Inode.Sub.{IsLocation, location, decode_one_sub-encode_one_sub}
use thesis_dfs.StorageType.{StorageType, ErasureCode, encode}
use thesis_dfs.Sdk.Upload.{Round, upload, first_round, located, encode_one_block}

-- A node whose text can stand in a location.
pub record IsAddress (n : Node) : Type 0 where
  pub plain : IsPlain n
  pub no_bar : lacks b'|' n.ip ≡ true

-- Hashes are hexadecimal.
pub record IsHash (hash : Text → Text) : Type 0 where
  pub no_bar : (f : Text) → lacks b'|' (hash f) ≡ true
  pub no_comma : (f : Text) → lacks b',' (hash f) ≡ true

node_at :
    (ns : List Node) (k : ℕ) (node : Text)
    → All IsAddress ns
    → get_elem? (map to_string ns) k ≡ some node
    → (n : Node) × IsAddress n × (to_string n ≡ node)
node_at [] k node addrs e = cc
node_at (n ∷ ns) zero node addrs e = (n, addrs.0, same e)
  where
    same : some (to_string n) ≡ some node → to_string n ≡ node
    same q = cc
node_at (n ∷ ns) (suc k) node addrs e = node_at ns k node addrs.1 e

ok_inside :
    {A : Type 0} {B : Type 0} (r : Result A) (f : A → B) (b : B)
    → (r >>= λ a. ok (f a)) ≡ ok b
    → (a : A) × (r ≡ ok a) × (f a ≡ b)
ok_inside (ok a) f b e = (a, refl, same e)
  where
    same : ok (f a) ≡ ok b → f a ≡ b
    same q = cc
ok_inside (err x) f b e = cc

module _ {World : Type 0} (hash : Text → Text) (Stored : Text → Text → World → Type 0)
    (hex : IsHash hash) (ns : List Node) (addrs : All IsAddress ns) where
  locations :
      (w : World) (fs : List Text) (ps : List (Text × Text))
      → Placed hash Stored (map to_string ns) w fs ps
      → (ls : List (Node × Text)) × (map location ls ≡ ps) × All IsLocation ls
  unfolding location
  locations w [] [] p = ([], refl, tt)
  locations w [] (q ∷ ps) p = absurd p
  locations w (f ∷ fs) [] p = absurd p
  locations w (f ∷ fs) ((node, h) ∷ ps) p =
      let (k, e) = p.0 in
      let (n, a, t) = node_at ns k node addrs e in
      let (ls, es, ps') = locations w fs ps p.3 in
      (
        (n, h) ∷ ls,
        ap (λ m. (m, h) ∷ map location ls) t ∙ ap (λ l. (node, h) ∷ l) es,
        (
          record {
            plain = a.plain;
            address = a.no_bar;
            hash_bar = rw p.1 (hex.no_bar f);
            hash_comma = rw p.1 (hex.no_comma f);
          },
          ps',
        ),
      )

  -- The fragments that were put are written to a location text, which is read back.
  pub encode_one_sub-Placed :
      (w : World) (f : Text) (fs : List Text) (ps : List (Text × Text))
      → Placed hash Stored (map to_string ns) w (f ∷ fs) ps
      → (t : Text) × (encode_one_sub ps ≡ ok t) × (decode_one_sub t ≡ ps)
  encode_one_sub-Placed w f fs [] p = absurd p
  encode_one_sub-Placed w f fs (q ∷ ps) p = some_location (locations w (f ∷ fs) (q ∷ ps) p)
    where
      some_location :
          (ls : List (Node × Text)) × (map location ls ≡ q ∷ ps) × All IsLocation ls
          → (t : Text) × (encode_one_sub (q ∷ ps) ≡ ok t) × (decode_one_sub t ≡ q ∷ ps)
      some_location ([], es, each) = cc
      some_location (l ∷ ls, es, each) =
          subst (λ qs. (t : Text) × (encode_one_sub qs ≡ ok t) × (decode_one_sub t ≡ qs)) es
            (ok_inside (encode_one_sub (map location (l ∷ ls))) decode_one_sub
              (map location (l ∷ ls)) (decode_one_sub-encode_one_sub l ls each))

module _ {World : Type 0} (put_to_datanode : Text → Text → World → Result Text × World) where
  pub encode_one_block-upload :
      (code : ErasureCode) (fuel : ℕ) (s : StorageType) (nodes : List Text) (block : Text)
      (fs : List Text) (w : World) (r : Round World) (t : Text)
      → encode code s block ≡ ok fs
      → upload put_to_datanode fuel s nodes (first_round put_to_datanode fs w) ≡ some (ok r)
      → encode_one_sub r.nodes_hashs ≡ ok t
      → encode_one_block put_to_datanode code fuel s nodes block w ≡ some (ok (t, r.world))
  unfolding encode_one_block located
  encode_one_block-upload code fuel s nodes block fs w r t e u l =
      rw (e, u, encode_one_block, l) refl
