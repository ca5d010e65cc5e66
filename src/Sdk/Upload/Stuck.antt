-- ===== src/Sdk/Upload/Stuck.antt =====
-- The loop of `encode_one_block` when every datanode fails after enough fragments were put.
use thesis_dfs.RaftNn.{is_caught}
use thesis_dfs.Sdk.Upload.{
  Round, goes_on, next_node, round, after_put, round_from, upload, try_node,
}
use thesis_dfs.StorageType.{check, StorageType}
use thesis_dfs.Prelude.{
  ℕ, zero, suc, ◌%◌, ◌<◌, Text, true, List, ◌∷◌, none, ◌≡◌, refl, ◌∙◌, ap, arith, length,
  get_elem?_in, ◌==◌, Bool-cases, inl, inr,
}
use thesis_dfs.Result.{Error, Result, err}

-- From now on no datanode takes a fragment.
pub record IsDown {World : Type 0} (put_to_datanode : Text → Text → World → Result Text × World)
    : Type 0 where
  pub fails :
      (node fragment : Text) (w : World)
      → (e : Error) × (w' : World) × (put_to_datanode node fragment w ≡ (err e, w'))
        × (is_caught e ≡ true)

module _ {World : Type 0} (put_to_datanode : Text → Text → World → Result Text × World)
    (down : IsDown put_to_datanode) (s : StorageType) (nodes : List Text) where
  -- Enough fragments were put, and more are left.
  pub record IsWaiting (r : Round World) : Type 0 where
    pub fragment : Text
    pub fragments : List Text
    pub more : r.left ≡ fragment ∷ fragments
    pub index : r.node_index < length nodes
    pub enough : check s r.succ ≡ true

  next_node-enough :
      (r : Round World)
      → check s r.succ ≡ true
      → next_node put_to_datanode s (length nodes) r
        ≡ goes_on (record r { node_index = suc r.node_index % length nodes })
  unfolding next_node
  next_node-enough r e = elim (Bool-cases (suc r.node_index % length nodes == 0)) [
    | inl wrapped ↦ rw (wrapped, e) refl
    | inr on ↦ rw on refl
  ]

  round-IsWaiting :
      (r : Round World)
      → IsWaiting r
      → (r' : Round World) × (round put_to_datanode s nodes r ≡ goes_on r') × IsWaiting r'
  unfolding round round_from try_node after_put
  round-IsWaiting r i =
      let (node, n) = get_elem?_in nodes r.node_index i.index in
      let (e, w, p, caught) = down.fails node i.fragment r.world in
      (
        record r {
          fail_count = suc r.fail_count;
          world = w;
          node_index = suc r.node_index % length nodes;
        },
        ap (round_from put_to_datanode s nodes r) i.more
            ∙ ap (try_node put_to_datanode s (length nodes) r i.fragment i.fragments) n
            ∙ ap (after_put put_to_datanode s (length nodes) r i.fragments node) p
            ∙ rw caught
                (next_node-enough (record r { fail_count = suc r.fail_count; world = w }) i.enough),
        record {
          fragment = i.fragment;
          fragments = i.fragments;
          more = i.more;
          index = omega (arith, i.index);
          enough = i.enough;
        },
      )

  -- Once as many fragments are put as the storage type's check asks for, and every datanode fails before
  -- the last fragment is put, the loop does not end: no number of rounds is enough.
  pub upload-IsWaiting :
      (fuel : ℕ) (r : Round World) → IsWaiting r → upload put_to_datanode fuel s nodes r ≡ none
  unfolding upload
  upload-IsWaiting zero r i = refl
  upload-IsWaiting (suc fuel) r i =
      let (r', goes, i') = round-IsWaiting r i in rw (goes, upload) (upload-IsWaiting fuel r' i')
