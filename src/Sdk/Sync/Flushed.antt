-- ===== src/Sdk/Sync/Flushed.antt =====
-- `fsync` as a whole.
use thesis_dfs.Sdk.Download.{decode_one_block}
use thesis_dfs.Inode.{Inode}
use thesis_dfs.Sdk.Sync.Blocks.{AreBack, IsNew, AreDistinct, AreEncodable, sync_blocks-IsSynced}
use thesis_dfs.Sdk.Sync.Sorted.{
  IsIn, last_of-max, IsAscending, sort_indexs-IsAscending, All-sort_indexs, sort_indexs-AreDistinct,
  last_of-sort_indexs, sort_indexs-All,
}
use thesis_dfs.Node.{Node, to_string}
use thesis_dfs.Result.{Result, ok}
use thesis_dfs.Sdk.Transfer.{Cluster, IsNodes, enough_rounds}
use thesis_dfs.Prelude.{
  ℕ, Text, List, length, ◌≡◌, All, ◌<◌, ◌≤◌, suc, arith, length-append, get_elem?, replicate, ◌-◌,
  some, [], ◌≢◌, length-replicate, ◌∷◌, map, subst, sym, ◌∙◌, refl,
}
use thesis_dfs.Sdk.Calls.{Master}
use thesis_dfs.Sdk.Sync.{
  resize_sub, max, fsync, sort_indexs, entries, end_sync, synced_size, last_of,
}
use thesis_dfs.StorageType.{
  get_block_size, ErasureCode, StorageType, get_decode_blocks, get_blocks, encode,
}

-- The locations that `fsync` sends: each block that was written is read back by the one at its index, up
-- to the last of them, and the others are those of the inode, with empty texts behind its end.
pub record IsFlushed (code : ErasureCode) (s : StorageType) (get : Text → Text → Result Text)
    (res : List (ℕ × Text)) (sub sub' : List Text) (last : ℕ × Text) : Type 0 where
  pub written : IsIn last res
  pub latest : All (λ p. p.0 ≤ last.0) res
  pub back : AreBack code s get sub' res
  pub others : (j : ℕ) → IsNew j res → get_elem? sub' j ≡ get_elem? (resize_sub last.0 sub) j
  pub size : length sub' ≡ max (length sub) (suc last.0)

length-resize_sub :
    (last : ℕ) (sub : List Text) → length (resize_sub last sub) ≡ max (length sub) (suc last)
unfolding resize_sub
length-resize_sub last sub = omega (
  arith,
  length-append sub (replicate (suc last - length sub) []),
  length-replicate {0} {A = Text} (suc last - length sub) [],
)

module _ {World : Type 0} (m : Master World) (c : Cluster World) (s : StorageType) (ns : List Node)
    (known : IsNodes c ns) (code : ErasureCode) (fuel : ℕ) (pos : 0 < get_decode_blocks s)
    (within : get_decode_blocks s ≤ get_blocks s) (enough : enough_rounds s ns ≤ fuel) where
  synced :
      (path write_dst : Text) (res : List (ℕ × Text)) (i : Inode) (w : World) (p : ℕ × Text)
      (ps : List (ℕ × Text))
      → i.storage_type_ptr ≡ some s
      → sort_indexs res ≡ p ∷ ps
      → AreDistinct res
      → AreEncodable code s res
      → (last : ℕ × Text) × (sub' : List Text) × (w' : World) × (fsync m c.put_to_datanode code fuel
            (map to_string ns)
            path
            write_dst
            (entries res)
            (some i)
            w
          ≡ end_sync m path (synced_size (get_block_size s) i.filesize last) (some (ok (sub', w'))))
        × IsFlushed code s (c.get_from_datanode w') res i.sub sub' last
  unfolding fsync
  synced path write_dst res i w p ps st sorted distinct encodable =
      let last = last_of p ps in
      let up = last_of-max p ps (subst IsAscending sorted (sort_indexs-IsAscending res)) in
      let (sub', w', run, is, u) =
        sync_blocks-IsSynced c s ns known code fuel pos within enough (p ∷ ps) (λ v. Unit {0})
          (λ node f v x. tt) (resize_sub last.0 i.sub) w tt
          (subst (AreEncodable code s) sorted
            (All-sort_indexs (λ q. (fs : List Text) × (encode code s q.1 ≡ ok fs)) res encodable))
          (subst AreDistinct sorted (sort_indexs-AreDistinct res distinct))
          (inside last (p ∷ ps) up) in
      (
        last,
        sub',
        w',
        rw (sorted, st, run) refl,
        record {
          written = last_of-sort_indexs p ps res sorted;
          latest =
              sort_indexs-All (λ q. q.0 ≤ last.0) res
                (subst (All (λ q. q.0 ≤ last.0)) (sym sorted) up);
          back =
              sort_indexs-All
                (λ q.
                  (t : Text) × (get_elem? sub' q.0 ≡ some t)
                  × (decode_one_block code (c.get_from_datanode w') s t ≡ ok q.1))
                res (subst (AreBack code s (c.get_from_datanode w') sub') (sym sorted) is.back);
          others = λ j new.
              is.others j (subst (IsNew j) sorted (All-sort_indexs (λ q. j ≢ q.0) res new));
          size = is.size ∙ length-resize_sub last.0 i.sub;
        },
      )
    where
      inside :
          (last : ℕ × Text) (qs : List (ℕ × Text))
          → All (λ q. q.0 ≤ last.0) qs
          → All (λ q. q.0 < length (resize_sub last.0 i.sub)) qs
      inside last [] h = tt
      inside last (q ∷ qs) h =
          (omega (arith, h.0, length-resize_sub last.0 i.sub), inside last qs h.1)
