-- ===== src/Database/Keyed.antt =====
-- Every operation keeps each stored value under its own key, with paths in normal form.
use thesis_dfs.FilePath.Normal.{simplify_path_idem}
use thesis_dfs.Database.Reads.{get_inode-fullpath}
use thesis_dfs.Database.Parents.{fullpath-add_sub, get_parent_inode-IsNormal}
use thesis_dfs.FilePath.{simplify_path}
use thesis_dfs.Result.{ok, >>=-eq-ok}
use thesis_dfs.Inode.{inode_at, Inode, AggInode, set_fullpath, unlock, filename}
use thesis_dfs.Database.Writes.{IsKeyed, IsKeyedBatch, IsNormal, write-IsKeyed}
use thesis_dfs.Prelude.{some, Text, none, ◌≡◌, refl, subst, arith, sym, codes}
use thesis_dfs.Database.Store.{Kv, Batch, Written, written, not_written}
use thesis_dfs.Database.{
  Handle, committed, finish, internal_put, internal_put_agg, internal_mkdir, internal_rm,
  internal_put_ok, remove_sub, get_inode, get_parent_inode, agg_rm,
}

module _ (kv : Kv) where
  open kv use {Db, read, write}

  -- A closed database is in no state; it is opened anew from the files.
  abbrev pub IsKeyedHandle : Handle kv → Type 0
  IsKeyedHandle none = Unit {0}
  IsKeyedHandle (some db) = IsKeyed kv db

  pub committed-IsKeyed :
      (db : Db) (h' : Handle kv) (what : Text) (batch : Batch)
      → IsKeyed kv db
      → IsKeyedBatch batch
      → committed kv what (write db batch) ≡ ok h'
      → IsKeyedHandle h'
  unfolding committed
  committed-IsKeyed db h' what batch keyed b e = go (write db batch) refl e
    where
      go : (w : Written Db) → write db batch ≡ w → committed kv what w ≡ ok h' → IsKeyedHandle h'
      go (written db') ew eh =
          subst IsKeyedHandle (ok_inj eh) (write-IsKeyed kv db db' batch keyed b ew)
        where
          ok_inj : ok (some db') ≡ ok h' → some db' ≡ h'
          ok_inj q = cc
      go (not_written s) ew eh = cc

  module _ (db : Db) (h' : Handle kv) (keyed : IsKeyed kv db) where
    pub internal_put-IsKeyed :
        (i : Inode) → IsNormal i → internal_put kv (some db) i ≡ ok h' → IsKeyedHandle h'
    unfolding internal_put
    internal_put-IsKeyed i n e =
        committed-IsKeyed db h' (codes "internal put not ok") _ keyed (refl, n, tt) e

    pub internal_put_agg-IsKeyed :
        (a : AggInode) → internal_put_agg kv (some db) a ≡ ok h' → IsKeyedHandle h'
    unfolding internal_put_agg
    internal_put_agg-IsKeyed a e =
        committed-IsKeyed db h' (codes "internal put_agg not ok") _ keyed (refl, tt, tt) e

    pub internal_mkdir-IsKeyed :
        (i : Inode) → IsNormal i → internal_mkdir kv (some db) i ≡ ok h' → IsKeyedHandle h'
    unfolding internal_mkdir
    internal_mkdir-IsKeyed i n e =
        let (p, g, rest) = >>=-eq-ok (get_parent_inode kv (some db) i) _ e in
        committed-IsKeyed db h' (codes "batch write not ok") _ keyed
          (
            refl,
            subst (λ q. simplify_path q ≡ q) (sym (fullpath-add_sub (filename i) p))
                (get_parent_inode-IsNormal kv db i p keyed g),
            (refl, n, tt),
          )
          rest

    pub internal_rm-IsKeyed :
        (i : Inode) → IsNormal i → internal_rm kv (some db) i ≡ ok h' → IsKeyedHandle h'
    unfolding internal_rm remove_sub
    internal_rm-IsKeyed i n e =
        let (p, g, e₁) = >>=-eq-ok (get_parent_inode kv (some db) i) _ e in
        let (_, a, rest) = >>=-eq-ok (agg_rm kv (some db) i.fullpath) _ e₁ in
        committed-IsKeyed db h' (codes "batch write not ok!") _ keyed
          (refl, get_parent_inode-IsNormal kv db i p keyed g, (refl, n, tt)) rest

    pub read-IsNormal :
        (path : Text) (k : Inode) → get_inode kv (some db) (inode_at path) ≡ ok k → IsNormal k
    unfolding inode_at set_fullpath
    read-IsNormal path k g =
        subst (λ q. simplify_path q ≡ q) (sym (get_inode-fullpath kv db (inode_at path) k keyed g))
          (simplify_path_idem path)

    pub internal_put_ok-IsKeyed :
        (i : Inode) → internal_put_ok kv (some db) i ≡ ok h' → IsKeyedHandle h'
    unfolding internal_put_ok unlock
    internal_put_ok-IsKeyed i e =
        let (p, g, e₁) = >>=-eq-ok (get_parent_inode kv (some db) i) _ e in
        let (new, f, rest) = >>=-eq-ok (finish kv (some db) i) _ e₁ in
        let (k, r, e₂) = >>=-eq-ok (get_inode kv (some db) (inode_at i.fullpath)) _ f in
        committed-IsKeyed db h' (codes "batch write not ok") _ keyed
          (
            refl,
            subst (λ q. simplify_path q ≡ q) (sym (fullpath-add_sub (filename i) p))
                (get_parent_inode-IsNormal kv db i p keyed g),
            (refl, finished k new i e₂ (read-IsNormal i.fullpath k r), tt),
          )
          rest
      where
        finished :
            (k new i : Inode)
            → ok (record (unlock k) { sub = i.sub; filesize = i.filesize }) ≡ ok new
            → IsNormal k
            → IsNormal new
        finished k new i q n = ground arith
