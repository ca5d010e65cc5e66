-- ===== src/Database/PutBatch/Keyed.antt =====
-- The batched writes keep each stored value under its own key, with paths in normal form.
use thesis_dfs.Prelude.{true, false}
use thesis_dfs.Database.Keyed.{IsKeyedHandle, committed-IsKeyed, read-IsNormal}
use thesis_dfs.Database.Parents.{fullpath-add_sub, get_parent_inode-IsNormal}
use thesis_dfs.Result.{ok, Result, err, >>=-eq-ok}
use thesis_dfs.Database.{Handle, add_sub, get_parent_inode, get_inode}
use thesis_dfs.Inode.{Inode, new_inode, unlock, parent_path, inode_at, filename}
use thesis_dfs.Database.Store.{Batch, Kv}
use thesis_dfs.FilePath.{simplify_path}
use thesis_dfs.Prelude.{
  List, Text, Bool, ◌++◌, refl, All, ◌∷◌, if◌then◌else◌, some, [], true, text_eq, Bool-cases, subst,
  ◌≡◌, inl, sym, inr, codes, ap,
}
use thesis_dfs.Database.PutBatch.{
  put_all, gather, finish_all, parent_puts, Parents, internal_put_batch, internal_put_ok_batch,
  finish_small, parent_at, set_parent, has_parent,
}
use thesis_dfs.Database.Writes.{IsKeyed, IsKeyedBatch, IsNormal}

put_all-IsKeyedBatch : (is : List Inode) → All IsNormal is → IsKeyedBatch (put_all is)
unfolding put_all
put_all-IsKeyedBatch [] n = tt
put_all-IsKeyedBatch (i ∷ is) n = (refl, n.0, put_all-IsKeyedBatch is n.1)

abbrev NormalParents : Parents → Type 0
NormalParents [] = Unit {0}
NormalParents ((key, i) ∷ parents) = IsNormal i × NormalParents parents

NormalParents-append :
    (ps : Parents) (key : Text) (i : Inode)
    → NormalParents ps
    → IsNormal i
    → NormalParents (ps ++ (key, i) ∷ [])
NormalParents-append [] key i n m = (m, tt)
NormalParents-append ((k, j) ∷ ps) key i n m = (n.0, NormalParents-append ps key i n.1 m)

new_inode-IsNormal : IsNormal new_inode
unfolding simplify_path
new_inode-IsNormal = refl

if_IsNormal : (b : Bool) (i j : Inode) → IsNormal i → IsNormal j → IsNormal (if b then i else j)
if_IsNormal true i j n m = n
if_IsNormal false i j n m = m

parent_at-IsNormal : (path : Text) (ps : Parents) → NormalParents ps → IsNormal (parent_at path ps)
unfolding parent_at
parent_at-IsNormal path [] n = new_inode-IsNormal
parent_at-IsNormal path ((key, i) ∷ ps) n =
    if_IsNormal (text_eq key path) i (parent_at path ps) n.0 (parent_at-IsNormal path ps n.1)

set_parent-NormalParents :
    (path : Text) (i : Inode) (ps : Parents)
    → NormalParents ps
    → IsNormal i
    → NormalParents (set_parent path i ps)
unfolding set_parent
set_parent-NormalParents path i [] n m = tt
set_parent-NormalParents path i ((key, old) ∷ ps) n m = elim (Bool-cases (text_eq key path)) [
  | inl h ↦ rw h (m, n.1)
  | inr h ↦ rw h (n.0, set_parent-NormalParents path i ps n.1 m)
]

parent_puts-IsKeyedBatch : (ps : Parents) → NormalParents ps → IsKeyedBatch (parent_puts ps)
unfolding parent_puts
parent_puts-IsKeyedBatch [] n = tt
parent_puts-IsKeyedBatch ((key, i) ∷ ps) n = (refl, n.0, parent_puts-IsKeyedBatch ps n.1)

IsKeyedBatch-append : (b c : Batch) → IsKeyedBatch b → IsKeyedBatch c → IsKeyedBatch (b ++ c)
IsKeyedBatch-append [] c k l = l
IsKeyedBatch-append ((key, v) ∷ b) c k l = (k.0, k.1, IsKeyedBatch-append b c k.2 l)

add_sub-IsNormal : (name : Text) (p : Inode) → IsNormal p → IsNormal (add_sub name p)
add_sub-IsNormal name p n = subst (λ q. simplify_path q ≡ q) (sym (fullpath-add_sub name p)) n

batch_of : Result (Batch × Parents) → Batch
batch_of (ok r) = r.0
batch_of (err w) = []

parents_of : Result (Batch × Parents) → Parents
parents_of (ok r) = r.1
parents_of (err w) = []

module _ (kv : Kv) where
  open kv use {Db, read, write}

  module _ (db : Db) (h' : Handle kv) (keyed : IsKeyed kv db) where
    pub internal_put_batch-IsKeyed :
        (is : List Inode)
        → All IsNormal is
        → internal_put_batch kv (some db) is ≡ ok h'
        → IsKeyedHandle kv h'
    unfolding internal_put_batch
    internal_put_batch-IsKeyed is n e =
        committed-IsKeyed kv db h' (codes "internal put batch not ok: ") _ keyed
          (put_all-IsKeyedBatch is n) e

    gather-NormalParents :
        (is : List Inode) (ps qs : Parents)
        → NormalParents ps
        → gather kv (some db) is ps ≡ ok qs
        → NormalParents qs
    unfolding gather
    gather-NormalParents [] ps qs n e = subst NormalParents (ok_inj e) n
      where
        ok_inj : ok ps ≡ ok qs → ps ≡ qs
        ok_inj q = cc
    gather-NormalParents (i ∷ is) ps qs n e = elim (Bool-cases (has_parent (parent_path i) ps)) [
      | inl h ↦ gather-NormalParents is ps qs n (rw h at e)
      | inr h ↦
          let (p, g, rest) = >>=-eq-ok (get_parent_inode kv (some db) i) _ (rw h at e) in
          gather-NormalParents is (ps ++ (parent_path i, p) ∷ []) qs
            (NormalParents-append ps (parent_path i) p n
              (get_parent_inode-IsNormal kv db i p keyed g))
            rest
    ]

    finish_all-keyed :
        (is : List Inode) (ps qs : Parents) (b : Batch)
        → NormalParents ps
        → finish_all kv (some db) is ps ≡ ok (b, qs)
        → IsKeyedBatch b × NormalParents qs
    unfolding finish_all finish_small unlock batch_of parents_of
    finish_all-keyed [] ps qs b n e =
        (subst IsKeyedBatch (ap batch_of e) tt, subst NormalParents (ap parents_of e) n)
    finish_all-keyed (i ∷ is) ps qs b n e =
        let (k, g, e₁) = >>=-eq-ok (get_inode kv (some db) (inode_at i.fullpath)) _ e in
        let ps' : Parents =
          set_parent (parent_path i) (add_sub (filename i) (parent_at (parent_path i) ps)) ps in
        let (r, f, e₂) = >>=-eq-ok (finish_all kv (some db) is ps') _ e₁ in
        let (kc, kr) =
          finish_all-keyed is ps' r.1 r.0
            (set_parent-NormalParents (parent_path i) _ ps n
              (add_sub-IsNormal (filename i) _ (parent_at-IsNormal (parent_path i) ps n)))
            f in
        (
          subst IsKeyedBatch (ap batch_of e₂)
              (refl, read-IsNormal kv db h' keyed i.fullpath k g, kc),
          subst NormalParents (ap parents_of e₂) kr,
        )

    pub internal_put_ok_batch-IsKeyed :
        (is : List Inode) → internal_put_ok_batch kv (some db) is ≡ ok h' → IsKeyedHandle kv h'
    unfolding internal_put_ok_batch
    internal_put_ok_batch-IsKeyed is e =
        let (ps, g, e₁) = >>=-eq-ok (gather kv (some db) is []) _ e in
        let (r, f, e₂) = >>=-eq-ok (finish_all kv (some db) is ps) _ e₁ in
        let (kb, kp) = finish_all-keyed is ps r.1 r.0 (gather-NormalParents is [] ps tt g) f in
        committed-IsKeyed kv db h' (codes "batch write not ok: ") _ keyed
          (IsKeyedBatch-append r.0 (parent_puts r.1) kb (parent_puts-IsKeyedBatch r.1 kp)) e₂
