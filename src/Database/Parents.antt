-- ===== src/Database/Parents.antt =====
-- The parent's inode and its list of entries.
use thesis_dfs.Prelude.{
  ◌≡◌, ◌≢◌, refl, Text, text_eq_iff, text_eq_refl, true, List, [], ◌∷◌, ◌++◌, some, arith,
  Bool-cases, inl, inr, text_eq, subst, ap, if◌then◌else◌, ◌∙◌,
}
use thesis_dfs.Result.{ok, err, aborted}
use thesis_dfs.FilePath.{simplify_path}
use thesis_dfs.Inode.{Inode, parent_path, get_default_dir}
use thesis_dfs.Database.Store.{Kv, inode, agg_inode, Status, found, not_found, failed}
use thesis_dfs.Database.{root, add_sub, contains, get_parent_inode, parent_status, as_inode}
use thesis_dfs.Database.Writes.{IsKeyed, Fits, IsNormal}

pub simplify_path-root : simplify_path root ≡ root
unfolding simplify_path
simplify_path-root = refl

pub contains-append : (name : Text) (sub : List Text) → contains name (sub ++ name ∷ []) ≡ true
unfolding contains
contains-append name [] = ground (arith, text_eq_refl name)
contains-append name (s ∷ sub) = ground (arith, contains-append name sub)

pub contains-add_sub : (name : Text) (i : Inode) → contains name (add_sub name i).sub ≡ true
unfolding add_sub
contains-add_sub name i = elim (Bool-cases (contains name i.sub)) [
  | inl h ↦ rw h h
  | inr h ↦ rw h (contains-append name i.sub)
]

pub fullpath-add_sub : (name : Text) (i : Inode) → (add_sub name i).fullpath ≡ i.fullpath
unfolding add_sub
fullpath-add_sub name i = ground arith

parent_status-fullpath :
    (kv : Kv) (i p : Inode) (s : Status)
    → Fits (parent_path i) s
    → parent_status kv i s ≡ ok p
    → p.fullpath ≡ parent_path i
unfolding parent_status as_inode get_default_dir
parent_status-fullpath kv i p not_found f e =
    ground (arith, text_eq_iff (parent_path i) root, simplify_path-root)
parent_status-fullpath kv i p (found (inode q)) f e = ground arith
parent_status-fullpath kv i p (found (agg_inode a)) f e = cc
parent_status-fullpath kv i p (failed w) f e = cc

parent_status-IsNormal :
    (kv : Kv) (i p : Inode) (s : Status)
    → Fits (parent_path i) s
    → parent_status kv i s ≡ ok p
    → IsNormal p
unfolding parent_status as_inode get_default_dir
parent_status-IsNormal kv i p not_found f e = elim (Bool-cases (text_eq (parent_path i) root)) [
  | inl h ↦ subst IsNormal (default_dir h) (ap simplify_path simplify_path-root)
  | inr h ↦ ground arith
]
  where
    default_dir : text_eq (parent_path i) root ≡ true → get_default_dir root ≡ p
    default_dir h = ground arith
parent_status-IsNormal kv i p (found (inode q)) f e = ground arith
parent_status-IsNormal kv i p (found (agg_inode a)) f e = cc
parent_status-IsNormal kv i p (failed w) f e = cc

module _ (kv : Kv) where
  open kv use {Db, read}

  -- What is written back for the parent is under the parent's path.
  pub get_parent_inode-fullpath :
      (db : Db) (i p : Inode)
      → IsKeyed kv db
      → get_parent_inode kv (some db) i ≡ ok p
      → p.fullpath ≡ parent_path i
  unfolding get_parent_inode
  get_parent_inode-fullpath db i p keyed e =
      parent_status-fullpath kv i p (read db (parent_path i)) (keyed (parent_path i)) e

  -- Without a parent only the root can stand in for it; anywhere else the `assert` fails.
  pub get_parent_inode_missing :
      (db : Db) (i : Inode)
      → read db (parent_path i) ≡ not_found
      → parent_path i ≢ root
      → get_parent_inode kv (some db) i ≡ err aborted
  unfolding get_parent_inode
  get_parent_inode_missing db i e ne =
      rw (e, parent_status) (ground (arith, text_eq_iff (parent_path i) root))

  pub get_parent_inode-IsNormal :
      (db : Db) (i p : Inode) → IsKeyed kv db → get_parent_inode kv (some db) i ≡ ok p → IsNormal p
  unfolding get_parent_inode
  get_parent_inode-IsNormal db i p keyed e =
      parent_status-IsNormal kv i p (read db (parent_path i)) (keyed (parent_path i)) e

  -- The parent that is read depends on the parent's path only, and on what is stored there.
  pub get_parent_inode_same :
      (db db' : Db) (i j : Inode)
      → parent_path j ≡ parent_path i
      → read db' (parent_path i) ≡ read db (parent_path i)
      → get_parent_inode kv (some db') j ≡ get_parent_inode kv (some db) i
  unfolding get_parent_inode
  get_parent_inode_same db db' i j same e =
      status (read db' (parent_path j)) ∙ ap (parent_status kv i) (ap (read db') same ∙ e)
    where
      status : (r : Status) → parent_status kv j r ≡ parent_status kv i r
      status not_found =
          unfold parent_status in
          ap (λ p. if text_eq p root then ok (get_default_dir root) else err aborted) same
      status (found v) = unfold parent_status in refl
      status (failed w) = unfold parent_status in refl
