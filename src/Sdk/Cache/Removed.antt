-- ===== src/Sdk/Cache/Removed.antt =====
-- Which local files of blocks `update_inode` of src/client/sdk.cpp removes.
use thesis_dfs.Sdk.Ranges.Window.{get_elem?-lt, get_elem?-none}
use thesis_dfs.Prelude.{
  ℕ, zero, suc, ◌+◌, ◌-◌, ◌≤◌, ◌<◌, ◌≡◌, refl, ap, ◌∙◌, Text, text_eq, text_eq_refl, List, [], ◌∷◌,
  Option, none, some, if◌then◌else◌, length, get_elem?, arith, Bool, Bool-cases, inl, inr, ltb, leb,
  true, false, ◌&&◌, ◌⊎◌, Option-cases,
}
use thesis_dfs.Result.{ok}
use thesis_dfs.Inode.{Inode}
use thesis_dfs.Sdk.Ranges.{Files}
use thesis_dfs.Sdk.Cache.{
  remove_file, remove_changed, remove_behind, Client, update_inode, refresh, cached, set_at,
}

-- Whether the file at an index is kept, by the location in the cached inode and in the new one.
abbrev pub is_kept : Option Text → Option Text → Bool
is_kept none remote = true
is_kept (some l) none = false
is_kept (some l) (some r) = text_eq l r

-- The same by the loop over both lists, which leaves what is behind the shorter one.
abbrev is_kept_in_both : Option Text → Option Text → Bool
is_kept_in_both none remote = true
is_kept_in_both (some l) none = true
is_kept_in_both (some l) (some r) = text_eq l r

in_both-none : (local : Option Text) → is_kept_in_both local none ≡ true
in_both-none none = refl
in_both-none (some l) = refl

remove_file_other : (i n : ℕ) (files : Files) → n < i → remove_file i files n ≡ files n
unfolding remove_file
remove_file_other i n files h = ground (arith, h)

remove_changed_below :
    (i n : ℕ) (local remote : List Text) (files : Files)
    → n < i
    → remove_changed i local remote files n ≡ files n
unfolding remove_changed
remove_changed_below i n [] remote files h = refl
remove_changed_below i n (l ∷ local) [] files h = refl
remove_changed_below i n (l ∷ local) (r ∷ remote) files h = elim (Bool-cases (text_eq l r)) [
  | inl same ↦
      remove_changed_below (suc i) n local remote _ (omega (arith, h))
      ∙ ap (λ t. (if t then files else remove_file i files) n) same
  | inr other ↦
      remove_changed_below (suc i) n local remote _ (omega (arith, h))
      ∙ ap (λ t. (if t then files else remove_file i files) n) other
      ∙ remove_file_other i n files h
]

remove_changed-kept :
    (i k n : ℕ) (local remote : List Text) (files : Files)
    → n ≡ i + k
    → remove_changed i local remote files n
      ≡ (if is_kept_in_both (get_elem? local k) (get_elem? remote k) then files n else none)
unfolding remove_changed remove_file
remove_changed-kept i k n [] remote files e = refl
remove_changed-kept i k n (l ∷ local) [] files e = rw (in_both-none (get_elem? (l ∷ local) k)) refl
remove_changed-kept i zero n (l ∷ local) (r ∷ remote) files e =
    remove_changed_below (suc i) n local remote _ (omega (arith, e)) ∙ at_index (text_eq l r)
  where
    at_index :
        (t : Bool) → (if t then files else remove_file i files) n ≡ (if t then files n else none)
    at_index true = refl
    at_index false = ground (arith, e)
remove_changed-kept i (suc k) n (l ∷ local) (r ∷ remote) files e =
    remove_changed-kept (suc i) k n local remote _ (omega (arith, e))
    ∙ ap (λ f. if is_kept_in_both (get_elem? local k) (get_elem? remote k) then f else none)
        (at_other (text_eq l r))
  where
    at_other : (t : Bool) → (if t then files else remove_file i files) n ≡ files n
    at_other true = refl
    at_other false = ground (arith, e)

remove_behind-kept :
    (rounds i n : ℕ) (files : Files)
    → remove_behind rounds i files n ≡ (if leb i n && ltb n (i + rounds) then none else files n)
unfolding remove_behind remove_file
remove_behind-kept zero i n files = ground arith
remove_behind-kept (suc rounds) i n files =
    remove_behind-kept rounds (suc i) n (remove_file i files) ∙ step
  where
    step :
        (if leb (suc i) n && ltb n (suc i + rounds) then none else remove_file i files n)
        ≡ (if leb i n && ltb n (i + suc rounds) then none else files n)
    step = ground arith

-- Both loops together.
refreshed-kept :
    (k : ℕ) (local remote : List Text) (files : Files)
    → remove_behind
        (length local - length remote)
        (length remote)
        (remove_changed 0 local remote files)
        k
      ≡ (if is_kept (get_elem? local k) (get_elem? remote k) then files k else none)
refreshed-kept k local remote files =
    remove_behind-kept (length local - length remote) (length remote) k _
    ∙ ap
        (λ f.
          if leb (length remote) k && ltb k (length remote + (length local - length remote))
          then none
          else f)
        (remove_changed-kept 0 k k local remote files (omega arith))
    ∙ both (Option-cases (get_elem? remote k)) (Option-cases (get_elem? local k))
  where
    behind : Bool
    behind = leb (length remote) k && ltb k (length remote + (length local - length remote))

    within : k < length remote → behind ≡ false
    within h = ground (arith, h)

    cut_off : length remote ≤ k → k < length local → behind ≡ true
    cut_off h h' = ground (arith, h, h')

    outside : length local ≤ k → behind ≡ false
    outside h = ground (arith, h)

    both :
        (get_elem? remote k ≡ none) ⊎ ((r : Text) × (get_elem? remote k ≡ some r))
        → (get_elem? local k ≡ none) ⊎ ((l : Text) × (get_elem? local k ≡ some l))
        → (if behind
            then none
            else (if is_kept_in_both (get_elem? local k) (get_elem? remote k)
                then files k
                else none))
          ≡ (if is_kept (get_elem? local k) (get_elem? remote k) then files k else none)
    both (inr (r, at_r)) (inr (l, at_l)) = rw (within (get_elem?-lt remote k at_r), at_l, at_r) refl
    both (inr (r, at_r)) (inl at_l) = rw (within (get_elem?-lt remote k at_r), at_l) refl
    both (inl at_r) (inr (l, at_l)) =
        rw (cut_off (get_elem?-none remote k at_r) (get_elem?-lt local k at_l), at_l, at_r) refl
    both (inl at_r) (inl at_l) = rw (outside (get_elem?-none local k at_l), at_l) refl

-- The answer of the namenode is cached. At each index the local file of the path is removed if the
-- inode cached before has a location there and the answer has another one or none, and else it is
-- left as it was. What belongs to other paths stays.
pub update_inode-is_kept :
    (path : Text) (remote : Inode) (c : Client)
    → (c' : Client) × (update_inode path (ok remote) c ≡ ok c')
      × (c'.inodes path ≡ some remote)
      × ((k : ℕ)
          → c'.files path k ≡ (
              if is_kept (get_elem? (cached (c.inodes path)).sub k) (get_elem? remote.sub k)
              then c.files path k
              else none))
      × ((p : Text)
          → text_eq p path ≡ false
          → (c'.inodes p ≡ c.inodes p) × (c'.files p ≡ c.files p))
unfolding update_inode refresh set_at
update_inode-is_kept path remote c = (
  refresh path (cached (c.inodes path)) remote c,
  refl,
  rw (text_eq_refl path) refl,
  λ k.
      rw (text_eq_refl path)
        (refreshed-kept k (cached (c.inodes path)).sub remote.sub (c.files path)),
  λ p other. (rw other refl, rw other refl),
)
