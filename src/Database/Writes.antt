-- ===== src/Database/Writes.antt =====
-- What one batch leaves to be read.
use thesis_dfs.FilePath.{simplify_path}
use thesis_dfs.Inode.{Inode}
use thesis_dfs.Prelude.{
  ◌≡◌, ◌≢◌, refl, ◌∙◌, Text, text_eq, text_eq_iff, Bool, true, false, [], ◌∷◌, if◌then◌else◌, arith,
}
use thesis_dfs.Database.Store.{
  Kv, Stored, inode, agg_inode, Status, found, not_found, failed, written, Batch, overlay,
}

-- The key that a value says it belongs to.
abbrev pub key_of : Stored → Text
key_of (inode i) = i.fullpath
key_of (agg_inode a) = a.id

-- An inode's path is in the form that `simplify_path` gives it.
abbrev pub IsNormal : Inode → Type 0
IsNormal i = simplify_path i.fullpath ≡ i.fullpath

abbrev pub IsNormalStored : Stored → Type 0
IsNormalStored (inode i) = IsNormal i
IsNormalStored (agg_inode a) = Unit {0}

abbrev pub Fits : Text → Status → Type 0
Fits key (found v) = (key_of v ≡ key) × IsNormalStored v
Fits key not_found = Unit {0}
Fits key (failed s) = Unit {0}

-- Each write of a batch is under its value's own key, which for an inode is a normal path.
abbrev pub IsKeyedBatch : Batch → Type 0
IsKeyedBatch [] = Unit {0}
IsKeyedBatch ((key, v) ∷ batch) = (key_of v ≡ key) × IsNormalStored v × IsKeyedBatch batch

overlay-Fits :
    (batch : Batch) (key : Text) (s : Status)
    → IsKeyedBatch batch
    → Fits key s
    → Fits key (overlay batch key s)
unfolding overlay
overlay-Fits [] key s h f = f
overlay-Fits ((k, v) ∷ batch) key s h f =
    overlay-Fits batch key (if text_eq k key then found v else s) h.2 (step (text_eq k key) refl)
  where
    step : (b : Bool) → text_eq k key ≡ b → Fits key (if b then found v else s)
    step true e = (h.0 ∙ (text_eq_iff k key).0 e, h.1)
    step false e = f

module _ (kv : Kv) where
  open kv use {Db, read, write, read-write}

  -- Every stored inode stands under its own path, in normal form, and every aggregate under its
  -- identifier.
  abbrev pub IsKeyed : Db → Type 0
  IsKeyed db = (key : Text) → Fits key (read db key)

  -- The store takes every batch.
  abbrev pub Accepts : Db → Type 0
  Accepts db = (batch : Batch) → (db' : Db) × (write db batch ≡ written db')

  pub write-IsKeyed :
      (db db' : Db) (batch : Batch)
      → IsKeyed db
      → IsKeyedBatch batch
      → write db batch ≡ written db'
      → IsKeyed db'
  write-IsKeyed db db' batch keyed b e key =
      rw (read-write db db' batch key e) (overlay-Fits batch key (read db key) b (keyed key))

  module _ (db db' : Db) (j k : Text) (v w : Stored)
      (e : write db ((j, v) ∷ (k, w) ∷ []) ≡ written db') where
    -- The second of two writes wins at its key.
    pub read-second : read db' k ≡ found w
    unfolding overlay
    read-second = rw (read-write db db' _ k e) (ground (arith, text_eq_iff k k))

    pub read-first : j ≢ k → read db' j ≡ found v
    unfolding overlay
    read-first ne = rw (read-write db db' _ j e) (ground (arith, text_eq_iff j j, text_eq_iff k j))

    pub read_other : (q : Text) → j ≢ q → k ≢ q → read db' q ≡ read db q
    unfolding overlay
    read_other q nj nk =
        rw (read-write db db' _ q e) (ground (arith, text_eq_iff j q, text_eq_iff k q))
