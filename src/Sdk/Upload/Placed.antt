-- ===== src/Sdk/Upload/Placed.antt =====
-- Where the fragments of a block are after they were put.
use thesis_dfs.RaftNn.{is_caught}
use thesis_dfs.Prelude.{ℕ, Text, Bool, true, false, List, [], ◌∷◌, ◌++◌, some, ◌≡◌, refl, get_elem?}
use thesis_dfs.Result.{Error, Result, ok, err}

-- What is relied on of `put_to_datanode` while the nodes do not change: a node that is up takes the
-- fragment, answers with its hash, and keeps it; a node that is down fails.
pub record IsReliable {World : Type 0} (put_to_datanode : Text → Text → World → Result Text × World)
    (hash : Text → Text) (up : Text → Bool) (Stored : Text → Text → World → Type 0) : Type 0 where
  pub accepts :
      (node fragment : Text) (w : World)
      → up node ≡ true
      → (w' : World) × (put_to_datanode node fragment w ≡ (ok (hash fragment), w'))
        × Stored node fragment w'
  pub refuses :
      (node fragment : Text) (w : World)
      → up node ≡ false
      → (e : Error) × (w' : World) × (put_to_datanode node fragment w ≡ (err e, w'))
        × (is_caught e ≡ true)
  pub keeps :
      (node fragment other kept : Text) (w : World)
      → Stored other kept w
      → Stored other kept (put_to_datanode node fragment w).1

module _ {World : Type 0} (hash : Text → Text) (Stored : Text → Text → World → Type 0)
    (nodes : List Text) where
  -- The fragments done so far, each on a node of the list, with its hash.
  abbrev pub Placed : World → List Text → List (Text × Text) → Type 0
  Placed w [] [] = Unit {0}
  Placed w [] (p ∷ ps) = ⊥
  Placed w (f ∷ fs) [] = ⊥
  Placed w (f ∷ fs) ((node, h) ∷ ps) =
      ((k : ℕ) × (get_elem? nodes k ≡ some node)) × (h ≡ hash f) × Stored node f w × Placed w fs ps

  pub Placed-snoc :
      (w : World) (node f : Text) (fs : List Text) (ps : List (Text × Text))
      → (k : ℕ) × (get_elem? nodes k ≡ some node)
      → Stored node f w
      → Placed w fs ps
      → Placed w (fs ++ f ∷ []) (ps ++ (node, hash f) ∷ [])
  Placed-snoc w node f [] [] k here p = (k, refl, here, tt)
  Placed-snoc w node f [] (q ∷ ps) k here p = absurd p
  Placed-snoc w node f (g ∷ fs) [] k here p = absurd p
  Placed-snoc w node f (g ∷ fs) (q ∷ ps) k here p =
      (p.0, p.1, p.2, Placed-snoc w node f fs ps k here p.3)

module _ {World : Type 0} (put_to_datanode : Text → Text → World → Result Text × World)
    (hash : Text → Text) (up : Text → Bool) (Stored : Text → Text → World → Type 0)
    (reliable : IsReliable put_to_datanode hash up Stored) (nodes : List Text) where
  pub Placed-put :
      (w : World) (node fragment : Text) (fs : List Text) (ps : List (Text × Text))
      → Placed hash Stored nodes w fs ps
      → Placed hash Stored nodes (put_to_datanode node fragment w).1 fs ps
  Placed-put w node fragment [] [] p = tt
  Placed-put w node fragment [] (q ∷ ps) p = p
  Placed-put w node fragment (f ∷ fs) [] p = p
  Placed-put w node fragment (f ∷ fs) (q ∷ ps) p =
      (p.0, p.1, reliable.keeps node fragment q.0 f w p.2, Placed-put w node fragment fs ps p.3)
