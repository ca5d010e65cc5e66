-- ===== src/Sdk/Upload/Rounds.antt =====
-- How the loop of `encode_one_block` ends while each datanode is either up or down.
use thesis_dfs.Sdk.Upload.Turn.{next_node-IsNext}
use thesis_dfs.Sdk.Upload.Placed.{IsReliable, Placed, Placed-put, Placed-snoc}
use thesis_dfs.Sdk.Upload.Turns.{until, passed, until-lt, until_next}
use thesis_dfs.RaftNn.{is_caught}
use thesis_dfs.Sdk.Upload.{Round, goes_on, round, after_put, round_from, upload, try_node}
use thesis_dfs.StorageType.{rs, re, agg, check, StorageType}
use thesis_dfs.Prelude.{
  ℕ, zero, suc, ◌+◌, ◌*◌, ◌%◌, ◌≤◌, ◌<◌, Text, Bool, true, false, List, [], ◌∷◌, ◌++◌, some, ◌≡◌,
  ◌≢◌, refl, inl, inr, arith, ◌∙◌, ap, sym, Bool-cases, get_elem?, length, append_assoc,
  get_elem?_in, subst, append-nil, List-cases,
}
use thesis_dfs.Result.{Error, Result, ok, err}

check_mono : (s : StorageType) (n : ℕ) → check s (suc n) ≡ false → check s n ≡ false
unfolding check
check_mono (rs k m b) n e = ground arith
check_mono (re c b) n e = ground arith
check_mono (agg k m b) n e = ground arith

module _ {World : Type 0} (put_to_datanode : Text → Text → World → Result Text × World)
    (hash : Text → Text) (up : Text → Bool) (Stored : Text → Text → World → Type 0)
    (reliable : IsReliable put_to_datanode hash up Stored) (s : StorageType) (nodes : List Text)
    (j : ℕ) (lucky : Text) (inside : j < length nodes) (at_j : get_elem? nodes j ≡ some lucky)
    (is_up : up lucky ≡ true) (Kept : World → Type 0)
    (kept-put : (node fragment : Text) (w : World)
      → Kept w
      → Kept (put_to_datanode node fragment w).1) where
  -- Rounds that are left at most.
  unfoldable pub rounds_left : Round World → ℕ
  unfolding until
  rounds_left r = length r.left * length nodes + until j (length nodes) r.node_index

  -- Where the loop stands: what it has done, and that the failures since the last change to the
  -- first node are fewer than the turns since then once the node at `j` had its turn.
  pub record IsRunning (vec : List Text) (r : Round World) : Type 0 where
    pub done : List Text
    pub split : done ++ r.left ≡ vec
    pub placed : Placed hash Stored nodes r.world done r.nodes_hashs
    pub holds : Kept r.world
    pub index : r.node_index < length nodes
    pub few : check s r.succ ≡ false → r.fail_count + passed j r.node_index ≤ r.node_index

  pub rounds_left-lt :
      (vec : List Text) (r : Round World)
      → IsRunning vec r
      → rounds_left r < length r.left * length nodes + length nodes
  unfolding rounds_left
  rounds_left-lt vec r run = omega (arith, until-lt j (length nodes) r.node_index inside run.index)

  after_success :
      (vec : List Text) (r : Round World) (f : Text) (fs : List Text) (node : Text) (w : World)
      → IsRunning vec r
      → r.left ≡ f ∷ fs
      → get_elem? nodes r.node_index ≡ some node
      → put_to_datanode node f r.world ≡ (ok (hash f), w)
      → Stored node f w
      → (r' : Round World) × (after_put put_to_datanode s (length nodes) r fs node (ok (hash f), w)
          ≡ goes_on r')
        × IsRunning vec r'
        × (rounds_left r' < rounds_left r)
  unfolding after_put rounds_left passed
  after_success vec r f fs node w run e n p here =
      let (r', goes, nx) =
        next_node-IsNext put_to_datanode s nodes j inside
          (record r {
            left = fs;
            succ = suc r.succ;
            nodes_hashs = r.nodes_hashs ++ (node, hash f) ∷ [];
            world = w;
          })
          run.index (λ c. ground (arith, run.few (check_mono s r.succ c))) in
      (
        r',
        goes,
        record {
          done = run.done ++ f ∷ [];
          split =
              ap (λ l. (run.done ++ f ∷ []) ++ l) nx.left
              ∙ append_assoc run.done (f ∷ []) fs
              ∙ ap (λ l. run.done ++ l) (sym e)
              ∙ run.split;
          placed =
              rw (nx.world, nx.hashs)
                (Placed-snoc hash Stored nodes w node f run.done r.nodes_hashs (r.node_index, n)
                  here
                  (subst (λ v. Placed hash Stored nodes v run.done r.nodes_hashs) (ap (λ q. q.1) p)
                    (Placed-put put_to_datanode hash up Stored reliable nodes r.world node f
                      run.done r.nodes_hashs run.placed)));
          holds = rw nx.world (subst Kept (ap (λ q. q.1) p) (kept-put node f r.world run.holds));
          index = rw nx.turn (turn_inside (suc r.node_index));
          few = nx.few;
        },
        rw (nx.left, nx.turn, e)
            (fewer (length fs) (suc r.node_index % length nodes)
              (until j (length nodes) r.node_index) (turn_inside (suc r.node_index))),
      )
    where
      turn_inside : (i : ℕ) → i % length nodes < length nodes
      turn_inside i = omega (arith, inside)

      times : (l : ℕ) → suc l * length nodes ≡ l * length nodes + length nodes
      times l = grind arith

      fewer :
          (l i u : ℕ)
          → i < length nodes
          → l * length nodes + until j (length nodes) i < suc l * length nodes + u
      fewer l i u q = omega (arith, until-lt j (length nodes) i inside q, times l)

  after_failure :
      (vec : List Text) (r : Round World) (f : Text) (fs : List Text) (node : Text) (w : World)
      (x : Error)
      → IsRunning vec r
      → get_elem? nodes r.node_index ≡ some node
      → put_to_datanode node f r.world ≡ (err x, w)
      → up node ≡ false
      → is_caught x ≡ true
      → (r' : Round World) × (after_put put_to_datanode s (length nodes) r fs node (err x, w)
          ≡ goes_on r')
        × IsRunning vec r'
        × (rounds_left r' < rounds_left r)
  unfolding after_put rounds_left passed
  after_failure vec r f fs node w x run n p dark caught =
      let (r', goes, nx) =
        next_node-IsNext put_to_datanode s nodes j inside
          (record r { fail_count = suc r.fail_count; world = w }) run.index
          (λ c. ground (arith, run.few c, other)) in
      (
        r',
        rw caught goes,
        record {
          done = run.done;
          split = ap (λ l. run.done ++ l) nx.left ∙ run.split;
          placed =
              rw (nx.world, nx.hashs)
                (subst (λ v. Placed hash Stored nodes v run.done r.nodes_hashs) (ap (λ q. q.1) p)
                  (Placed-put put_to_datanode hash up Stored reliable nodes r.world node f run.done
                    r.nodes_hashs run.placed));
          holds = rw nx.world (subst Kept (ap (λ q. q.1) p) (kept-put node f r.world run.holds));
          index = rw nx.turn (turn_inside (suc r.node_index));
          few = nx.few;
        },
        rw (nx.left, nx.turn)
            (omega (arith, until_next j (length nodes) r.node_index inside run.index other)),
      )
    where
      turn_inside : (i : ℕ) → i % length nodes < length nodes
      turn_inside i = omega (arith, inside)

      clash : get_elem? nodes j ≡ some node → ⊥
      clash q = ground (arith, at_j, is_up, dark)

      other : r.node_index ≢ j
      other same = clash (ap (get_elem? nodes) (sym same) ∙ n)

  round-after_put :
      (r : Round World) (f : Text) (fs : List Text) (node : Text)
      → r.left ≡ f ∷ fs
      → get_elem? nodes r.node_index ≡ some node
      → round put_to_datanode s nodes r
        ≡ after_put put_to_datanode s (length nodes) r fs node (put_to_datanode node f r.world)
  unfolding round round_from try_node
  round-after_put r f fs node e n =
      ap (round_from put_to_datanode s nodes r) e
      ∙ ap (try_node put_to_datanode s (length nodes) r f fs) n

  -- One round with a fragment left: it goes on, and is nearer to the end.
  round-IsRunning :
      (vec : List Text) (r : Round World) (f : Text) (fs : List Text)
      → IsRunning vec r
      → r.left ≡ f ∷ fs
      → (r' : Round World) × (round put_to_datanode s nodes r ≡ goes_on r')
        × IsRunning vec r'
        × (rounds_left r' < rounds_left r)
  round-IsRunning vec r f fs run e =
      let (node, n) = get_elem?_in nodes r.node_index run.index in
      let asked = round-after_put r f fs node e n in
      elim (Bool-cases (up node)) [
        | inl light ↦
            let (w, p, here) = reliable.accepts node f r.world light in
            let (r', goes, run', less) = after_success vec r f fs node w run e n p here in
            (
              r',
              asked ∙ ap (after_put put_to_datanode s (length nodes) r fs node) p ∙ goes,
              run',
              less,
            )
        | inr dark ↦
            let (x, w, p, caught) = reliable.refuses node f r.world dark in
            let (r', goes, run', less) = after_failure vec r f fs node w x run n p dark caught in
            (
              r',
              asked ∙ ap (after_put put_to_datanode s (length nodes) r fs node) p ∙ goes,
              run',
              less,
            )
      ]

  upload-ended :
      (vec : List Text) (r : Round World) (fuel : ℕ)
      → IsRunning vec r
      → r.left ≡ []
      → 0 < fuel
      → (r' : Round World) × (upload put_to_datanode fuel s nodes r ≡ some (ok r'))
        × Placed hash Stored nodes r'.world vec r'.nodes_hashs
        × IsRunning vec r'
  unfolding upload round round_from
  upload-ended vec r zero run e pos = absurd (omega (arith, pos))
  upload-ended vec r (suc fuel) run e pos = (
    r,
    rw (e, round_from) refl,
    subst (λ fs. Placed hash Stored nodes r.world fs r.nodes_hashs)
        (sym (append-nil run.done) ∙ ap (λ l. run.done ++ l) (sym e) ∙ run.split) run.placed,
    run,
  )

  upload-step :
      (fuel : ℕ) (r r' : Round World)
      → round put_to_datanode s nodes r ≡ goes_on r'
      → upload put_to_datanode (suc fuel) s nodes r ≡ upload put_to_datanode fuel s nodes r'
  unfolding upload
  upload-step fuel r r' e = rw (e, upload) refl

  -- With fuel for the rounds that are left the loop ends, and all fragments are placed.
  pub upload-Placed :
      (vec : List Text) (fuel : ℕ) (r : Round World)
      → IsRunning vec r
      → rounds_left r < fuel
      → (r' : Round World) × (upload put_to_datanode fuel s nodes r ≡ some (ok r'))
        × Placed hash Stored nodes r'.world vec r'.nodes_hashs
        × IsRunning vec r'
  upload-Placed vec zero r run h = absurd (omega (arith, h))
  upload-Placed vec (suc fuel) r run h = elim (List-cases r.left) [
    | inl e ↦ upload-ended vec r (suc fuel) run e (omega arith)
    | inr (f, fs, e) ↦
        let (r', goes, run', less) = round-IsRunning vec r f fs run e in
        let (r'', ends, placed, run'') = upload-Placed vec fuel r' run' (omega (arith, less, h)) in
        (r'', upload-step fuel r r' goes ∙ ends, placed, run'')
  ]
