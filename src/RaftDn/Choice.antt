-- ===== src/RaftDn/Choice.antt =====
-- What the loops of `on_leader_start` choose.
use thesis_dfs.Prelude.Int.{pos}
use thesis_dfs.RaftDn.{
  push_online, fill, node_discovery, scan, is_online, on_leader_start, online_only, sort, proposal,
  others,
}
use thesis_dfs.Node.{Node, to_string, online}
use thesis_dfs.Prelude.{
  ℕ, zero, suc, ◌-◌, ◌≤◌, ◌<◌, Text, Bool, true, false, List, [], ◌∷◌, ◌++◌, some, ◌≡◌, refl, arith,
  length, take, drop, length-append, length-take, length-drop, take-append-drop, append-nil,
  append_assoc, Bool-cases, inl, inr, ltb, ap, ◌∙◌, sym, if◌then◌else◌, leb, ltb→lt,
}

take_nil : (n : ℕ) → take {A = Node} n [] ≡ []
take_nil zero = refl
take_nil (suc n) = refl

-- One more node leaves room for one less.
room :
    (e : ℕ) (nodes : List Node) (m : Node)
    → length nodes < e
    → e - length nodes ≡ suc (e - length (nodes ++ m ∷ []))
room e nodes m h = omega (arith, length-append nodes (m ∷ []))

take_none {ℓ} : {A : Type ℓ} (xs : List A) (n : ℕ) → n ≡ 0 → take n xs ≡ []
take_none xs n e = rw e

take-append {ℓ} :
    {A : Type ℓ} (n : ℕ) (xs ys : List A) → take n (xs ++ ys) ≡ take n xs ++ take (n - length xs) ys
take-append zero [] ys = refl
take-append zero (x ∷ xs) ys = sym (take_none ys (0 - suc (length xs)) (omega arith))
take-append (suc n) [] ys = ap (λ m. take m ys) (minus_zero (suc n))
  where
    minus_zero : (m : ℕ) → m ≡ m - 0
    minus_zero m = omega arith
take-append (suc n) (x ∷ xs) ys = rw (take-append n xs ys, suc_less n (length xs)) refl
  where
    suc_less : (n m : ℕ) → suc n - suc m ≡ n - m
    suc_less n m = omega arith

-- Two rounds take what one round over both parts takes.
two_rounds :
    (e : ℕ) (nodes xs ys : List Node)
    → (nodes ++ take (e - length nodes) xs)
        ++ take (e - length (nodes ++ take (e - length nodes) xs)) ys
      ≡ nodes ++ take (e - length nodes) (xs ++ ys)
two_rounds e nodes xs ys =
    append_assoc nodes (take (e - length nodes) xs) _
    ∙ ap (λ t. nodes ++ t)
        (ap (λ m. take (e - length nodes) xs ++ take m ys) left
          ∙ sym (take-append (e - length nodes) xs ys))
  where
    left : e - length (nodes ++ take (e - length nodes) xs) ≡ e - length nodes - length xs
    left =
        omega (
          arith,
          length-append nodes (take (e - length nodes) xs),
          length-take (e - length nodes) xs,
        )

module _ (echo : Text → Bool) (nn_port expected_nn : ℕ) where
  -- The nodes that answer, at the namenode's port.
  pub answering : List Node → List Node
  answering [] = []
  answering (n ∷ ns) =
      let rest = answering ns in
      if echo (to_string n)
      then record n { port = pos nn_port; node_status = online } ∷ rest
      else rest

  answering-append : (xs ys : List Node) → answering (xs ++ ys) ≡ answering xs ++ answering ys
  unfolding answering
  answering-append [] ys = refl
  answering-append (x ∷ xs) ys = ground (arith, answering-append xs ys)

  push_online-take :
      (sub nodes : List Node)
      → length nodes < expected_nn
      → push_online echo nn_port expected_nn (node_discovery echo sub) nodes
        ≡ nodes ++ take (expected_nn - length nodes) (answering sub)
  unfolding push_online node_discovery scan is_online answering
  push_online-take [] nodes h = sym (rw (take_nil (expected_nn - length nodes)) (append-nil nodes))
  push_online-take (n ∷ sub) nodes h = elim (Bool-cases (echo (to_string n))) [
    | inr dark ↦ rw dark (push_online-take sub nodes h)
    | inl light ↦
        let m : Node = record n { port = pos nn_port; node_status = online } in
        rw (light, room expected_nn nodes m h)
          (elim (Bool-cases (leb expected_nn (length (nodes ++ m ∷ [])))) [
            | inl full ↦ rw full (
                ap (λ t. nodes ++ m ∷ t) (sym (take_none (answering sub) _ (no_room nodes m full))))
            | inr more ↦ rw more (
                push_online-take sub (nodes ++ m ∷ []) (still nodes m more)
                ∙ append_assoc nodes (m ∷ []) _)
          ])
  ]
    where
      no_room :
          (nodes : List Node) (m : Node)
          → leb expected_nn (length (nodes ++ m ∷ [])) ≡ true
          → expected_nn - length (nodes ++ m ∷ []) ≡ 0
      no_room nodes m full = ground arith

      still :
          (nodes : List Node) (m : Node)
          → leb expected_nn (length (nodes ++ m ∷ [])) ≡ false
          → length (nodes ++ m ∷ []) < expected_nn
      still nodes m more = ground arith

  fill-take :
      (fuel : ℕ) (rest nodes : List Node)
      → length rest ≤ fuel
      → fill echo nn_port expected_nn fuel rest nodes
        ≡ some (nodes ++ take (expected_nn - length nodes) (answering rest))
  unfolding fill answering
  fill-take zero [] nodes h =
      ap some (sym (rw (take_nil (expected_nn - length nodes)) (append-nil nodes)))
  fill-take zero (n ∷ ns) nodes h = absurd (omega (arith, h))
  fill-take (suc fuel) [] nodes h =
      ap some (sym (rw (take_nil (expected_nn - length nodes)) (append-nil nodes)))
  fill-take (suc fuel) (n ∷ ns) nodes h = elim (Bool-cases (ltb (length nodes) expected_nn)) [
    | inl more ↦
        let chunk = take expected_nn (n ∷ ns) in
        let tail = drop expected_nn (n ∷ ns) in
        let few : length nodes < expected_nn = ltb→lt (length nodes) expected_nn more in
        let k = expected_nn - length nodes in
        rw more (
          ap (fill echo nn_port expected_nn fuel tail) (push_online-take chunk nodes few)
          ∙ fill-take fuel tail (nodes ++ take k (answering chunk)) (shorter few h)
          ∙ ap some (
              two_rounds expected_nn nodes (answering chunk) (answering tail)
              ∙ ap (λ t. nodes ++ take k t)
                  (sym (answering-append chunk tail)
                    ∙ ap answering (take-append-drop expected_nn (n ∷ ns)))))
    | inr full ↦ rw full (
        ap some (
          sym (
            ap (λ t. nodes ++ t) (take_none (answering (n ∷ ns)) _ (filled nodes full))
            ∙ append-nil nodes)))
  ]
    where
      shorter :
          length nodes < expected_nn
          → suc (length ns) ≤ suc fuel
          → length (drop expected_nn (n ∷ ns)) ≤ fuel
      shorter few q = omega (arith, length-drop expected_nn (n ∷ ns), few, q)

      filled :
          (nodes : List Node)
          → ltb (length nodes) expected_nn ≡ false
          → expected_nn - length nodes ≡ 0
      filled nodes q = ground arith

  -- The namenodes that a new leader proposes are the present ones that answer, followed by the
  -- first other datanodes that answer, as many as are missing and at the namenode's port: all that
  -- answer, if there are not enough. With nobody at all the leader fails. The rounds always end.
  pub on_leader_start-chosen :
      (namenode_list datanode_list : List Node)
      → let nodes = online_only (node_discovery echo (sort namenode_list)) in
        on_leader_start echo nn_port expected_nn namenode_list datanode_list
        ≡ proposal echo nn_port expected_nn (
            some
              (nodes ++ take (expected_nn - length nodes) (answering (others nodes datanode_list))))
  unfolding on_leader_start
  on_leader_start-chosen namenode_list datanode_list =
      let nodes = online_only (node_discovery echo (sort namenode_list)) in
      let rest = others nodes datanode_list in
      ap (proposal echo nn_port expected_nn) (fill-take (length rest) rest nodes (omega arith))
