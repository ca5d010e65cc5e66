-- ===== src/Fuse/Start.antt =====
-- Which node the mounted file system talks to.
use thesis_dfs.Node.{to_string}
use thesis_dfs.Result.{Result, ok}
use thesis_dfs.RaftDn.{node_discovery, scan, is_online}
use thesis_dfs.Node.{Node}
use thesis_dfs.Fuse.{first_online, init_from, offline_error, found_or, init}
use thesis_dfs.Prelude.{
  Text, Bool, List, ◌≡◌, ◌∷◌, ◌++◌, if◌then◌else◌, ap, [], Bool-cases, ◌∙◌, refl, inl, length, inr,
  ◌==◌,
}

-- The first node of a list whose common service answers, or else what follows.
first_up_or : (Text → Bool) → List Node → Result Text → Result Text
first_up_or echo [] rest = rest
first_up_or echo (node ∷ nodes) rest =
    if echo (to_string node) then ok (to_string node) else first_up_or echo nodes rest

-- The first node of a list whose common service answers.
abbrev pub first_up : (Text → Bool) → List Node → Result Text
unfolding first_up_or
first_up echo nodes = first_up_or echo nodes offline_error

module _ (echo : Text → Bool) where
  first_up_or-append :
      (ns ms : List Node) (rest : Result Text)
      → first_up_or echo (ns ++ ms) rest ≡ first_up_or echo ns (first_up_or echo ms rest)
  unfolding first_up_or
  first_up_or-append [] ms rest = refl
  first_up_or-append (n ∷ ns) ms rest =
      ap (λ r. if echo (to_string n) then ok (to_string n) else r) (first_up_or-append ns ms rest)

  found_or-first_up_or :
      (ns : List Node) (rest : Result Text)
      → found_or (first_online (node_discovery echo ns)) rest ≡ first_up_or echo ns rest
  unfolding first_up_or first_online node_discovery scan is_online found_or to_string
  found_or-first_up_or [] rest = refl
  found_or-first_up_or (n ∷ ns) rest = elim (Bool-cases (echo (to_string n))) [
    | inl up ↦ rw up refl
    | inr down ↦ rw down (found_or-first_up_or ns rest)
  ]

  init_from-first_up_or :
      (sub ns : List Node)
      → init_from echo sub ns ≡ first_up_or echo sub (first_up_or echo ns offline_error)
  unfolding init_from first_up_or
  init_from-first_up_or sub [] = found_or-first_up_or sub offline_error
  init_from-first_up_or sub (n ∷ ns) = elim (Bool-cases (length sub == 3)) [
    | inl full ↦
        rw (full, init_from)
          (ap (found_or (first_online (node_discovery echo sub)))
              (init_from-first_up_or (n ∷ []) ns)
            ∙ found_or-first_up_or sub _)
    | inr room ↦
        rw (room, init_from)
          (init_from-first_up_or (sub ++ n ∷ []) ns
            ∙ first_up_or-append sub (n ∷ []) (first_up_or echo ns offline_error))
  ]

  -- The loop that looks at the nodes by threes ends with the first node of the list whose common service
  -- answers, and throws only if none does.
  pub init-first_up : (nodes : List Node) → init echo nodes ≡ first_up echo nodes
  unfolding init first_up_or
  init-first_up nodes = init_from-first_up_or [] nodes
