-- ===== src/Tests/Choice.antt =====
-- The choice of the namenodes among three datanodes.
use thesis_dfs.RaftDn.Timer.{Watch, watch, IsRight, watch-IsRight}
use thesis_dfs.RaftDn.Choice.{answering, on_leader_start-chosen}
use thesis_dfs.Prelude.Int.{pos}
use thesis_dfs.Node.{Node, unknown, online}
use thesis_dfs.Prelude.{
  Text, List, Bool, [], not, codes, ◌≡◌, text_eq, ◌∷◌, some, ◌++◌, take, ◌-◌, length, ℕ, leb, arith,
}
use thesis_dfs.RaftDn.{others, on_leader_start, proposal, online_only, node_discovery, sort}

-- Two of three datanodes answer.
answers : Text → Bool
answers address = not (text_eq address (codes "10.0.0.2:8001"))

abbrev datanode : Text → Node
datanode ip = record { ip = ip; port = pos 8001; node_status = unknown }

abbrev datanodes : List Node
datanodes =
    datanode (codes "10.0.0.1") ∷ datanode (codes "10.0.0.2") ∷ datanode (codes "10.0.0.3") ∷ []

on_leader_start-chosen_example :
    on_leader_start answers 8000 6 [] datanodes
    ≡ proposal answers 8000 6 (
        some (
          online_only (node_discovery answers (sort []))
          ++ take (6 - length (online_only (node_discovery answers (sort [])))) (
              answering answers 8000 6
                (others (online_only (node_discovery answers (sort []))) datanodes))))
on_leader_start-chosen_example = on_leader_start-chosen answers 8000 6 [] datanodes

-- The first node answers from its third scan on.
abbrev late : ℕ → Text → Bool
late t address = leb 2 t

abbrev watched : List Node
watched =
    record { ip = codes "10.0.0.1"; port = pos 8000; node_status = online }
    ∷ record { ip = codes "10.0.0.2"; port = pos 8000; node_status = online }
    ∷ []

watch-IsRight_example :
    (r : Watch) × (watch late 8000 2 9 [] watched 0 0 ≡ some r) × IsRight late 8000 2 0 [] watched r
watch-IsRight_example = watch-IsRight late 8000 2 9 watched 0 (omega arith)
