-- ===== src/ConnectionPool.antt =====
-- include/common/connecttion_pool.hpp: the stubs of the nodes, each made once. Channels and stubs are
-- brpc's; `make` makes one, or throws.
pub mod Reuse
use thesis_dfs.Prelude.{
  Text, text_eq, codes, Bool, List, [], ◌∷◌, Option, none, some, if◌then◌else◌,
}
use thesis_dfs.Result.{Result, ok, err, runtime}

-- `stubs`; a pointer is null if making the stub failed.
abbrev pub Stubs : Type 0 → Type 0
Stubs Stub = List (Text × Option Stub)

unfoldable pub find : {Stub : Type 0} → Text → Stubs Stub → Option Stub
find node [] = none
find node ((n, stub_ptr) ∷ stubs) = if text_eq n node then stub_ptr else find node stubs

-- `stubs[node]` is given a pointer.
unfoldable pub set_stub : {Stub : Type 0} → Text → Option Stub → Stubs Stub → Stubs Stub
set_stub node stub_ptr [] = (node, stub_ptr) ∷ []
set_stub node stub_ptr ((n, s) ∷ stubs) =
    let rest = set_stub node stub_ptr stubs in
    if text_eq n node then (n, stub_ptr) ∷ stubs else (n, s) ∷ rest

made : {Stub : Type 0} → Text → Stubs Stub → Result Stub → Result Stub × Stubs Stub
made node stubs (ok stub) = (ok stub, set_stub node (some stub) stubs)
made node stubs (err e) = (err (runtime (codes "node not online: ")), set_stub node none stubs)

-- `get_stub(node)`; the message is cut off before that of the exception.
unfoldable pub get_stub :
    {Stub : Type 0} → (Text → Result Stub) → Text → Stubs Stub → Result Stub × Stubs Stub
unfolding made
get_stub make node stubs = elim (find node stubs) [
  | some stub ↦ (ok stub, stubs)
  | none ↦ made node stubs (make node)
]
