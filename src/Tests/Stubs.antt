-- ===== src/Tests/Stubs.antt =====
-- A stub is the text of its node.
use thesis_dfs.Prelude.{Text, text_eq, codes, ◌≡◌, refl, List, [], ◌∷◌, some, Option, false, ◌++◌}
use thesis_dfs.Result.{Result, ok, err, runtime}
use thesis_dfs.ConnectionPool.{find, get_stub, set_stub}
use thesis_dfs.ConnectionPool.Reuse.{get_stub-again}

abbrev one_stub : List (Text × Option Text)
one_stub = (codes "n:1", some (codes "s")) ∷ []

abbrev fails : Text → Result Text
fails node = err (runtime (codes "down"))

made_second :
    get_stub ok (codes "n:2") one_stub
    ≡ (ok (codes "n:2"), one_stub ++ (codes "n:2", some (codes "n:2")) ∷ [])
unfolding get_stub find set_stub text_eq
made_second = refl

get_stub-again_example :
    (get_stub fails (codes "n:2") (one_stub ++ (codes "n:2", some (codes "n:2")) ∷ [])
      ≡ (ok (codes "n:2"), one_stub ++ (codes "n:2", some (codes "n:2")) ∷ []))
    × ((other : Text)
        → text_eq (codes "n:2") other ≡ false
        → find other (one_stub ++ (codes "n:2", some (codes "n:2")) ∷ []) ≡ find other one_stub)
get_stub-again_example =
    get_stub-again ok fails (codes "n:2") one_stub
      (one_stub ++ (codes "n:2", some (codes "n:2")) ∷ []) (codes "n:2") made_second
