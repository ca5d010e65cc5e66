-- ===== src/Tests/Mounts.antt =====
-- The mounted file system, with small clients.
use thesis_dfs.Fuse.Reading.{spkdfs_read-within}
use thesis_dfs.Fuse.Start.{first_up, init-first_up}
use thesis_dfs.Prelude.Int.{pos}
use thesis_dfs.Result.{path_exists_exception, err, ok, message, undefined}
use thesis_dfs.Node.{Node, unknown}
use thesis_dfs.Fuse.Callbacks.{spkdfs_read}
use thesis_dfs.Sdk.Ranges.{Files}
use thesis_dfs.Fuse.Success.{IsTold, IsTold-success}
use thesis_dfs.Fuse.{init, Call, Client}
use thesis_dfs.Prelude.{
  Text, List, Bool, ◌≡◌, ℕ, codes, none, if◌then◌else◌, refl, ◌∷◌, text_eq, ◌++◌, ◌==◌, leb, [],
  suc, some, ◌+◌, arith,
}
use thesis_dfs.Sdk.Ranges

abbrev node_at : Text → Node
node_at ip = record { ip = ip; port = pos 8001; node_status = unknown }

abbrev four_nodes : List Node
four_nodes =
    node_at (codes "a") ∷ node_at (codes "b") ∷ node_at (codes "c") ∷ node_at (codes "d") ∷ []

abbrev only_d : Text → Bool
only_d address = text_eq address (codes "d:8001")

init-first_up_example : init only_d four_nodes ≡ first_up only_d four_nodes
init-first_up_example = init-first_up only_d four_nodes

abbrev refusal : {A : Type 0} → Call ℕ A
refusal w = (err (message path_exists_exception (codes "/a")), w)

abbrev refusing_client : Client ℕ
refusing_client = record {
  open_file = λ dst flags. refusal;
  mkdir = λ dst. refusal;
  rm = λ dst. refusal;
  truncate = λ dst size. refusal;
  ls = λ dst. refusal;
  read_data = λ dst offset size. refusal;
  create = λ dst. refusal;
  write_data = λ dst offset s. refusal;
  close = λ dst. refusal;
  fsync = λ dst. refusal;
  reinit = λ w. (ok tt, suc w);
}

IsTold-success_example : IsTold refusing_client (codes "/a") 4 0 0 0
IsTold-success_example = IsTold-success refusing_client (codes "/a") 4 0 0 0

-- A file of three bytes in one block of four.
abbrev block : Text
block = codes "abc" ++ 0 ∷ []

abbrev no_files : Files
no_files i = none

abbrev loaded : Files
loaded i = if i == 0 then some block else none

two_left :
    thesis_dfs.Sdk.Ranges.read_data (λ location. ok block) 4 3 (codes "x" ∷ []) 1 5 no_files
    ≡ ok (codes "bc", loaded)
unfolding thesis_dfs.Sdk.Ranges.read_data
two_left = refl

abbrev reading_client : Client ℕ
reading_client = record refusing_client { read_data = λ dst offset size w. (ok (codes "bc"), w) }

spkdfs_read-within_example :
    spkdfs_read reading_client (codes "/a") 5 1 0
    ≡ ((if leb (1 + 5) 3 then ok (pos 5, codes "bc") else err undefined), 0)
spkdfs_read-within_example =
    spkdfs_read-within reading_client (λ location. ok block) 4 3 (codes "x" ∷ []) (codes "/a") 1 5
      no_files loaded (codes "bc") 0 0 (omega arith) (omega arith) refl two_left
