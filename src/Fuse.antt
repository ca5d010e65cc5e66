-- ===== src/Fuse.antt =====
-- src/client/fuse.cpp: the mounted file system. The class `FUSE` has a client of one datanode that is online, and a
-- second try with another; the callbacks turn what it returns or throws into the kernel's numbers.
use thesis_dfs.RaftDn.{node_discovery, is_online}
use thesis_dfs.Node.{Node, to_string}
use thesis_dfs.Inode.{Inode}
use thesis_dfs.Result.{
  aborted, out_of_range, invalid_argument, undefined, Result, err, ok, runtime, message,
  invalid_argument, out_of_range, aborted,
}
pub mod Callbacks
pub mod Start
pub mod Success
pub mod Reading
use thesis_dfs.Prelude.{
  false, true, Text, List, Bool, ℕ, Option, ◌∷◌, [], none, codes, some, length, if◌then◌else◌, ◌==◌,
  ◌++◌,
}

-- The first node that was found online.
unfoldable pub first_online : List Node → Option Node
first_online [] = none
first_online (node ∷ nodes) = if is_online node then some node else first_online nodes

pub offline_error : Result Text
offline_error = err (runtime (codes "all nodes offline"))

-- The client is made for a node that was found.
pub found_or : Option Node → Result Text → Result Text
found_or none rest = rest
found_or (some node) rest = ok (to_string node)

-- `echo` answers for the common service of an address.
module _ (echo : Text → Bool) where
  -- The loop of `init` over the nodes that are left, which are looked at by threes.
  pub init_from : List Node → List Node → Result Text
  unfolding first_online found_or
  init_from sub [] = found_or (first_online (node_discovery echo sub)) offline_error
  init_from sub (node ∷ nodes) = elim (length sub == 3) [
    | false ↦ init_from (sub ++ node ∷ []) nodes
    | true ↦ found_or (first_online (node_discovery echo sub)) (init_from (node ∷ []) nodes)
  ]

  -- `init`: the address that the client is made with.
  unfoldable pub init : List Node → Result Text
  unfolding init_from
  init nodes = init_from [] nodes

-- A call that may throw, and changes the world of the client.
abbrev pub Call : Type 0 → Type 0 → Type 0
Call World A = World → Result A × World

-- The client's operations, and `reinit`, which makes a new one.
pub record Client (World : Type 0) : Type 0 where
  pub open_file : Text → ℕ → Call World (Unit {0})
  pub mkdir : Text → Call World (Unit {0})
  pub rm : Text → Call World (Unit {0})
  pub truncate : Text → ℕ → Call World (Unit {0})
  pub ls : Text → Call World Inode
  pub read_data : Text → ℕ → ℕ → Call World Text
  pub create : Text → Call World (Unit {0})
  pub write_data : Text → ℕ → Text → Call World (Unit {0})
  pub close : Text → Call World (Unit {0})
  pub fsync : Text → Call World (Unit {0})
  pub reinit : Call World (Unit {0})

module _ {World : Type 0} where
  pub after_reinit : {A : Type 0} → Call World A → Result (Unit {0}) × World → Result A × World
  after_reinit call (ok done, w) = call w
  after_reinit call (err e, w) = (err e, w)

  -- The methods that throw a `MessageException` again. After any other exception there is a new client,
  -- and one more call, whose exceptions are not caught.
  loud : {A : Type 0} → Call World (Unit {0}) → Call World A → Result A × World → Result A × World
  unfolding after_reinit
  loud reinit call (ok a, w) = (ok a, w)
  loud reinit call (err (message code info), w) = (err (message code info), w)
  loud reinit call (err (runtime what), w) = after_reinit call (reinit w)
  loud reinit call (err invalid_argument, w) = after_reinit call (reinit w)
  loud reinit call (err out_of_range, w) = after_reinit call (reinit w)
  loud reinit call (err aborted, w) = (err aborted, w)
  loud reinit call (err undefined, w) = (err undefined, w)

  -- Those that only print it, and return.
  silent :
      Call World (Unit {0})
      → Call World (Unit {0})
      → Result (Unit {0}) × World
      → Result (Unit {0}) × World
  unfolding loud
  silent reinit call (ok done, w) = (ok done, w)
  silent reinit call (err (message code info), w) = (ok tt, w)
  silent reinit call (err e, w) = loud reinit call (err e, w)

module _ {World : Type 0} (sdk : Client World) where
  unfoldable pub open_file : Text → ℕ → Call World (Unit {0})
  unfolding silent
  open_file dst flags w = silent sdk.reinit (sdk.open_file dst flags) (sdk.open_file dst flags w)

  unfoldable pub mkdir : Text → Call World (Unit {0})
  unfolding silent
  mkdir dst w = silent sdk.reinit (sdk.mkdir dst) (sdk.mkdir dst w)

  unfoldable pub rm : Text → Call World (Unit {0})
  unfolding silent
  rm dst w = silent sdk.reinit (sdk.rm dst) (sdk.rm dst w)

  unfoldable pub truncate : Text → ℕ → Call World (Unit {0})
  unfolding silent
  truncate dst size w = silent sdk.reinit (sdk.truncate dst size) (sdk.truncate dst size w)

  unfoldable pub ls : Text → Call World Inode
  unfolding loud
  ls dst w = loud sdk.reinit (sdk.ls dst) (sdk.ls dst w)

  unfoldable pub read : Text → ℕ → ℕ → Call World Text
  unfolding loud
  read dst offset size w =
      loud sdk.reinit (sdk.read_data dst offset size) (sdk.read_data dst offset size w)

  unfoldable pub create : Text → Call World (Unit {0})
  unfolding loud
  create dst w = loud sdk.reinit (sdk.create dst) (sdk.create dst w)

  unfoldable pub write : Text → ℕ → Text → Call World (Unit {0})
  unfolding loud
  write dst offset s w =
      loud sdk.reinit (sdk.write_data dst offset s) (sdk.write_data dst offset s w)

  unfoldable pub close : Text → Call World (Unit {0})
  unfolding loud
  close dst w = loud sdk.reinit (sdk.close dst) (sdk.close dst w)

  unfoldable pub fsync : Text → Call World (Unit {0})
  unfolding loud
  fsync dst w = loud sdk.reinit (sdk.fsync dst) (sdk.fsync dst w)
