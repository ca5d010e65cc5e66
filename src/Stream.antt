-- ===== src/Stream.antt =====
-- src/common/stream.cpp, with the loops of src/client/sdk.cpp and src/node/datanode.cpp that write to a
-- stream. The streams are brpc's: `outcome k` tells whether the k-th message of a stream is written,
-- after it was tried again for as long as `StreamWrite` answered EAGAIN.
pub mod Chunks
use Prim.Native.Nat.{min}
use thesis_dfs.Prelude.{
  ℕ, zero, suc, ◌+◌, ◌-◌, ◌*◌, Text, Bool, true, false, List, [], ◌∷◌, ◌++◌, length, take, drop,
  if◌then◌else◌, ltb,
}
use thesis_dfs.Prelude.Split.{is_empty}

-- BRPC_STREAM_CHUNK_SIZE
unfoldable pub chunk_size : ℕ
chunk_size = 16 * 1024

-- What was written, and `error_flag`.
abbrev pub Sent : Type 0
Sent = List Text × Bool

-- A message, if it is written, goes before those after it; else the loops are left.
unfoldable pub write_first : Bool → Text → Sent → Sent
write_first true msg rest = (msg ∷ rest.0, rest.1)
write_first false msg rest = ([], true)

-- The loop of `put_to_datanode` over the chunks of the block from an offset, with fuel.
unfoldable pub send_block : (ℕ → Bool) → ℕ → ℕ → Text → ℕ → Sent
unfolding write_first
send_block outcome zero k block offset = ([], false)
send_block outcome (suc fuel) k block offset =
    let current_chunk_size = min chunk_size (length block - offset) in
    let rest = send_block outcome fuel (suc k) block (offset + current_chunk_size) in
    if ltb offset (length block)
    then write_first (outcome k) (take current_chunk_size (drop offset block)) rest
    else ([], false)

-- The loop of the datanode's `get` over what is left of the file, with fuel.
unfoldable pub send_file : (ℕ → Bool) → ℕ → ℕ → Text → Sent
unfolding write_first
send_file outcome zero k file = ([], false)
send_file outcome (suc fuel) k file =
    let rest = send_file outcome fuel (suc k) (drop chunk_size file) in
    if is_empty (take chunk_size file)
    then ([], false)
    else write_first (outcome k) (take chunk_size file) rest

pub record StreamReceiver : Type 0 where
  pub ss : Text
  pub finished : Bool

-- A new receiver; `finished` is not initialised in the source.
abbrev pub new_receiver : StreamReceiver
new_receiver = record { ss = []; finished = false }

unfoldable pub on_received_messages : List Text → StreamReceiver → StreamReceiver
on_received_messages [] r = r
on_received_messages (m ∷ messages) r = on_received_messages messages (record r { ss = r.ss ++ m })

-- `on_closed`, with the receiver's function, which is given all that came.
unfoldable pub on_closed {ℓ} :
    {World : Type ℓ} → (Text → World → World) → StreamReceiver → World → StreamReceiver × World
on_closed lambda r world = (record r { finished = true }, lambda r.ss world)
