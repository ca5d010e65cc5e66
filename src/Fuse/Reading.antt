-- ===== src/Fuse/Reading.antt =====
-- Reading through the mounted file system near the end of a file.
use thesis_dfs.Sdk.Ranges.Amount.{length-read_data}
use thesis_dfs.Prelude.Int.{pos, ℤ}
use thesis_dfs.Result.{Result, ok, err, undefined}
use thesis_dfs.Fuse.{Client}
use thesis_dfs.Fuse.Callbacks.{spkdfs_read, read_result}
use thesis_dfs.Prelude.{
  ℕ, Text, List, ◌<◌, ◌+◌, ◌^◌, ◌≡◌, if◌then◌else◌, leb, ap, length, ◌-◌, ◌≤◌, ltb, false, arith,
  true, Bool-cases, inl, take_all, inr, refl,
}
use thesis_dfs.Fuse
use Prim.Native.Nat.{min}
use thesis_dfs.Sdk.Ranges.{read_data, Files}

copied :
    (size filesize offset : ℕ) (s : Text)
    → 0 < size
    → length s ≡ min size (filesize - offset)
    → read_result size (ok s)
      ≡ (if leb (offset + size) filesize then ok (pos size, s) else err undefined)
unfolding read_result
copied size filesize offset s some_bytes n = elim (Bool-cases (leb (offset + size) filesize)) [
  | inl inside ↦
      rw (inside, short (ground (arith, n, inside)))
        (ap (λ (t : Text). ok (pos size, t)) (take_all size s (ground (arith, n, inside))))
  | inr behind ↦ rw (behind, long (ground (arith, n, behind, some_bytes))) refl
]
  where
    short : size ≤ length s → ltb (length s) size ≡ false
    short le = ground arith

    long : length s < size → ltb (length s) size ≡ true
    long lt = ground arith

-- Where the client reads a part of a file by its blocks, the callback gives the kernel the bytes asked for, at
-- least one, and their number, if they all lie in the file. If they reach behind its end, as the last read
-- of a file mostly does, `memcpy` reads behind the end of what the client returned, which is undefined.
pub spkdfs_read-within :
    {World : Type 0} (sdk : Client World) (decode_one_block : Text → Result Text)
    (block_size filesize : ℕ) (sub : List Text) (path : Text) (offset size : ℕ)
    (files files' : Files) (s : Text) (w w' : World)
    → 0 < size
    → offset + size < 2 ^ 64
    → sdk.read_data path offset size w ≡ (ok s, w')
    → read_data decode_one_block block_size filesize sub offset size files ≡ ok (s, files')
    → spkdfs_read sdk path size offset w
      ≡ ((if leb (offset + size) filesize then ok (pos size, s) else err undefined), w')
unfolding spkdfs_read thesis_dfs.Fuse.read
spkdfs_read-within sdk decode_one_block block_size filesize sub path offset size files files' s w w'
      some_bytes fits e r =
    rw e (
      ap (λ (q : Result (ℤ × Text)). (q, w'))
        (copied size filesize offset s some_bytes (
          length-read_data decode_one_block block_size filesize sub offset size files files' s fits
            r)))
