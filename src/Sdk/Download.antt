-- ===== src/Sdk/Download.antt =====
-- `SDK::decode_one_block` and `SDK::get` of src/client/sdk.cpp.
use thesis_dfs.Prelude.Decimal.{read_nat}
use thesis_dfs.Prelude.Split.{lacks, after, before, is_empty}
pub mod Fragments
pub mod Places
use thesis_dfs.Prelude.{
  ℕ, zero, suc, ◌+◌, ◌-◌, Text, codes, text_eq, Bool, true, false, List, [], ◌∷◌, ◌++◌,
  if◌then◌else◌, leb, ltb, ◌==◌, take, drop, length, replicate, Option, reverse, ◌||◌, some, none,
  ◌^◌, ◌≡◌, refl, arith, length-append, ap, ◌∙◌, append-nil, take_left,
}
use thesis_dfs.Prelude.Int.{ℤ, pos, negsuc, skip_spaces}
use thesis_dfs.Result.{Error, Result, ok, err, runtime, undefined, ◌>>=◌}
use thesis_dfs.RaftNn.{is_caught}
use thesis_dfs.Inode.{Inode, decode_one_sub}
use thesis_dfs.StorageType
use thesis_dfs.StorageType.{StorageType, ErasureCode}

-- `fs::resize_file`: cut, or filled up with zeros.
unfoldable pub resize_file : ℕ → Text → Text
resize_file size t = take size t ++ replicate (size - length t) 0

-- `stream >> n` for an `int`: spaces, a sign and digits; it fails on anything else, and out of range.
in_range : (ℕ → ℤ) → ℕ → Option (ℕ × Text) → Option (ℤ × Text)
in_range sign bound none = none
in_range sign bound (some (n, rest)) = if ltb n bound then some (sign n, rest) else none

minus : ℕ → ℤ
minus zero = pos 0
minus (suc n) = negsuc n

extract_signed : Text → Option (ℤ × Text)
unfolding in_range minus
extract_signed [] = none
extract_signed (c ∷ t) =
    if c == b'-'
    then in_range minus (2 ^ 31 + 1) (read_nat t)
    else if c == b'+'
    then in_range pos (2 ^ 31) (read_nat t)
    else in_range pos (2 ^ 31) (read_nat (c ∷ t))

extract : Text → Option (ℤ × Text)
unfolding extract_signed
extract t = extract_signed (skip_spaces t)

second_of : ℤ → Option (ℤ × Text) → Option (ℤ × ℤ)
second_of begin none = none
second_of begin (some (end, rest)) = some (begin, end)

-- `ss >> begin >> delimiter >> end`
after_begin : Option (ℤ × Text) → Option (ℤ × ℤ)
unfolding extract second_of
after_begin none = none
after_begin (some (begin, rest)) = elim (skip_spaces rest) [
  | [] ↦ none
  | c ∷ t ↦ second_of begin (extract t)
]

unfoldable pub begin_end : Text → Option (ℤ × ℤ)
unfolding extract after_begin
begin_end t = after_begin (extract t)

-- `sub.substr(0, pos)` and `sub.substr(pos + 1)` for the last comma.
before_last : Text → Text
before_last sub = reverse (after b',' (reverse sub))

after_last : Text → Text
after_last sub = reverse (before b',' (reverse sub))

-- The location of the aggregate, and the range of the file in it; without a comma the range is empty.
range_of : Option (ℤ × ℤ) → Text → Result (Text × ℤ × ℤ)
range_of none sub = err (runtime (codes "Invalid format: Unable to parse begin|end"))
range_of (some (begin, end)) sub = ok (sub, begin, end)

unfoldable pub agg_range : Text → Result (Text × ℤ × ℤ)
unfolding before_last after_last range_of
agg_range sub =
    if lacks b',' sub
    then ok (sub, pos 0, pos 0)
    else range_of (begin_end (after_last sub)) (before_last sub)

-- The bytes from `begin` up to `end`, that one included if there is one.
pub agg_slice : ℤ → ℤ → Text → Result Text
agg_slice (pos begin) (pos end) block =
    if ltb (length block) end || leb end begin
    then err (runtime (codes "Invalid range: begin or end out of bounds"))
    else ok (take (end - begin + 1) (drop begin block))
agg_slice (pos begin) (negsuc e) block =
    err (runtime (codes "Invalid range: begin or end out of bounds"))
agg_slice (negsuc b) end block = err (runtime (codes "Invalid range: begin or end out of bounds"))

-- The last lines of `get_from_datanode`: what arrived is checked against the hash that it was asked by.
unfoldable pub checked : (Text → Text) → Text → Text → Result Text
checked cal_sha256sum blkid res =
    if text_eq (cal_sha256sum res) blkid
    then ok res
    else err (runtime (codes "sha256sum check fail"))

-- `get_from_datanode node blkid`.
module _ (code : ErasureCode) (get_from_datanode : Text → Text → Result Text) where
  -- An exception that is caught leaves the fragment out.
  or_continue : Result Text → Result Text → Result Text
  or_continue (ok block) rest = ok block
  or_continue (err e) rest = if is_caught e then rest else err e

  -- A fragment that arrived is written to `datas`, which has room for as many as are decoded.
  arrived : StorageType → List Text → List Text → Result Text → Result Text
  unfolding or_continue
  arrived storage_type datas datas' rest =
      let wanted = StorageType.get_decode_blocks storage_type in
      if leb wanted (length datas)
      then err undefined
      else if length datas' == wanted
      then or_continue (StorageType.decode code storage_type datas') rest
      else rest

  -- The loop over the nodes and hashes; `datas` are the fragments that arrived. The two calls that
  -- stand for the next round are not both made.
  gather : StorageType → List (Text × Text) → List Text → Result Text
  unfolding arrived
  gather storage_type [] datas = ok []
  gather storage_type ((node, blkid) ∷ res) datas = elim (get_from_datanode node blkid) [
    | ok fragment ↦
        arrived storage_type datas (datas ++ fragment ∷ [])
          (gather storage_type res (datas ++ fragment ∷ []))
    | err e ↦ if is_caught e then gather storage_type res datas else err e
  ]

  -- An empty text is returned if too few fragments arrive.
  unfoldable pub decode_one_block : StorageType → Text → Result Text
  unfolding gather
  decode_one_block storage_type s = gather storage_type (decode_one_sub s) []

  unfoldable pub concat_blocks : StorageType → List Text → Result Text
  concat_blocks storage_type [] = ok []
  concat_blocks storage_type (s ∷ sub) = do
    block ← decode_one_block storage_type s
    rest ← concat_blocks storage_type sub
    ok (block ++ rest)

  agg_content : StorageType → List Text → Result Text
  unfolding agg_slice
  agg_content storage_type [] = err (runtime (codes "agg file sub is empty"))
  agg_content storage_type (s ∷ sub) = do
    (location, begin, end) ← agg_range s
    block ← decode_one_block storage_type location
    agg_slice begin end block

  -- `get`, from the inode that the namenode answers with, to what is left in the local file.
  unfoldable pub get : Inode → Result Text
  unfolding concat_blocks agg_content
  get i = elim i.storage_type_ptr [
    | none ↦ err undefined
    | some storage_type ↦ (do
      content ←
          if is_empty i.agg_inode_id
          then concat_blocks storage_type i.sub
          else agg_content storage_type i.sub
      ok (resize_file i.filesize content))
  ]

  pub get-whole :
      (i : Inode) (s : StorageType) (content : Text)
      → i.storage_type_ptr ≡ some s
      → i.agg_inode_id ≡ []
      → concat_blocks s i.sub ≡ ok content
      → get i ≡ ok (resize_file i.filesize content)
  unfolding get
  get-whole i s content st whole e = rw (st, get, whole, e) refl

  pub get-part :
      (i : Inode) (s : StorageType) (l location block part : Text) (begin end : ℤ) (n : ℕ)
      → i.storage_type_ptr ≡ some s
      → is_empty i.agg_inode_id ≡ false
      → agg_range l ≡ ok (location, begin, end)
      → decode_one_block s location ≡ ok block
      → agg_slice begin end block ≡ ok part
      → get (record i { sub = l ∷ []; filesize = n }) ≡ ok (resize_file n part)
  unfolding get agg_content
  get-part i s l location block part begin end n st own place got cut =
      rw (st, get, own, place, got, cut) refl

-- Resizing to the size of a text in front leaves that text.
pub resize_file-append : (a rest : Text) → resize_file (length a) (a ++ rest) ≡ a
unfolding resize_file
resize_file-append a rest =
    ap (λ n. take (length a) (a ++ rest) ++ replicate n 0) nothing
    ∙ append-nil (take (length a) (a ++ rest))
    ∙ take_left a rest
  where
    nothing : length a - length (a ++ rest) ≡ 0
    nothing = omega (arith, length-append a rest)
