-- ===== src/Inode.antt =====
-- src/common/inode.cpp and include/common/inode.h, and AggInode of include/common/agg_inode.h.
pub mod Sub
use thesis_dfs.Prelude.{
  ℕ, zero, suc, ◌+◌, ◌%◌, ◌^◌, Text, codes, Bool, true, false, List, [], ◌∷◌, ◌++◌, leb, ltb,
  Option, none, some, if◌then◌else◌, get_elem?, set, length,
}
use thesis_dfs.Prelude.Decimal.{to_text}
use thesis_dfs.Prelude.Int.{ℤ, pos, negsuc}
use thesis_dfs.Prelude.Split.{before, after, lines}
use thesis_dfs.Result.{Result, ok, err, message, undefined, expected_lock_conflict, ◌>>=◌, Error}
use thesis_dfs.FilePath
use thesis_dfs.FilePath.{simplify_path, get_parent_path}
use thesis_dfs.Node
use thesis_dfs.Node.{new_node, unknown}
use thesis_dfs.StorageType
use thesis_dfs.StorageType.{StorageType}

pub record Inode : Type 0 where
  pub fullpath : Text
  pub is_directory : Bool
  pub filesize : ℕ
  pub storage_type_ptr : Option StorageType
  pub sub : List Text
  pub valid : Bool
  pub ddl_lock : ℕ
  pub agg_inode_id : Text

-- `Inode inode;`, whose `valid` is not initialised; all code sets it before it reads it.
abbrev pub new_inode : Inode
new_inode = record {
  fullpath = [];
  is_directory = false;
  filesize = 0;
  storage_type_ptr = none;
  sub = [];
  valid = false;
  ddl_lock = 0;
  agg_inode_id = [];
}

unfoldable pub set_fullpath : Inode → Text → Inode
set_fullpath inode path = record inode { fullpath = simplify_path path }

-- `Inode inode; inode.set_fullpath(path);`
unfoldable pub inode_at : Text → Inode
unfolding set_fullpath
inode_at path = set_fullpath new_inode path

unfoldable pub get_default_dir : Text → Inode
unfolding set_fullpath
get_default_dir path = record (set_fullpath new_inode path) { is_directory = true; valid = true }

-- LOCK_REFRESH_INTERVAL, in seconds.
abbrev pub lock_refresh_interval : ℕ
lock_refresh_interval = 60

-- `now + LOCK_REFRESH_INTERVAL` in a `uint64_t`.
abbrev pub lock_until : ℕ → ℕ
lock_until now = (now + lock_refresh_interval) % 2 ^ 64

-- The exception of `lock`, with the two times in its text.
unfoldable pub lock_conflict : ℕ → Inode → Error
lock_conflict now inode = message expected_lock_conflict (
    inode.fullpath
    ++ (codes " file is being edit! ddl_lock: "
        ++ (to_text inode.ddl_lock ++ (codes ", now: " ++ to_text now))))

-- `now` is what `get_time()` returns.
unfoldable pub lock : ℕ → Inode → Result Inode
lock now inode =
    if leb now inode.ddl_lock
    then err (lock_conflict now inode)
    else ok (record inode { ddl_lock = lock_until now })

unfoldable pub unlock : Inode → Inode
unlock inode = record inode { ddl_lock = 0 }

unfoldable pub update_ddl_lock : ℕ → Inode → Inode
update_ddl_lock now inode = record inode { ddl_lock = lock_until now }

unfoldable pub filename : Inode → Text
filename inode = FilePath.filename inode.fullpath ++ (if inode.is_directory then codes "/" else [])

unfoldable pub parent_path : Inode → Text
parent_path inode = get_parent_path inode.fullpath

unfoldable pub get_block_size : Inode → ℕ
get_block_size inode = elim inode.storage_type_ptr [
  | none ↦ 0
  | some s ↦ StorageType.get_block_size s
]

-- `to_string(node)` on a string goes through the converting constructor of `Node`.
node_text : Text → Result Text
node_text node = do n ← new_node node (pos 0) unknown; ok (Node.to_string n)

concat_sub : List (Text × Text) → Result Text
unfolding node_text
concat_sub [] = ok []
concat_sub ((node, hash) ∷ nodes_hashs) = do
  name ← node_text node
  rest ← concat_sub nodes_hashs
  ok (name ++ b'|' ∷ (hash ++ b',' ∷ rest))

-- `res.pop_back()`, undefined on an empty string.
pop_back : Text → Result Text
pop_back [] = err undefined
pop_back (c ∷ []) = ok []
pop_back (c ∷ d ∷ t) = do rest ← pop_back (d ∷ t); ok (c ∷ rest)

unfoldable pub encode_one_sub : List (Text × Text) → Result Text
unfolding concat_sub pop_back
encode_one_sub nodes_hashs = concat_sub nodes_hashs >>= pop_back

decode_pairs : List Text → List (Text × Text)
decode_pairs [] = []
decode_pairs (str ∷ strs) = (before b'|' str, before b'|' (after b'|' str)) ∷ decode_pairs strs

unfoldable pub decode_one_sub : Text → List (Text × Text)
unfolding decode_pairs
decode_one_sub one_sub = decode_pairs (lines b',' one_sub)

-- FileInfo, less the pointer to the upload task, which is not serialised.
pub record FileInfo : Type 0 where
  pub path : Text
  pub size : ℕ
  pub begin : ℤ
  pub end : ℤ

pub record AggInode : Type 0 where
  pub id : Text
  pub files : List FileInfo
  pub aggregate_size : ℕ
  pub valid : List Bool
  pub valid_count : ℤ

unfoldable pub get_file_path : AggInode → ℕ → Text
get_file_path a index = elim (get_elem? a.files index) [ none ↦ [] | some file ↦ file.path ]

-- `-1` out of range; the size is cut to an `int`, here only where it fits.
unfoldable pub get_file_size : AggInode → ℕ → ℤ
get_file_size a index = elim (get_elem? a.files index) [
  | none ↦ negsuc 0
  | some file ↦ pos file.size
]

unfoldable pub get_file_pos : AggInode → ℕ → ℤ × ℤ
get_file_pos a index = elim (get_elem? a.files index) [
  | none ↦ (negsuc 0, negsuc 0)
  | some file ↦ (file.begin, file.end)
]

pred_ℤ : ℤ → ℤ
pred_ℤ (pos zero) = negsuc 0
pred_ℤ (pos (suc n)) = pos n
pred_ℤ (negsuc n) = negsuc (suc n)

unfoldable pub set_file_un_valid : ℕ → AggInode → AggInode
unfolding pred_ℤ
set_file_un_valid index a =
    if ltb index (length a.valid)
    then record a { valid = set a.valid index false; valid_count = pred_ℤ a.valid_count }
    else a
