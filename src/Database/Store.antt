-- ===== src/Database/Store.antt =====
-- What the code relies on of RocksDB: point reads, and batches of writes that are atomic and take
-- effect in their order. A single `Put` is a batch of one.
use thesis_dfs.Prelude.{◌≡◌, ap, Text, text_eq, List, [], ◌∷◌, if◌then◌else◌}
use thesis_dfs.Inode.{Inode, AggInode}

pub data Stored : Type 0 where
  inode : Inode → Stored
  agg_inode : AggInode → Stored

-- `rocksdb::Status` of a read, with the value, and of a write, with the database after it.
pub data Status : Type 0 where
  found : Stored → Status
  not_found : Status
  failed : Text → Status

pub data Written (Db : Type 0) : Type 0 where
  written : Db → Written Db
  not_written : Text → Written Db

abbrev pub Batch : Type 0
Batch = List (Text × Stored)

-- What is read at a key after a batch: the last write to it, or what was there.
unfoldable pub overlay : Batch → Text → Status → Status
overlay [] key s = s
overlay ((k, v) ∷ batch) key s = overlay batch key (if text_eq k key then found v else s)

pub record Kv : Type 1 where
  pub Db : Type 0
  pub read : Db → Text → Status
  pub write : Db → Batch → Written Db
  pub read-write :
      (db db' : Db) (batch : Batch) (key : Text)
      → write db batch ≡ written db'
      → read db' key ≡ overlay batch key (read db key)

-- A store with which the laws are met: the batches, the latest one in front.
unfoldable pub lookup : List Batch → Text → Status
unfolding overlay
lookup [] key = not_found
lookup (batch ∷ db) key = overlay batch key (lookup db key)

unfoldable pub list_write : List Batch → Batch → Written (List Batch)
list_write db batch = written (batch ∷ db)

unwritten : Written (List Batch) → List Batch
unwritten (written db) = db
unwritten (not_written s) = []

pub lookup-list_write :
    (db db' : List Batch) (batch : Batch) (key : Text)
    → list_write db batch ≡ written db'
    → lookup db' key ≡ overlay batch key (lookup db key)
unfolding lookup list_write unwritten
lookup-list_write db db' batch key h = rw (← ap unwritten h)

abbrev pub list_kv : Kv
list_kv = record {
  Db = List Batch;
  read = lookup;
  write = list_write;
  read-write = lookup-list_write;
}
