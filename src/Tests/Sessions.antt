-- ===== src/Tests/Sessions.antt =====
-- Sessions of a client with a namenode that takes every request.
use thesis_dfs.Database
use thesis_dfs.Namenode.Answers.{answered}
use thesis_dfs.Sdk.Open.Twice.{truncate-twice}
use thesis_dfs.Sdk.Sync.{absent}
use thesis_dfs.StorageType.{re}
use thesis_dfs.RaftNn.{success}
use thesis_dfs.Result.{Result, ok, err, undefined}
use thesis_dfs.PathLocks.{find_lock}
use thesis_dfs.Prelude.{
  if◌then◌else◌, text_eq, ◌∷◌, Text, ℕ, codes, none, some, ◌++◌, [], ◌≡◌, refl,
}
use thesis_dfs.Inode.{Inode, new_inode, get_block_size}
use thesis_dfs.Sdk.Open.{Session, truncate}
use thesis_dfs.Sdk.Calls.{Master, lock_remote, check_response, retry}

abbrev willing : Master ℕ
willing = record {
  put = λ request w. (answered success, w);
  update_lock = λ paths w. (answered success, w);
  put_ok = λ request w. (answered success, w);
  change_status = λ status w. w;
  unlock_remote = λ path w. w;
}

abbrev fresh : Session ℕ
fresh = record {
  cache = record { inodes = λ p. none; files = λ p i. none };
  locks = [];
  remote_locks = [];
  write_dirs = λ p. absent;
  world = 0;
}

abbrev long_file : Inode
long_file = record new_inode { filesize = 4; storage_type_ptr = some (re 2 64) }

abbrev tmp_path : Text → Text
tmp_path path = codes "/fuse/" ++ path

truncate-twice_example :
    truncate tmp_path willing (λ path w. ok long_file) (codes "/f") 2 fresh ≡ some (err undefined)
unfolding find_lock lock_remote check_response retry get_block_size
    thesis_dfs.StorageType.get_block_size
truncate-twice_example =
    truncate-twice tmp_path willing (λ path w. ok long_file) (codes "/f") 2 fresh long_file 67108863
      0 0 refl refl refl refl refl refl

abbrev remote_inode : Inode
remote_inode = record long_file { sub = codes "new" ∷ [] }

-- A block of the file was read before, and then the file was closed.
abbrev reading : Session ℕ
reading = record fresh {
  cache = record {
    inodes = λ p. some (record long_file { sub = codes "old" ∷ [] });
    files = λ p k. some (codes "data");
  };
}

abbrev no_datanode : Text → Text → ℕ → Result Text × ℕ
no_datanode node fragment w = (err undefined, w)

abbrev closed : Session ℕ
closed = record reading {
  cache = record reading.cache {
    inodes = λ p. if text_eq p (codes "/f") then none else reading.cache.inodes p;
  };
  write_dirs = λ p. if text_eq p (codes "/f") then absent else absent;
}
