-- ===== src/Sdk/Open/Twice.antt =====
-- What `create` and `truncate` always end with.
use thesis_dfs.Sdk.Sync.{entries}
use thesis_dfs.Database.{remove_text}
use thesis_dfs.Namenode.Answers.{answered}
use thesis_dfs.PathLocks.{find_lock}
use thesis_dfs.RaftNn.{success}
use thesis_dfs.Sdk.Cache.{update_inode-cached}
use native.Mathlib.Nat.{div-eq_of_lt}
use thesis_dfs.PathLocks.Release.{write_lock-twice}
use thesis_dfs.Prelude.Decimal.{read_nat}
use thesis_dfs.Sdk.Put.{data_retrive, open_from_file}
use thesis_dfs.Sdk.Open.{
  unlock, create, open_path, create_inode, and_then, Session, truncate_inode, truncate, open_file,
  get_inode, write_lock, with_locks, set_dir,
}
use thesis_dfs.StorageType.{ErasureCode, from_string}
use thesis_dfs.Inode.{Inode, get_block_size}
use thesis_dfs.Result.{Result, err, runtime, ok, ◌>>=◌, undefined}
use thesis_dfs.Sdk.Calls.{retry-answered, Master, check_response, lock_remote}
use thesis_dfs.Prelude.{
  Text, ℕ, List, ◌≡◌, some, codes, refl, ◌+◌, suc, ◌-◌, ◌/◌, arith, ◌==◌, false, [], none, ◌∷◌,
}
use thesis_dfs.Sdk.Put

module _ {World : Type 0} (get_tmp_path : Text → Text) (m : Master World)
    (get_remote_inode : Text → World → Result Inode)
    (put_to_datanode : Text → Text → World → Result Text × World) (code : ErasureCode) (fuel : ℕ)
    (nodes : List Text) where
  -- `create` of any path throws, before it asks the namenode for anything, for the empty local file that it
  -- puts cannot be mapped to memory.
  create-throws :
      (path : Text) (st : Session World)
      → create get_tmp_path m get_remote_inode put_to_datanode code fuel nodes path st
        ≡ some (err (runtime (codes "Failed to create anonymous mmap")))
  unfolding create open_path create_inode and_then thesis_dfs.Sdk.Put.put data_retrive
      open_from_file from_string read_nat
  create-throws path st = refl

no_blocks : (b : ℕ) → (0 + suc b - 1) / suc b ≡ 0
no_blocks b = div-eq_of_lt (omega arith)

module _ {World : Type 0} (get_tmp_path : Text → Text) (m : Master World)
    (get_remote_inode : Text → World → Result Inode) where
  -- Emptying a file, which releases its locks.
  truncate_inode_lem :
      (path : Text) (st : Session World) (i : Inode) (b : ℕ) (w : World)
      → get_inode path st ≡ ok i
      → (i.filesize == 0) ≡ false
      → get_block_size i ≡ suc b
      → m.put_ok (record { path = path; filesize = 0; sub = [] }) st.world ≡ (answered success, w)
      → truncate_inode get_tmp_path m get_remote_inode path 0 st
        ≡ unlock get_tmp_path path (record st { world = w })
  unfolding truncate_inode check_response
  truncate_inode_lem path st i b w here some_bytes bs e =
      rw
        (
          here,
          ◌>>=◌,
          some_bytes,
          bs,
          no_blocks b,
          retry-answered 2 (m.put_ok (record { path = path; filesize = 0; sub = [] })) st.world w
              success e,
        )
        refl

  -- Whatever size is asked for, `truncate` of a file that is not empty releases the lock of its path twice, the
  -- second time when nobody holds it, which is undefined. That is so where nothing was locked at the path
  -- before, the namenode refreshes the lock, shows the file, with a block size, and takes the request to
  -- empty it.
  pub truncate-twice :
      (path : Text) (size : ℕ) (st : Session World) (i : Inode) (b : ℕ) (w₁ w₂ : World)
      → find_lock (get_tmp_path path) st.locks ≡ none
      → lock_remote m (path ∷ []) st.world ≡ ok w₁
      → get_remote_inode path w₁ ≡ ok i
      → (i.filesize == 0) ≡ false
      → get_block_size i ≡ suc b
      → m.put_ok (record { path = path; filesize = 0; sub = [] }) w₁ ≡ (answered success, w₂)
      → truncate get_tmp_path m get_remote_inode path size st ≡ some (err undefined)
  unfolding truncate open_file write_lock with_locks and_then unlock get_inode
  truncate-twice path size st i b w₁ w₂ new locked shown some_bytes bs e =
      let (taken, got, released, again) = write_lock-twice (get_tmp_path path) st.locks new in
      let (cache, kept, here) = update_inode-cached path i st.cache in
      let opened : Session World = record {
        cache = cache;
        locks = taken;
        remote_locks = path ∷ remove_text path st.remote_locks;
        write_dirs = set_dir path (entries []) st.write_dirs;
        world = w₁;
      } in
      rw
        (
          got,
          locked,
          ◌>>=◌,
          shown,
          kept,
          truncate_inode_lem path opened i b w₂ (rw (here, get_inode) refl) some_bytes bs e,
          released,
          again,
        )
        refl
