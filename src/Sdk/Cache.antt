-- ===== src/Sdk/Cache.antt =====
-- `update_inode` of src/client/sdk.cpp: the inode cache of the client, and the local files of blocks.
pub mod Removed
use thesis_dfs.Prelude.{
  ℕ, zero, suc, ◌-◌, Text, text_eq, Bool, List, [], ◌∷◌, Option, none, some, if◌then◌else◌, ◌==◌,
  length, ◌≡◌, text_eq_refl, refl,
}
use thesis_dfs.Result.{Result, ok, err, ◌>>=◌}
use thesis_dfs.Inode.{Inode, new_inode}
use thesis_dfs.Sdk.Ranges.{Files}

-- `fs::remove_all` of the file at an index.
pub remove_file : ℕ → Files → Files
remove_file i files k = if k == i then none else files k

-- The loop over the indices of both lists: a file whose location has changed is removed.
pub remove_changed : ℕ → List Text → List Text → Files → Files
unfolding remove_file
remove_changed i [] remote files = files
remove_changed i (l ∷ local) [] files = files
remove_changed i (l ∷ local) (r ∷ remote) files =
    remove_changed (suc i) local remote (if text_eq l r then files else remove_file i files)

-- The loop over the indices behind the remote list, with the rounds left.
pub remove_behind : ℕ → ℕ → Files → Files
unfolding remove_file
remove_behind zero i files = files
remove_behind (suc rounds) i files = remove_behind rounds (suc i) (remove_file i files)

-- `local_inode_cache`, and the files by path.
pub record Client : Type 0 where
  pub inodes : Text → Option Inode
  pub files : Text → Files

-- `local_inode_cache[path]`, which is a new inode if there is none.
unfoldable pub cached : Option Inode → Inode
cached none = new_inode
cached (some i) = i

set_at {ℓ} : {A : Type ℓ} → Text → A → (Text → A) → Text → A
set_at path a f p = if text_eq p path then a else f p

refresh : Text → Inode → Inode → Client → Client
unfolding remove_changed remove_behind set_at
refresh path local remote c =
    let kept = remove_changed 0 local.sub remote.sub (c.files path) in
    let files = remove_behind (length local.sub - length remote.sub) (length remote.sub) kept in
    record c { inodes = set_at path (some remote) c.inodes; files = set_at path files c.files }

-- `update_inode`, with what `get_remote_inode` answers.
pub update_inode : Text → Result Inode → Client → Result Client
unfolding cached refresh
update_inode path answer c = do remote ← answer; ok (refresh path (cached (c.inodes path)) remote c)

-- The inode that was answered is the one in the cache.
pub update_inode-cached :
    (path : Text) (remote : Inode) (c : Client)
    → (c' : Client) × (update_inode path (ok remote) c ≡ ok c') × (c'.inodes path ≡ some remote)
unfolding update_inode
update_inode-cached path remote c =
    (refresh path (cached (c.inodes path)) remote c, refl, rw (text_eq_refl path) refl)
