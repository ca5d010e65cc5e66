-- ===== src/Tests.antt =====
-- Runs at concrete inputs, for the theorems of the namenode.
use thesis_dfs.Namenode.Listing.{rm-ls}
use thesis_dfs.Prelude.Decimal.{read_nat}
use thesis_dfs.StorageType.Laws.{from_string-to_string}
mod Runs
mod Choice
mod Daemon
mod Texts
mod Puts
mod Transfers
mod Links
mod Reads
mod Stubs
mod Uploads
mod Sessions
mod Mounts
mod Aggregates
use thesis_dfs.RaftDn.Choice.{answering, on_leader_start-chosen}
use thesis_dfs.Namenode.Put.{put_excludes}
use thesis_dfs.Prelude.Int.{pos}
use thesis_dfs.RaftDn.{on_leader_start, proposal, online_only, node_discovery, sort, others}
use thesis_dfs.Namenode.System.{
  System, Reach, IsConsistent, Reach-get_inode, for_mkdir, next, Reach-IsConsistent, start, request,
  apply,
}
use thesis_dfs.FilePath.Normal.{simplify_path_idem}
use thesis_dfs.StorageType.{rs}
use thesis_dfs.Namenode.Races.{put_ok_orphan_aborts}
use thesis_dfs.Namenode.PutOk.{IsFinished, put_ok_finishes}
use thesis_dfs.Namenode.Rm.{IsRemoved, rm_removes}
use thesis_dfs.FilePath.{simplify_path, get_parent_path, filename}
use thesis_dfs.Node.{is_valid, node_eq, Node, unknown}
use thesis_dfs.Prelude.{
  codes, List, [], ◌∷◌, some, none, ◌≡◌, refl, text_eq, Text, true, false, ◌≢◌, ap, Bool, ◌++◌, sym,
  not, subst, arith, take, ◌-◌, length,
}
use thesis_dfs.Result.{ok, err, message, path_not_exists_exception}
use thesis_dfs.Inode.{
  Inode, get_default_dir, parent_path, set_fullpath, inode_at, lock, lock_conflict,
}
use thesis_dfs.Database.Store.{list_kv, Batch, lookup, list_write, overlay, inode, not_found, found}
use thesis_dfs.Database.{
  root, get_parent_inode, prepare_mkdir, try_to_add, path_exists, get_inode, prepare_rm,
  prepare_put_ok, as_inode, try_to_rm, add_sub, prepare_put, internal_mkdir,
}
use thesis_dfs.Database.Writes.{IsKeyed, Accepts, write-IsKeyed}
use thesis_dfs.RaftNn.{
  op_mkdir, on_apply, success, leader, op_rm, op_putok, op_put, apply_one, apply_task,
}
use thesis_dfs.Namenode.{
  Server, mkdir, rooted, check_leader, rm, put_ok, PutOkRequest, PutRequest, put, handle_ls,
}
use thesis_dfs.Namenode.Mkdir.{IsMade, mkdir_makes}

abbrev server : Server
server = record {
  my_ip = codes "10.0.0.1";
  nn_port = 8000;
  leader_id = none;
  now = 100;
  new_id = λ machine. codes "id";
}

pub empty_db-IsKeyed : IsKeyed list_kv []
unfolding lookup
empty_db-IsKeyed key = tt

pub accepts : (db : List Batch) → Accepts list_kv db
unfolding list_write
accepts db batch = (batch ∷ db, refl)

pub leads : check_leader server ≡ ok tt
unfolding check_leader leader is_valid node_eq text_eq
leads = refl

abbrev dir_a : Inode
dir_a = get_default_dir (rooted (codes "a/"))

mkdir_accepts : mkdir list_kv server (some []) (codes "a/") ≡ ok (op_mkdir dir_a ∷ [])
unfolding mkdir check_leader leader is_valid node_eq text_eq prepare_mkdir try_to_add path_exists
    lookup parent_path get_parent_path get_default_dir set_fullpath simplify_path rooted
mkdir_accepts = refl

root_read : get_parent_inode list_kv (some []) dir_a ≡ ok (get_default_dir root)
unfolding get_parent_inode lookup text_eq parent_path get_parent_path get_default_dir set_fullpath
    simplify_path rooted
root_read = refl

mkdir_makes_example :
    (db' : List Batch) × (on_apply list_kv (some []) (op_mkdir dir_a ∷ [])
      ≡ some (some db', success ∷ []))
    × IsMade list_kv [] db' dir_a (get_default_dir root)
mkdir_makes_example =
    mkdir_makes list_kv server [] (codes "a/") (op_mkdir dir_a ∷ []) (get_default_dir root)
      empty_db-IsKeyed (accepts []) mkdir_accepts root_read

-- A file that is being written, in a directory that is not stored unless it is the root.
abbrev written_file : Text → Inode
written_file path = record (inode_at path) { valid = true; ddl_lock = 160 }

abbrev stored : Text → List Batch
stored path = ((path, inode (written_file path)) ∷ []) ∷ []

stored_a-IsKeyed : IsKeyed list_kv (stored (codes "/a"))
unfolding list_write inode_at set_fullpath simplify_path
stored_a-IsKeyed =
    write-IsKeyed list_kv [] (stored (codes "/a"))
      ((codes "/a", inode (written_file (codes "/a"))) ∷ []) empty_db-IsKeyed (refl, refl, tt) refl

abbrev no_a : Inode
no_a = record (inode_at (codes "/a")) { valid = false }

rm_accepts : rm list_kv server (some (stored (codes "/a"))) (codes "/a") ≡ ok (op_rm no_a ∷ [])
unfolding rm check_leader leader is_valid node_eq text_eq prepare_rm try_to_rm path_exists lookup
    inode_at set_fullpath simplify_path overlay as_inode
rm_accepts = refl

root_read_rm :
    get_parent_inode list_kv (some (stored (codes "/a"))) no_a ≡ ok (get_default_dir root)
unfolding get_parent_inode lookup text_eq parent_path get_parent_path inode_at get_default_dir
    set_fullpath simplify_path overlay
root_read_rm = refl

not_own_parent : (parent_path no_a) ≢ no_a.fullpath
unfolding parent_path get_parent_path inode_at set_fullpath simplify_path
not_own_parent e = cc

not_own_parent_file : parent_path (written_file (codes "/a")) ≢ (written_file (codes "/a")).fullpath
unfolding parent_path get_parent_path inode_at set_fullpath simplify_path
not_own_parent_file e = cc

empty_path : lookup (stored (codes "/a")) [] ≡ not_found
unfolding lookup overlay text_eq
empty_path = refl

rm_removes_example :
    (db' : List Batch) × (on_apply list_kv (some (stored (codes "/a"))) (op_rm no_a ∷ [])
      ≡ some (some db', success ∷ []))
    × IsRemoved list_kv (stored (codes "/a")) db' no_a (get_default_dir root)
rm_removes_example =
    rm_removes list_kv server (stored (codes "/a")) (codes "/a") (op_rm no_a ∷ [])
      (get_default_dir root) stored_a-IsKeyed (accepts (stored (codes "/a"))) empty_path rm_accepts
      root_read_rm not_own_parent

rm-ls_example :
    (db' : List Batch) × (on_apply list_kv (some (stored (codes "/a"))) (op_rm no_a ∷ [])
      ≡ some (some db', success ∷ []))
    × (handle_ls list_kv server (some db') (codes "/a")
        ≡ err (message path_not_exists_exception (simplify_path (codes "/a"))))
rm-ls_example =
    rm-ls list_kv server server (stored (codes "/a")) (codes "/a") (op_rm no_a ∷ [])
      (get_default_dir root) stored_a-IsKeyed (accepts (stored (codes "/a"))) empty_path refl
      rm_accepts root_read_rm not_own_parent

abbrev finishing : Text → PutOkRequest
finishing path = record { path = path; filesize = 5; sub = codes "n:1|h" ∷ [] }

abbrev finished : Text → Inode
finished path = record (written_file path) { sub = codes "n:1|h" ∷ []; filesize = 5 }

put_ok_accepts :
    put_ok list_kv server (some (stored (codes "/a"))) (finishing (codes "/a"))
    ≡ ok (op_putok (finished (codes "/a")) ∷ [])
unfolding put_ok check_leader leader is_valid node_eq text_eq prepare_put_ok get_inode lookup
    inode_at set_fullpath simplify_path overlay as_inode
put_ok_accepts = refl

file_read :
    get_inode list_kv (some (stored (codes "/a"))) (inode_at (codes "/a"))
    ≡ ok (written_file (codes "/a"))
unfolding text_eq get_inode lookup inode_at set_fullpath simplify_path overlay as_inode
file_read = refl

root_read_file :
    get_parent_inode list_kv (some (stored (codes "/a"))) (written_file (codes "/a"))
    ≡ ok (get_default_dir root)
unfolding get_parent_inode lookup text_eq parent_path get_parent_path inode_at get_default_dir
    set_fullpath simplify_path overlay
root_read_file = refl

put_ok_finishes_example :
    (db' : List Batch) × (on_apply list_kv
        (some (stored (codes "/a")))
        (op_putok (finished (codes "/a")) ∷ [])
      ≡ some (some db', success ∷ []))
    × IsFinished list_kv
        (stored (codes "/a"))
        db'
        (finishing (codes "/a"))
        (written_file (codes "/a"))
        (get_default_dir root)
put_ok_finishes_example =
    put_ok_finishes list_kv server (stored (codes "/a")) (finishing (codes "/a"))
      (op_putok (finished (codes "/a")) ∷ []) (written_file (codes "/a")) (get_default_dir root)
      stored_a-IsKeyed (accepts (stored (codes "/a"))) put_ok_accepts file_read root_read_file
      not_own_parent_file

orphan_accepts :
    put_ok list_kv server (some (stored (codes "/d/f"))) (finishing (codes "/d/f"))
    ≡ ok (op_putok (finished (codes "/d/f")) ∷ [])
unfolding put_ok check_leader leader is_valid node_eq text_eq prepare_put_ok get_inode lookup
    inode_at set_fullpath simplify_path overlay as_inode
orphan_accepts = refl

orphan_read :
    get_inode list_kv (some (stored (codes "/d/f"))) (inode_at (codes "/d/f"))
    ≡ ok (written_file (codes "/d/f"))
unfolding text_eq get_inode lookup inode_at set_fullpath simplify_path overlay as_inode
orphan_read = refl

orphan_parent :
    lookup (stored (codes "/d/f")) (parent_path (written_file (codes "/d/f"))) ≡ not_found
unfolding lookup text_eq overlay parent_path get_parent_path inode_at set_fullpath simplify_path
orphan_parent = refl

orphan_parent_root : parent_path (written_file (codes "/d/f")) ≢ root
unfolding parent_path get_parent_path inode_at set_fullpath simplify_path
orphan_parent_root e = cc

put_ok_orphan_aborts_example :
    on_apply list_kv (some (stored (codes "/d/f"))) (op_putok (finished (codes "/d/f")) ∷ []) ≡ none
put_ok_orphan_aborts_example =
    put_ok_orphan_aborts list_kv server (stored (codes "/d/f")) (finishing (codes "/d/f"))
      (op_putok (finished (codes "/d/f")) ∷ []) (written_file (codes "/d/f")) orphan_accepts
      orphan_read orphan_parent orphan_parent_root
