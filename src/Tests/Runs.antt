-- ===== src/Tests/Runs.antt =====
-- A run of the namenode from an empty database.
use thesis_dfs.Result.{ok}
use thesis_dfs.FilePath.{simplify_path, get_parent_path}
use thesis_dfs.Node.{is_valid, node_eq}
use thesis_dfs.Tests.{server, dir_a, empty_db-IsKeyed}
use thesis_dfs.Database.Store.{lookup, list_kv, Batch, inode, not_found, overlay, list_write}
use thesis_dfs.Database.{
  get_inode, root, internal_mkdir, get_parent_inode, add_sub, prepare_mkdir, try_to_add,
  path_exists, as_inode,
}
use thesis_dfs.RaftNn.{apply_one, apply_task, leader, op_mkdir, success}
use thesis_dfs.Namenode.{mkdir, check_leader, rooted}
use thesis_dfs.Prelude.{List, some, [], Text, ◌++◌, ◌≡◌, refl, text_eq, ◌∷◌, codes, ap, subst, sym}
use thesis_dfs.Namenode.System.{
  proposed, System, Reach, IsConsistent, next, Reach-IsConsistent, for_mkdir, Reach-get_inode,
  start, request, apply,
}
use thesis_dfs.Inode.{filename, inode_at, set_fullpath, get_default_dir, parent_path}

-- From an empty database: a request for a directory, and its task is applied.
abbrev begin : System list_kv
begin = record { handle = some []; log = [] }

abbrev waiting : System list_kv
waiting = record {
  handle = some [];
  log = [] ++ proposed list_kv server (some []) (for_mkdir (codes "a/"));
}

abbrev made : List Batch
made =
    ((root, inode (add_sub (filename dir_a) (get_default_dir root)))
      ∷ (codes "/a", inode dir_a)
      ∷ [])
    ∷ []

log_mkdir : proposed list_kv server (some []) (for_mkdir (codes "a/")) ≡ op_mkdir dir_a ∷ []
unfolding proposed mkdir check_leader leader is_valid node_eq text_eq prepare_mkdir try_to_add
    path_exists lookup parent_path get_parent_path get_default_dir set_fullpath simplify_path rooted
log_mkdir = refl

applied : apply_one list_kv (some []) (op_mkdir dir_a) ≡ some (some made, success)
unfolding apply_one apply_task internal_mkdir get_parent_inode lookup text_eq parent_path
    get_parent_path get_default_dir set_fullpath simplify_path rooted list_write add_sub
applied = refl

abbrev after_mkdir : System list_kv
after_mkdir = record { handle = some made; log = [] }

as_waiting : record { handle = some []; log = op_mkdir dir_a ∷ [] } ≡ waiting
as_waiting = ap (λ l. record { handle = some []; log = l }) (sym log_mkdir)

reached : Reach list_kv begin after_mkdir
reached =
    next begin (record { handle = some []; log = op_mkdir dir_a ∷ [] }) after_mkdir
      (subst (Reach list_kv begin) (sym as_waiting)
        (next begin begin waiting (start begin) (request begin server (for_mkdir (codes "a/")))))
      (apply (some []) (some made) (op_mkdir dir_a) [] success applied)

Reach-IsConsistent_example : IsConsistent list_kv after_mkdir
Reach-IsConsistent_example =
    Reach-IsConsistent list_kv begin after_mkdir reached
      (record { keyed = empty_db-IsKeyed; normal = tt })

made_read : get_inode list_kv (some made) (inode_at (codes "/a")) ≡ ok dir_a
unfolding get_inode inode_at set_fullpath simplify_path get_default_dir rooted lookup overlay
    text_eq as_inode
made_read = refl

empty_db : (key : Text) → lookup [] key ≡ not_found
unfolding lookup
empty_db key = refl

Reach-get_inode_example : dir_a.fullpath ≡ simplify_path (codes "/a")
Reach-get_inode_example =
    Reach-get_inode list_kv [] made [] (codes "/a") dir_a empty_db reached made_read
