-- ===== src/Tests/Puts.antt =====
-- Requests to put one file.
use thesis_dfs.Namenode.Put.{put_excludes}
use thesis_dfs.Namenode.Races.{put_race}
use thesis_dfs.Prelude.Decimal.{read_nat}
use thesis_dfs.FilePath.{simplify_path}
use thesis_dfs.Result.{ok, err}
use thesis_dfs.Database.{prepare_put, get_inode}
use thesis_dfs.Database.Store.{Batch, list_kv, lookup, found, inode}
use thesis_dfs.RaftNn.{leader, on_apply, op_put, success}
use thesis_dfs.Tests.{server, empty_db-IsKeyed, accepts}
use thesis_dfs.Prelude.{List, codes, true, text_eq, some, ◌∷◌, ◌≡◌, [], ◌++◌, refl, arith}
use thesis_dfs.Namenode.{Server, check_leader, PutRequest, put}
use thesis_dfs.StorageType
use thesis_dfs.StorageType.{rs}
use thesis_dfs.Node.{is_valid, node_eq}
use thesis_dfs.Inode.{lock, Inode, inode_at, set_fullpath, lock_conflict}

abbrev later : Server
later = record server { now = 130 }

later_leads : check_leader later ≡ ok tt
unfolding check_leader leader is_valid node_eq text_eq
later_leads = refl

abbrev putting : PutRequest
putting = record { path = codes "/a"; storage_type = codes "RS<3,2,64>" }

abbrev put_a : Inode
put_a = record (inode_at (codes "/a")) {
  valid = true;
  ddl_lock = 160;
  storage_type_ptr = some (rs 3 2 64);
}

put_accepts : put list_kv server (some []) putting ≡ ok (op_put put_a ∷ [])
unfolding put check_leader leader is_valid node_eq text_eq prepare_put get_inode lock lookup
    inode_at set_fullpath simplify_path thesis_dfs.StorageType.from_string read_nat
put_accepts = refl

put_excludes_example :
    (db' : List Batch) × (i : Inode) × (on_apply list_kv (some []) (op_put put_a ∷ [])
      ≡ some (some db', success ∷ []))
    × (lookup db' (simplify_path (codes "/a")) ≡ found (inode i))
    × (put list_kv later (some db') putting ≡ err (lock_conflict 130 i))
put_excludes_example =
    put_excludes list_kv server later [] putting putting (op_put put_a ∷ []) empty_db-IsKeyed
      (accepts []) put_accepts refl later_leads (omega arith) (omega arith)

abbrev put_a_later : Inode
put_a_later = record put_a { ddl_lock = 190 }

put_accepts_later : put list_kv later (some []) putting ≡ ok (op_put put_a_later ∷ [])
unfolding put check_leader leader is_valid node_eq text_eq prepare_put get_inode lock lookup
    inode_at set_fullpath simplify_path thesis_dfs.StorageType.from_string read_nat
put_accepts_later = refl

put_race_example :
    (db' : List Batch) × (i : Inode) × (op_put put_a_later ∷ [] ≡ op_put i ∷ [])
    × (on_apply list_kv (some []) ((op_put put_a ∷ []) ++ (op_put put_a_later ∷ []))
        ≡ some (some db', success ∷ success ∷ []))
    × (lookup db' (simplify_path (codes "/a")) ≡ found (inode i))
put_race_example =
    put_race list_kv server later [] putting putting (op_put put_a ∷ []) (op_put put_a_later ∷ [])
      empty_db-IsKeyed accepts put_accepts put_accepts_later refl
