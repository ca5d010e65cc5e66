-- ===== src/Namenode.antt =====
-- src/node/namenode.cpp: the handlers of the namenode's service. A handler looks at the database,
-- and what it changes it proposes to the raft log; `RaftNn.on_apply` carries that out later.
pub mod Mkdir
pub mod Rm
pub mod Put
pub mod PutOk
pub mod Proposals
pub mod System
pub mod Races
pub mod Listing
pub mod Answers
pub mod Uploads
use thesis_dfs.Prelude.{
  ℕ, ◌+◌, ◌%◌, ◌^◌, Text, codes, text_eq, true, not, List, [], ◌∷◌, Option, some, if◌then◌else◌,
  ◌==◌, length, replicate, reverse,
}
use thesis_dfs.Prelude.Int.{ℤ, pos, stoi}
use thesis_dfs.Prelude.Split.{is_empty, lines, before, after, lacks}
use thesis_dfs.Result.{
  Error, message, runtime, invalid_argument, out_of_range, undefined, redirect_to_master, Result,
  ok, err, ◌>>=◌, ◌>>◌, throw_if,
}
use thesis_dfs.Node.{Node, is_valid}
use thesis_dfs.Node
use thesis_dfs.StorageType.{StorageType}
use thesis_dfs.StorageType
use thesis_dfs.FilePath.{slash}
use thesis_dfs.Inode.{Inode, inode_at, get_default_dir, update_ddl_lock, FileInfo}
use thesis_dfs.Database.Store.{Kv}
use thesis_dfs.Database.{Handle, ls, prepare_mkdir, prepare_put, prepare_put_ok, prepare_rm, root}
use thesis_dfs.RaftNn.{
  Task, op_mkdir, op_put, op_putok, op_putbatch, op_putokbatch, op_putagg, op_rm, leader,
}

-- What a handler reads besides the database: the node's address and flag, braft's leader, the
-- clock, and the identifier that the generator makes for a machine number.
pub record Server : Type 0 where
  pub my_ip : Text
  pub nn_port : ℕ
  pub leader_id : Option Node
  pub now : ℕ
  pub new_id : ℤ → Text

pub record PutRequest : Type 0 where
  pub path : Text
  pub storage_type : Text

pub record PutOkRequest : Type 0 where
  pub path : Text
  pub filesize : ℕ
  pub sub : List Text

unfoldable pub check_leader : Server → Result (Unit {0})
check_leader s = do
  node ← leader s.my_ip s.nn_port s.leader_id
  throw_if (not (is_valid node)) (runtime (codes "leader not ready"))
  throw_if (not (text_eq node.ip s.my_ip)) (message redirect_to_master node.ip)

path_required : Text → Result (Unit {0})
path_required path = throw_if (is_empty path) (runtime (codes "parameter path required"))

-- `if (path[0] != '/') path = "/" + path;`
unfoldable pub rooted : Text → Text
rooted [] = slash ∷ []
rooted (c ∷ t) = if c == slash then c ∷ t else slash ∷ c ∷ t

last_line : Text → List Text → Text
last_line p [] = p
last_line p (q ∷ ps) = last_line q ps

or_empty : List Text → Result Text
or_empty [] = err (runtime (codes "Empty input string."))
or_empty (p ∷ ps) = ok (last_line p ps)

-- The `catch` clauses around the two calls of `stoi`.
pair_error : Result (ℤ × ℤ) → Result (ℤ × ℤ)
pair_error (ok p) = ok p
pair_error (err (message code info)) = err (message code info)
pair_error (err (runtime what)) = err (runtime what)
pair_error (err invalid_argument) = err (runtime (codes "Invalid pair format"))
pair_error (err out_of_range) = err (runtime (codes "Number out of range in pair"))
pair_error (err Error.aborted) = err Error.aborted
pair_error (err undefined) = err undefined

two_numbers : Text → Result (ℤ × ℤ)
two_numbers pair = do
  first ← stoi (before b'|' pair)
  second ← stoi (after b'|' pair)
  ok (first, second)

parse_pair : Text → Result (ℤ × ℤ)
unfolding two_numbers pair_error
parse_pair pair =
    if lacks b'|' pair
    then err (runtime (codes "Invalid pair format, missing '|' delimiter in last pair"))
    else pair_error (two_numbers pair)

-- The begin and end that stand last in the block location of a small file.
unfoldable pub get_last_pair : Text → Result (ℤ × ℤ)
unfolding last_line or_empty parse_pair
get_last_pair input = do last_pair ← or_empty (lines b',' input); parse_pair last_pair

-- `my_ip.substr(my_ip.rfind('.') + 1)`; without a dot `rfind` gives npos, and `npos + 1` is 0.
last_octet : Text → Text
last_octet ip = reverse (before b'.' (reverse ip))

front : List Text → Result Text
front [] = err undefined
front (s ∷ sub) = ok s

-- Tasks that were proposed before an error stay proposed.
refreshed : Result Task → List Task × Result (Unit {0}) → List Task × Result (Unit {0})
refreshed (err e) rest = ([], err e)
refreshed (ok task) (tasks, r) = (task ∷ tasks, r)

module _ (kv : Kv) (server : Server) where
  -- Reads on any node, the leader or not; the data of the response is the inode's JSON text.
  unfoldable pub handle_ls : Handle kv → Text → Result Inode
  handle_ls h path = ls kv h (inode_at (if is_empty path then root else path))

  unfoldable pub mkdir : Handle kv → Text → Result (List Task)
  unfolding path_required rooted
  mkdir h path = do
    check_leader server
    path_required path
    let i = get_default_dir (rooted path)
    prepare_mkdir kv h i
    ok (op_mkdir i ∷ [])

  unfoldable pub rm : Handle kv → Text → Result (List Task)
  unfolding path_required
  rm h path = do
    check_leader server
    path_required path
    i ← prepare_rm kv h (inode_at path)
    ok (op_rm i ∷ [])

  -- The inode that `put` and each round of `put_batch` propose.
  pub put_inode : Handle kv → PutRequest → Result Inode
  unfolding path_required
  put_inode h request = do
    path_required request.path
    i ← prepare_put kv server.now h (inode_at request.path)
    storage_type ← StorageType.from_string request.storage_type
    ok (record i { storage_type_ptr = some storage_type })

  unfoldable pub put : Handle kv → PutRequest → Result (List Task)
  unfolding put_inode
  put h request = do check_leader server; i ← put_inode h request; ok (op_put i ∷ [])

  put_inodes : Handle kv → List PutRequest → Result (List Inode)
  unfolding put_inode
  put_inodes h [] = ok []
  put_inodes h (request ∷ requests) = do
    i ← put_inode h request
    inodes ← put_inodes h requests
    ok (i ∷ inodes)

  unfoldable pub put_batch : Handle kv → List PutRequest → Result (List Task)
  unfolding put_inodes
  put_batch h requests = do
    check_leader server
    inodes ← put_inodes h requests
    ok (op_putbatch inodes ∷ [])

  pub put_ok_inode : Handle kv → PutOkRequest → Result Inode
  unfolding path_required
  put_ok_inode h request = do
    path_required request.path
    i ← prepare_put_ok kv h (inode_at request.path)
    ok (record i { sub = request.sub; filesize = request.filesize })

  unfoldable pub put_ok : Handle kv → PutOkRequest → Result (List Task)
  unfolding put_ok_inode
  put_ok h request = do check_leader server; i ← put_ok_inode h request; ok (op_putok i ∷ [])

  -- The loop of `put_ok_batch`: the inodes, the files of the aggregate and its size.
  small_files : Handle kv → Text → List PutOkRequest → Result (List Inode × List FileInfo × ℕ)
  unfolding put_ok_inode front
  small_files h id [] = ok ([], [], 0)
  small_files h id (request ∷ requests) = do
    i ← put_ok_inode h request
    location ← front request.sub
    (begin, end) ← get_last_pair location
    (inodes, files, total) ← small_files h id requests
    ok (
      record i { agg_inode_id = id } ∷ inodes,
      record { path = request.path; size = request.filesize; begin = begin; end = end } ∷ files,
      (request.filesize + total) % 2 ^ 64,
    )

  -- Two tasks, the second for the aggregate's own inode.
  unfoldable pub put_ok_batch : Handle kv → List PutOkRequest → Result (List Task)
  unfolding small_files last_octet
  put_ok_batch h requests = do
    check_leader server
    machine ← stoi (last_octet server.my_ip)
    let id = server.new_id machine
    (inodes, files, total) ← small_files h id requests
    ok (
        op_putokbatch inodes
        ∷ op_putagg (record {
          id = id;
          files = files;
          aggregate_size = total;
          valid = replicate (length requests) true;
          valid_count = pos (length requests);
        })
        ∷ [])

  -- The address of the leader, as the client gets it.
  unfoldable pub get_master : Result Text
  get_master = do
    node ← leader server.my_ip server.nn_port server.leader_id
    throw_if (not (is_valid node)) (runtime (codes "leader not ready"))
    ok (Node.to_string node)

  -- One path of `update_lock`.
  unfoldable pub refresh : Handle kv → Text → Result Task
  refresh h path = do i ← ls kv h (inode_at path); ok (op_put (update_ddl_lock server.now i))

  refresh_all : Handle kv → List Text → List Task × Result (Unit {0})
  unfolding refreshed
  refresh_all h [] = ([], ok tt)
  refresh_all h (path ∷ paths) = refreshed (refresh h path) (refresh_all h paths)

  start_refresh : Handle kv → List Text → Result (Unit {0}) → List Task × Result (Unit {0})
  unfolding refresh_all
  start_refresh h paths (err e) = ([], err e)
  start_refresh h [] (ok _) = ([], err (runtime (codes "parameter paths required")))
  start_refresh h (path ∷ paths) (ok _) = refresh_all h (path ∷ paths)

  unfoldable pub update_lock : Handle kv → List Text → List Task × Result (Unit {0})
  unfolding start_refresh
  update_lock h paths = start_refresh h paths (check_leader server)
