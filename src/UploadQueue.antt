-- ===== src/UploadQueue.antt =====
-- src/client/daemon_upload_queue.cpp: the queue of the upload daemon. Tasks are shared, so they are
-- kept in a heap, and a `shared_ptr` is an address in it. Each function runs under its mutexes.
pub mod Batches
pub mod Cancel
pub mod Push
use thesis_dfs.Prelude.{
  ℕ, ◌+◌, ◌%◌, ◌^◌, Text, codes, text_eq, Bool, true, false, ◌&&◌, ◌||◌, not, List, [], ◌∷◌, ◌++◌,
  Option, none, some, if◌then◌else◌, ◌==◌, leb, ltb, length,
}
use thesis_dfs.Result.{Result, ok, err, runtime}
use thesis_dfs.FilePath.{get_parent_path, filename}

pub data UploadStatus : Type 0 where
  waiting data_uploading meta_uploading canceled finished : UploadStatus

-- Less the mutex, the storage type and the pointers to the aggregate, which the queue does not use.
pub record UploadTask : Type 0 where
  pub local_path : Text
  pub remote_path : Text
  pub size : ℕ
  pub upload_status : UploadStatus
  pub belong_que : Option ℕ

abbrev pub Heap : Type 0
Heap = ℕ → UploadTask

unfoldable pub update : ℕ → UploadTask → Heap → Heap
update p task heap q = if q == p then task else heap q

abbrev pub Names : Type 0
Names = List (Text × ℕ)

-- `_capacity`, `_que`, `_map`, and which queue this is.
pub record UploadQueue : Type 0 where
  pub self : ℕ
  pub capacity : ℕ
  pub que : List ℕ
  pub map : List (Text × Names)

-- The constructor, with `capacity` as a `size_t`: `-1` is the largest one already.
unfoldable pub new_queue : ℕ → ℕ → UploadQueue
new_queue self capacity = record { self = self; capacity = capacity; que = []; map = [] }

find_entry {ℓ} : {A : Type ℓ} → Text → List (Text × A) → Option A
find_entry key [] = none
find_entry key ((k, a) ∷ entries) = if text_eq k key then some a else find_entry key entries

-- `_map[parent][name] = task`
set_name : Text → ℕ → Names → Names
set_name name p [] = (name, p) ∷ []
set_name name p ((n, q) ∷ names) =
    let rest = set_name name p names in if text_eq n name then (n, p) ∷ names else (n, q) ∷ rest

set_entry : Text → Text → ℕ → List (Text × Names) → List (Text × Names)
unfolding set_name
set_entry parent name p [] = (parent, (name, p) ∷ []) ∷ []
set_entry parent name p ((k, names) ∷ entries) =
    let rest = set_entry parent name p entries in
    if text_eq k parent then (k, set_name name p names) ∷ entries else (k, names) ∷ rest

pop_first : UploadQueue → List ℕ → Option ℕ × UploadQueue
pop_first q [] = (none, q)
pop_first q (p ∷ ps) = (some p, record q { que = ps })

unfoldable pub pop_front : UploadQueue → Option ℕ × UploadQueue
unfolding pop_first
pop_front q = pop_first q q.que

unfoldable pub push_back : ℕ → Heap → UploadQueue → Result (Heap × UploadQueue)
unfolding set_entry
push_back p heap q =
    let task = heap p in
    let path = task.remote_path in
    if leb q.capacity (length q.que)
    then err (runtime (codes "full"))
    else ok (
      update p (record task { upload_status = waiting; belong_que = some q.self }) heap,
      record q {
        que = q.que ++ p ∷ [];
        map = set_entry (get_parent_path path) (filename path) p q.map;
      },
    )

-- The loop of `get_until_size`, with `sum` so far: what is taken, and what stays.
take_until : Heap → ℕ → ℕ → List ℕ → List ℕ × List ℕ
take_until heap size sum [] = ([], [])
take_until heap size sum (p ∷ ps) =
    let next = (sum + (heap p).size) % 2 ^ 64 in
    let (taken, left) = take_until heap size next ps in
    if ltb next size then (p ∷ taken, left) else ([], p ∷ ps)

unfoldable pub get_until_size : Heap → UploadQueue → ℕ → List ℕ × UploadQueue
unfolding take_until
get_until_size heap q size =
    let (taken, left) = take_until heap size 0 q.que in (taken, record q { que = left })

add_sizes : Heap → ℕ → List ℕ → ℕ
add_sizes heap allsize [] = allsize
add_sizes heap allsize (p ∷ ps) = add_sizes heap ((allsize + (heap p).size) % 2 ^ 64) ps

unfoldable pub current_all_smallfile_size : Heap → UploadQueue → ℕ
unfolding add_sizes
current_all_smallfile_size heap q = add_sizes heap 0 q.que

unfoldable pub find_in_map : Text → UploadQueue → Option ℕ
unfolding find_entry
find_in_map path q = elim (find_entry (get_parent_path path) q.map) [
  | none ↦ none
  | some names ↦ find_entry (filename path) names
]

values : Names → List ℕ
values [] = []
values ((name, p) ∷ names) = p ∷ values names

unfoldable pub find_dir_in_map : Text → UploadQueue → List ℕ
unfolding find_entry values
find_dir_in_map path q = elim (find_entry path q.map) [ none ↦ [] | some names ↦ values names ]

-- The first task of the queue with that remote path.
pub find_in_que : Heap → Text → List ℕ → Option ℕ
find_in_que heap path [] = none
find_in_que heap path (p ∷ ps) =
    if text_eq (heap p).remote_path path then some p else find_in_que heap path ps

is_canceled : UploadStatus → Bool
is_canceled canceled = true
is_canceled waiting = false
is_canceled data_uploading = false
is_canceled meta_uploading = false
is_canceled finished = false

-- A task of the map is shown unless it is cancelled.
shown : Heap → Option ℕ → Option ℕ
unfolding is_canceled
shown heap none = none
shown heap (some p) = if is_canceled (heap p).upload_status then none else some p

pub or_else : Option ℕ → Option ℕ → Option ℕ
or_else none o = o
or_else (some p) o = some p

unfoldable pub ls : Heap → Text → UploadQueue → Option ℕ
unfolding find_in_que shown or_else
ls heap path q = or_else (find_in_que heap path q.que) (shown heap (find_in_map path q))

unfoldable pub empty : UploadQueue → Bool
empty q = elim q.que [ [] ↦ true | p ∷ ps ↦ false ]

erase_task : Heap → Text → Text → List ℕ → Option ℕ × List ℕ
erase_task heap local remote [] = (none, [])
erase_task heap local remote (p ∷ ps) =
    let (task, rest) = erase_task heap local remote ps in
    if text_eq (heap p).local_path local && text_eq (heap p).remote_path remote
    then (some p, ps)
    else (task, p ∷ rest)

unfoldable pub exist_in_que : Heap → Text → Text → UploadQueue → Option ℕ × UploadQueue
unfolding erase_task
exist_in_que heap local remote q =
    let (task, rest) = erase_task heap local remote q.que in (task, record q { que = rest })

unfoldable pub change_status : Text → UploadStatus → Heap → UploadQueue → Heap
change_status path status heap q = elim (find_in_map path q) [
  | none ↦ heap
  | some p ↦ update p (record (heap p) { upload_status = status }) heap
]

-- A task whose metadata is being uploaded is not cancelled.
cancel : UploadStatus → UploadStatus
cancel waiting = canceled
cancel data_uploading = canceled
cancel meta_uploading = meta_uploading
cancel canceled = canceled
cancel finished = finished

cancel_at : Option ℕ → Heap → Heap
unfolding cancel
cancel_at none heap = heap
cancel_at (some p) heap =
    update p (record (heap p) { upload_status = cancel (heap p).upload_status }) heap

unfoldable pub rm : Text → Heap → UploadQueue → Heap
unfolding cancel_at
rm path heap q = cancel_at (find_in_map path q) heap
