-- ===== src/UploadQueue/Push.antt =====
-- A task that enters the queue.
use thesis_dfs.FilePath.{get_parent_path, filename}
use thesis_dfs.UploadQueue.{
  waiting, find_entry, set_name, set_entry, Names, find_in_map, Heap, push_back, UploadQueue,
  update,
}
use thesis_dfs.Prelude.{
  ℕ, Text, text_eq_refl, List, [], ◌∷◌, ◌++◌, some, none, ◌≡◌, refl, arith, length, ◌≤◌, Bool-cases,
  inl, inr, ==_iff, Option, text_eq, ◌<◌, leb, Option-cases, false, length-append, ◌∙◌,
}
use thesis_dfs.Result.{ok}

find_entry-set_name :
    (name : Text) (p : ℕ) (names : Names) → find_entry name (set_name name p names) ≡ some p
unfolding find_entry set_name
find_entry-set_name name p [] = rw (text_eq_refl name) refl
find_entry-set_name name p ((n, q) ∷ names) = ground (arith, find_entry-set_name name p names)

named : Text → Option Names → Option ℕ
named name none = none
named name (some names) = find_entry name names

find_entry-set_entry :
    (parent name : Text) (p : ℕ) (entries : List (Text × Names))
    → named name (find_entry parent (set_entry parent name p entries)) ≡ some p
unfolding find_entry set_entry named
find_entry-set_entry parent name p [] = rw (text_eq_refl parent, text_eq_refl name) refl
find_entry-set_entry parent name p ((k, names) ∷ entries) = elim (Bool-cases (text_eq k parent)) [
  | inl e ↦ rw (e, e) (find_entry-set_name name p names)
  | inr e ↦ rw (e, e) (find_entry-set_entry parent name p entries)
]

find_in_map-named :
    (path : Text) (q : UploadQueue)
    → find_in_map path q ≡ named (filename path) (find_entry (get_parent_path path) q.map)
unfolding find_in_map named
find_in_map-named path q = elim (Option-cases (find_entry (get_parent_path path) q.map)) [
  | inl e ↦ rw (e, find_in_map) refl
  | inr (names, e) ↦ rw (e, find_in_map) refl
]

pub record IsPushed (p : ℕ) (heap heap' : Heap) (q q' : UploadQueue) : Type 0 where
  pub last : q'.que ≡ q.que ++ p ∷ []
  pub bounded : length q'.que ≤ q'.capacity
  pub mapped : find_in_map (heap p).remote_path q' ≡ some p
  pub status : (heap' p).upload_status ≡ waiting
  pub owner : (heap' p).belong_que ≡ some q.self

-- A queue that has room takes a task: it comes last, the queue stays within its capacity, the map
-- finds the task by its remote path, whatever it held before, and the task is waiting and
-- belongs to this queue.
pub push_back-find_in_map :
    (p : ℕ) (heap : Heap) (q : UploadQueue)
    → length q.que < q.capacity
    → (heap' : Heap) × (q' : UploadQueue) × (push_back p heap q ≡ ok (heap', q'))
      × IsPushed p heap heap' q q'
unfolding push_back update
push_back-find_in_map p heap q room =
    let task = heap p in
    let path = task.remote_path in
    let new : UploadQueue = record q {
      que = q.que ++ p ∷ [];
      map = set_entry (get_parent_path path) (filename path) p q.map;
    } in
    (
      update p (record task { upload_status = waiting; belong_que = some q.self }) heap,
      new,
      rw (has_room room) refl,
      record {
        last = refl;
        bounded = omega (arith, room, length-append q.que (p ∷ []));
        mapped =
            find_in_map-named path new
            ∙ find_entry-set_entry (get_parent_path path) (filename path) p q.map;
        status = rw ((==_iff p p).1 refl) refl;
        owner = rw ((==_iff p p).1 refl) refl;
      },
    )
  where
    has_room : length q.que < q.capacity → leb q.capacity (length q.que) ≡ false
    has_room h = ground arith
