-- ===== src/UploadQueue/Cancel.antt =====
-- Cancelling a task by `rm`, and what `ls` shows afterwards.
use thesis_dfs.UploadQueue.{
  ls, rm, waiting, UploadStatus, update, Heap, find_in_que, data_uploading, cancel, UploadQueue,
  meta_uploading, find_in_map, is_canceled, canceled, UploadTask, cancel_at, shown, or_else,
  finished, get_until_size,
}
use thesis_dfs.Prelude.{
  ℕ, Text, List, [], ◌∷◌, Bool, true, false, none, some, ◌≡◌, refl, if◌then◌else◌, ◌==◌, ==_iff,
  Bool-cases, inl, inr, ◌∙◌, ap, sym, Option,
}

-- The states in which `rm` lets a task go on and `ls` shows it.
pub is_kept : UploadStatus → Bool
is_kept waiting = false
is_kept data_uploading = false
is_kept meta_uploading = true
is_kept canceled = false
is_kept thesis_dfs.UploadQueue.finished = true

update-remote_path :
    (p a : ℕ) (task : UploadTask) (heap : Heap)
    → task.remote_path ≡ (heap p).remote_path
    → (update p task heap a).remote_path ≡ (heap a).remote_path
unfolding update
update-remote_path p a task heap same = elim (Bool-cases (a == p)) [
  | inl e ↦ rw e (same ∙ ap (λ b. (heap b).remote_path) (sym ((==_iff a p).0 e)))
  | inr e ↦ rw e refl
]

cancel_at-remote_path :
    (o : Option ℕ) (heap : Heap) (a : ℕ) → (cancel_at o heap a).remote_path ≡ (heap a).remote_path
unfolding cancel_at
cancel_at-remote_path none heap a = refl
cancel_at-remote_path (some p) heap a = update-remote_path p a _ heap refl

find_in_que-same :
    (heap heap' : Heap) (path : Text) (ps : List ℕ)
    → ((a : ℕ) → (heap' a).remote_path ≡ (heap a).remote_path)
    → find_in_que heap' path ps ≡ find_in_que heap path ps
unfolding find_in_que
find_in_que-same heap heap' path [] same = refl
find_in_que-same heap heap' path (p ∷ ps) same =
    rw (same p, find_in_que-same heap heap' path ps same) refl

status_shown :
    (s : UploadStatus) (p : ℕ)
    → (if is_canceled (cancel s) then none else some p) ≡ (if is_kept s then some p else none)
unfolding cancel is_canceled is_kept
status_shown waiting p = refl
status_shown data_uploading p = refl
status_shown meta_uploading p = refl
status_shown canceled p = refl
status_shown thesis_dfs.UploadQueue.finished p = refl

-- What `ls` takes from the map once `rm` has cancelled it.
pub kept : Heap → Option ℕ → Option ℕ
kept heap none = none
kept heap (some p) = if is_kept (heap p).upload_status then some p else none

shown-cancel_at : (o : Option ℕ) (heap : Heap) → shown (cancel_at o heap) o ≡ kept heap o
unfolding shown cancel_at kept update
shown-cancel_at none heap = refl
shown-cancel_at (some p) heap = rw ((==_iff p p).1 refl) (status_shown (heap p).upload_status p)

-- After `rm path`, `ls path` still shows the task with that path that stands first in the queue, for
-- `rm` takes none out of it. If there is none, it shows the task that the map has for the path
-- only if its metadata was being uploaded already or it was finished: a task that waited or was
-- uploading data is cancelled by `rm`, and a cancelled one is hidden.
pub ls-rm :
    (heap : Heap) (path : Text) (q : UploadQueue)
    → ls (rm path heap q) path q
      ≡ or_else (find_in_que heap path q.que) (kept heap (find_in_map path q))
unfolding ls rm
ls-rm heap path q =
    let o = find_in_map path q in
    ap (λ f. or_else f (shown (cancel_at o heap) o))
      (find_in_que-same heap (cancel_at o heap) path q.que (cancel_at-remote_path o heap))
    ∙ ap (or_else (find_in_que heap path q.que)) (shown-cancel_at o heap)

-- rm cancels a waiting task that it finds.
pub rm-waiting_task :
    (path : Text) (p : ℕ) (heap : Heap) (q : UploadQueue)
    → find_in_map path q ≡ some p
    → (heap p).upload_status ≡ waiting
    → (rm path heap q p).upload_status ≡ canceled
unfolding rm cancel_at update cancel
rm-waiting_task path p heap q found status =
    ap (λ o. (cancel_at o heap p).upload_status) found ∙ rw ((==_iff p p).1 refl) (ap cancel status)

-- Taking a batch off the queue leaves the map as it is.
pub find_in_map-get_until_size :
    (path : Text) (heap : Heap) (q : UploadQueue) (size : ℕ)
    → find_in_map path (get_until_size heap q size).1 ≡ find_in_map path q
unfolding find_in_map get_until_size
find_in_map-get_until_size path heap q size = refl
