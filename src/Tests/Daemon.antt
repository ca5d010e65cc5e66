-- ===== src/Tests/Daemon.antt =====
-- The upload queue with two tasks, and a code with one data fragment.
use thesis_dfs.UploadQueue.Push.{IsPushed, push_back-find_in_map}
use thesis_dfs.UploadQueue.Cancel.{kept, ls-rm}
use thesis_dfs.StorageType.Fragments.{Chosen-All, replicate-All}
use thesis_dfs.Result.{Result, err, ok, undefined}
use thesis_dfs.UploadQueue.Batches.{total, IsFull, get_until_size-split}
use thesis_dfs.UploadQueue.{
  ls, rm, data_uploading, Heap, UploadQueue, get_until_size, UploadTask, or_else, find_in_que,
  find_in_map, push_back,
}
use thesis_dfs.StorageType.{encode, Chosen, ErasureCode, rs}
use thesis_dfs.Prelude.{
  ◌<◌, Text, codes, ℕ, if◌then◌else◌, ◌∷◌, ◌++◌, [], ◌≡◌, List, some, ◌==◌, replicate, length,
  arith, suc, ◌+◌, refl, zero, subst, ap, length-replicate, sym, ◌^◌,
}

abbrev file : Text → UploadTask
file path = record {
  local_path = codes "/tmp/f";
  remote_path = path;
  size = 40;
  upload_status = data_uploading;
  belong_que = some 0;
}

abbrev heap : Heap
heap p = if p == 0 then file (codes "/d/a") else file (codes "/d/b")

abbrev two : UploadQueue
two = record {
  self = 0;
  capacity = 8;
  que = 0 ∷ 1 ∷ [];
  map = (codes "/d", (codes "a", 0) ∷ (codes "b", 1) ∷ []) ∷ [];
}

total_two : total heap two.que < 2 ^ 64
unfolding total
total_two = omega arith

get_until_size-split_example :
    let (taken, q') = get_until_size heap two 64 in
    (taken ++ q'.que ≡ two.que) × (total heap taken < 64) × IsFull heap 64 (total heap taken) q'.que
get_until_size-split_example = get_until_size-split heap two 64 (omega arith) total_two

abbrev popped : UploadQueue
popped = record two { que = [] }

ls-rm_example :
    ls (rm (codes "/d/a") heap popped) (codes "/d/a") popped
    ≡ or_else (find_in_que heap (codes "/d/a") []) (kept heap (find_in_map (codes "/d/a") popped))
ls-rm_example = ls-rm heap (codes "/d/a") popped

-- Every fragment is the block, and one fragment at least is needed.
unfoldable pub copies : ℕ → ℕ → Text → Result (List Text)
copies zero m block = err undefined
copies (suc k) m block = ok (replicate (suc k + m) block)

pub first : ℕ → ℕ → List Text → Result Text
first k m [] = err undefined
first k m (g ∷ gs) = ok g

pub copies-length :
    (k m : ℕ) (block : Text) (fs : List Text) → copies k m block ≡ ok fs → length fs ≡ k + m
unfolding copies
copies-length zero m block fs e = cc
copies-length (suc k) m block fs e =
    subst (λ l. length l ≡ suc k + m) (same e) (length-replicate (suc k + m) block)
  where
    same : ok (replicate (suc k + m) block) ≡ ok fs → replicate (suc k + m) block ≡ fs
    same q = cc

Chosen-first :
    (n k m : ℕ) (block : Text) (gs : List Text)
    → Chosen (replicate n block) gs
    → length gs ≡ suc k
    → first (suc k) m gs ≡ ok block
unfolding first
Chosen-first n k m block [] c e = absurd (omega (arith, e))
Chosen-first n k m block (g ∷ gs) c e =
    ap ok (Chosen-All (λ x. x ≡ block) (replicate n block) (g ∷ gs) (replicate-All n block) c).0

pub first-copies :
    (k m : ℕ) (block : Text) (fs gs : List Text)
    → copies k m block ≡ ok fs
    → Chosen fs gs
    → length gs ≡ k
    → first k m gs ≡ ok block
unfolding copies
first-copies zero m block fs gs e c n = cc
first-copies (suc k) m block fs gs e c n =
    Chosen-first (suc k + m) k m block gs (subst (λ l. Chosen l gs) (sym (same e)) c) n
  where
    same : ok (replicate (suc k + m) block) ≡ ok fs → replicate (suc k + m) block ≡ fs
    same q = cc

abbrev pub copy_code : ErasureCode
copy_code = record {
  encode = copies;
  decode = first;
  encode-length = copies-length;
  decode-encode = first-copies;
}

abbrev block : Text
block = codes "data"

three_fragments : encode copy_code (rs 2 1 64) block ≡ ok (block ∷ block ∷ block ∷ [])
unfolding encode copies
three_fragments = refl

push_back-find_in_map_example :
    (heap' : Heap) × (q' : UploadQueue) × (push_back 1 heap popped ≡ ok (heap', q'))
    × IsPushed 1 heap heap' popped q'
push_back-find_in_map_example = push_back-find_in_map 1 heap popped (omega arith)
