-- ===== src/DaemonUpload/Aggregate.antt =====
-- Small files that are put as one aggregate, and got one by one.
use native.Mathlib.Nat.{mod-eq_of_lt}
use thesis_dfs.Prelude.{
  ℕ, ◌+◌, ◌-◌, ◌<◌, ◌^◌, ◌≡◌, refl, ap, ◌∙◌, sym, subst, Text, false, List, [], ◌∷◌, ◌++◌, Option,
  some, take, drop, length, arith, append_assoc, lt→ltb, All, length-append, take_add, take_left,
  drop_left,
}
use thesis_dfs.Prelude.Int.{pos, int_to_text}
use thesis_dfs.Prelude.Decimal.{to_text}
use thesis_dfs.Prelude.Split.{is_empty}
use thesis_dfs.Result.{Result, ok, ◌>>=◌, >>=-eq-ok}
use thesis_dfs.StorageType.{StorageType, ErasureCode}
use thesis_dfs.Inode.{Inode, FileInfo}
use thesis_dfs.UploadQueue.{UploadTask}
use thesis_dfs.Sdk.Ranges.{to_int}
use thesis_dfs.Sdk.Download.{
  get, get-part, decode_one_block, resize_file, resize_file-append, agg_range,
}
use thesis_dfs.Sdk.Download.Places.{agg_range-place, agg_slice-inside}
use thesis_dfs.DaemonUpload.{aggregate_from, agg_sub}

to_int-small : (n : ℕ) → n < 2 ^ 31 → to_int n ≡ pos n
unfolding to_int
to_int-small n h = rw (mod-eq_of_lt (wide h), lt→ltb n (2 ^ 31) h) refl
  where
    wide : n < 2 ^ 31 → n < 2 ^ 32
    wide q = omega (arith, q)

-- A task whose local file is there, with the size that the task has, and not empty.
pub record HasFile (files : Text → Option Text) (task : UploadTask) : Type 0 where
  pub content : Text
  pub opens : files task.local_path ≡ some content
  pub sized : task.size ≡ length content
  pub some_bytes : 0 < length content

module _ (code : ErasureCode) (get_from_datanode : Text → Text → Result Text) (s : StorageType)
    (files : Text → Option Text) (location : Text) (i : Inode) (st : i.storage_type_ptr ≡ some s)
    (own : is_empty i.agg_inode_id ≡ false) where
  -- The inode of a small file, as the end of the upload leaves it.
  abbrev pub small_inode : FileInfo → Inode
  small_inode info = record i { sub = agg_sub location info ∷ []; filesize = info.size }

  -- Each task's file is got.
  abbrev pub AreGot : List UploadTask → List FileInfo → Type 0
  AreGot [] [] = Unit {0}
  AreGot [] (info ∷ infos) = ⊥
  AreGot (task ∷ tasks) [] = ⊥
  AreGot (task ∷ tasks) (info ∷ infos) =
      ((content : Text) × (files task.local_path ≡ some content)
        × (get code get_from_datanode (small_inode info) ≡ ok content))
      × AreGot tasks infos

  -- One file of the aggregate `pre ++ (content ++ rest)`.
  get-small :
      (pre content rest path : Text) (size : ℕ)
      → decode_one_block code get_from_datanode s location ≡ ok (pre ++ (content ++ rest))
      → length (pre ++ (content ++ rest)) < 2 ^ 31
      → size ≡ length content
      → 0 < length content
      → get code get_from_datanode (
          small_inode (record {
            path = path;
            size = size;
            begin = to_int (length pre);
            end = to_int (length pre + length content);
          }))
        ≡ ok content
  unfolding agg_sub int_to_text
  get-small pre content rest path size decoded short sized some_bytes =
      get-part code get_from_datanode i s _ location (pre ++ (content ++ rest)) _ (pos (length pre))
        (pos (length pre + length content)) size st own
        (ap agg_range place
          ∙ agg_range-place location (length pre) (length pre + length content)
              (omega (arith, lengths, short)) (omega (arith, lengths, short)))
        decoded
        (agg_slice-inside (length pre) (length pre + length content) (pre ++ (content ++ rest))
          (omega (arith, some_bytes)) (omega (arith, lengths)))
      ∙ ap ok cut
    where
      lengths : length (pre ++ (content ++ rest)) ≡ length pre + (length content + length rest)
      lengths =
          length-append pre (content ++ rest)
          ∙ ap (λ n. length pre + n) (length-append content rest)

      place :
          location
            ++ b','
              ∷ (int_to_text (to_int (length pre))
                  ++ b'|' ∷ int_to_text (to_int (length pre + length content)))
          ≡ location
            ++ b',' ∷ (to_text (length pre) ++ b'|' ∷ to_text (length pre + length content))
      place =
          rw
            (
              to_int-small (length pre) (omega (arith, lengths, short)),
              to_int-small (length pre + length content) (omega (arith, lengths, short)),
            )
            refl

      count : length pre + length content - length pre + 1 ≡ length content + 1
      count = omega arith

      cut :
          resize_file size (
            take
              (length pre + length content - length pre + 1)
              (drop (length pre) (pre ++ (content ++ rest))))
          ≡ content
      cut =
          ap
            (λ n. resize_file n (
              take (length pre + length content - length pre + 1)
                (drop (length pre) (pre ++ (content ++ rest)))))
            sized
          ∙ ap
              (λ t.
                resize_file (length content)
                  (take (length pre + length content - length pre + 1) t))
              (drop_left pre (content ++ rest))
          ∙ ap (λ n. resize_file (length content) (take n (content ++ rest))) count
          ∙ ap (resize_file (length content)) (
              take_add (length content) 1 (content ++ rest)
              ∙ ap (λ t. t ++ take 1 (drop (length content) (content ++ rest)))
                  (take_left content rest))
          ∙ resize_file-append content (take 1 (drop (length content) (content ++ rest)))

  got-aggregate :
      (tasks : List UploadTask) (pre : Text) (r : List FileInfo × Text)
      → All (HasFile files) tasks
      → aggregate_from files (length pre) tasks ≡ ok r
      → decode_one_block code get_from_datanode s location ≡ ok (pre ++ r.1)
      → length (pre ++ r.1) < 2 ^ 31
      → AreGot tasks r.0
  unfolding aggregate_from
  got-aggregate [] pre r has e decoded short = subst (λ q. AreGot [] q.0) (same e) tt
    where
      same : ok ([], []) ≡ ok r → ([], []) ≡ r
      same q = cc
  got-aggregate (task ∷ tasks) pre r has e decoded short =
      let c = has.0 in
      let (q, e₁, e₂) =
        >>=-eq-ok (aggregate_from files (length pre + length c.content) tasks) _
          (sym (aggregate-step c) ∙ e) in
      subst
        (λ x.
          decode_one_block code get_from_datanode s location ≡ ok (pre ++ x.1)
          → length (pre ++ x.1) < 2 ^ 31
          → AreGot (task ∷ tasks) x.0)
        (same c q e₂)
        (λ d h. (
          (
            c.content,
            c.opens,
            get-small pre c.content q.1 task.remote_path task.size d h c.sized c.some_bytes,
          ),
          got-aggregate tasks (pre ++ c.content) q has.1
              (ap (λ n. aggregate_from files n tasks) (length-append pre c.content) ∙ e₁)
              (d ∙ ap ok (sym (append_assoc pre c.content q.1)))
              (subst (λ t. length t < 2 ^ 31) (sym (append_assoc pre c.content q.1)) h),
        ))
        decoded short
    where
      with_info : HasFile files task → List FileInfo × Text → List FileInfo × Text
      with_info c q = (
        record {
          path = task.remote_path;
          size = task.size;
          begin = to_int (length pre);
          end = to_int (length pre + length c.content);
        }
            ∷ q.0,
        c.content ++ q.1,
      )

      aggregate-step :
          (c : HasFile files task)
          → aggregate_from files (length pre) (task ∷ tasks) ≡ (
              aggregate_from files (length pre + length c.content) tasks >>= λ q.
              ok (with_info c q))
      aggregate-step c = rw (c.opens, aggregate_from) refl

      same :
          (c : HasFile files task) (q : List FileInfo × Text)
          → ok (with_info c q) ≡ ok r
          → with_info c q ≡ r
      same c q h = cc

  -- The small files of a batch, put together as one aggregate and put with their places behind its
  -- location, are each got as they were, if the aggregate is decoded at its location. Each local file
  -- is there, with the size of its task and not empty, and the aggregate is smaller than 2 GB.
  pub get-aggregate :
      (tasks : List UploadTask) (infos : List FileInfo) (agg_data : Text)
      → All (HasFile files) tasks
      → aggregate_from files 0 tasks ≡ ok (infos, agg_data)
      → decode_one_block code get_from_datanode s location ≡ ok agg_data
      → length agg_data < 2 ^ 31
      → AreGot tasks infos
  get-aggregate tasks infos agg_data has e decoded short =
      got-aggregate tasks [] (infos, agg_data) has e decoded short
