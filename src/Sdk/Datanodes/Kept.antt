-- ===== src/Sdk/Datanodes/Kept.antt =====
-- What the datanodes keep of the blocks that are put, and give back.
use thesis_dfs.Prelude.{
  ℕ, Text, codes, text_eq, text_eq_iff, Bool, true, false, ◌≡◌, refl, ap, ◌∙◌, sym, some, Option,
  if◌then◌else◌, length, take, inl, inr, Bool-cases, append_cancel, [], ◌∷◌, List, text_eq_refl,
}
use thesis_dfs.Result.{ok}
use thesis_dfs.Stream.{new_receiver, on_received_messages, on_closed, send_block}
use thesis_dfs.Stream.Chunks.{send_block-IsReceived, send_file-IsReceived}
use thesis_dfs.Datanode.{Disk, receive_block, file_path, write_file, send_blk}
use thesis_dfs.Datanode
use thesis_dfs.Sdk.Download.{checked}
use thesis_dfs.Sdk.Datanodes.{
  Link, Disks, set_disk, put_to_datanode, get_from_datanode, check_link, send, call_failed,
}

-- A link on which nothing fails.
pub record Works (link : Link) : Type 0 where
  pub created : link.created ≡ true
  pub answered : link.answered ≡ true
  pub accepted : link.accepted ≡ true
  pub written : (n : ℕ) → link.outcome n ≡ true
  pub closed : link.closed ≡ true
  pub opened : link.opened ≡ true

-- The call is answered, and the stream is closed; the writes may fail, and so may the file's opening.
pub record Answers (link : Link) : Type 0 where
  pub created : link.created ≡ true
  pub answered : link.answered ≡ true
  pub accepted : link.accepted ≡ true
  pub closed : link.closed ≡ true

Works-Answers : (link : Link) → Works link → Answers link
Works-Answers link w = record {
  created = w.created;
  answered = w.answered;
  accepted = w.accepted;
  closed = w.closed;
}

check_link-Answers : (link : Link) → Answers link → check_link link ≡ ok tt
unfolding check_link Datanode.put call_failed
check_link-Answers link w = rw (w.created, w.answered, w.accepted) refl

-- A file that is written and opens.
receive_block_at :
    (data_dir blkid : Text) (opened : Bool) (messages : List Text) (disk : Disk)
    → receive_block data_dir blkid opened messages disk (file_path data_dir blkid) ≡ (
        if opened
        then some (on_received_messages messages new_receiver).ss
        else disk (file_path data_dir blkid))
unfolding receive_block on_closed write_file
receive_block_at data_dir blkid true messages disk =
    rw (text_eq_refl (file_path data_dir blkid)) refl
receive_block_at data_dir blkid false messages disk = refl

module _ (cal_sha256sum : Text → Text) (data_dir : Text) where
  -- The file of a block on the disk of a datanode.
  abbrev pub block_at : Text → Text → Disks → Option Text
  block_at node block disks = disks node (file_path data_dir (cal_sha256sum block))

  put-Answers :
      (link : Link) (node block : Text) (disks : Disks)
      → Answers link
      → put_to_datanode cal_sha256sum data_dir link node block disks ≡ (
        ok (cal_sha256sum block),
        set_disk node
            (receive_block data_dir
              (cal_sha256sum block)
              link.opened
              (send_block link.outcome (length block) 0 block 0).0)
            disks,
      )
  unfolding put_to_datanode send
  put-Answers link node block disks w =
      ap (send cal_sha256sum data_dir link node block disks) (check_link-Answers link w)
      ∙ rw w.closed refl

  block_at-set_disk :
      (node block : Text) (opened : Bool) (messages : List Text) (disks : Disks)
      → block_at node block
          (set_disk node (receive_block data_dir (cal_sha256sum block) opened messages) disks)
        ≡ (if opened
            then some (on_received_messages messages new_receiver).ss
            else block_at node block disks)
  unfolding set_disk
  block_at-set_disk node block opened messages disks =
      rw (text_eq_refl node)
        (receive_block_at data_dir (cal_sha256sum block) opened messages (disks node))

  -- If the call is answered and the stream is closed, the hash is returned, whether or not the chunks were
  -- written and the file opened: the datanode has a part from the front of the block, or, if the file
  -- did not open, what it had before.
  pub put_to_datanode-part :
      (link : Link) (node block : Text) (disks : Disks)
      → Answers link
      → (disks' : Disks) × (count : ℕ) × (put_to_datanode cal_sha256sum data_dir link node block
            disks
          ≡ (ok (cal_sha256sum block), disks'))
        × (block_at node block disks'
            ≡ (if link.opened then some (take count block) else block_at node block disks))
  put_to_datanode-part link node block disks w =
      let sent = send_block-IsReceived link.outcome block in
      (
        _,
        sent.sent.count,
        put-Answers link node block disks w,
        block_at-set_disk node block link.opened _ disks
            ∙ ap (λ t. if link.opened then some t else block_at node block disks)
                (sent.joined ∙ sent.sent.part),
      )

  abbrev disks_after : Link → Text → Text → Disks → Disks
  disks_after link node block disks =
      set_disk node
        (receive_block data_dir (cal_sha256sum block) link.opened
          (send_block link.outcome (length block) 0 block 0).0)
        disks

  disks_after-Works :
      (link : Link) (node block : Text) (disks : Disks)
      → Works link
      → block_at node block (disks_after link node block disks) ≡ some block
  disks_after-Works link node block disks w =
      let sent = send_block-IsReceived link.outcome block in
      block_at-set_disk node block link.opened _ disks
      ∙ ap
          (λ b.
            if b
            then some
                (on_received_messages (send_block link.outcome (length block) 0 block 0).0
                  new_receiver).ss
            else block_at node block disks)
          w.opened
      ∙ ap some (sent.whole (sent.flag w.written))

  -- Over a link on which nothing fails a block is put on the datanode, and its hash is returned.
  pub put_to_datanode-Works :
      (link : Link) (node block : Text) (disks : Disks)
      → Works link
      → (disks' : Disks) × (put_to_datanode cal_sha256sum data_dir link node block disks
          ≡ (ok (cal_sha256sum block), disks'))
        × (block_at node block disks' ≡ some block)
  put_to_datanode-Works link node block disks w = (
    _,
    put-Answers link node block disks (Works-Answers link w),
    disks_after-Works link node block disks w,
  )

  -- Over a link on which nothing fails the content of the file comes, also if it is empty.
  arrives :
      (outcome : ℕ → Bool) (file : Text)
      → ((n : ℕ) → outcome n ≡ true)
      → (on_received_messages (send_blk outcome (some file)).0 new_receiver).ss ≡ file
  unfolding send_blk on_received_messages
  arrives outcome [] w = refl
  arrives outcome (c ∷ file) w =
      let sent = send_file-IsReceived outcome (c ∷ file) in sent.whole (sent.flag w)

  pub get_from_datanode-Works :
      (link : Link) (node block : Text) (disks : Disks)
      → Works link
      → block_at node block disks ≡ some block
      → get_from_datanode cal_sha256sum data_dir link true disks node (cal_sha256sum block)
        ≡ ok block
  unfolding get_from_datanode Datanode.get checked
  get_from_datanode-Works link node block disks w here =
      rw
        (
          check_link-Answers link (Works-Answers link w),
          get_from_datanode,
          here,
          arrives link.outcome block w.written,
          text_eq_refl (cal_sha256sum block),
        )
        refl

  other_block :
      (dir blkid blkid' : Text) (opened : Bool) (messages : List Text) (disk : Disk)
      → text_eq (file_path dir blkid') (file_path dir blkid) ≡ false
      → receive_block dir blkid opened messages disk (file_path dir blkid')
        ≡ disk (file_path dir blkid')
  unfolding receive_block on_closed write_file
  other_block dir blkid blkid' true messages disk e = rw e refl
  other_block dir blkid blkid' false messages disk e = refl

  hash_of_path : (a b : Text) → text_eq (file_path data_dir a) (file_path data_dir b) ≡ true → a ≡ b
  unfolding file_path
  hash_of_path a b e =
      append_cancel (codes "/blk_") a b (
        append_cancel data_dir _ _
          ((text_eq_iff (file_path data_dir a) (file_path data_dir b)).0 e))

  -- A block that is on a datanode stays there when another is put over a link on which nothing fails.
  pub block_at-put :
      (link : Link) (node block other kept : Text) (disks : Disks)
      → ((a b : Text) → cal_sha256sum a ≡ cal_sha256sum b → a ≡ b)
      → Works link
      → block_at other kept disks ≡ some kept
      → block_at other kept (put_to_datanode cal_sha256sum data_dir link node block disks).1
        ≡ some kept
  unfolding set_disk
  block_at-put link node block other kept disks apart w here =
      ap (λ r. block_at other kept r.1) (put-Answers link node block disks (Works-Answers link w))
      ∙ elim (Bool-cases (text_eq other node)) [
        | inl same ↦
            elim (Bool-cases (
              text_eq (file_path data_dir (cal_sha256sum kept))
                (file_path data_dir (cal_sha256sum block)))) [
                  | inl same_path ↦
                      ap (λ n. block_at n kept (disks_after link node block disks))
                        ((text_eq_iff other node).0 same)
                      ∙ ap (λ b. block_at node b (disks_after link node block disks))
                          (apart kept block (hash_of_path _ _ same_path))
                      ∙ disks_after-Works link node block disks w
                      ∙ ap some (sym (apart kept block (hash_of_path _ _ same_path)))
                  | inr elsewhere ↦
                      rw same
                        (other_block data_dir _ _ link.opened _ (disks other) elsewhere ∙ here)
                ]
        | inr away ↦ rw away here
      ]
