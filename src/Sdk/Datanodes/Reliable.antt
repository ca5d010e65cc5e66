-- ===== src/Sdk/Datanodes/Reliable.antt =====
-- The datanodes as the `Cluster` that the client's transfers rely on.
use thesis_dfs.Datanode
use thesis_dfs.Prelude.{
  Text, Bool, true, false, ◌&&◌, ◌≡◌, refl, ap, ◌∙◌, some, Bool-cases, inl, inr, sym, codes,
}
use thesis_dfs.Result.{Result, Error, err, runtime}
use thesis_dfs.RaftNn.{is_caught}
use thesis_dfs.Sdk.Datanodes.{Link, Disks, put_to_datanode, get_from_datanode, check_link, send}
use thesis_dfs.Sdk.Datanodes.Kept.{
  Works, block_at, put_to_datanode-Works, get_from_datanode-Works, block_at-put,
}
use thesis_dfs.Sdk.Upload.Located.{IsHash}
use thesis_dfs.Sdk.Upload.Placed.{IsReliable}
use thesis_dfs.Sdk.Transfer.{Cluster}

-- The call, or the end of the stream, fails.
abbrev pub IsRefused : Link → Type 0
IsRefused link = (link.created && (link.answered && (link.accepted && link.closed))) ≡ false

module _ (cal_sha256sum : Text → Text) (data_dir : Text) where
  refused :
      (link : Link) (node block : Text) (disks : Disks)
      → IsRefused link
      → (e : Error) × (put_to_datanode cal_sha256sum data_dir link node block disks
          ≡ (err e, disks))
        × (is_caught e ≡ true)
  unfolding put_to_datanode send check_link Datanode.put
  refused link node block disks r = elim (Bool-cases link.created) [
    | inr c ↦ (runtime (codes "Fail to create stream"), rw c refl, refl)
    | inl c ↦ elim (Bool-cases link.answered) [
      | inr a ↦ (runtime (codes "brpc not success: "), rw (c, a) refl, refl)
      | inl a ↦ elim (Bool-cases link.accepted) [
        | inr d ↦
            (runtime (codes "brpc not success: Fail to accept stream"), rw (c, a, d) refl, refl)
        | inl d ↦ (runtime (codes "stream close fail"), rw (c, a, d, not_closed c a d) refl, refl)
      ]
    ]
  ]
    where
      not_closed :
          link.created ≡ true → link.answered ≡ true → link.accepted ≡ true → link.closed ≡ false
      not_closed c a d =
          sym (
            ap (λ b. b && (link.answered && (link.accepted && link.closed))) c
            ∙ ap (λ b. b && (link.accepted && link.closed)) a
            ∙ ap (λ b. b && link.closed) d)
          ∙ r

module _ (cal_sha256sum : Text → Text) (data_dir : Text)
    (apart : (a b : Text) → cal_sha256sum a ≡ cal_sha256sum b → a ≡ b) (links : Text → Link)
    (up : Text → Bool) (works : (node : Text) → up node ≡ true → Works (links node))
    (refuses : (node : Text) → up node ≡ false → IsRefused (links node)) where
  abbrev pub put_over : Text → Text → Disks → Result Text × Disks
  put_over node block disks = put_to_datanode cal_sha256sum data_dir (links node) node block disks

  -- The client and the datanodes, with streams, chunks and files, behave as the store of fragments that
  -- the transfers rely on: a node that is up takes each fragment and then has it as a whole, one that is
  -- not throws what the loop of uploads catches and keeps what it had, and no fragment that a node has is
  -- lost by later ones. The conditions: a node is up if the call to it is answered, its stream is
  -- accepted and closed, every chunk is written and its file opens, and not up if the call or the end of its stream fails, with no node
  -- between these, that is, none that is answered and takes only a part; and no two texts have the same
  -- hash.
  pub put_over-IsReliable :
      IsReliable put_over cal_sha256sum up
        (λ node block disks. block_at cal_sha256sum data_dir node block disks ≡ some block)
  put_over-IsReliable = record {
    accepts = λ node block disks light.
        put_to_datanode-Works cal_sha256sum data_dir (links node) node block disks
          (works node light);
    refuses = λ node block disks dark.
        let (e, p, caught) =
          refused cal_sha256sum data_dir (links node) node block disks (refuses node dark) in
        (e, disks, p, caught);
    keeps = λ node block other kept disks here. elim (Bool-cases (up node)) [
      | inl light ↦
          block_at-put cal_sha256sum data_dir (links node) node block other kept disks apart
            (works node light) here
      | inr dark ↦
          let (e, p, caught) =
            refused cal_sha256sum data_dir (links node) node block disks (refuses node dark) in
          ap (λ r. block_at cal_sha256sum data_dir other kept r.1) p ∙ here
    ];
  }

module _ (cal_sha256sum : Text → Text) (data_dir : Text) (hex : IsHash cal_sha256sum)
    (apart : (a b : Text) → cal_sha256sum a ≡ cal_sha256sum b → a ≡ b) (links : Text → Link)
    (up : Text → Bool) (works : (node : Text) → up node ≡ true → Works (links node))
    (refuses : (node : Text) → up node ≡ false → IsRefused (links node)) (readers : Text → Link)
    (reads : (node : Text) → Works (readers node)) where
  -- The datanodes of which those that are up keep what is put on them, and send it.
  unfoldable pub datanodes : Cluster Disks
  datanodes = record {
    put_to_datanode = put_over cal_sha256sum data_dir apart links up works refuses;
    get_from_datanode = λ disks node blkid.
        get_from_datanode cal_sha256sum data_dir (readers node) true disks node blkid;
    hash = cal_sha256sum;
    up = up;
    Stored = λ node block disks. block_at cal_sha256sum data_dir node block disks ≡ some block;
    reliable = put_over-IsReliable cal_sha256sum data_dir apart links up works refuses;
    hex = hex;
    readable = λ node block disks here.
        get_from_datanode-Works cal_sha256sum data_dir (readers node) node block disks (reads node)
          here;
  }
