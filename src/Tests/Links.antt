-- ===== src/Tests/Links.antt =====
-- A block put on the two datanodes, and a link whose writes fail.
use thesis_dfs.Sdk.Upload.Stuck.{IsDown, IsWaiting, upload-IsWaiting}
use thesis_dfs.Prelude.Split.{lines, before, after}
use thesis_dfs.Prelude.{
  ℕ, ◌≡◌, refl, ◌==◌, Text, codes, List, [], ◌∷◌, length, map, take, arith, some, none,
  if◌then◌else◌, leb, inl, inr,
}
use thesis_dfs.Result.{Result, ok, err, runtime}
use thesis_dfs.Node.{to_string}
use thesis_dfs.Inode.{decode_one_sub}
use thesis_dfs.StorageType.{encode, get_blocks, get_decode_blocks, rs, check}
use thesis_dfs.DataRetrive.{split_all_block}
use thesis_dfs.DataRetrive.Blocks.{split_all_block-IsSplit, IsSplit}
use thesis_dfs.Stream.{send_block}
use thesis_dfs.Stream.Chunks.{send_block-IsReceived, IsReceived}
use thesis_dfs.Sdk.Upload.{encode_one_block, Round, upload}
use thesis_dfs.Sdk.Upload.Placed.{Placed, IsReliable}
use thesis_dfs.Sdk.Download.{decode_one_block}
use thesis_dfs.Sdk.Download.Fragments.{IsServed, answers, decode_one_block-IsServed}
use thesis_dfs.Sdk.Transfer.{encode_one_block-Placed}
use thesis_dfs.Sdk.Datanodes.{Link, Disks, put_to_datanode}
use thesis_dfs.Sdk.Datanodes.Kept.{Answers, put_to_datanode-part, block_at}
use thesis_dfs.Sdk.Datanodes.Reliable.{put_over-IsReliable, put_over}
use thesis_dfs.Tests.Daemon.{copy_code, copies}
use thesis_dfs.Tests.Transfers.{
  two_nodes, both, two_nodes-IsNodes, twice, content, no_disks, six_rounds, good_link, shift,
  shift_apart, links, is_lit, links-Works, links-IsRefused,
}

two_copies : encode copy_code twice content ≡ ok (content ∷ content ∷ [])
unfolding encode
two_copies = refl

encode_one_block-Placed_example :
    (t : Text) × (w' : Disks) × (encode_one_block two_nodes.put_to_datanode copy_code 6 twice
        (map to_string both)
        content
        no_disks
      ≡ some (ok (t, w')))
    × Placed two_nodes.hash two_nodes.Stored
        (map to_string both)
        w'
        (content ∷ content ∷ [])
        (decode_one_sub t)
    × Unit {0}
unfolding get_blocks
encode_one_block-Placed_example =
    encode_one_block-Placed two_nodes twice both two_nodes-IsNodes (λ w. Unit {0})
      (λ node f w u. tt) copy_code 6 content (content ∷ content ∷ []) no_disks two_copies
      (omega arith) six_rounds tt

-- One of three fragments cannot be had.
abbrev one_lost : Text → Text → Result Text
one_lost node blkid = if length blkid == 2 then err (runtime (codes "lost")) else ok content

abbrev three_places : Text
three_places = codes "a:1|h,b:1|hh,c:1|hhh"

three_copies : encode copy_code (rs 2 1 64) content ≡ ok (content ∷ content ∷ content ∷ [])
unfolding encode copies
three_copies = refl

three_places-IsServed :
    IsServed one_lost (content ∷ content ∷ content ∷ []) (decode_one_sub three_places)
unfolding decode_one_sub lines before after
three_places-IsServed = (inl refl, (inr (runtime (codes "lost"), refl, refl), (inl refl, tt)))

decode_one_block-IsServed_example :
    decode_one_block copy_code one_lost (rs 2 1 64) three_places
    ≡ ok (
        if leb (get_decode_blocks (rs 2 1 64)) (answers one_lost (decode_one_sub three_places))
        then content
        else [])
unfolding get_decode_blocks
decode_one_block-IsServed_example =
    decode_one_block-IsServed copy_code one_lost (rs 2 1 64) content
      (content ∷ content ∷ content ∷ []) three_copies three_places (omega arith)
      three_places-IsServed

split_all_block-IsSplit_example :
    (vec : List Text) × (split_all_block 3 content ≡ ok vec) × IsSplit 3 content vec
split_all_block-IsSplit_example = split_all_block-IsSplit 3 content (omega arith)

-- The second message fails.
abbrev bad_link : Link
bad_link = record good_link { outcome = λ k. k == 0 }

bad_link-Answers : Answers bad_link
bad_link-Answers = record { created = refl; answered = refl; accepted = refl; closed = refl }

put_to_datanode-part_example :
    (disks' : Disks) × (count : ℕ) × (put_to_datanode shift
        (codes "/data")
        bad_link
        (codes "n:1")
        content
        no_disks
      ≡ (ok (shift content), disks'))
    × (block_at shift (codes "/data") (codes "n:1") content disks' ≡ (
        if bad_link.opened
        then some (take count content)
        else block_at shift (codes "/data") (codes "n:1") content no_disks))
put_to_datanode-part_example =
    put_to_datanode-part shift (codes "/data") bad_link (codes "n:1") content no_disks
      bad_link-Answers

send_block-IsReceived_example :
    IsReceived (λ k. k == 0) content (send_block (λ k. k == 0) (length content) 0 content 0)
send_block-IsReceived_example = send_block-IsReceived (λ k. k == 0) content

put_over-IsReliable_example :
    IsReliable
      (put_over shift (codes "/data") shift_apart links is_lit links-Works links-IsRefused)
      shift
      is_lit
      (λ node block disks. block_at shift (codes "/data") node block disks ≡ some block)
put_over-IsReliable_example =
    put_over-IsReliable shift (codes "/data") shift_apart links is_lit links-Works links-IsRefused

abbrev no_network : Text → Text → Disks → Result Text × Disks
no_network node fragment disks = (err (runtime (codes "brpc not success: ")), disks)

no_network-IsDown : IsDown no_network
no_network-IsDown = record {
  fails = λ node f w. (runtime (codes "brpc not success: "), w, refl, refl);
}

-- One of two copies is put.
abbrev one_put : Round Disks
one_put = record {
  left = content ∷ [];
  node_index = 1;
  succ = 1;
  fail_count = 0;
  nodes_hashs = (codes "n:1", codes "h") ∷ [];
  world = no_disks;
}

abbrev two_names : List Text
two_names = codes "n:1" ∷ codes "n:2" ∷ []

one_put-IsWaiting : IsWaiting no_network no_network-IsDown twice two_names one_put
unfolding check
one_put-IsWaiting = record {
  fragment = content;
  fragments = [];
  more = refl;
  index = omega arith;
  enough = refl;
}

upload-IsWaiting_example : upload no_network 1000 twice two_names one_put ≡ none
upload-IsWaiting_example =
    upload-IsWaiting no_network no_network-IsDown twice two_names 1000 one_put one_put-IsWaiting
