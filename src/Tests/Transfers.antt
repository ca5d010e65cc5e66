-- ===== src/Tests/Transfers.antt =====
-- Two datanodes, of which the first is down while a file is put.
use thesis_dfs.Prelude.{
  ◌+◌, ◌≤◌, Text, text_eq, codes, Bool, true, false, not, ◌≡◌, refl, ap, List, [], ◌∷◌, map,
  replicate, arith, some, none, ◌∙◌,
}
use thesis_dfs.Prelude.Int.{pos}
use thesis_dfs.Prelude.Split.{lacks}
use thesis_dfs.Result.{ok}
use thesis_dfs.Node.{Node, to_string, online}
use thesis_dfs.Inode.{Inode, new_inode}
use thesis_dfs.StorageType.{StorageType, re, get_block_size, encode, get_blocks, get_decode_blocks}
use thesis_dfs.DataRetrive.{encode_all, encode_content, split_all_block}
use thesis_dfs.DataRetrive.Blocks.{split_all_block-IsSplit}
use thesis_dfs.DataRetrive.Put.{datanode_put}
use thesis_dfs.Sdk.Upload.Located.{IsHash, IsAddress}
use thesis_dfs.Sdk.Datanodes.{Link, Disks}
use thesis_dfs.Sdk.Datanodes.Kept.{Works}
use thesis_dfs.Sdk.Datanodes.Reliable.{IsRefused, datanodes}
use thesis_dfs.Sdk.Transfer.{Cluster, IsNodes, enough_rounds}
use thesis_dfs.Sdk.Transfer.Files.{get-datanode_put}
use thesis_dfs.Sdk.Download.{get}
use thesis_dfs.Tests.Daemon.{copy_code}

-- A hash with no two texts of the same value, and without the bytes that separate the hashes.
pub shift : Text → Text
shift [] = []
shift (c ∷ t) = (c + 200) ∷ shift t

pub shift-IsHash : IsHash shift
unfolding shift
shift-IsHash = record { no_bar = no_byte_bar; no_comma = no_byte_comma }
  where
    no_byte_bar : (f : Text) → lacks b'|' (shift f) ≡ true
    no_byte_bar [] = refl
    no_byte_bar (c ∷ f) = ground (arith, no_byte_bar f)

    no_byte_comma : (f : Text) → lacks b',' (shift f) ≡ true
    no_byte_comma [] = refl
    no_byte_comma (c ∷ f) = ground (arith, no_byte_comma f)

pub shift_apart : (s t : Text) → shift s ≡ shift t → s ≡ t
unfolding shift
shift_apart [] [] e = refl
shift_apart [] (d ∷ t) e = cc
shift_apart (c ∷ s) [] e = cc
shift_apart (c ∷ s) (d ∷ t) e =
    ap (λ n. n ∷ s) (omega (arith, heads e)) ∙ ap (λ l. d ∷ l) (shift_apart s t (tails e))
  where
    heads : (c + 200) ∷ shift s ≡ (d + 200) ∷ shift t → c + 200 ≡ d + 200
    heads q = cc

    tails : (c + 200) ∷ shift s ≡ (d + 200) ∷ shift t → shift s ≡ shift t
    tails q = cc

abbrev pub dark_node : Node
dark_node = record { ip = codes "10.0.0.1"; port = pos 8001; node_status = online }

abbrev pub lit_node : Node
lit_node = record { ip = codes "10.0.0.2"; port = pos 8001; node_status = online }

abbrev pub both : List Node
both = dark_node ∷ lit_node ∷ []

abbrev pub good_link : Link
good_link = record {
  created = true;
  answered = true;
  accepted = true;
  outcome = λ n. true;
  closed = true;
  opened = true;
}

abbrev pub is_lit : Text → Bool
is_lit node = not (text_eq node (to_string dark_node))

abbrev pub links : Text → Link
links node = record good_link { answered = is_lit node }

pub good_link-Works : Works good_link
good_link-Works = record {
  created = refl;
  answered = refl;
  accepted = refl;
  written = λ n. refl;
  closed = refl;
  opened = refl;
}

pub links-Works : (node : Text) → is_lit node ≡ true → Works (links node)
links-Works node e = record {
  created = refl;
  answered = e;
  accepted = refl;
  written = λ n. refl;
  closed = refl;
  opened = refl;
}

pub links-IsRefused : (node : Text) → is_lit node ≡ false → IsRefused (links node)
links-IsRefused node e = rw e refl

abbrev pub two_nodes : Cluster Disks
two_nodes =
    datanodes shift (codes "/data") shift-IsHash shift_apart links is_lit links-Works
      links-IsRefused (λ node. good_link) (λ node. good_link-Works)

dark_node-IsAddress : IsAddress dark_node
dark_node-IsAddress = record {
  plain = record { no_colon = refl; no_comma = refl; port = omega arith };
  no_bar = refl;
}

lit_node-IsAddress : IsAddress lit_node
lit_node-IsAddress = record {
  plain = record { no_colon = refl; no_comma = refl; port = omega arith };
  no_bar = refl;
}

pub two_nodes-IsNodes : IsNodes two_nodes both
unfolding text_eq to_string datanodes
two_nodes-IsNodes = record {
  addresses = (dark_node-IsAddress, (lit_node-IsAddress, tt));
  index = 1;
  inside = omega arith;
  node = to_string lit_node;
  at_index = refl;
  is_up = refl;
}

abbrev pub content : Text
content = codes "data"

abbrev pub twice : StorageType
twice = re 2 64

-- The blocks of the content, each of 64 MB, in two copies.
pub content_blocks : (vec : List Text) × (split_all_block (get_block_size twice) content ≡ ok vec)
unfolding get_block_size
content_blocks =
    let (vec, split, is) = split_all_block-IsSplit (get_block_size twice) content (omega arith) in
    (vec, split)

pub copied : List Text → List (List Text)
copied [] = []
copied (block ∷ blocks) = replicate 2 block ∷ copied blocks

encode_all-copied : (blocks : List Text) → encode_all copy_code twice blocks ≡ ok (copied blocks)
unfolding encode_all encode copied
encode_all-copied [] = refl
encode_all-copied (block ∷ blocks) = rw (encode_all-copied blocks) refl

pub content_encoded : encode_content copy_code twice content ≡ ok (copied content_blocks.0)
unfolding encode_content
content_encoded = rw content_blocks.1 (encode_all-copied content_blocks.0)

abbrev inode_of_content : Inode
inode_of_content = record new_inode {
  fullpath = codes "/f";
  filesize = 4;
  storage_type_ptr = some twice;
}

pub no_disks : Disks
no_disks node path = none

pub six_rounds : enough_rounds twice both ≤ 6
unfolding enough_rounds get_blocks
six_rounds = omega arith

get-datanode_put_example :
    (sub : List Text) × (w' : Disks) × (datanode_put two_nodes.put_to_datanode 6 twice
        (map to_string both)
        (copied content_blocks.0)
        no_disks
      ≡ some (ok (sub, w')))
    × (get copy_code (two_nodes.get_from_datanode w') (record inode_of_content { sub = sub })
        ≡ ok content)
unfolding get_decode_blocks get_blocks get_block_size
get-datanode_put_example =
    get-datanode_put two_nodes twice both two_nodes-IsNodes copy_code 6 (omega arith) (omega arith)
      six_rounds content (copied content_blocks.0) inode_of_content no_disks (omega arith)
      content_encoded refl refl refl
