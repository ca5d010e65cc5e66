-- ===== src/Tests/Reads.antt =====
-- A file of two blocks of four bytes, of which the first is kept locally.
use thesis_dfs.Sdk.Cache.Removed.{update_inode-is_kept, is_kept}
use thesis_dfs.Sdk.Writes.Pieces.{append_all, write_data-append_all}
use thesis_dfs.Sdk.Writes.{load_ends, write_data}
use thesis_dfs.Sdk.Cache.{Client, cached, update_inode}
use thesis_dfs.Inode.{Inode, new_inode}
use thesis_dfs.Prelude.{
  text_eq, false, if◌then◌else◌, ℕ, Text, codes, ◌≡◌, refl, List, [], ◌∷◌, ◌==◌, if◌then◌else◌,
  take, drop, some, none, arith, length, get_elem?, zero, suc,
}
use thesis_dfs.Result.{Result, ok}
use thesis_dfs.DataRetrive.Blocks.{concat}
use thesis_dfs.Sdk.Ranges.{
  Files, read_data, local_block, get_indexs, to_int, align_index_down, align_index_up, read_indexs,
}
use thesis_dfs.Sdk.Ranges.Window.{AreLocal}
use thesis_dfs.Sdk.Ranges.Read.{read_data-part}

abbrev block_of : Text → Result Text
block_of location = if length location == 1 then ok (codes "abcd") else ok (codes "efgh")

abbrev places : List Text
places = codes "1" ∷ codes "22" ∷ []

abbrev blocks : List Text
blocks = codes "abcd" ∷ codes "efgh" ∷ []

abbrev first_kept : Files
first_kept zero = some (codes "abcd")
first_kept (suc index) = none

first_kept-AreLocal : AreLocal block_of 4 blocks first_kept
unfolding local_block
first_kept-AreLocal = record { same = same }
  where
    same :
        (i : ℕ) (content : Text)
        → local_block (first_kept i) ≡ some content
        → get_elem? blocks i ≡ some content
    same zero content e = e
    same (suc i) content e = cc

read_data-part_example :
    (files' : Files) × (read_data block_of 4 7 places 2 9 first_kept
      ≡ ok (take 9 (drop 2 (take 7 (concat blocks))), files'))
    × AreLocal block_of 4 blocks files'
unfolding concat
read_data-part_example =
    read_data-part block_of 4 (omega arith) (omega arith) places blocks 7 2 9 first_kept
      (refl, refl, (refl, refl, tt)) first_kept-AreLocal (omega arith) (omega arith)

-- The namenode has another inode of the file: the second block was written again.
abbrev old_inode : Inode
old_inode = record new_inode { fullpath = codes "/f"; sub = places }

abbrev remote_inode : Inode
remote_inode = record new_inode {
  fullpath = codes "/f";
  sub = codes "1" ∷ codes "1" ∷ codes "22" ∷ [];
}

abbrev client : Client
client = record { inodes = λ path. some old_inode; files = λ path. first_kept }

update_inode-is_kept_example :
    (c' : Client) × (update_inode (codes "/f") (ok remote_inode) client ≡ ok c')
    × (c'.inodes (codes "/f") ≡ some remote_inode)
    × ((k : ℕ)
        → c'.files (codes "/f") k ≡ (
            if is_kept
              (get_elem? (cached (client.inodes (codes "/f"))).sub k)
              (get_elem? remote_inode.sub k)
            then client.files (codes "/f") k
            else none))
    × ((p : Text)
        → text_eq p (codes "/f") ≡ false
        → (c'.inodes p ≡ client.inodes p) × (c'.files p ≡ client.files p))
update_inode-is_kept_example = update_inode-is_kept (codes "/f") remote_inode client

-- Three bytes written over the first block go behind its four.
loaded_first : load_ends block_of 4 8 places 1 3 first_kept ≡ ok first_kept
unfolding load_ends read_indexs get_indexs to_int align_index_down align_index_up local_block
loaded_first = refl

write_data-append_all_example :
    (pieces : List Text) × (write_data block_of 4 8 places 1 (codes "XYZ") first_kept
      ≡ ok (append_all 0 pieces first_kept))
    × (concat pieces ≡ codes "XYZ")
    × (length pieces ≡ 2)
write_data-append_all_example =
    write_data-append_all block_of 4 (omega arith) 8 places 1 (codes "XYZ") first_kept first_kept
      (omega arith) loaded_first
