-- ===== src/Fat32/NoCmos/Deletion.antt =====
-- src/fat32-no-cmos.c: delete.
use if2230_2023_ntaraja.Prelude.{
  ℕ, zero, suc, ◌+◌, ◌-◌, ◌==◌, Option, some, get_elem?, set, set?, ℤ, pos, negsuc, if◌then◌else◌,
}
use if2230_2023_ntaraja.Prelude.Opt.{◌>>=◌}
use if2230_2023_ntaraja.Disk.{BlockDevice}
use if2230_2023_ntaraja.Fat32.{
  fat_end_of_file, fat_empty_entry, uattr_not_empty, cluster_map_size, DirectoryEntry, State,
  Request, zero_entry, entry_cluster,
}
use if2230_2023_ntaraja.Fat32.Directory.{has_name, has_name_ext, index_of}
use if2230_2023_ntaraja.Fat32.Deletion.{free_chain, load_dir}
use if2230_2023_ntaraja.Fat32.NoCmos.{flush}

module _ {Disk : Type 0} ⦃device : BlockDevice Disk⦄ where
  -- The match by name in a cluster that ends a chain
  unfoldable pub remove_folder : ℕ → ℕ → DirectoryEntry → State Disk → Option (ℤ × State Disk)
  remove_folder cluster i e s = if e.user_attribute == uattr_not_empty then some (pos 2, s) else do
    fat ← set? s.fat_table (entry_cluster e) fat_empty_entry
    let dir = set s.dir_table i zero_entry
    some (pos 0, flush cluster (record s { fat_table = fat; dir_table = dir }))

  -- The match by name and extension in the parent, met at a cluster inside a chain
  unfoldable pub remove_file : ℕ → ℕ → DirectoryEntry → State Disk → Option (ℤ × State Disk)
  remove_file cluster i e s = do
    fat ← free_chain (cluster_map_size + 1) (entry_cluster e) s.fat_table
    let dir = set s.dir_table i zero_entry
    some (pos 0, flush cluster (record s { fat_table = fat; dir_table = dir }))

  unfoldable pub delete_loop : Request → ℕ → ℕ → State Disk → Option (ℤ × State Disk)
  delete_loop r zero cluster s = some (pos 1, s)
  delete_loop r (suc left) cluster s = do
    v ← get_elem? s.fat_table cluster
    let here = load_dir cluster s
    let parent = load_dir r.parent_cluster_number s
    let past_here = delete_loop r left (cluster + 1) here
    let past_parent = delete_loop r left (cluster + 1) parent
    let past = delete_loop r left (cluster + 1) s
    if v == fat_end_of_file
        then elim (index_of (has_name r.name) 0 here.dir_table) [
          | negsuc _ ↦ past_here
          | pos i ↦ do e ← get_elem? here.dir_table i; remove_folder cluster i e here
        ]
        else if v == fat_empty_entry
        then past
        else elim (index_of (has_name_ext r.name r.ext) 0 parent.dir_table) [
          | negsuc _ ↦ past_parent
          | pos i ↦ do e ← get_elem? parent.dir_table i; remove_file cluster i e parent
        ]

  unfoldable pub delete : Request → State Disk → Option (ℤ × State Disk)
  delete r s = delete_loop r (cluster_map_size - r.parent_cluster_number) r.parent_cluster_number s
