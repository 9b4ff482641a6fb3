-- ===== src/Fat32/Deletion.antt =====
-- src/fat32.c: delete. `none` stands for an access past the end of an array, which C leaves
-- undefined, or for a chain that never ends.
pub mod Refusal
use if2230_2023_ntaraja.Prelude.{
  ℕ, zero, suc, ◌+◌, ◌-◌, ◌==◌, List, Option, none, some, get_elem?, set, set?, ℤ, pos, negsuc,
  if◌then◌else◌,
}
use if2230_2023_ntaraja.Prelude.Opt.{◌>>=◌}
use if2230_2023_ntaraja.Disk.{BlockDevice, read_clusters}
use if2230_2023_ntaraja.Fat32.{
  fat_end_of_file, fat_empty_entry, uattr_not_empty, cluster_map_size, DirectoryEntry, State,
  Request, zero_entry, entry_cluster,
}
use if2230_2023_ntaraja.Fat32.Layout.{decode_dir}
use if2230_2023_ntaraja.Fat32.Volume.{flush}
use if2230_2023_ntaraja.Fat32.Directory.{has_name, has_name_ext, index_of}

-- `do { next = map[c]; map[c] = EMPTY; c = next; } while (map[c] != EOF)`
pub free_chain : ℕ → ℕ → List ℕ → Option (List ℕ)
free_chain zero cluster fat = none
free_chain (suc fuel) cluster fat = do
  next ← get_elem? fat cluster
  fat' ← set? fat cluster fat_empty_entry
  after ← get_elem? fat' next
  let rest = free_chain fuel next fat'
  if after == fat_end_of_file then some fat' else rest

module _ {Disk : Type 0} ⦃device : BlockDevice Disk⦄ where
  -- read_clusters straight into the directory table
  unfoldable pub load_dir : ℕ → State Disk → State Disk
  load_dir cluster s = record s { dir_table = decode_dir 64 (read_clusters s.disk cluster 1) }

  -- The match by name in a cluster that ends a chain
  unfoldable pub remove_folder : ℕ → ℕ → DirectoryEntry → State Disk → Option (ℤ × State Disk)
  remove_folder cluster i e s = if e.user_attribute == uattr_not_empty then some (pos 2, s) else do
    fat ← set? s.fat_table (entry_cluster e) fat_empty_entry
    let dir = set s.dir_table i zero_entry
    some (pos 0, flush cluster (record s { fat_table = fat; dir_table = dir }))

  -- The match by name and extension in the parent, met at a cluster inside a chain
  unfoldable pub remove_file : ℕ → ℕ → DirectoryEntry → State Disk → Option (ℤ × State Disk)
  remove_file cluster i e s = do
    fat ← free_chain (cluster_map_size + 1) (entry_cluster e) s.fat_table
    let dir = set s.dir_table i zero_entry
    some (pos 0, flush cluster (record s { fat_table = fat; dir_table = dir }))

  unfoldable pub delete_loop : Request → ℕ → ℕ → State Disk → Option (ℤ × State Disk)
  delete_loop r zero cluster s = some (pos 1, s)
  delete_loop r (suc left) cluster s = do
    v ← get_elem? s.fat_table cluster
    let here = load_dir cluster s
    let parent = load_dir r.parent_cluster_number s
    let past_here = delete_loop r left (cluster + 1) here
    let past_parent = delete_loop r left (cluster + 1) parent
    let past = delete_loop r left (cluster + 1) s
    if v == fat_end_of_file
        then elim (index_of (has_name r.name) 0 here.dir_table) [
          | negsuc _ ↦ past_here
          | pos i ↦ do e ← get_elem? here.dir_table i; remove_folder cluster i e here
        ]
        else if v == fat_empty_entry
        then past
        else elim (index_of (has_name_ext r.name r.ext) 0 parent.dir_table) [
          | negsuc _ ↦ past_parent
          | pos i ↦ do e ← get_elem? parent.dir_table i; remove_file cluster i e parent
        ]

  unfoldable pub delete : Request → State Disk → Option (ℤ × State Disk)
  delete r s = delete_loop r (cluster_map_size - r.parent_cluster_number) r.parent_cluster_number s
