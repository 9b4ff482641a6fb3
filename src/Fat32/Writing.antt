-- ===== src/Fat32/Writing.antt =====
-- src/fat32.c: write, which makes a folder when `buffer_size` is 0 and a file otherwise.
-- `none` stands for an access past the end of an array, which C leaves undefined.
pub mod Free
pub mod Store
pub mod Loop
pub mod Chain
pub mod Total
pub mod Entry
pub mod Full
pub mod Folder
use if2230_2023_ntaraja.Prelude.{
  ℕ, zero, suc, ◌+◌, ◌-◌, ◌*◌, ◌==◌, ltb, Bool, true, false, List, [], ◌∷◌, Option, none, some,
  get_elem?, set, set?, ℤ, pos, negsuc, if◌then◌else◌,
}
use if2230_2023_ntaraja.Prelude.Opt.{◌>>=◌}
use if2230_2023_ntaraja.Memory.{Mem, load_bytes}
use if2230_2023_ntaraja.Disk.{cluster_size, BlockDevice, write_clusters}
use if2230_2023_ntaraja.Fat32.{
  fat_end_of_file, fat_empty_entry, attr_archive, attr_subdirectory, uattr_not_empty,
  cluster_map_size, DateTime, DirectoryEntry, State, Request, empty_name, entry_cluster,
}
use if2230_2023_ntaraja.Fat32.Layout.{encode_dir}
use if2230_2023_ntaraja.Fat32.Volume.{read_to_dir_table, flush, init_directory_entry, zero_dir}
use if2230_2023_ntaraja.Fat32.Directory.{
  has_name, find_empty_entry, dir_table_search, add_directory_entry, same_bytes, to_u32,
}

-- `do head++ while (cluster_map[head] != EMPTY)`, with `head` already advanced: the search ends
-- at the first free cluster, and runs past the table where there is none.
pub next_empty : ℕ → List ℕ → ℕ → Option ℕ
next_empty zero fat head = none
next_empty (suc fuel) fat head = do
  v ← get_elem? fat head
  let rest = next_empty fuel fat (head + 1)
  if v == fat_empty_entry then some head else rest

-- The mark that the directory is not empty, on the first entry that names the cluster
unfoldable pub mark_not_empty : ℕ → List DirectoryEntry → List DirectoryEntry
mark_not_empty cluster [] = []
mark_not_empty cluster (e ∷ es) =
    if entry_cluster e == cluster
    then record e { user_attribute = uattr_not_empty } ∷ es
    else e ∷ mark_not_empty cluster es

-- The entry of a file of `size` bytes left whose first cluster is `head`
unfoldable pub file_entry : DateTime → Request → ℕ → ℕ → DirectoryEntry
file_entry now r head size =
    let e = init_directory_entry now r.name head in
    record e { ext = r.ext; attribute = attr_archive; filesize = size }

-- The slot is filled only if its name is still empty.
unfoldable pub enter_file :
    DateTime → Request → ℕ → ℕ → ℕ → List DirectoryEntry → Option (List DirectoryEntry)
enter_file now r slot head size dir = do
  e ← get_elem? dir slot
  if same_bytes e.name empty_name 8 then set? dir slot (file_entry now r head size) else some dir

-- The allocation table after cluster `tail` was filled: it points to `head`, which ends the chain
-- if nothing is left.
unfoldable pub link : ℕ → ℕ → ℕ → List ℕ → Option (List ℕ)
link tail head left fat = do
  fat' ← set? fat tail head
  if left == 0 then set? fat' head fat_end_of_file else some fat'

-- `buffer_size < CLUSTER_SIZE ? 0 : buffer_size - CLUSTER_SIZE`
abbrev pub left_after : ℕ → ℕ
left_after size = if ltb size cluster_size then 0 else size - cluster_size

-- Why the file loop of write ended
pub data Outcome : Type 0 where
  stored full : Outcome

module _ {Disk : Type 0} ⦃device : BlockDevice Disk⦄ where
  -- The folder loop, with the clusters left to look at.
  unfoldable pub make_folder : DateTime → Request → ℕ → ℕ → State Disk → Option (ℤ × State Disk)
  make_folder now r zero usable s = none
  make_folder now r (suc left) usable s = do
    v ← get_elem? s.fat_table usable
    let rest = make_folder now r left (usable + 1) s
    if v == fat_empty_entry
        then (do
          fat ← set? s.fat_table usable fat_end_of_file
          let new_table = set zero_dir 0 (init_directory_entry now r.name usable)
          dir ← add_directory_entry r usable s.dir_table
          let s₁ = flush r.parent_cluster_number (record s { fat_table = fat; dir_table = dir })
          let buf = encode_dir new_table
          some (pos 0, record s₁ { disk = write_clusters s₁.disk buf usable 1; cluster_buf = buf }))
        else rest

  -- The file loop. `head` and `tail` are equal whenever it starts, `count` clusters are written
  -- and `size` bytes are left.
  unfoldable pub store_file :
      DateTime → Request → ℕ → ℕ → ℕ → ℕ → ℕ → State Disk → Option (Outcome × State Disk)
  store_file now r slot zero head count size s = none
  store_file now r slot (suc fuel) head count size s =
      if head == cluster_map_size then some (full, s) else do
        v ← get_elem? s.fat_table head
        let skip = store_file now r slot fuel (head + 1) count size s
        if v == fat_empty_entry
            then (do
              dir ← enter_file now r slot head size s.dir_table
              let disk =
                  write_clusters s.disk (load_bytes r.buf (count * cluster_size) cluster_size) head
                    1
              next ← next_empty cluster_map_size s.fat_table (head + 1)
              fat ← link head next (left_after size) s.fat_table
              let s' = record s { disk = disk; dir_table = dir; fat_table = fat }
              let rest = store_file now r slot fuel next (count + 1) (left_after size) s'
              if left_after size == 0 then some (stored, s') else rest)
            else skip

  -- After the checks: a folder, or a file whose directory is marked and flushed at the end
  unfoldable pub write_file : DateTime → Request → ℕ → State Disk → Option (ℤ × State Disk)
  write_file now r slot s = do
    (outcome, s') ← store_file now r slot cluster_map_size 3 0 r.buffer_size s
    elim outcome [
      | full ↦ some (negsuc 0, s')
      | stored ↦ some (
        pos 0,
        flush r.parent_cluster_number
            (record s' { dir_table = mark_not_empty r.parent_cluster_number s'.dir_table }),
      )
    ]

  unfoldable pub write_entry : DateTime → Request → ℕ → State Disk → Option (ℤ × State Disk)
  write_entry now r slot s =
      if r.buffer_size == 0 then make_folder now r 509 3 s else write_file now r slot s

  unfoldable pub write : DateTime → Request → State Disk → Option (ℤ × State Disk)
  write now r s₀ = if same_bytes r.name empty_name 8 then some (negsuc 0, s₀) else do
    let s = read_to_dir_table r.parent_cluster_number s₀
    let slot = to_u32 (find_empty_entry s.dir_table)
    e ← get_elem? s.dir_table slot
    if e.attribute == attr_subdirectory
        then some (pos 2, s)
        else elim (dir_table_search r.name r.ext s.dir_table) [
          | pos _ ↦ some (pos 1, s)
          | negsuc _ ↦ write_entry now r slot s
        ]
