-- ===== src/Fat32/NoCmos/Writing.antt =====
-- src/fat32-no-cmos.c: write. `stack_entry` is what the entry on its stack holds before.
use if2230_2023_ntaraja.Prelude.{
  ℕ, zero, suc, ◌+◌, ◌*◌, ◌==◌, List, Option, none, some, get_elem?, set, set?, ℤ, pos, negsuc,
  if◌then◌else◌,
}
use if2230_2023_ntaraja.Prelude.Opt.{◌>>=◌}
use if2230_2023_ntaraja.Memory.{load_bytes}
use if2230_2023_ntaraja.Disk.{cluster_size, BlockDevice, write_clusters}
use if2230_2023_ntaraja.Fat32.{
  fat_end_of_file, fat_empty_entry, attr_archive, attr_subdirectory, cluster_map_size,
  DirectoryEntry, State, Request, empty_name, zero_entry,
}
use if2230_2023_ntaraja.Fat32.Layout.{encode_dir}
use if2230_2023_ntaraja.Fat32.Volume.{read_to_dir_table, zero_dir}
use if2230_2023_ntaraja.Fat32.Directory.{
  find_empty_entry, dir_table_search, add_directory_entry, same_bytes, to_u32,
}
use if2230_2023_ntaraja.Fat32.Writing.{
  Outcome, stored, full, next_empty, link, left_after, mark_not_empty,
}
use if2230_2023_ntaraja.Fat32.NoCmos.{init_directory_entry, flush}

-- The entry of a file of `size` bytes left whose first cluster is `head`
unfoldable pub file_entry : DirectoryEntry → Request → ℕ → ℕ → DirectoryEntry
file_entry stack_entry r head size =
    let e = init_directory_entry stack_entry r.name head in
    record e { ext = r.ext; attribute = attr_archive; filesize = size }

-- The slot is filled only if its name is still empty.
unfoldable pub enter_file :
    DirectoryEntry → Request → ℕ → ℕ → ℕ → List DirectoryEntry → Option (List DirectoryEntry)
enter_file stack_entry r slot head size dir = do
  e ← get_elem? dir slot
  if same_bytes e.name empty_name 8
      then set? dir slot (file_entry stack_entry r head size)
      else some dir

module _ {Disk : Type 0} ⦃device : BlockDevice Disk⦄ where
  -- The folder loop, with the clusters left to look at. The new table is all zero before.
  unfoldable pub make_folder : Request → ℕ → ℕ → State Disk → Option (ℤ × State Disk)
  make_folder r zero usable s = none
  make_folder r (suc left) usable s = do
    v ← get_elem? s.fat_table usable
    let rest = make_folder r left (usable + 1) s
    if v == fat_empty_entry
        then (do
          fat ← set? s.fat_table usable fat_end_of_file
          let new_table = set zero_dir 0 (init_directory_entry zero_entry r.name usable)
          dir ← add_directory_entry r usable s.dir_table
          let s₁ = flush r.parent_cluster_number (record s { fat_table = fat; dir_table = dir })
          let buf = encode_dir new_table
          some (pos 0, record s₁ { disk = write_clusters s₁.disk buf usable 1; cluster_buf = buf }))
        else rest

  -- The file loop. `head` and `tail` are equal whenever it starts, `count` clusters are written
  -- and `size` bytes are left.
  unfoldable pub store_file :
      DirectoryEntry → Request → ℕ → ℕ → ℕ → ℕ → ℕ → State Disk → Option (Outcome × State Disk)
  store_file stack_entry r slot zero head count size s = none
  store_file stack_entry r slot (suc fuel) head count size s =
      if head == cluster_map_size then some (full, s) else do
        v ← get_elem? s.fat_table head
        let skip = store_file stack_entry r slot fuel (head + 1) count size s
        if v == fat_empty_entry
            then (do
              dir ← enter_file stack_entry r slot head size s.dir_table
              let disk =
                  write_clusters s.disk (load_bytes r.buf (count * cluster_size) cluster_size) head
                    1
              next ← next_empty cluster_map_size s.fat_table (head + 1)
              fat ← link head next (left_after size) s.fat_table
              let s' = record s { disk = disk; dir_table = dir; fat_table = fat }
              let rest = store_file stack_entry r slot fuel next (count + 1) (left_after size) s'
              if left_after size == 0 then some (stored, s') else rest)
            else skip

  -- After the checks: a folder, or a file whose directory is marked and flushed at the end
  unfoldable pub write_file : DirectoryEntry → Request → ℕ → State Disk → Option (ℤ × State Disk)
  write_file stack_entry r slot s = do
    (outcome, s') ← store_file stack_entry r slot cluster_map_size 3 0 r.buffer_size s
    elim outcome [
      | full ↦ some (negsuc 0, s')
      | stored ↦ some (
        pos 0,
        flush r.parent_cluster_number
            (record s' { dir_table = mark_not_empty r.parent_cluster_number s'.dir_table }),
      )
    ]

  unfoldable pub write_entry : DirectoryEntry → Request → ℕ → State Disk → Option (ℤ × State Disk)
  write_entry stack_entry r slot s =
      if r.buffer_size == 0 then make_folder r 509 3 s else write_file stack_entry r slot s

  unfoldable pub write : DirectoryEntry → Request → State Disk → Option (ℤ × State Disk)
  write stack_entry r s₀ = if same_bytes r.name empty_name 8 then some (negsuc 0, s₀) else do
    let s = read_to_dir_table r.parent_cluster_number s₀
    let slot = to_u32 (find_empty_entry s.dir_table)
    e ← get_elem? s.dir_table slot
    if e.attribute == attr_subdirectory
        then some (pos 2, s)
        else elim (dir_table_search r.name r.ext s.dir_table) [
          | pos _ ↦ some (pos 1, s)
          | negsuc _ ↦ write_entry stack_entry r slot s
        ]
