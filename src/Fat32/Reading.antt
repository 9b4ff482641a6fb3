-- ===== src/Fat32/Reading.antt =====
-- src/fat32.c: read_directory and read. `none` stands for an access past the end of an array,
-- which C leaves undefined.
pub mod Chain
use if2230_2023_ntaraja.Prelude.{
  ℕ, zero, suc, ◌+◌, ◌*◌, ◌/◌, ◌%◌, ◌==◌, ltb, Bool, not, ◌&&◌, ◌||◌, List, [], ◌∷◌, ◌++◌, Option,
  none, some, get_elem?, take, drop, length, ℤ, pos, negsuc, if◌then◌else◌,
}
use if2230_2023_ntaraja.Prelude.Opt.{◌>>=◌}
use if2230_2023_ntaraja.Disk.{cluster_size, BlockDevice, read_clusters}
use if2230_2023_ntaraja.Fat32.{
  fat_end_of_file, attr_archive, attr_subdirectory, DirectoryEntry, State, Request, entry_cluster,
}
use if2230_2023_ntaraja.Fat32.Layout.{encode_dir}
use if2230_2023_ntaraja.Fat32.Volume.{read_to_dir_table}
use if2230_2023_ntaraja.Fat32.Directory.{dir_table_search}

-- What a call returns: its code, and the bytes that it leaves in `request.buf`, if it writes there.
pub record Reply : Type 0 where
  pub code : ℤ
  pub output : Option (List ℕ)

abbrev pub fails : ℤ → Reply
fails code = record { code = code; output = none }

module _ {Disk : Type 0} ⦃device : BlockDevice Disk⦄ where
  -- What read_directory does with the entry that it found
  unfoldable pub open_directory : DirectoryEntry → State Disk → Reply × State Disk
  open_directory e s =
      if (e.attribute == attr_subdirectory) && not (e.undelete == 0xE5)
      then (let s' = read_to_dir_table (entry_cluster e) s in
          (record { code = pos 0; output = some (encode_dir s'.dir_table) }, s'))
      else if not (e.attribute == attr_subdirectory)
      then (fails (pos 1), s)
      else (fails (negsuc 0), s)

  unfoldable pub read_directory : Request → State Disk → Option (Reply × State Disk)
  read_directory r s₀ =
      let s = read_to_dir_table r.parent_cluster_number s₀ in
      elim (dir_table_search r.name r.ext s.dir_table) [
        | negsuc _ ↦ some (fails (pos 2), s)
        | pos i ↦ do e ← get_elem? s.dir_table i; some (open_directory e s)
      ]

  -- The do-while loop of read: `slots` entries of `cbuf` are left. The result is what was read.
  pub read_chain : ℕ → Disk → List ℕ → ℕ → Option (List ℕ)
  read_chain zero disk fat cluster = none
  read_chain (suc slots) disk fat cluster = do
    next ← get_elem? fat cluster
    after ← get_elem? fat next
    let rest = read_chain slots disk fat next
    let bytes = read_clusters disk cluster 1
    if not (after == fat_end_of_file) && not (next == fat_end_of_file)
        then (do more ← rest; some (bytes ++ more))
        else some bytes

  -- What read does with the entry that it found. `stack` is what `cbuf` held before: the clusters
  -- replace its front.
  unfoldable pub read_file : List ℕ → Request → DirectoryEntry → State Disk → Option Reply
  read_file stack r e s =
      if not (e.attribute == attr_archive)
      then some (fails (pos 1))
      else if ltb r.buffer_size e.filesize
      then some (fails (pos 2))
      else if entry_cluster e == 0
      then some (fails (negsuc 0))
      else do
        bytes ← read_chain (r.buffer_size / cluster_size + 1) s.disk s.fat_table (entry_cluster e)
        let cbuf = bytes ++ drop (length bytes) stack
        some (record { code = pos 0; output = some (take r.buffer_size cbuf) })

  -- read once the parent's table is loaded
  unfoldable pub read_from_table : List ℕ → Request → State Disk → Option (Reply × State Disk)
  read_from_table stack r s = elim (dir_table_search r.name r.ext s.dir_table) [
    | negsuc _ ↦ some (fails (pos 3), s)
    | pos i ↦ do e ← get_elem? s.dir_table i; reply ← read_file stack r e s; some (reply, s)
  ]

  unfoldable pub read : List ℕ → Request → State Disk → Option (Reply × State Disk)
  read stack r s = read_from_table stack r (read_to_dir_table r.parent_cluster_number s)
