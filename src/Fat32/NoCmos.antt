-- ===== src/Fat32/NoCmos.antt =====
-- src/fat32-no-cmos.c: the file system as the inserter links it, without the clock. What it shares with
-- src/fat32.c, line for line, is used from there: the searches, read, the loading of tables and the loops'
-- parts. A new entry keeps the times of the memory that it is made in.
pub mod Writing
pub mod Deletion
pub mod Same
pub mod Start
use if2230_2023_ntaraja.Prelude.{
  ℕ, ◌/◌, ◌%◌, ◌^◌, ◌==◌, ◌&&◌, not, List, [], ◌∷◌, ◌++◌, replicate, Option, some, get_elem?, pos,
  negsuc, if◌then◌else◌,
}
use if2230_2023_ntaraja.Prelude.Opt.{◌>>=◌}
use if2230_2023_ntaraja.Disk.{BlockDevice, write_clusters}
use if2230_2023_ntaraja.Fat32.{
  DirectoryEntry, State, Request, attr_subdirectory, uattr_not_empty, boot_sector,
  fat_cluster_number, root_cluster_number, entry_cluster,
}
use if2230_2023_ntaraja.Fat32.Layout.{encode_fat, encode_dir}
use if2230_2023_ntaraja.Fat32.Volume.{
  fs_signature, fresh_fat, root_name, zero_dir, is_empty_storage, read_to_fat_table,
  read_to_dir_table,
}
use if2230_2023_ntaraja.Fat32.Directory.{dir_table_search}
use if2230_2023_ntaraja.Fat32.Reading.{Reply, fails}

-- The five times of `e` are kept.
unfoldable pub init_directory_entry : DirectoryEntry → List ℕ → ℕ → DirectoryEntry
init_directory_entry e name cluster = record e {
  name = name;
  ext = 0 ∷ 0 ∷ 0 ∷ [];
  attribute = attr_subdirectory;
  user_attribute = 0;
  undelete = 0;
  cluster_high = cluster / 2 ^ 16 % 2 ^ 16;
  cluster_low = cluster % 2 ^ 16;
  filesize = 0;
}

unfoldable pub init_directory_table : List DirectoryEntry → List ℕ → ℕ → List DirectoryEntry
init_directory_table [] name parent = []
init_directory_table (e ∷ es) name parent =
    let self = init_directory_entry e name parent in
    record self { user_attribute = uattr_not_empty } ∷ es

module _ {Disk : Type 0} ⦃device : BlockDevice Disk⦄ where
  -- Through a buffer of its own: the driver's is left alone.
  unfoldable pub flush : ℕ → State Disk → State Disk
  flush dir_cluster s =
      let disk₁ = write_clusters s.disk (encode_fat s.fat_table) fat_cluster_number 1 in
      record s { disk = write_clusters disk₁ (encode_dir s.dir_table) dir_cluster 1 }

  -- `pointer_area` is what lies at the address of the variable `fat_table`, a pointer.
  unfoldable pub create_fat32 : List ℕ → State Disk → State Disk
  create_fat32 pointer_area s =
      let disk₁ = write_clusters s.disk (fs_signature ++ replicate 1536 0) boot_sector 1 in
      let root_dir = init_directory_table zero_dir root_name root_cluster_number in
      let disk₂ = write_clusters disk₁ pointer_area fat_cluster_number 1 in
      let disk₃ = write_clusters disk₂ (encode_dir root_dir) root_cluster_number 1 in
      record s { disk = disk₃; fat_table = fresh_fat }

  unfoldable pub initialize_filesystem_fat32 : List ℕ → State Disk → State Disk
  initialize_filesystem_fat32 pointer_area s =
      let (missing, s') = is_empty_storage s in
      if missing then create_fat32 pointer_area s' else read_to_fat_table fat_cluster_number s'

  -- What read_directory does with the entry that it found
  unfoldable pub open_directory : DirectoryEntry → State Disk → Reply × State Disk
  open_directory e s =
      if (e.attribute == attr_subdirectory) && not (e.undelete == 0xE5)
      then (let s' = read_to_dir_table (entry_cluster e) s in
          (record { code = pos 0; output = some (encode_dir s'.dir_table) }, s'))
      else if not (e.attribute == attr_subdirectory)
      then (fails (pos 1), s)
      else (fails (negsuc 0), s)

  -- The table that is searched is the one that the driver holds: the parent's is not loaded.
  unfoldable pub read_directory : Request → State Disk → Option (Reply × State Disk)
  read_directory r s = elim (dir_table_search r.name r.ext s.dir_table) [
    | negsuc _ ↦ some (fails (pos 2), s)
    | pos i ↦ do e ← get_elem? s.dir_table i; some (open_directory e s)
  ]
