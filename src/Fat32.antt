-- ===== src/Fat32.antt =====
-- src/fat32.c and src/lib-header/filesystem/fat32.h: the constants and structs of the file system.
-- The children hold the byte layout of its structs, the driver's operations, and their laws.
pub mod Layout
pub mod RoundTrip
pub mod Volume
pub mod Directory
pub mod Reading
pub mod Writing
pub mod Deletion
pub mod NoCmos
use if2230_2023_ntaraja.Prelude.{ℕ, ◌+◌, ◌*◌, ◌^◌, List, replicate}
use if2230_2023_ntaraja.Memory.{Mem}

abbrev pub boot_sector : ℕ
boot_sector = 0

abbrev pub cluster_map_size : ℕ
cluster_map_size = 512

abbrev pub cluster_0_value : ℕ
cluster_0_value = 0x0FFFFFF0

abbrev pub cluster_1_value : ℕ
cluster_1_value = 0x0FFFFFFF

abbrev pub fat_end_of_file : ℕ
fat_end_of_file = 0x0FFFFFFF

abbrev pub fat_empty_entry : ℕ
fat_empty_entry = 0

abbrev pub fat_cluster_number : ℕ
fat_cluster_number = 1

abbrev pub root_cluster_number : ℕ
root_cluster_number = 2

abbrev pub attr_archive : ℕ
attr_archive = 0b00100000

abbrev pub attr_subdirectory : ℕ
attr_subdirectory = 0b00010000

abbrev pub uattr_not_empty : ℕ
uattr_not_empty = 0b10101010

-- `CLUSTER_SIZE / sizeof(struct FAT32DirectoryEntry)`
abbrev pub dir_entry_count : ℕ
dir_entry_count = 64

-- What the real-time clock reports.
pub record DateTime : Type 0 where
  pub year : ℕ
  pub month : ℕ
  pub day : ℕ
  pub hour : ℕ
  pub minute : ℕ
  pub second : ℕ

-- `struct FAT32DirectoryEntry`; `name` has 8 bytes and `ext` 3.
pub record DirectoryEntry : Type 0 where
  pub name : List ℕ
  pub ext : List ℕ
  pub attribute : ℕ
  pub user_attribute : ℕ
  pub undelete : ℕ
  pub create_time : ℕ
  pub create_date : ℕ
  pub access_date : ℕ
  pub cluster_high : ℕ
  pub modified_time : ℕ
  pub modified_date : ℕ
  pub cluster_low : ℕ
  pub filesize : ℕ

-- `struct FAT32DriverState`, with the disk that the driver reads and writes
pub record State (Disk : Type 0) : Type 0 where
  pub disk : Disk
  pub fat_table : List ℕ
  pub dir_table : List DirectoryEntry
  pub cluster_buf : List ℕ

-- `struct FAT32DriverRequest`; `buf` gives the bytes at and behind the pointer.
pub record Request : Type 0 where
  pub buf : Mem
  pub name : List ℕ
  pub ext : List ℕ
  pub parent_cluster_number : ℕ
  pub buffer_size : ℕ

abbrev pub empty_name : List ℕ
empty_name = replicate 8 0

abbrev pub zero_entry : DirectoryEntry
zero_entry = record {
  name = replicate 8 0;
  ext = replicate 3 0;
  attribute = 0;
  user_attribute = 0;
  undelete = 0;
  create_time = 0;
  create_date = 0;
  access_date = 0;
  cluster_high = 0;
  modified_time = 0;
  modified_date = 0;
  cluster_low = 0;
  filesize = 0;
}

-- `cluster_high << 16 | cluster_low`: the low half fits its 16 bits, so `|` is a sum.
abbrev pub entry_cluster : DirectoryEntry → ℕ
entry_cluster e = e.cluster_high * 2 ^ 16 + e.cluster_low
