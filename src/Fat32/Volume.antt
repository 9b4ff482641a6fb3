-- ===== src/Fat32/Volume.antt =====
-- src/fat32.c: the cached tables and the disk, new directory entries, and formatting.
use if2230_2023_ntaraja.Prelude.{
  ℕ, ◌*◌, ◌/◌, ◌%◌, ◌^◌, bit_or, Bool, not, List, [], ◌∷◌, ◌++◌, replicate, byte_at, is_zero,
  if◌then◌else◌, take,
}
use if2230_2023_ntaraja.Memory.{memcmp}
use if2230_2023_ntaraja.Disk.{block_size, BlockDevice, write_clusters, read_clusters}
use if2230_2023_ntaraja.Fat32.{
  boot_sector, cluster_0_value, cluster_1_value, fat_end_of_file, fat_cluster_number,
  root_cluster_number, attr_subdirectory, uattr_not_empty, DateTime, DirectoryEntry, State,
  zero_entry,
}
use if2230_2023_ntaraja.Fat32.Layout.{encode_fat, decode_fat, encode_dir, decode_dir}

-- The rows of text in `fs_signature`
abbrev row_course : List ℕ
row_course = b'C' ∷ b'o' ∷ b'u' ∷ b'r' ∷ b's' ∷ b'e' ∷ replicate 10 b' '

abbrev row_designed : List ℕ
row_designed =
    b'D' ∷ b'e' ∷ b's' ∷ b'i' ∷ b'g' ∷ b'n' ∷ b'e' ∷ b'd' ∷ b' ' ∷ b'b' ∷ b'y' ∷ replicate 5 b' '

abbrev row_lab : List ℕ
row_lab =
    b'L'
    ∷ b'a'
    ∷ b'b'
    ∷ b' '
    ∷ b'S'
    ∷ b'i'
    ∷ b's'
    ∷ b't'
    ∷ b'e'
    ∷ b'r'
    ∷ b' '
    ∷ b'I'
    ∷ b'T'
    ∷ b'B'
    ∷ replicate 2 b' '

abbrev row_made : List ℕ
row_made =
    b'M'
    ∷ b'a'
    ∷ b'd'
    ∷ b'e'
    ∷ b' '
    ∷ b'w'
    ∷ b'i'
    ∷ b't'
    ∷ b'h'
    ∷ b' '
    ∷ b'<'
    ∷ b'3'
    ∷ replicate 4 b' '

abbrev row_2023 : List ℕ
row_2023 = replicate 11 b'-' ++ b'2' ∷ b'0' ∷ b'2' ∷ b'3' ∷ 10 ∷ []

-- `fs_signature`: the rows, zeros, and `Ok` at the end of the block
abbrev pub fs_signature : List ℕ
fs_signature =
    row_course
    ++ (row_designed
        ++ (row_lab ++ (row_made ++ (row_2023 ++ (replicate 430 0 ++ b'O' ∷ b'k' ∷ [])))))

-- A `struct ClusterBuffer` of zeros, as memset leaves it
abbrev pub zero_cluster : List ℕ
zero_cluster = replicate 2048 0

abbrev pub zero_dir : List DirectoryEntry
zero_dir = replicate 64 zero_entry

-- `"ROOT\0\0\0\0"`
abbrev pub root_name : List ℕ
root_name = b'R' ∷ b'O' ∷ b'O' ∷ b'T' ∷ 0 ∷ 0 ∷ 0 ∷ 0 ∷ []

-- `hour << 11 | minute << 5 | second >> 1`, cut to a `uint16_t`
unfoldable pub pack_time : DateTime → ℕ
pack_time t = bit_or (bit_or (t.hour * 2 ^ 11) (t.minute * 2 ^ 5)) (t.second / 2) % 2 ^ 16

-- `year << 9 | month << 5 | day`, cut to a `uint16_t`
unfoldable pub pack_date : DateTime → ℕ
pack_date t = bit_or (bit_or (t.year * 2 ^ 9) (t.month * 2 ^ 5)) t.day % 2 ^ 16

-- All fields are set: `entry` holds nothing of what stood there. The time is what init_rtc reads.
unfoldable pub init_directory_entry : DateTime → List ℕ → ℕ → DirectoryEntry
init_directory_entry now name cluster = record {
  name = name;
  ext = 0 ∷ 0 ∷ 0 ∷ [];
  attribute = attr_subdirectory;
  user_attribute = 0;
  undelete = 0;
  create_time = pack_time now;
  create_date = pack_date now;
  access_date = pack_date now;
  cluster_high = cluster / 2 ^ 16 % 2 ^ 16;
  modified_time = pack_time now;
  modified_date = pack_date now;
  cluster_low = cluster % 2 ^ 16;
  filesize = 0;
}

-- The table's first entry is the directory itself.
unfoldable pub init_directory_table :
    DateTime → List DirectoryEntry → List ℕ → ℕ → List DirectoryEntry
init_directory_table now [] name parent = []
init_directory_table now (e ∷ es) name parent =
    let self = init_directory_entry now name parent in
    record self { user_attribute = uattr_not_empty } ∷ es

-- The table that create_fat32 gives the driver
abbrev pub fresh_fat : List ℕ
fresh_fat = cluster_0_value ∷ cluster_1_value ∷ fat_end_of_file ∷ replicate 509 0

module _ {Disk : Type 0} ⦃device : BlockDevice Disk⦄ where
  unfoldable pub read_to_fat_table : ℕ → State Disk → State Disk
  read_to_fat_table cluster s =
      let buf = read_clusters s.disk cluster 1 in
      record s { fat_table = decode_fat 512 buf; cluster_buf = zero_cluster }

  unfoldable pub read_to_dir_table : ℕ → State Disk → State Disk
  read_to_dir_table cluster s =
      let buf = read_clusters s.disk cluster 1 in
      record s { dir_table = decode_dir 64 buf; cluster_buf = zero_cluster }

  -- The allocation table goes to its cluster, then the directory table to `dir_cluster`.
  unfoldable pub flush : ℕ → State Disk → State Disk
  flush dir_cluster s =
      let disk₁ = write_clusters s.disk (encode_fat s.fat_table) fat_cluster_number 1 in
      let buf = encode_dir s.dir_table in
      record s { disk = write_clusters disk₁ buf dir_cluster 1; cluster_buf = buf }

  -- The result says whether the signature is missing; the cluster buffer keeps what was read.
  unfoldable pub is_empty_storage : State Disk → Bool × State Disk
  is_empty_storage s =
      let buf = read_clusters s.disk boot_sector 1 in
      let boot = take 512 buf in
      (
        not (is_zero (memcmp (byte_at boot) (byte_at fs_signature) block_size)),
        record s { cluster_buf = buf },
      )

  -- `pointer_area` is what lies at the address of the variable `fat_table`, a pointer: memcpy is
  -- given `&fat_table`, not the table.
  unfoldable pub create_fat32 : DateTime → List ℕ → State Disk → State Disk
  create_fat32 now pointer_area s =
      let disk₁ = write_clusters s.disk (fs_signature ++ replicate 1536 0) boot_sector 1 in
      let root_dir = init_directory_table now zero_dir root_name root_cluster_number in
      let disk₂ = write_clusters disk₁ pointer_area fat_cluster_number 1 in
      let disk₃ = write_clusters disk₂ (encode_dir root_dir) root_cluster_number 1 in
      record s { disk = disk₃; fat_table = fresh_fat }

  unfoldable pub initialize_filesystem_fat32 : DateTime → List ℕ → State Disk → State Disk
  initialize_filesystem_fat32 now pointer_area s =
      let (missing, s') = is_empty_storage s in
      if missing then create_fat32 now pointer_area s' else read_to_fat_table fat_cluster_number s'
