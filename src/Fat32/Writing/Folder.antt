-- ===== src/Fat32/Writing/Folder.antt =====
-- src/fat32.c: the folder loop of write.
use if2230_2023_ntaraja.Prelude.{
  true, false, sym, ℕ, zero, suc, ◌+◌, ◌-◌, ◌==◌, ◌≡◌, ◌<◌, ◌∙◌, ◌/◌, ◌%◌, ◌^◌, refl, inl, inr,
  List, length, get_or, set, some, pos, arith, set?-eq-set, get_elem?-eq-get_or, Bool-cases, All,
  All-replicate,
}
use if2230_2023_ntaraja.Disk.{BlockDevice, write_clusters}
use if2230_2023_ntaraja.Fat32.{
  attr_subdirectory, fat_empty_entry, fat_end_of_file, zero_entry, DateTime, DirectoryEntry,
  Request, State,
}
use if2230_2023_ntaraja.Fat32.Layout.{encode_dir}
use if2230_2023_ntaraja.Fat32.Layout.RoundTrip.{IsEntry}
use if2230_2023_ntaraja.Fat32.Volume.{flush, init_directory_entry, zero_dir}
use if2230_2023_ntaraja.Fat32.Directory.{add_directory_entry, find_empty_entry}
use if2230_2023_ntaraja.Fat32.Writing.{make_folder}
use if2230_2023_ntaraja.Fat32.Writing.Entry.{IsRequest, init_directory_entry-IsEntry}
use if2230_2023_ntaraja.Fat32.Writing.Free.{entry_of, free_count, free_count_miss, IsFirstFree}

-- The entry of a folder over the one that stood in its slot
abbrev pub folder_entry : Request → ℕ → DirectoryEntry → DirectoryEntry
folder_entry r cluster old = record old {
  name = r.name;
  ext = r.ext;
  user_attribute = 0;
  attribute = attr_subdirectory;
  cluster_high = cluster / 2 ^ 16 % 2 ^ 16;
  cluster_low = cluster % 2 ^ 16;
  filesize = 0;
}

pub folder_entry-IsEntry :
    (r : Request) (cluster : ℕ) (old : DirectoryEntry)
    → IsRequest r
    → IsEntry old
    → IsEntry (folder_entry r cluster old)
folder_entry-IsEntry r cluster old v is = record {
  name_length = v.name_length;
  name_bytes = v.name_bytes;
  ext_length = v.ext_length;
  ext_bytes = v.ext_bytes;
  attribute = omega arith;
  user_attribute = omega arith;
  undelete = is.undelete;
  create_time = is.create_time;
  create_date = is.create_date;
  access_date = is.access_date;
  cluster_high = omega arith;
  modified_time = is.modified_time;
  modified_date = is.modified_date;
  cluster_low = omega arith;
  filesize = omega arith;
}

pub zero_entry-IsEntry : IsEntry zero_entry
zero_entry-IsEntry = record {
  name_length = refl;
  name_bytes = omega arith;
  ext_length = refl;
  ext_bytes = omega arith;
  attribute = omega arith;
  user_attribute = omega arith;
  undelete = omega arith;
  create_time = omega arith;
  create_date = omega arith;
  access_date = omega arith;
  cluster_high = omega arith;
  modified_time = omega arith;
  modified_date = omega arith;
  cluster_low = omega arith;
  filesize = omega arith;
}

-- The table of a new folder
abbrev pub folder_table : DateTime → Request → ℕ → List DirectoryEntry
folder_table now r cluster = set zero_dir 0 (init_directory_entry now r.name cluster)

pub folder_table-IsEntry :
    (now : DateTime) (r : Request) (cluster : ℕ)
    → IsRequest r
    → All IsEntry (folder_table now r cluster)
folder_table-IsEntry now r cluster v = (
  init_directory_entry-IsEntry now r.name cluster v.name_length v.name_bytes,
  All-replicate IsEntry 63 zero_entry zero_entry-IsEntry,
)

pub add_directory_entry-eq :
    (r : Request) (cluster slot : ℕ) (dir : List DirectoryEntry)
    → r.buffer_size ≡ 0
    → find_empty_entry dir ≡ pos slot
    → slot < 64
    → slot < length dir
    → add_directory_entry r cluster dir
      ≡ some (set dir slot (folder_entry r cluster (get_or dir slot zero_entry)))
unfolding add_directory_entry
add_directory_entry-eq r cluster slot dir none_given found small inside =
    let index : slot % 2 ^ 32 ≡ slot = omega arith in
    rw (
      found,
      index,
      get_elem?-eq-get_or dir slot zero_entry inside,
      none_given,
      set?-eq-set dir slot _ inside,
    )

module _ {Disk : Type 0} ⦃device : BlockDevice Disk⦄ where
  make_folder_hit :
      (now : DateTime) (r : Request) (left usable : ℕ) (s : State Disk)
      → usable < length s.fat_table
      → (entry_of s.fat_table usable == fat_empty_entry) ≡ true
      → make_folder now r (suc left) usable s ≡ make_folder now r 1 usable s
  unfolding make_folder
  make_folder_hit now r left usable s lt hit =
      rw (get_elem?-eq-get_or s.fat_table usable 0 lt, hit) refl

  make_folder_miss :
      (now : DateTime) (r : Request) (left usable : ℕ) (s : State Disk)
      → usable < length s.fat_table
      → (entry_of s.fat_table usable == fat_empty_entry) ≡ false
      → make_folder now r (suc left) usable s ≡ make_folder now r left (usable + 1) s
  unfolding make_folder
  make_folder_miss now r left usable s lt miss =
      rw (get_elem?-eq-get_or s.fat_table usable 0 lt, miss) refl

  -- The loop takes the first free cluster.
  pub make_folder-first :
      (now : DateTime) (r : Request) (left usable : ℕ) (s : State Disk)
      → usable + left ≡ length s.fat_table
      → 0 < free_count s.fat_table usable left
      → (first : ℕ) × (make_folder now r left usable s ≡ make_folder now r 1 first s)
        × IsFirstFree s.fat_table usable left first
  make_folder-first now r zero usable s e room = absurd (unfold free_count in omega arith)
  make_folder-first now r (suc left) usable s e room =
      elim (Bool-cases (entry_of s.fat_table usable == fat_empty_entry)) [
        | inl hit ↦
            let k_left : length s.fat_table - usable ≡ suc left = omega arith in
            (
              usable,
              make_folder_hit now r left usable s (omega arith) hit,
              record {
                after = omega arith;
                inside = omega arith;
                free = ground arith;
                count = rw k_left refl;
              },
            )
        | inr miss ↦
            let fewer = free_count_miss s.fat_table usable left miss in
            let (first, run, is) =
              make_folder-first now r left (usable + 1) s (omega arith) (omega arith) in
            (
              first,
              make_folder_miss now r left usable s (omega arith) miss ∙ run,
              record {
                after = omega (arith, is.after);
                inside = is.inside;
                free = is.free;
                count = is.count ∙ sym fewer;
              },
            )
      ]

  -- What the loop leaves
  abbrev pub with_folder : DateTime → Request → ℕ → List DirectoryEntry → State Disk → State Disk
  with_folder now r first dir s =
      let s₁ =
        flush r.parent_cluster_number
          (record s { fat_table = set s.fat_table first fat_end_of_file; dir_table = dir }) in
      let buf = encode_dir (folder_table now r first) in
      record s₁ { disk = write_clusters s₁.disk buf first 1; cluster_buf = buf }

  pub make_folder_lem :
      (now : DateTime) (r : Request) (first : ℕ) (dir : List DirectoryEntry) (s : State Disk)
      → first < length s.fat_table
      → entry_of s.fat_table first ≡ fat_empty_entry
      → add_directory_entry r first s.dir_table ≡ some dir
      → make_folder now r 1 first s ≡ some (pos 0, with_folder now r first dir s)
  unfolding make_folder
  make_folder_lem now r first dir s lt free added = rw (
    get_elem?-eq-get_or s.fat_table first 0 lt,
    free,
    set?-eq-set s.fat_table first fat_end_of_file lt,
    added,
  )
