-- ===== src/Fat32/NoCmos/Same.antt =====
-- src/fat32-no-cmos.c and src/fat32.c: the two file systems, call by call.
pub mod Deleting
pub mod Storing
use if2230_2023_ntaraja.Fat32.Layout.{encode_dir}
use if2230_2023_ntaraja.Prelude.{
  if◌then◌else◌, subst, Bool-cases, ==→eq, ◌∷◌, ap, ◌^◌, [], ◌/◌, ◌%◌, ℕ, zero, suc, ◌+◌, ◌-◌, ◌==◌,
  ◌≡◌, refl, sym, ◌∙◌, inl, inr, List, Option, none, some, get_elem?, set?, set, ℤ, pos, negsuc,
  ℤ-cases,
}
use if2230_2023_ntaraja.Prelude.Opt.{Agree-eq, ◌>>=◌, Agree, Agree-refl, Agree-bind, Agree-if}
use if2230_2023_ntaraja.Disk.{write_clusters, BlockDevice}
use if2230_2023_ntaraja.Fat32.{
  empty_name, fat_end_of_file, zero_entry, fat_empty_entry, attr_subdirectory, attr_archive, State,
  Request, DateTime, DirectoryEntry, cluster_map_size,
}
use if2230_2023_ntaraja.Fat32.Volume.{read_to_dir_table, pack_time, pack_date}
use if2230_2023_ntaraja.Fat32.Directory.{
  add_directory_entry, same_bytes, find_empty_entry, dir_table_search, index_of, has_name,
  has_name_ext, to_u32,
}
use if2230_2023_ntaraja.Fat32.Deletion.{load_dir}
use if2230_2023_ntaraja.Fat32.Writing.{
  left_after, link, next_empty, mark_not_empty, Outcome, stored, full,
}
use if2230_2023_ntaraja.Fat32.Volume.{
  init_directory_entry as clocked_init_directory_entry, flush as clocked_flush,
}
use if2230_2023_ntaraja.Fat32.Writing.{
  file_entry as clocked_file_entry, enter_file as clocked_enter_file,
  make_folder as clocked_make_folder, store_file as clocked_store_file,
  write_file as clocked_write_file, write_entry as clocked_write_entry, write as clocked_write,
}
use if2230_2023_ntaraja.Fat32.NoCmos.{init_directory_entry, flush}
use if2230_2023_ntaraja.Fat32.NoCmos.Writing.{
  file_entry, enter_file, make_folder, store_file, write_file, write_entry, write,
}

-- An entry holds the stamps of a time.
pub record IsStamped (now : DateTime) (e : DirectoryEntry) : Type 0 where
  pub create_time : e.create_time ≡ pack_time now
  pub create_date : e.create_date ≡ pack_date now
  pub access_date : e.access_date ≡ pack_date now
  pub modified_time : e.modified_time ≡ pack_time now
  pub modified_date : e.modified_date ≡ pack_date now

pub init_directory_entry-eq :
    (now : DateTime) (e : DirectoryEntry) (name : List ℕ) (cluster : ℕ)
    → IsStamped now e
    → init_directory_entry e name cluster ≡ clocked_init_directory_entry now name cluster
unfolding init_directory_entry clocked_init_directory_entry
init_directory_entry-eq now e name cluster st = λ i. record {
  name = name;
  ext = 0 ∷ 0 ∷ 0 ∷ [];
  attribute = attr_subdirectory;
  user_attribute = 0;
  undelete = 0;
  create_time = st.create_time i;
  create_date = st.create_date i;
  access_date = st.access_date i;
  cluster_high = cluster / 2 ^ 16 % 2 ^ 16;
  modified_time = st.modified_time i;
  modified_date = st.modified_date i;
  cluster_low = cluster % 2 ^ 16;
  filesize = 0;
}

file_entry-eq :
    (now : DateTime) (e : DirectoryEntry) (r : Request) (head size : ℕ)
    → IsStamped now e
    → file_entry e r head size ≡ clocked_file_entry now r head size
unfolding file_entry clocked_file_entry
file_entry-eq now e r head size st =
    ap (λ (f : DirectoryEntry). record f { ext = r.ext; attribute = attr_archive; filesize = size })
      (init_directory_entry-eq now e r.name head st)

pub enter_file-eq :
    (now : DateTime) (e : DirectoryEntry) (r : Request) (slot head size : ℕ)
    (dir : List DirectoryEntry)
    → IsStamped now e
    → enter_file e r slot head size dir ≡ clocked_enter_file now r slot head size dir
unfolding enter_file clocked_enter_file
enter_file-eq now e r slot head size dir st = rw (file_entry-eq now e r head size st) refl

-- The memory that write makes its entry in: a new table's for a folder, the stack's for a file
abbrev pub entry_memory : DirectoryEntry → Request → DirectoryEntry
entry_memory stack_entry r = if r.buffer_size == 0 then zero_entry else stack_entry

module _ {Disk : Type 0} where
  -- The disk and the two tables: all that a later call can see, but for the buffer
  abbrev pub volume_of : State Disk → Disk × (List ℕ × List DirectoryEntry)
  volume_of s = (s.disk, (s.fat_table, s.dir_table))

  -- A result with its volume
  unfoldable pub outcome_of : ℤ × State Disk → ℤ × (Disk × (List ℕ × List DirectoryEntry))
  outcome_of (code, s) = (code, volume_of s)
