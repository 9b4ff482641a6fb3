-- ===== src/Fat32/RoundTrip/Folder.antt =====
-- src/fat32.c: a folder that was made.
pub mod Removal
use if2230_2023_ntaraja.Prelude.{
  All-get_or, get_elem?, eq→==, ◌^◌, ◌==◌, ◌/◌, ◌+◌, ◌*◌, ◌%◌, ℕ, ◌≡◌, ◌≢◌, ◌∙◌, ◌<◌, refl, sym, ap,
  List, length, get_or, set, true, some, pos, arith, ne→==, get_elem?-eq-get_or, get_or-set_self,
  get_or-set_ne, length-set, All, All-set,
}
use if2230_2023_ntaraja.Disk.{BlockDevice, write_clusters}
use if2230_2023_ntaraja.Disk.Clusters.{read-write_clusters_other}
use if2230_2023_ntaraja.Fat32.{
  cluster_map_size, fat_cluster_number, fat_empty_entry, fat_end_of_file, zero_entry, DateTime,
  DirectoryEntry, Request, State,
}
use if2230_2023_ntaraja.Fat32.Layout.{encode_dir, encode_fat, decode_dir}
use if2230_2023_ntaraja.Fat32.Layout.RoundTrip.{IsEntry}
use if2230_2023_ntaraja.Fat32.Volume.{flush, read_to_dir_table}
use if2230_2023_ntaraja.Fat32.Directory.{dir_table_search, has_name_ext}
use if2230_2023_ntaraja.Fat32.Directory.Search.{same_bytes_self}
use if2230_2023_ntaraja.Fat32.Reading.{Reply, open_directory, read_directory}
use if2230_2023_ntaraja.Fat32.Writing.{make_folder, write_entry, write}
use if2230_2023_ntaraja.Fat32.Writing.Entry.{IsRequest}
use if2230_2023_ntaraja.Fat32.Writing.Free.{entry_of, free_count, IsFirstFree}
use if2230_2023_ntaraja.Fat32.Writing.Folder.{
  folder_entry, folder_entry-IsEntry, folder_table, folder_table-IsEntry, add_directory_entry-eq,
  make_folder-first, with_folder, make_folder_lem,
}
use if2230_2023_ntaraja.Fat32.RoundTrip.{IsVolume, dir_at, dir_at-fits, dir_at-write, loaded}
use if2230_2023_ntaraja.Fat32.RoundTrip.Checks.{
  Passes, slot_inside, slot_small, write-checks, search-slot,
}

-- A request for a new folder that has room: the parent is an allocated cluster, its table has a
-- free slot that was not marked deleted and no entry of that name, and a cluster is free.
pub record CanMake {Disk : Type 0} ⦃device : BlockDevice Disk⦄ (r : Request) (slot : ℕ)
    (s : State Disk) : Type 0 where
  pub volume : IsVolume s
  pub request : IsRequest r
  pub no_bytes : r.buffer_size ≡ 0
  pub passes : Passes r slot s
  pub parent_inside : r.parent_cluster_number < cluster_map_size
  pub parent_not_fat : r.parent_cluster_number ≢ fat_cluster_number
  pub parent_taken : entry_of s.fat_table r.parent_cluster_number ≢ fat_empty_entry
  pub slot_kept : (get_or (dir_at s r.parent_cluster_number) slot zero_entry).undelete ≢ 0xE5
  pub room : 0 < free_count s.fat_table 3 509

module _ {Disk : Type 0} ⦃device : BlockDevice Disk⦄ where
  write_entry-folder :
      (now : DateTime) (r : Request) (slot : ℕ) (s : State Disk)
      → r.buffer_size ≡ 0
      → write_entry now r slot s ≡ make_folder now r 509 3 s
  unfolding write_entry
  write_entry-folder now r slot s none_given =
      let folder : (r.buffer_size == 0) ≡ true = eq→== r.buffer_size 0 none_given in
      rw (folder) refl

  -- read_directory of a name that is in the parent's table
  read_directory-found :
      (r : Request) (s : State Disk) (i : ℕ) (e : DirectoryEntry)
      → dir_table_search r.name r.ext (dir_at s r.parent_cluster_number) ≡ pos i
      → get_elem? (dir_at s r.parent_cluster_number) i ≡ some e
      → read_directory r s ≡ some (open_directory e (loaded s r.parent_cluster_number))
  unfolding read_directory read_to_dir_table
  read_directory-found r s i e found here = rw (found, read_directory) (rw (here) refl)

module _ {Disk : Type 0} ⦃device : BlockDevice Disk⦄ (now : DateTime) (r : Request) (slot : ℕ)
    (s : State Disk) (can : CanMake r slot s) where
  abbrev parent : ℕ
  parent = r.parent_cluster_number

  abbrev before : List DirectoryEntry
  before = dir_at s parent

  module _ (first : ℕ) (is : IsFirstFree s.fat_table 3 509 first) where
    abbrev new_entry : DirectoryEntry
    new_entry = folder_entry r first (get_or before slot zero_entry)

    -- The parent's table afterwards
    abbrev after : List DirectoryEntry
    after = set before slot new_entry

    abbrev made : State Disk
    made = with_folder now r first after (loaded s parent)

    slot_fits : slot < length before
    slot_fits = slot_small r slot s can.passes

    after_width : length after ≡ 64
    after_width = length-set before slot new_entry ∙ (dir_at-fits s parent).0

    after-IsEntry : All IsEntry after
    after-IsEntry = All-set IsEntry before slot new_entry (dir_at-fits s parent).1 (
        folder_entry-IsEntry r first (get_or before slot zero_entry) can.request
          (All-get_or IsEntry before slot zero_entry (dir_at-fits s parent).1 slot_fits))

    write-made :
        make_folder now r 509 3 (loaded s parent) ≡ make_folder now r 1 first (loaded s parent)
        → write now r s ≡ some (pos 0, made)
    write-made run =
        write-checks r slot s can.passes now
        ∙ write_entry-folder now r slot (loaded s parent) can.no_bytes
        ∙ run
        ∙ make_folder_lem now r first after (loaded s parent) is.inside is.free (
            add_directory_entry-eq r first slot before can.no_bytes can.passes.slot_found
              (slot_inside r slot s can.passes) slot_fits)

    dir_at-parent : dir_at made parent ≡ after
    unfolding flush
    dir_at-parent =
        ap (decode_dir 64) (
          read-write_clusters_other _ _ first parent (omega arith)
            (omega (arith, can.parent_inside))
            (λ e. can.parent_taken (ap (entry_of s.fat_table) (sym e) ∙ is.free)))
        ∙ dir_at-write s
            (write_clusters s.disk (encode_fat (set s.fat_table first fat_end_of_file))
              fat_cluster_number 1)
            after parent after_width after-IsEntry

    dir_at-first : dir_at made first ≡ folder_table now r first
    unfolding flush
    dir_at-first =
        dir_at-write s _ (folder_table now r first) first refl
          (folder_table-IsEntry now r first can.request)

    hit : has_name_ext r.name r.ext (get_or after slot zero_entry) ≡ true
    hit = rw (
      get_or-set_self before slot new_entry zero_entry slot_fits,
      same_bytes_self r.name 8,
      same_bytes_self r.ext 3,
    )

    found : dir_table_search r.name r.ext after ≡ pos slot
    found = search-slot r slot s can.passes after after_width hit (λ k lt.
        ap (has_name_ext r.name r.ext)
          (get_or-set_ne before slot k new_entry zero_entry (omega arith)))

    taken : entry_of made.fat_table first ≡ fat_end_of_file
    unfolding flush
    taken = get_or-set_self s.fat_table first fat_end_of_file 0 is.inside

    -- The state in which read_directory ends
    abbrev listing : State Disk
    listing = loaded (loaded made parent) first

    abbrev listed : Reply
    listed = record { code = pos 0; output = some (encode_dir (folder_table now r first)) }

    -- The entry leads to the folder's table.
    opened : open_directory new_entry (loaded made parent) ≡ (listed, listing)
    unfolding open_directory read_to_dir_table
    opened =
        let whole : first / 2 ^ 16 % 2 ^ 16 * 2 ^ 16 + first % 2 ^ 16 ≡ first =
          omega (arith, is.inside, can.volume.width) in
        rw (ne→== _ 0xE5 can.slot_kept, whole)
          (ap (λ t. (record { code = pos 0; output = some (encode_dir t) }, listing)) dir_at-first)

    read_directory-made : read_directory r made ≡ some (listed, listing)
    read_directory-made =
        read_directory-found r made slot new_entry (rw dir_at-parent found) (
          rw dir_at-parent (
            get_elem?-eq-get_or after slot zero_entry
              (omega (arith, after_width, slot_inside r slot s can.passes))
            ∙ ap some (get_or-set_self before slot new_entry zero_entry slot_fits)))
        ∙ ap some opened

  -- write of a named request without bytes whose fields fit their widths, into a directory
  -- whose cluster is in use and not the allocation table's own, which has no entry of that name
  -- and a first free slot that is plain and not marked deleted, on a volume with a free
  -- cluster, returns 0; read_directory of that name then returns 0 and the table of a new
  -- folder in a cluster that was free and now ends a chain.
  pub read_directory-write :
      (c : ℕ) × (s' : State Disk) × (s'' : State Disk) × (write now r s ≡ some (pos 0, s'))
      × (c < cluster_map_size)
      × (entry_of s.fat_table c ≡ fat_empty_entry)
      × (entry_of s'.fat_table c ≡ fat_end_of_file)
      × (read_directory r s'
          ≡ some (record { code = pos 0; output = some (encode_dir (folder_table now r c)) }, s''))
  read_directory-write =
      let (first, run, is) =
        make_folder-first now r 509 3 (loaded s parent) (omega (arith, can.volume.width))
          can.room in
      (
        first,
        made first is,
        listing first is,
        write-made first is run,
        omega (arith, is.inside, can.volume.width),
        is.free,
        taken first is,
        read_directory-made first is,
      )
