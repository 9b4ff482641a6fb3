-- ===== src/Tests/Insertion.antt =====
-- The inserter on a blank storage file.
use if2230_2023_ntaraja.Prelude.{
  ℕ, ◌≡◌, ◌∙◌, ap, refl, true, some, pos, [], ◌∷◌, List, All, All-replicate, length, arith,
  replicate, get_or, ◌==◌, if◌then◌else◌,
}
use if2230_2023_ntaraja.Memory.{memcmp, load_bytes}
use if2230_2023_ntaraja.Disk.{cluster_to_lba, read_clusters}
use if2230_2023_ntaraja.Fat32.{zero_entry, root_cluster_number, DirectoryEntry, DateTime, State}
use if2230_2023_ntaraja.Fat32.Volume.{
  initialize_filesystem_fat32 as clocked_initialize, is_empty_storage, zero_dir, root_name,
  fresh_fat,
}
use if2230_2023_ntaraja.Fat32.Reading.{read}
use if2230_2023_ntaraja.Fat32.RoundTrip.{CanStore, dir_at, dir_at-write}
use if2230_2023_ntaraja.Fat32.Layout.RoundTrip.{IsEntry}
use if2230_2023_ntaraja.Fat32.Writing.Folder.{zero_entry-IsEntry}
use if2230_2023_ntaraja.Fat32.NoCmos.{
  init_directory_table, init_directory_entry, create_fat32, initialize_filesystem_fat32,
}
use if2230_2023_ntaraja.Fat32.Directory.{find_empty_entry, dir_table_search, index_of, same_bytes}
use if2230_2023_ntaraja.Fat32.Writing.Free.{free_count}
use if2230_2023_ntaraja.Inserter.{Image, read_blocks}
use if2230_2023_ntaraja.Inserter.Device.{image_device}
use if2230_2023_ntaraja.Inserter.Main.{Host, main, write_success, buffer_of, static_state}
use if2230_2023_ntaraja.Inserter.Main.Kept.{insertion, at_write, CanInsert, main-read}
use if2230_2023_ntaraja.Tests.Fat.{noon, fresh_words}
use if2230_2023_ntaraja.Tests.NoCmos.{noon_entry, noon_entry-IsStamped}

-- A host with an empty storage file and the file `a`, for cluster 2
abbrev host : Host
host = record {
  open_file = λ path. some (if get_or path 0 0 == b'a' then b'h' ∷ b'i' ∷ [] else []);
  scan_number = λ text. 2;
  scan_name = λ text. b'a' ∷ replicate 7 0;
}

-- The table of the root directory that the inserter makes
abbrev root_dir : List DirectoryEntry
root_dir = init_directory_table zero_dir root_name root_cluster_number

root_dir-IsEntry : All IsEntry root_dir
unfolding init_directory_table init_directory_entry
root_dir-IsEntry = (
  record {
    name_length = refl;
    name_bytes = omega arith;
    ext_length = refl;
    ext_bytes = omega arith;
    attribute = omega arith;
    user_attribute = omega arith;
    undelete = omega arith;
    create_time = omega arith;
    create_date = omega arith;
    access_date = omega arith;
    cluster_high = omega arith;
    modified_time = omega arith;
    modified_date = omega arith;
    cluster_low = omega arith;
    filesize = omega arith;
  },
  All-replicate IsEntry 63 zero_entry zero_entry-IsEntry,
)

root_dir-width : length root_dir ≡ 64
unfolding init_directory_table
root_dir-width = refl

is_blank : (is_empty_storage (static_state (buffer_of []))).0 ≡ true
unfolding is_empty_storage memcmp read_clusters cluster_to_lba read_blocks load_bytes
is_blank = refl

-- The inserter formats the empty file.
formatted : at_write [] [] ≡ create_fat32 [] (is_empty_storage (static_state (buffer_of []))).1
unfolding initialize_filesystem_fat32
formatted = rw is_blank refl

root_dir-eq : dir_at (at_write [] []) 2 ≡ root_dir
unfolding create_fat32
root_dir-eq =
    ap (λ (s : State Image). dir_at s 2) formatted
    ∙ dir_at-write (static_state (buffer_of [])) _ root_dir 2 root_dir-width root_dir-IsEntry

fat-eq : (at_write [] []).fat_table ≡ fresh_fat
unfolding create_fat32
fat-eq = ap (λ (s : State Image). s.fat_table) formatted

hi-CanStore :
    CanStore (insertion host (b'a' ∷ []) (b'2' ∷ []) (b'h' ∷ b'i' ∷ [])) 1 (at_write [] [])
unfolding find_empty_entry dir_table_search index_of same_bytes memcmp init_directory_table
    init_directory_entry free_count
hi-CanStore = record {
  volume = record { width = rw fat-eq refl; words = rw fat-eq fresh_words };
  request = omega arith;
  named = refl;
  some_bytes = omega arith;
  parent_inside = omega arith;
  parent_not_fat = omega arith;
  parent_taken = rw fat-eq (λ e. omega arith);
  slot_found = rw root_dir-eq refl;
  slot_plain = rw root_dir-eq (λ e. omega arith);
  absent = rw root_dir-eq refl;
  room = rw fat-eq (omega arith);
}

hi-CanInsert : CanInsert host [] (b'a' ∷ []) (b'2' ∷ []) (b's' ∷ []) [] (b'h' ∷ b'i' ∷ []) 1
hi-CanInsert = record {
  storage_opened = refl;
  target_opened = refl;
  bytes_fit = omega arith;
  size_fits = omega arith;
  stores = hi-CanStore;
  boot_taken = rw fat-eq (λ e. omega arith);
  boot_apart = omega arith;
}

main-read_example :
    (image : Image) × (main host [] noon_entry
        ((b'i' ∷ []) ∷ (b'a' ∷ []) ∷ (b'2' ∷ []) ∷ (b's' ∷ []) ∷ [])
      ≡ some (record { report = write_success; status = 0; storage = some image }))
    × ((kernel : State Image) (later : DateTime) (area stack : List ℕ)
        → kernel.disk ≡ image
        → (s' : State Image) × (read stack
              (insertion host (b'a' ∷ []) (b'2' ∷ []) (b'h' ∷ b'i' ∷ []))
              (clocked_initialize later area kernel)
            ≡ some (record { code = pos 0; output = some (b'h' ∷ b'i' ∷ []) }, s')))
main-read_example =
    main-read host [] (b'a' ∷ []) (b'2' ∷ []) (b's' ∷ []) [] (b'h' ∷ b'i' ∷ []) 1 hi-CanInsert noon
      noon_entry (b'i' ∷ []) [] noon_entry-IsStamped
