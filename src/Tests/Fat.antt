-- ===== src/Tests/Fat.antt =====
-- The file system's theorems on an empty image.
use if2230_2023_ntaraja.Prelude.{◌≢◌, get_or, set}
use if2230_2023_ntaraja.Fat32.{zero_entry, entry_cluster, cluster_map_size, fat_empty_entry}
use if2230_2023_ntaraja.Fat32.Directory.{has_name}
use if2230_2023_ntaraja.Fat32.Deletion.{delete}
use if2230_2023_ntaraja.Fat32.Reading.{fails}
use if2230_2023_ntaraja.Fat32.RoundTrip.{dir_at, loaded}
use if2230_2023_ntaraja.Fat32.RoundTrip.Deleted.{read-delete}
use if2230_2023_ntaraja.Fat32.RoundTrip.Full.{write-full, IsRefused}
use if2230_2023_ntaraja.Fat32.RoundTrip.File.{
  write-IsVolume, write-entry_of, write-read_clusters, read-write,
}
use if2230_2023_ntaraja.Fat32.Reading.{read}
use if2230_2023_ntaraja.Fat32.Writing.{write}
use if2230_2023_ntaraja.Inserter.Device.{image_device}
use if2230_2023_ntaraja.Disk.{cluster_to_lba, read_clusters}
use if2230_2023_ntaraja.Fat32.Layout.{decode_fat, decode_entry, decode_dir}
use if2230_2023_ntaraja.Memory.{load_bytes, memcmp}
use if2230_2023_ntaraja.Fat32.Volume.{zero_cluster, zero_dir, fresh_fat}
use if2230_2023_ntaraja.Fat32.Directory.{same_bytes, index_of, dir_table_search, find_empty_entry}
use if2230_2023_ntaraja.Inserter.{read_blocks, Image}
use if2230_2023_ntaraja.Fat32.Layout.RoundTrip.{IsWord}
use if2230_2023_ntaraja.Fat32.Writing.Free.{entry_of, free_count}
use if2230_2023_ntaraja.Fat32.{fat_end_of_file, fat_cluster_number, State, DateTime, Request}
use if2230_2023_ntaraja.Prelude.{
  replicate, negsuc, ◌<◌, ◌≡◌, ℕ, some, pos, List, ◌∷◌, refl, arith, [], All-replicate, All, ◌%◌,
}
use if2230_2023_ntaraja.Fat32.RoundTrip.{CanStore, IsVolume}

abbrev pub blank_image : Image
blank_image = λ a. 0

abbrev pub noon : DateTime
noon = record { year = 23; month = 5; day = 7; hour = 12; minute = 0; second = 0 }

abbrev pub fresh_state : State Image
fresh_state = record {
  disk = blank_image;
  fat_table = fresh_fat;
  dir_table = zero_dir;
  cluster_buf = zero_cluster;
}

-- `filefile.exe` in the root directory, over two clusters
abbrev pub new_file : Request
new_file = record {
  buf = λ a. a % 251;
  name = b'f' ∷ b'i' ∷ b'l' ∷ b'e' ∷ b'f' ∷ b'i' ∷ b'l' ∷ b'e' ∷ [];
  ext = b'e' ∷ b'x' ∷ b'e' ∷ [];
  parent_cluster_number = 2;
  buffer_size = 3000;
}

pub fresh_words : All IsWord fresh_fat
fresh_words = (omega arith, (omega arith, (omega arith, All-replicate IsWord 509 0 (omega arith))))

program : Unit {0}
unfolding find_empty_entry dir_table_search index_of same_bytes memcmp decode_dir decode_entry
    read_clusters cluster_to_lba read_blocks load_bytes
program = tt

new_file-CanStore : CanStore new_file 0 fresh_state
unfolding program free_count
new_file-CanStore = record {
  volume = record { width = refl; words = fresh_words };
  request = omega arith;
  named = refl;
  some_bytes = omega arith;
  parent_inside = omega arith;
  parent_not_fat = omega arith;
  parent_taken = omega arith;
  slot_found = refl;
  slot_plain = omega arith;
  absent = refl;
  room = omega arith;
}

read-write_example :
    (s' : State Image) × (write noon new_file fresh_state ≡ some (pos 0, s'))
    × ((stack : List ℕ)
        → (s'' : State Image) × (read stack new_file s'
            ≡ some (record { code = pos 0; output = some (load_bytes new_file.buf 0 3000) }, s'')))
read-write_example = read-write noon new_file 0 fresh_state new_file-CanStore

-- The root directory's entry is in use.
write-entry_of_example :
    (s' : State Image) × (write noon new_file fresh_state ≡ some (pos 0, s'))
    × (entry_of s'.fat_table 2 ≡ entry_of fresh_state.fat_table 2)
write-entry_of_example =
    write-entry_of noon new_file 0 fresh_state new_file-CanStore 2 (λ e. omega arith)

write-read_clusters_example :
    (s' : State Image) × (write noon new_file fresh_state ≡ some (pos 0, s'))
    × (read_clusters s'.disk 0 1 ≡ read_clusters fresh_state.disk 0 1)
write-read_clusters_example =
    write-read_clusters noon new_file 0 fresh_state new_file-CanStore 0 (omega arith)
      (λ e. omega arith) (λ e. omega arith) (λ e. omega arith)

write-IsVolume_example :
    (s' : State Image) × (write noon new_file fresh_state ≡ some (pos 0, s'))
    × IsVolume s'
    × (decode_fat 512 (read_clusters s'.disk fat_cluster_number 1) ≡ s'.fat_table)
write-IsVolume_example = write-IsVolume noon new_file 0 fresh_state new_file-CanStore

some_free : 0 < free_count fresh_fat 1 511
unfolding free_count
some_free = omega arith

-- Every cluster is in use.
abbrev full_fat : List ℕ
full_fat = replicate 512 fat_end_of_file

abbrev full_state : State Image
full_state = record fresh_state { fat_table = full_fat }

full_words : All IsWord full_fat
full_words = All-replicate IsWord 512 fat_end_of_file (omega arith)

new_file-IsRefused : IsRefused new_file 0 full_state
unfolding program free_count
new_file-IsRefused = record {
  volume = record { width = refl; words = full_words };
  named = refl;
  some_bytes = omega arith;
  slot_found = refl;
  slot_plain = omega arith;
  absent = refl;
  no_room = refl;
}

write-full_example :
    (s' : State Image) × (write noon new_file full_state ≡ some (negsuc 0, s'))
    × (s'.disk ≡ full_state.disk)
    × (s'.fat_table ≡ full_state.fat_table)
write-full_example = write-full noon new_file 0 full_state new_file-IsRefused

file_alone : index_of (has_name new_file.name) 0 (dir_at fresh_state 2) ≡ negsuc 0
unfolding program
file_alone = refl

read-delete_example :
    (c : ℕ) × (s' : State Image) × (s'' : State Image) × (write noon new_file fresh_state
      ≡ some (pos 0, s'))
    × (delete new_file s' ≡ some (pos 0, s''))
    × (c < cluster_map_size)
    × (c ≡ entry_cluster (get_or (dir_at s' 2) 0 zero_entry))
    × (entry_of fresh_fat c ≡ fat_empty_entry)
    × (entry_of s'.fat_table c ≢ fat_empty_entry)
    × (s''.fat_table ≡ set s'.fat_table c fat_empty_entry)
    × ((stack : List ℕ) → read stack new_file s'' ≡ some (fails (pos 3), loaded s'' 2))
read-delete_example = read-delete noon new_file 0 fresh_state new_file-CanStore refl file_alone
