-- ===== src/Tests/Folders.antt =====
-- A folder made and entered in the root of an empty image.
use if2230_2023_ntaraja.Shell.Folders.Removal.{rm-mkdir}
use if2230_2023_ntaraja.Fat32.RoundTrip.{dir_at}
use if2230_2023_ntaraja.Fat32.Deletion.{delete}
use if2230_2023_ntaraja.Prelude.{
  set, negsuc, ℕ, ◌≡◌, ◌++◌, refl, some, pos, [], ◌∷◌, List, arith, replicate, ◌<◌,
}
use if2230_2023_ntaraja.Fat32.{
  zero_entry, fat_cluster_number, cluster_map_size, fat_empty_entry, fat_end_of_file, Request,
  State,
}
use if2230_2023_ntaraja.Fat32.Layout.{decode_fat, encode_dir, decode_dir, decode_entry}
use if2230_2023_ntaraja.Fat32.Reading.{read_directory}
use if2230_2023_ntaraja.Fat32.Writing.{write}
use if2230_2023_ntaraja.Fat32.Writing.Free.{entry_of, free_count}
use if2230_2023_ntaraja.Fat32.Writing.Folder.{folder_table}
use if2230_2023_ntaraja.Fat32.RoundTrip.Checks.{Passes}
use if2230_2023_ntaraja.Fat32.RoundTrip.Folder.Removal.{delete-write}
use if2230_2023_ntaraja.Fat32.RoundTrip.Folder.{CanMake, read_directory-write}
use if2230_2023_ntaraja.Fat32.Directory.{
  has_name, find_empty_entry, dir_table_search, index_of, same_bytes,
}
use if2230_2023_ntaraja.Memory.{memcmp, load_bytes}
use if2230_2023_ntaraja.Disk.{cluster_to_lba, read_clusters}
use if2230_2023_ntaraja.Inserter.{read_blocks, Image}
use if2230_2023_ntaraja.Inserter.Device.{image_device}
use if2230_2023_ntaraja.Shell.Session.{
  append_first, append_text, append_char, copy_text, copy_string, codes, Session,
}
use if2230_2023_ntaraja.Shell.Commands.{rm, mkdir, exist_duplicate, is_duplicate}
use if2230_2023_ntaraja.Shell.Walk.{append_part, cd}
use if2230_2023_ntaraja.Shell.{common, copy_ext, copy_name, readfname, slen, strcmp}
use if2230_2023_ntaraja.Shell.Folders.{folder_request, CanMkdir, CanEnter, cd-mkdir}
use if2230_2023_ntaraja.Tests.Fat.{noon, fresh_words}
use if2230_2023_ntaraja.Tests.Shell.{session, marked_state}

-- `docs`, as it is typed and in the request
abbrev docs : List ℕ
docs = codes "docs"

abbrev docs_request : Request
docs_request =
    folder_request (docs ++ 0 ∷ 0 ∷ []) (docs ++ replicate 5 0) (docs ++ replicate 4 0) [] 4 session

docs_request-Passes : Passes docs_request 0 marked_state
unfolding find_empty_entry dir_table_search index_of same_bytes memcmp decode_dir decode_entry
    read_clusters cluster_to_lba read_blocks load_bytes
docs_request-Passes = record {
  named = refl;
  slot_found = refl;
  slot_plain = omega arith;
  absent = refl;
}

docs_request-CanMake : CanMake docs_request 0 marked_state
unfolding free_count decode_dir decode_entry read_clusters cluster_to_lba read_blocks load_bytes
docs_request-CanMake = record {
  volume = record { width = refl; words = fresh_words };
  request = omega arith;
  no_bytes = refl;
  passes = docs_request-Passes;
  parent_inside = omega arith;
  parent_not_fat = omega arith;
  parent_taken = omega arith;
  slot_kept = omega arith;
  room = omega arith;
}

read_directory-write_example :
    (c : ℕ) × (s' : State Image) × (s'' : State Image) × (write noon docs_request marked_state
      ≡ some (pos 0, s'))
    × (c < cluster_map_size)
    × (entry_of marked_state.fat_table c ≡ fat_empty_entry)
    × (entry_of s'.fat_table c ≡ fat_end_of_file)
    × (read_directory docs_request s'
        ≡ some (
          record { code = pos 0; output = some (encode_dir (folder_table noon docs_request c)) },
          s'',
        ))
read_directory-write_example =
    read_directory-write noon docs_request 0 marked_state docs_request-CanMake

abbrev docs_path : List ℕ
docs_path = b'/' ∷ docs ++ b'/' ∷ replicate 295 0

docs-CanMkdir :
    CanMkdir
      (docs ++ 0 ∷ 0 ∷ [])
      (docs ++ replicate 5 0)
      (docs ++ replicate 4 0)
      docs_path
      4
      0
      session
unfolding readfname copy_string copy_text copy_name copy_ext slen exist_duplicate is_duplicate
    decode_dir decode_entry strcmp common
docs-CanMkdir = record { parsed = refl; copied = refl; new = refl; makes = docs_request-CanMake }

docs-CanEnter :
    CanEnter
      (docs ++ 0 ∷ 0 ∷ [])
      (docs ++ replicate 5 0)
      (docs ++ replicate 4 0)
      docs_path
      4
      0
      b'd'
      session
unfolding readfname copy_string copy_text copy_name copy_ext slen exist_duplicate is_duplicate
    decode_dir decode_entry strcmp common append_part append_char append_text append_first
docs-CanEnter = record {
  mkdir = docs-CanMkdir;
  not_up = refl;
  first_char = refl;
  not_path = refl;
  name_size = refl;
  unlike = refl;
  appended = refl;
}

cd-mkdir_example :
    (s' : Session Image) × (s'' : Session Image) × (mkdir noon (docs ++ 0 ∷ 0 ∷ []) session
      ≡ some s')
    × (cd 1 (docs ++ 0 ∷ 0 ∷ []) s' ≡ some s'')
    × (entry_of session.files.fat_table s''.current_dir ≡ fat_empty_entry)
    × (s''.cur_table ≡ encode_dir (folder_table noon docs_request s''.current_dir))
    × (s''.cur_dir_name ≡ docs_path)
cd-mkdir_example =
    cd-mkdir (docs ++ 0 ∷ 0 ∷ []) (docs ++ replicate 5 0) (docs ++ replicate 4 0) docs_path 4 0 b'd'
      session docs-CanEnter noon 1

docs_alone : index_of (has_name docs_request.name) 0 (dir_at marked_state 2) ≡ negsuc 0
unfolding index_of same_bytes memcmp decode_dir decode_entry read_clusters cluster_to_lba
    read_blocks load_bytes
docs_alone = refl

delete-write_example :
    (s' : State Image) × (s'' : State Image) × (write noon docs_request marked_state
      ≡ some (pos 0, s'))
    × (delete docs_request s' ≡ some (pos 0, s''))
    × (s''.fat_table ≡ marked_state.fat_table)
    × (decode_fat 512 (read_clusters s''.disk fat_cluster_number 1) ≡ marked_state.fat_table)
    × (dir_at s'' 2 ≡ set (dir_at marked_state 2) 0 zero_entry)
delete-write_example =
    delete-write noon docs_request 0 marked_state docs_request-CanMake refl docs_alone

rm-mkdir_example :
    (s' : Session Image) × (s'' : Session Image) × (mkdir noon (docs ++ 0 ∷ 0 ∷ []) session
      ≡ some s')
    × (rm (docs ++ 0 ∷ 0 ∷ []) s' ≡ some s'')
    × (s''.files.fat_table ≡ session.files.fat_table)
    × (dir_at s''.files 2 ≡ set (dir_at session.files 2) 0 zero_entry)
    × (s''.screen ≡ session.screen)
rm-mkdir_example =
    rm-mkdir (docs ++ 0 ∷ 0 ∷ []) (docs ++ replicate 5 0) (docs ++ replicate 4 0) docs_path 4 0
      session docs-CanMkdir noon refl docs_alone
