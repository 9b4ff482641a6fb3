-- ===== src/Tests/Deletion.antt =====
-- Deletions that remove nothing, on an empty image.
use if2230_2023_ntaraja.Disk.{cluster_to_lba, read_clusters}
use if2230_2023_ntaraja.Fat32.Layout.{decode_entry, decode_dir}
use if2230_2023_ntaraja.Memory.{load_bytes, memcmp}
use if2230_2023_ntaraja.Fat32.Directory.{same_bytes, index_of}
use if2230_2023_ntaraja.Fat32.{State}
use if2230_2023_ntaraja.Prelude.{◌≢◌, some, pos, is_zero, false≢true, arith, ap, ◌≡◌, refl}
use if2230_2023_ntaraja.Inserter.{read_blocks, Image}
use if2230_2023_ntaraja.Inserter.Device.{image_device}
use if2230_2023_ntaraja.Tests.Fat.{fresh_state}
use if2230_2023_ntaraja.Tests.Shell.{note}
use if2230_2023_ntaraja.Fat32.Deletion.{load_dir, delete}
use if2230_2023_ntaraja.Fat32.Deletion.Refusal.{IsMissing, delete_missing, delete_refused}

note-IsMissing : IsMissing note fresh_state
unfolding load_dir index_of same_bytes memcmp decode_dir decode_entry read_clusters cluster_to_lba
    read_blocks load_bytes
note-IsMissing = record {
  parent_inside = omega arith;
  width = refl;
  folders = λ c. refl;
  files = refl;
}

-- The codes 1 and 0 differ.
pos_apart : pos 1 ≢ pos 0
pos_apart e = absurd (false≢true (ap is_zero e))

delete_missing_example :
    (s' : State Image) × (delete note fresh_state ≡ some (pos 1, s'))
    × (s'.disk ≡ fresh_state.disk)
    × (s'.fat_table ≡ fresh_state.fat_table)
delete_missing_example = delete_missing note fresh_state note-IsMissing

-- The driver after that call
abbrev unchanged : State Image
unchanged = (delete_missing note fresh_state note-IsMissing).0

unchanged_run : delete note fresh_state ≡ some (pos 1, unchanged)
unchanged_run = (delete_missing note fresh_state note-IsMissing).1

delete_refused_example :
    (unchanged.disk ≡ fresh_state.disk) × (unchanged.fat_table ≡ fresh_state.fat_table)
delete_refused_example = delete_refused note fresh_state unchanged (pos 1) unchanged_run pos_apart
