-- ===== src/Tests/NoCmos.antt =====
-- The inserter's file system at concrete inputs.
use if2230_2023_ntaraja.Prelude.{refl}
use if2230_2023_ntaraja.Prelude.Opt.{Agree}
use if2230_2023_ntaraja.Fat32.{zero_entry, DirectoryEntry}
use if2230_2023_ntaraja.Fat32.Volume.{pack_time, pack_date}
use if2230_2023_ntaraja.Fat32.Writing.{write as clocked_write}
use if2230_2023_ntaraja.Fat32.Deletion.{delete as clocked_delete}
use if2230_2023_ntaraja.Fat32.NoCmos.Writing.{write}
use if2230_2023_ntaraja.Fat32.NoCmos.Deletion.{delete}
use if2230_2023_ntaraja.Fat32.NoCmos.Same.Storing.{write-Agree}
use if2230_2023_ntaraja.Fat32.NoCmos.Same.{IsStamped, outcome_of}
use if2230_2023_ntaraja.Fat32.NoCmos.Same.Deleting.{delete-Agree}
use if2230_2023_ntaraja.Inserter.Device.{image_device}
use if2230_2023_ntaraja.Tests.Fat.{noon, new_file, fresh_state}

-- What the stack holds where an entry was made at noon
abbrev pub noon_entry : DirectoryEntry
noon_entry = record zero_entry {
  create_time = pack_time noon;
  create_date = pack_date noon;
  access_date = pack_date noon;
  modified_time = pack_time noon;
  modified_date = pack_date noon;
}

pub noon_entry-IsStamped : IsStamped noon noon_entry
noon_entry-IsStamped = record {
  create_time = refl;
  create_date = refl;
  access_date = refl;
  modified_time = refl;
  modified_date = refl;
}

write-Agree_example :
    Agree outcome_of
      (write noon_entry new_file fresh_state)
      (clocked_write noon new_file fresh_state)
write-Agree_example = write-Agree noon noon_entry new_file fresh_state noon_entry-IsStamped

delete-Agree_example :
    Agree outcome_of (delete new_file fresh_state) (clocked_delete new_file fresh_state)
delete-Agree_example = delete-Agree new_file fresh_state
