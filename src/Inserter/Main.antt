-- ===== src/Inserter/Main.antt =====
-- src/external-inserter.c: main.
pub mod Kept
use if2230_2023_ntaraja.Prelude.{
  ℕ, ◌%◌, ◌^◌, ◌==◌, ltb, List, [], ◌∷◌, length, get_or, get_elem?, replicate, Option, none, some,
  ℤ, pos, negsuc, if◌then◌else◌,
}
use if2230_2023_ntaraja.Prelude.Opt.{◌>>=◌}
use if2230_2023_ntaraja.Memory.{Mem}
use if2230_2023_ntaraja.Inserter.{Image}
use if2230_2023_ntaraja.Inserter.Device.{image_device}
use if2230_2023_ntaraja.Fat32.{cluster_map_size, DirectoryEntry, State, Request}
use if2230_2023_ntaraja.Fat32.Volume.{zero_dir, zero_cluster}
use if2230_2023_ntaraja.Fat32.NoCmos.{initialize_filesystem_fat32}
use if2230_2023_ntaraja.Fat32.NoCmos.Writing.{write}

-- The host that runs the inserter: the bytes of the file at a path, what `sscanf "%u"` reads, and the
-- zeroed name after `sscanf "%8s"` has stored in it.
pub record Host : Type 0 where
  pub open_file : List ℕ → Option (List ℕ)
  pub scan_number : List ℕ → ℕ
  pub scan_name : List ℕ → List ℕ

-- The message of a run
pub data Report : Type 0 where
  usage : Report
  write_success : Report
  name_exists : Report
  invalid_parent : Report
  unknown_error : Report

-- How a run ends: the message, the exit status and the image that is written to the storage file
pub record Finish : Type 0 where
  pub report : Report
  pub status : ℕ
  pub storage : Option Image

-- `16*1024*1024`, the bytes of each of the two buffers
abbrev pub buffer_bytes : ℕ
buffer_bytes = 16777216

-- calloc, and fread of a file into it
abbrev pub buffer_of : List ℕ → Mem
buffer_of bytes a = if ltb a buffer_bytes then get_or bytes a 0 else 0

-- The driver's static state before its first call
abbrev pub static_state : Image → State Image
static_state image = record {
  disk = image;
  fat_table = replicate cluster_map_size 0;
  dir_table = zero_dir;
  cluster_buf = zero_cluster;
}

-- The buffer and the size of the target: an absent file has none.
unfoldable pub target_of : Option (List ℕ) → Mem × ℕ
target_of none = (buffer_of [], 0)
target_of (some bytes) = (buffer_of bytes, length bytes)

abbrev pub request_of : Mem × ℕ → List ℕ → ℕ → Request
request_of target name cluster = record {
  buf = target.0;
  name = name;
  ext = 0 ∷ 0 ∷ 0 ∷ [];
  parent_cluster_number = cluster;
  buffer_size = target.1 % 2 ^ 32;
}

-- The message for a code of write
unfoldable pub report_of : ℤ → Report
report_of (negsuc n) = unknown_error
report_of (pos n) =
    if n == 0
    then write_success
    else if n == 1
    then name_exists
    else if n == 2
    then invalid_parent
    else unknown_error

-- `pointer_area` and `stack_entry` are what the driver finds at a pointer and on its stack. `none`
-- stands for a storage file that cannot be opened, which the code does not ask, and for a write that
-- does not return.
unfoldable pub main : Host → List ℕ → DirectoryEntry → List (List ℕ) → Option Finish
main host pointer_area stack_entry argv =
    if ltb (length argv) 4 then some (record { report = usage; status = 1; storage = none }) else do
      target ← get_elem? argv 1
      index ← get_elem? argv 2
      storage ← get_elem? argv 3
      bytes ← host.open_file storage
      let s = initialize_filesystem_fat32 pointer_area (static_state (buffer_of bytes))
      let r =
          request_of (target_of (host.open_file target)) (host.scan_name target)
            (host.scan_number index)
      (code, s') ← write stack_entry r s
      some (record { report = report_of code; status = 0; storage = some s'.disk })
