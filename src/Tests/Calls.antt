-- ===== src/Tests/Calls.antt =====
-- System call 1 for a folder that was made in the root of an empty image.
use if2230_2023_ntaraja.Prelude.{
  ℕ, ◌-◌, ◌≡◌, ◌++◌, refl, some, pos, inl, [], ◌∷◌, List, arith, replicate, get_or,
}
use if2230_2023_ntaraja.Memory.{Mem, memcmp, load_bytes}
use if2230_2023_ntaraja.Disk.{cluster_to_lba, read_clusters}
use if2230_2023_ntaraja.Fat32.{Request, State}
use if2230_2023_ntaraja.Fat32.Layout.{decode_dir, decode_entry, encode_dir}
use if2230_2023_ntaraja.Fat32.Layout.RoundTrip.{encode_dir-Bytes}
use if2230_2023_ntaraja.Fat32.Reading.{Reply}
use if2230_2023_ntaraja.Fat32.Writing.Free.{free_count}
use if2230_2023_ntaraja.Fat32.Writing.Folder.{folder_table, folder_table-IsEntry}
use if2230_2023_ntaraja.Fat32.Directory.{find_empty_entry, dir_table_search, index_of, same_bytes}
use if2230_2023_ntaraja.Fat32.RoundTrip.Checks.{Passes}
use if2230_2023_ntaraja.Fat32.RoundTrip.Folder.{CanMake, read_directory-write}
use if2230_2023_ntaraja.Inserter.{read_blocks, Image}
use if2230_2023_ntaraja.Inserter.Device.{image_device}
use if2230_2023_ntaraja.Interrupt.{CpuRegister, Kernel, request_at, main_interrupt_handler}
use if2230_2023_ntaraja.Interrupt.Screen.{Displays, show_all}
use if2230_2023_ntaraja.Interrupt.Files.{
  by_read_directory, shell_call, buffer_address, Holds, Clear, Simulates,
  main_interrupt_handler-Simulates,
}
use if2230_2023_ntaraja.Shell.Session.{Session, sys_read_directory}
use if2230_2023_ntaraja.Tests.Fat.{noon, fresh_words}
use if2230_2023_ntaraja.Tests.Machine.{Controller, controller}
use if2230_2023_ntaraja.Tests.Shell.{kernel, session, marked_state, terminal}

-- The request for `docs` in the root directory, packed, with its buffer at 4096; it lies at 100.
abbrev packet : List ℕ
packet = 0 ∷ 16 ∷ 0 ∷ 0 ∷ b'd' ∷ b'o' ∷ b'c' ∷ b's' ∷ replicate 7 0 ++ 2 ∷ replicate 7 0

abbrev user_memory : Mem
user_memory a = get_or packet (a - 100) 0

abbrev asked_for : Request
asked_for = request_at user_memory 100

asked_for-Passes : Passes asked_for 0 marked_state
unfolding request_at find_empty_entry dir_table_search index_of same_bytes memcmp decode_dir
    decode_entry read_clusters cluster_to_lba read_blocks load_bytes
asked_for-Passes = record {
  named = refl;
  slot_found = refl;
  slot_plain = omega arith;
  absent = refl;
}

asked_for-CanMake : CanMake asked_for 0 marked_state
unfolding request_at free_count decode_dir decode_entry read_clusters cluster_to_lba read_blocks
    load_bytes
asked_for-CanMake = record {
  volume = record { width = refl; words = fresh_words };
  request = omega arith;
  no_bytes = refl;
  passes = asked_for-Passes;
  parent_inside = omega arith;
  parent_not_fat = omega arith;
  parent_taken = omega arith;
  slot_kept = omega arith;
  room = omega arith;
}

abbrev with_docs : State Image
with_docs = (read_directory-write noon asked_for 0 marked_state asked_for-CanMake).1

abbrev listed_docs : State Image
listed_docs = (read_directory-write noon asked_for 0 marked_state asked_for-CanMake).2

abbrev docs_table : List ℕ
docs_table = encode_dir (
    folder_table noon asked_for
      (read_directory-write noon asked_for 0 marked_state asked_for-CanMake).0)

abbrev docs_reply : Reply
docs_reply = record { code = pos 0; output = some docs_table }

abbrev shell_before : Session Image
shell_before = record session { files = with_docs }

abbrev shell_after : Session Image
shell_after = record session { files = listed_docs }

abbrev kernel_before : Kernel Image Controller
kernel_before = record kernel { files = with_docs; memory = user_memory }

abbrev cpu : CpuRegister
cpu = record { eax = 1; ebx = 100; ecx = 50; edx = 0 }

listing_run :
    shell_call by_read_directory noon [] asked_for shell_before ≡ some (docs_reply, shell_after)
unfolding shell_call sys_read_directory
listing_run = rw ((read_directory-write noon asked_for 0 marked_state asked_for-CanMake).7) refl

docs-Clear : Clear 50 (buffer_address user_memory cpu) docs_reply.output
unfolding Clear load_bytes
docs-Clear = (
  encode_dir-Bytes _ (folder_table-IsEntry noon asked_for _ asked_for-CanMake.request),
  inl (omega arith),
)

nothing_shown : Simulates terminal shell_before kernel_before
unfolding Displays show_all
nothing_shown = record { files = refl; screen = refl }

main_interrupt_handler-Simulates_example :
    (k' : Kernel Image Controller) × (main_interrupt_handler 0 noon [] cpu 0x30 kernel_before
      ≡ some k')
    × Simulates terminal shell_after k'
    × (k'.memory 50 ≡ 0)
    × Holds k'.memory (buffer_address user_memory cpu) (some docs_table)
main_interrupt_handler-Simulates_example =
    main_interrupt_handler-Simulates by_read_directory 0 noon [] cpu terminal docs_reply
      shell_before shell_after kernel_before refl listing_run docs-Clear nothing_shown
