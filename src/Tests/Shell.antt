-- ===== src/Tests/Shell.antt =====
-- The shell, a restart, the screen and the keyboard's text at concrete inputs.
use if2230_2023_ntaraja.Keyboard.Requests.Progress.{keyboard_isr-Run}
use if2230_2023_ntaraja.Interrupt.Screen.{main_interrupt_handler-Displays, show_all, Displays}
use if2230_2023_ntaraja.Keyboard.Line.{IsLine}
use if2230_2023_ntaraja.Keyboard.Requests.{booted, requested, waiting, at_boot, Run-IsLine, Run}
use if2230_2023_ntaraja.Interrupt.{main_interrupt_handler, CpuRegister, Kernel}
use if2230_2023_ntaraja.Fat32.RoundTrip.{CanStore}
use if2230_2023_ntaraja.Fat32.Layout.{decode_entry, decode_dir}
use if2230_2023_ntaraja.Keyboard.Editor.Handler.{handle_key-Ended, handle_key-Shows}
use if2230_2023_ntaraja.Terminal.Screen.{puts-position, position}
use if2230_2023_ntaraja.Disk.{cluster_to_lba, read_clusters, cluster_size}
use if2230_2023_ntaraja.Fat32.Reading.{read}
use if2230_2023_ntaraja.Keyboard.Isr.{keyboard_isr, handle_key}
use if2230_2023_ntaraja.Memory.{memcmp, load_bytes}
use if2230_2023_ntaraja.Keyboard.{keyboard_state_activate, get_keyboard_buffer, Keyboard}
use if2230_2023_ntaraja.Shell.{copy_ext, copy_name, readfname, slen}
use if2230_2023_ntaraja.Terminal.{Terminal, puts}
use if2230_2023_ntaraja.Keyboard.Editor.{press, Shows, text, Editor}
use if2230_2023_ntaraja.Fat32.Writing.{write}
use if2230_2023_ntaraja.Fat32.Directory.{index_of, dir_table_search, find_empty_entry, same_bytes}
use if2230_2023_ntaraja.Shell.Commands.{cat, sys_write}
use if2230_2023_ntaraja.Fat32.Volume.{
  initialize_filesystem_fat32, zero_cluster, fs_signature, is_empty_storage,
}
use if2230_2023_ntaraja.Fat32.{State, Request}
use if2230_2023_ntaraja.Inserter.{read_blocks, Image}
use if2230_2023_ntaraja.Fat32.Writing.Free.{free_count}
use if2230_2023_ntaraja.Prelude.{
  length, if◌then◌else◌, true, take, some, pos, ◌==◌, ◌<◌, ◌++◌, ◌%◌, ◌∷◌, replicate, refl, get_or,
  false, byte_at, arith, [], ◌≡◌,
}
use if2230_2023_ntaraja.Tests.Fat.{noon, fresh_state, fresh_words}
use if2230_2023_ntaraja.Tests.Machine.{Controller, controller}
use if2230_2023_ntaraja.Inserter.Device.{image_device}
use if2230_2023_ntaraja.Shell.Session.{
  print, copy_text, copy_string, codes, name_fields, printed, empty_path, Session,
}
use if2230_2023_ntaraja.Shell.Printing.{cat-write, new_file}
use if2230_2023_ntaraja.Fat32.RoundTrip.Restart.{read-initialize_filesystem_fat32, rebooted}

-- A shell in the root directory of an empty image that holds the signature
abbrev pub marked_image : Image
marked_image = λ a. get_or fs_signature a 0

abbrev pub marked_state : State Image
marked_state = record fresh_state { disk = marked_image }

abbrev pub session : Session Image
session = record {
  files = marked_state;
  current_dir = 2;
  cur_table = zero_cluster;
  cur_dir_name = b'/' ∷ empty_path;
  root_table = zero_cluster;
  rand_number = 0;
  screen = [];
}

abbrev pub note : Request
note =
    new_file noon (byte_at (b'h' ∷ b'i' ∷ [])) (b'a' ∷ replicate 7 0) (b't' ∷ b'x' ∷ b't' ∷ []) 0
      session

note-CanStore : CanStore note 0 marked_state
unfolding find_empty_entry dir_table_search index_of same_bytes memcmp decode_dir decode_entry
    read_clusters cluster_to_lba read_blocks load_bytes free_count
note-CanStore = record {
  volume = record { width = refl; words = fresh_words };
  request = omega arith;
  named = refl;
  some_bytes = omega arith;
  parent_inside = omega arith;
  parent_not_fat = omega arith;
  parent_taken = omega arith;
  slot_found = refl;
  slot_plain = omega arith;
  absent = refl;
  room = omega arith;
}

marked : (is_empty_storage marked_state).0 ≡ false
unfolding is_empty_storage same_bytes memcmp read_clusters cluster_to_lba read_blocks load_bytes
marked = refl

note_name : name_fields (codes "a.txt" ++ 0 ∷ []) ≡ some (note.name, note.ext)
unfolding name_fields readfname copy_name copy_ext copy_string copy_text slen
note_name = refl

note_text : slen (load_bytes note.buf 0 cluster_size) ≡ some 2
unfolding slen load_bytes
note_text = refl

cat-write_example :
    (s' : Session Image) × (s'' : Session Image) × (sys_write noon note session ≡ some (pos 0, s'))
    × (cat [] (codes "a.txt" ++ 0 ∷ []) s' ≡ some s'')
    × (s''.screen ≡ session.screen ++ (take 2 (load_bytes note.buf 0 cluster_size), 0xF) ∷ [])
cat-write_example =
    cat-write noon note.buf note.name note.ext 0 session [] (codes "a.txt" ++ 0 ∷ []) 2
      note-CanStore note_name note_text (omega arith)

read-initialize_filesystem_fat32_example :
    (s' : State Image) × (s'' : State Image) × (write noon note marked_state ≡ some (pos 0, s'))
    × (read [] note (initialize_filesystem_fat32 noon [] (rebooted s' [] [] []))
        ≡ some (record { code = pos 0; output = some (load_bytes note.buf 0 2048) }, s''))
read-initialize_filesystem_fat32_example =
    read-initialize_filesystem_fat32 noon note 0 marked_state note-CanStore noon [] [] [] [] []
      (λ e. omega arith) (λ e. omega arith) marked

-- A terminal on the last row of the screen
abbrev pub terminal : Terminal Controller
terminal = record {
  row = 24;
  column = 79;
  background_color = 0;
  display = record {
    hw = (0, λ k. if k == 0x0F then 0xCF else if k == 0x0E then 7 else 0);
    cells = λ a. a % 100;
  };
}

greeting_printed : printed 9 (codes "hi\n" ++ 0 ∷ []) ≡ some (codes "hi\n")
unfolding printed
greeting_printed = refl

puts-position_example :
    (t' : Terminal Controller) × (puts (codes "hi\n" ++ 0 ∷ []) 9 0xF terminal ≡ some t')
    × (position t'.display < 2000)
    × (t'.display.cells 4000 ≡ terminal.display.cells 4000)
puts-position_example =
    puts-position (codes "hi\n" ++ 0 ∷ []) (codes "hi\n") 9 0xF 4000 terminal greeting_printed
      (omega arith) (omega arith)

-- `abc` with the cursor behind the `a`
abbrev editor : Editor
editor = record { before = b'a' ∷ []; after = b'b' ∷ b'c' ∷ [] }

abbrev typing : Keyboard Controller
typing = record {
  input_on = true;
  buffer_index = 1;
  buffer_index_max = 3;
  buffer = b'a' ∷ b'b' ∷ b'c' ∷ replicate 253 0;
  display = terminal.display;
}

editor-Shows : Shows editor typing
unfolding text
editor-Shows = record {
  line = record { width = refl; cursor = omega arith; small = omega arith };
  index = refl;
  max = refl;
  chars = refl;
}

-- The left arrow
handle_key-Shows_example :
    (s' : Keyboard Controller) × (handle_key 0x4B 0 24 79 typing ≡ some s')
    × Shows (press 0x4B 0 editor) s'
handle_key-Shows_example =
    handle_key-Shows 0x4B 0 24 79 editor typing editor-Shows (omega arith) refl

handle_key-Ended_example :
    (s' : Keyboard Controller) × (handle_key 0x1C 10 24 79 typing ≡ some s')
    × (s'.input_on ≡ false)
    × (take 1 (get_keyboard_buffer s').0 ≡ editor.before)
    × (byte_at (get_keyboard_buffer s').0 1 ≡ 0)
handle_key-Ended_example = handle_key-Ended 0x1C 24 79 editor typing editor-Shows

-- A request, and the left arrow, which the controller has as its key
abbrev asked : Keyboard Controller
asked = keyboard_state_activate (at_boot terminal.display)

asked-Run : Run waiting asked
asked-Run = requested (at_boot terminal.display) (booted terminal.display)

Run-IsLine_example : (length asked.buffer ≡ 256) × (asked.input_on ≡ true → IsLine asked)
Run-IsLine_example = Run-IsLine waiting asked asked-Run

asked_room : asked.buffer_index_max < 255
unfolding keyboard_state_activate
asked_room = omega arith

keyboard_isr-Run_example :
    (s' : Keyboard Controller) × (keyboard_isr asked ≡ some s') × Run waiting s'
keyboard_isr-Run_example = keyboard_isr-Run waiting asked asked-Run asked_room

-- The user's memory holds a greeting at address 0.
abbrev pub kernel : Kernel Image Controller
kernel = record {
  files = marked_state;
  keyboard = typing;
  row = 24;
  column = 79;
  background_color = 0;
  memory = byte_at (codes "hi\n" ++ 0 ∷ []);
}

abbrev greeting_call : CpuRegister
greeting_call = record { eax = 5; ebx = 0; ecx = 3; edx = 0xF }

abbrev greeted : Session Image
greeted = record session { screen = (codes "hi\n", 0xF) ∷ [] }

greeting_print : print (load_bytes kernel.memory 0 3) 3 0xF session ≡ some greeted
unfolding print printed load_bytes
greeting_print = refl

nothing_shown : Displays terminal session kernel
unfolding Displays show_all
nothing_shown = refl

main_interrupt_handler-Displays_example :
    (k' : Kernel Image Controller) × (main_interrupt_handler 1 noon [] greeting_call 0x30 kernel
      ≡ some k')
    × Displays terminal greeted k'
    × (k'.files ≡ kernel.files)
    × (k'.memory ≡ kernel.memory)
main_interrupt_handler-Displays_example =
    main_interrupt_handler-Displays 1 noon [] greeting_call terminal session greeted kernel refl
      greeting_print nothing_shown
