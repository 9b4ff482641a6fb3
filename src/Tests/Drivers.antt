-- ===== src/Tests/Drivers.antt =====
-- The screen, the keyboard, the tables of the processor and the shell's helpers at concrete inputs.
use if2230_2023_ntaraja.Keyboard.Erasing.{
  keyboard_delete-Deleted, Deleted, keyboard_delete-keyboard_insert,
}
use if2230_2023_ntaraja.Keyboard.Line.{IsLine}
use if2230_2023_ntaraja.Tests.Machine.{Controller, controller}
use if2230_2023_ntaraja.Framebuffer.Scroll.{scroll_lem}
use if2230_2023_ntaraja.Idt.Gates.{initialize_idt-LeadsTo, LeadsTo}
use if2230_2023_ntaraja.Shell.Coin.{flips-in_turn, in_turn, flips}
use if2230_2023_ntaraja.Paging.{
  user_flags, page_frame_size, initial_pages, update_page_directory_entry,
  allocate_single_user_page_frame,
}
use if2230_2023_ntaraja.Keyboard.{keyboard_delete, keyboard_insert, Keyboard}
use if2230_2023_ntaraja.Framebuffer.{scroll, Display}
use if2230_2023_ntaraja.Shell.{rand_seed}
use if2230_2023_ntaraja.Paging.Translation.{
  update_page_directory_entry-translate, page_of, allocate_single_user_page_frame-translate,
  translate, is_allowed, user_write, at, fault,
}
use if2230_2023_ntaraja.Idt.{IdtGate, initialize_idt}
use if2230_2023_ntaraja.Keyboard.Typing.{keyboard_insert-Typed, Typed}
use if2230_2023_ntaraja.Prelude.{
  if◌then◌else◌, zero, true, suc, some, replicate, not, negsuc, ltb, leb, get_elem?, byte_at, ◌^◌,
  List, ◌==◌, ◌<◌, ◌+◌, ◌*◌, ◌%◌, ℕ, ◌≡◌, refl, arith, [], ◌∷◌,
}

abbrev pub screen : Display Controller
screen = record { hw = (0, λ k. 0); cells = λ a. a % 100 }

scroll_lem_example : scroll screen.cells 3990 ≡ (
    if ltb 3990 3840
    then screen.cells (3990 + 160)
    else if ltb 3990 4000
    then (if 3990 % 2 == 0 then 0x00 else 0x07)
    else screen.cells 3990)
scroll_lem_example = scroll_lem screen.cells 3990

-- `abc` with the cursor on the `b`
abbrev typing : Keyboard Controller
typing = record {
  input_on = true;
  buffer_index = 1;
  buffer_index_max = 3;
  buffer = b'a' ∷ b'b' ∷ b'c' ∷ replicate 253 0;
  display = screen;
}

typing-IsLine : IsLine typing
typing-IsLine = record { width = refl; cursor = omega arith; small = omega arith }

keyboard_insert-Typed_example : Typed b'x' typing (keyboard_insert b'x' typing)
keyboard_insert-Typed_example = keyboard_insert-Typed b'x' typing typing-IsLine (omega arith)

abbrev pub no_gate : IdtGate
no_gate = record {
  offset_low = 0;
  segment = 0;
  reserved = 0;
  r_bit_1 = 0;
  r_bit_2 = 0;
  gate_32 = 0;
  r_bit_3 = 0;
  privilege = 0;
  valid_bit = 0;
  offset_high = 0;
}

abbrev pub stub_addresses : List ℕ
stub_addresses = 0xC0100200 ∷ 0xC0100210 ∷ []

pub stub_addresses-words : (k : ℕ) → byte_at stub_addresses k < 2 ^ 32
stub_addresses-words zero = omega arith
stub_addresses-words (suc zero) = omega arith
stub_addresses-words (suc (suc k)) = omega arith

initialize_idt-LeadsTo_example :
    (g : IdtGate) × (get_elem? (initialize_idt stub_addresses (replicate 256 no_gate)) 1 ≡ some g)
    × LeadsTo (byte_at stub_addresses 1) (if leb 48 1 then 3 else 0) g
initialize_idt-LeadsTo_example =
    initialize_idt-LeadsTo stub_addresses (replicate 256 no_gate) 1 stub_addresses-words refl
      (omega arith)

update_page_directory_entry-translate_example :
    translate user_write
      (update_page_directory_entry (3 * page_frame_size) 0x400000 user_flags initial_pages)
      0x400123
    ≡ (if page_of 0x400000 == page_of 0x400123
        then (if is_allowed user_write user_flags
            then at (3 * page_frame_size + 0x400123 % page_frame_size)
            else fault)
        else translate user_write initial_pages 0x400123)
update_page_directory_entry-translate_example =
    update_page_directory_entry-translate user_write 3 0x400000 0x400123 user_flags initial_pages
      refl refl refl (record { low = refl; clear = refl }) (omega arith)

allocate_single_user_page_frame-translate_example :
    let (code, s₁) = allocate_single_user_page_frame 0 initial_pages in
    let (code₂, s₂) = allocate_single_user_page_frame 0x400000 s₁ in
    (code ≡ negsuc 0)
    × (code₂ ≡ negsuc 0)
    × (translate user_write s₂ 0 ≡ at (1 * page_frame_size + 0 % page_frame_size))
    × (translate user_write s₂ 0x400000 ≡ at (1 * page_frame_size + 0x400000 % page_frame_size))
allocate_single_user_page_frame-translate_example =
    allocate_single_user_page_frame-translate user_write 1 0 0x400000 initial_pages refl refl
      (record { low = refl; clear = refl }) (record { low = refl; clear = refl }) (omega arith)
      (λ e. omega arith)

flips-in_turn_example : flips 3 rand_seed ≡ in_turn 3 (not (rand_seed % 2 == 0))
flips-in_turn_example = flips-in_turn 3 rand_seed

keyboard_delete-Deleted_example :
    (s' : Keyboard Controller) × (keyboard_delete typing ≡ some s') × Deleted typing s'
keyboard_delete-Deleted_example =
    keyboard_delete-Deleted typing typing-IsLine (omega arith) (omega arith)

keyboard_delete-keyboard_insert_example :
    (s' : Keyboard Controller) × (keyboard_delete (keyboard_insert b'x' typing) ≡ some s')
    × (s'.buffer_index ≡ typing.buffer_index)
    × (s'.buffer_index_max ≡ typing.buffer_index_max)
    × (byte_at s'.buffer 1 ≡ byte_at typing.buffer 1)
keyboard_delete-keyboard_insert_example =
    keyboard_delete-keyboard_insert b'x' typing 1 typing-IsLine (omega arith) (omega arith)
