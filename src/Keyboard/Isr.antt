-- ===== src/Keyboard/Isr.antt =====
-- src/keyboard.c: the interrupt handler, a key at a time.
use if2230_2023_ntaraja.Pic.{irq_keyboard, pic_ack}
use if2230_2023_ntaraja.Framebuffer.{
  framebuffer_write, newline, framebuffer_set_cursor, framebuffer_get_cursor,
}
use if2230_2023_ntaraja.Prelude.Opt.{◌>>=◌}
use if2230_2023_ntaraja.Ports.{Ports}
use if2230_2023_ntaraja.Prelude.{
  if◌then◌else◌, ◌∷◌, ℕ, zero, true, suc, some, set, replicate, ltb, false, byte_at, ◌^◌, Option,
  List, ◌==◌, ◌-◌, ◌+◌, ◌%◌,
}
use if2230_2023_ntaraja.Keyboard.{Keyboard, keyboard_insert, keyboard_delete, keyboard_buffer_size}

-- `keyboard_scancode_1_to_ascii_map`, with zeros behind the last key
unfoldable pub scancode_map : List ℕ
scancode_map =
    0
    ∷ 0x1B
    ∷ b'1'
    ∷ b'2'
    ∷ b'3'
    ∷ b'4'
    ∷ b'5'
    ∷ b'6'
    ∷ b'7'
    ∷ b'8'
    ∷ b'9'
    ∷ b'0'
    ∷ b'-'
    ∷ b'='
    ∷ 8
    ∷ 9
    ∷ b'q'
    ∷ b'w'
    ∷ b'e'
    ∷ b'r'
    ∷ b't'
    ∷ b'y'
    ∷ b'u'
    ∷ b'i'
    ∷ b'o'
    ∷ b'p'
    ∷ b'['
    ∷ b']'
    ∷ 10
    ∷ 0
    ∷ b'a'
    ∷ b's'
    ∷ b'd'
    ∷ b'f'
    ∷ b'g'
    ∷ b'h'
    ∷ b'j'
    ∷ b'k'
    ∷ b'l'
    ∷ b';'
    ∷ 39
    ∷ b'`'
    ∷ 0
    ∷ 92
    ∷ b'z'
    ∷ b'x'
    ∷ b'c'
    ∷ b'v'
    ∷ b'b'
    ∷ b'n'
    ∷ b'm'
    ∷ b','
    ∷ b'.'
    ∷ b'/'
    ∷ 0
    ∷ b'*'
    ∷ 0
    ∷ b' '
    ∷ 0
    ∷ 0
    ∷ 0
    ∷ 0
    ∷ 0
    ∷ 0
    ∷ 0
    ∷ 0
    ∷ 0
    ∷ 0
    ∷ 0
    ∷ 0
    ∷ 0
    ∷ 0
    ∷ 0
    ∷ 0
    ∷ b'-'
    ∷ 0
    ∷ 0
    ∷ 0
    ∷ b'+'
    ∷ 0
    ∷ replicate 176 0

abbrev pub backspace : ℕ
backspace = 8

abbrev pub tab : ℕ
tab = 9

module _ {Hw : Type 0} ⦃ports : Ports Hw⦄ where
  -- The character is drawn, the line is ended at the cursor, and input stops.
  unfoldable pub enter_key : ℕ → ℕ → Keyboard Hw → Keyboard Hw
  enter_key r c s = record s {
    display = framebuffer_write r c newline 0x0F 0x00 s.display;
    buffer = set s.buffer s.buffer_index 0;
    buffer_index = (s.buffer_index + 1) % 2 ^ 8;
    buffer_index_max = (s.buffer_index_max + 1) % 2 ^ 8;
    input_on = false;
  }

  -- Up to `rounds` spaces
  unfoldable pub tab_key : ℕ → Keyboard Hw → Keyboard Hw
  tab_key zero s = s
  tab_key (suc rounds) s =
      if ltb s.buffer_index (keyboard_buffer_size - 1)
      then tab_key rounds (keyboard_insert b' ' s)
      else s

  unfoldable pub left_key : ℕ → ℕ → Keyboard Hw → Keyboard Hw
  left_key r c s =
      if ltb 0 s.buffer_index
      then record s {
        buffer_index = s.buffer_index - 1;
        display =
            if c == 0
            then framebuffer_set_cursor ((r + 2 ^ 8 - 1) % 2 ^ 8) 79 s.display
            else framebuffer_set_cursor r (c - 1) s.display;
      }
      else s

  unfoldable pub right_key : ℕ → ℕ → Keyboard Hw → Keyboard Hw
  right_key r c s =
      if ltb s.buffer_index s.buffer_index_max
      then record s {
        buffer_index = s.buffer_index + 1;
        display =
            if c == 79
            then framebuffer_set_cursor ((r + 1) % 2 ^ 8) 0 s.display
            else framebuffer_set_cursor r (c + 1) s.display;
      }
      else s

  -- What one scancode does, with its character and the cursor
  unfoldable pub handle_key : ℕ → ℕ → ℕ → ℕ → Keyboard Hw → Option (Keyboard Hw)
  handle_key scancode ch r c s =
      if ch == backspace
      then keyboard_delete s
      else if ch == newline
      then some (enter_key r c s)
      else if ch == tab
      then some (tab_key 4 s)
      else if ch == 0
      then some (
          if scancode == 0x4B
          then left_key r c s
          else if scancode == 0x4D
          then right_key r c s
          else s)
      else if ltb s.buffer_index_max (keyboard_buffer_size - 1)
      then some (keyboard_insert ch s)
      else some s

  -- The acknowledgement, at the ports behind the screen
  abbrev pub acknowledge : Keyboard Hw → Keyboard Hw
  acknowledge s =
      let d = s.display in record s { display = record d { hw = pic_ack irq_keyboard d.hw } }

  unfoldable pub keyboard_isr : Keyboard Hw → Option (Keyboard Hw)
  keyboard_isr s = elim s.input_on [
    | false ↦ some (acknowledge (record s { buffer_index = 0 }))
    | true ↦ do
      let d = s.display
      let (scancode, h) = ports.in_byte d.hw 0x60
      let ((r, c), d₁) = framebuffer_get_cursor (record d { hw = h })
      s' ← handle_key scancode (byte_at scancode_map scancode) r c (record s { display = d₁ })
      some (acknowledge s')
  ]
