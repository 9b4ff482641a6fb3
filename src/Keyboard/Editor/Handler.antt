-- ===== src/Keyboard/Editor/Handler.antt =====
-- src/keyboard.c: the interrupt handler and the editor's text.
use if2230_2023_ntaraja.Keyboard.Editor.Keys.{
  right_key-Shows, left_key-Shows, keyboard_insert-Shows, tab_key-Shows, chars_at,
  keyboard_delete-Shows,
}
use if2230_2023_ntaraja.Framebuffer.{newline}
use if2230_2023_ntaraja.Keyboard.Editor.Indices.{byte_at-append, take-eq}
use if2230_2023_ntaraja.Prelude.{
  set, ne→==, length-set, is_zero, inr, inl, Bool-cases, true, ltb, false, refl, eq→==, ℕ, ◌+◌, ◌-◌,
  ◌<◌, ◌≡◌, ◌∙◌, ◌==◌, length, take, byte_at, some, arith,
}
use if2230_2023_ntaraja.Ports.{Ports}
use if2230_2023_ntaraja.Keyboard.{
  get_keyboard_buffer, Keyboard, keyboard_insert, keyboard_buffer_size,
}
use if2230_2023_ntaraja.Keyboard.Line.{byte_at-set}
use if2230_2023_ntaraja.Keyboard.Isr.{
  tab, backspace, handle_key, enter_key, tab_key, left_key, right_key,
}
use if2230_2023_ntaraja.Keyboard.Editor.{Editor, Shows, go_right, press}

module _ {Hw : Type 0} ⦃ports : Ports Hw⦄ where
  -- For a line with room for four more characters that shows an editor's text and cursor, the
  -- handler returns for every key but the newline, and the line then shows what that key makes
  -- of the text: a character is typed before the cursor, a tab is four spaces, backspace
  -- erases, and the arrows move the cursor.
  pub handle_key-Shows :
      (scancode ch r c : ℕ) (e : Editor) (s : Keyboard Hw)
      → Shows e s
      → s.buffer_index_max + 4 < keyboard_buffer_size
      → (ch == newline) ≡ false
      → (s' : Keyboard Hw) × (handle_key scancode ch r c s ≡ some s')
        × Shows (press scancode ch e) s'
  unfolding handle_key press go_right
  handle_key-Shows scancode ch r c e s shows room not_enter =
      let inside : ltb s.buffer_index_max (keyboard_buffer_size - 1) ≡ true = ground arith in
      elim (Bool-cases (ch == backspace)) [
        | inl is_backspace ↦ rw (is_backspace) (keyboard_delete-Shows e s shows (omega arith))
        | inr not_backspace ↦ elim (Bool-cases (ch == tab)) [
          | inl is_tab ↦ (
            tab_key 4 s,
            rw (not_backspace, not_enter, is_tab) refl,
            rw (not_backspace, is_tab) (tab_key-Shows 4 e s shows room),
          )
          | inr not_tab ↦ elim (Bool-cases (ch == 0)) [
            | inr not_zero ↦ (
              keyboard_insert ch s,
              rw (not_backspace, not_enter, not_tab, not_zero, inside) refl,
              rw (not_backspace, not_tab, not_zero)
                  (keyboard_insert-Shows ch e s shows (omega arith)),
            )
            | inl is_zero ↦ elim (Bool-cases (scancode == 0x4B)) [
              | inl is_left ↦ (
                left_key r c s,
                rw (not_backspace, not_enter, not_tab, is_zero, is_left) refl,
                rw (not_backspace, not_tab, is_zero, is_left) (left_key-Shows r c e s shows),
              )
              | inr not_left ↦ elim (Bool-cases (scancode == 0x4D)) [
                | inl is_right ↦ (
                  right_key r c s,
                  rw (not_backspace, not_enter, not_tab, is_zero, not_left, is_right) refl,
                  rw (not_backspace, not_tab, is_zero, not_left, is_right)
                      (right_key-Shows r c e.before e.after s shows),
                )
                | inr not_right ↦ (
                  s,
                  rw (not_backspace, not_enter, not_tab, is_zero, not_left, not_right) refl,
                  rw (not_backspace, not_tab, is_zero, not_left, not_right) shows,
                )
              ]
            ]
          ]
        ]
      ]

  -- The newline key ends the input, and the bytes that the caller then gets are the text before
  -- the cursor and a zero: what stood behind the cursor is cut off.
  pub handle_key-Ended :
      (scancode r c : ℕ) (e : Editor) (s : Keyboard Hw)
      → Shows e s
      → (s' : Keyboard Hw) × (handle_key scancode newline r c s ≡ some s')
        × (s'.input_on ≡ false)
        × (take (length e.before) (get_keyboard_buffer s').0 ≡ e.before)
        × (byte_at (get_keyboard_buffer s').0 (length e.before) ≡ 0)
  unfolding handle_key enter_key get_keyboard_buffer
  handle_key-Ended scancode r c e s shows =
      let within : s.buffer_index < length s.buffer =
        omega (arith, shows.line.width, shows.line.cursor, shows.line.small) in
      let here = length e.before in
      (
        enter_key r c s,
        refl,
        refl,
        take-eq (set s.buffer s.buffer_index 0) e.before
            (omega (arith, length-set s.buffer s.buffer_index 0, shows.index))
            (λ j lt.
              byte_at-set s.buffer s.buffer_index 0 j within
              ∙ rw (ne→== s.buffer_index j (λ same. omega (arith, shows.index))) (
                  chars_at e s j shows (omega arith)
                  ∙ byte_at-append e.before e.after j
                  ∙ ground arith)),
        byte_at-set s.buffer s.buffer_index 0 here within
            ∙ rw (eq→== s.buffer_index here shows.index) refl,
      )
