-- ===== src/Keyboard.antt =====
-- src/keyboard.c: the line that is being typed, mirrored on the screen. `none` stands for an access
-- past the end of the buffer.
pub mod Line
pub mod Typing
pub mod Erasing
pub mod Editor
pub mod Isr
pub mod Sound
pub mod Requests
use if2230_2023_ntaraja.Prelude.{
  ℕ, zero, suc, ◌+◌, ◌-◌, ◌*◌, ◌/◌, ◌%◌, ◌^◌, ◌==◌, ltb, leb, ◌&&◌, Bool, true, false, List, Option,
  none, some, get_elem?, set, byte_at, replicate, if◌then◌else◌,
}
use if2230_2023_ntaraja.Prelude.Opt.{◌>>=◌}
use if2230_2023_ntaraja.Ports.{Ports}
use if2230_2023_ntaraja.Framebuffer.{
  Display, newline, framebuffer_set_cursor, framebuffer_get_cursor, framebuffer_write,
}

abbrev pub keyboard_buffer_size : ℕ
keyboard_buffer_size = 256

-- `struct KeyboardDriverState`, less its unused field, with the screen that the driver draws on
pub record Keyboard (Hw : Type 0) : Type 0 where
  pub input_on : Bool
  pub buffer_index : ℕ
  pub buffer_index_max : ℕ
  pub buffer : List ℕ
  pub display : Display Hw

module _ {Hw : Type 0} ⦃ports : Ports Hw⦄ where
  pub clear_buffer : Keyboard Hw → Keyboard Hw
  clear_buffer s = record s { buffer_index = 0; buffer_index_max = 0; buffer = replicate 256 0 }

  -- A character at `col` columns behind the start of row `r`, in white on black
  abbrev pub draw : ℕ → ℕ → ℕ → Display Hw → Display Hw
  draw r col ch d = framebuffer_write ((r + col / 80) % 2 ^ 8) (col % 80) ch 0x0F 0x00 d

  -- `for (ii = max; ii > index; ii--)`, with `index + rounds` for `ii`
  pub shift_right : ℕ → ℕ → ℕ → Keyboard Hw → Keyboard Hw
  shift_right r c zero s = s
  shift_right r c (suc rounds) s =
      let ii = s.buffer_index + suc rounds in
      let ch = byte_at s.buffer (s.buffer_index + rounds) in
      let col = (c + suc rounds) % 2 ^ 8 in
      shift_right r c rounds
        (record s { buffer = set s.buffer ii ch; display = draw r col ch s.display })

  -- The counters are bytes.
  unfoldable pub keyboard_insert : ℕ → Keyboard Hw → Keyboard Hw
  keyboard_insert ch s =
      if s.buffer_index_max == keyboard_buffer_size - 1
      then s
      else (let ((r, c), d₁) = framebuffer_get_cursor s.display in
          let s₁ =
            shift_right r c (s.buffer_index_max - s.buffer_index) (record s { display = d₁ }) in
          let d₂ = framebuffer_write ((r + c / 80) % 2 ^ 8) c ch 0x0F 0x00 s₁.display in
          record s₁ {
            buffer = set s₁.buffer s.buffer_index ch;
            buffer_index = (s.buffer_index + 1) % 2 ^ 8;
            buffer_index_max = (s.buffer_index_max + 1) % 2 ^ 8;
            display = framebuffer_set_cursor r ((c + 1) % 2 ^ 8) d₂;
          })

  -- `for (ii = index - 1; ii <= max; ii++)` with a byte for `ii`, on fuel
  pub shift_left : ℕ → ℕ → ℕ → ℕ → Keyboard Hw → Option (Keyboard Hw)
  shift_left zero r c ii s = none
  shift_left (suc fuel) r c ii s = elim (leb ii s.buffer_index_max) [
    | false ↦ some s
    | true ↦ do
      ch ← get_elem? s.buffer (ii + 1)
      let col = (c + 2 ^ 8 + ii - s.buffer_index) % 2 ^ 8
      shift_left fuel r c ((ii + 1) % 2 ^ 8)
          (record s { buffer = set s.buffer ii ch; display = draw r col ch s.display })
  ]

  unfoldable pub keyboard_delete : Keyboard Hw → Option (Keyboard Hw)
  keyboard_delete s = if s.buffer_index == 0 then some s else do
    let ((r, c), d₁) = framebuffer_get_cursor s.display
    s₁ ← shift_left 257 r c (s.buffer_index - 1) (record s { display = d₁ })
    let col = (c + 2 ^ 8 + s.buffer_index_max - s.buffer_index) % 2 ^ 8
    let d₂ = draw r col b' ' s₁.display
    some (record s₁ {
      buffer = set s₁.buffer s.buffer_index_max b' ';
      buffer_index = s.buffer_index - 1;
      buffer_index_max = (s.buffer_index_max + 2 ^ 8 - 1) % 2 ^ 8;
      display = framebuffer_set_cursor r ((c + 2 ^ 8 - 1) % 2 ^ 8) d₂;
    })

  unfoldable pub keyboard_state_activate : Keyboard Hw → Keyboard Hw
  keyboard_state_activate s = record s { input_on = true }

  unfoldable pub keyboard_state_deactivate : Keyboard Hw → Keyboard Hw
  keyboard_state_deactivate s = record s { input_on = false }

  -- The bytes that go to the caller, and the cleared driver
  unfoldable pub get_keyboard_buffer : Keyboard Hw → List ℕ × Keyboard Hw
  get_keyboard_buffer s = (s.buffer, clear_buffer s)
