-- ===== src/Framebuffer.antt =====
-- src/framebuffer.c: the text screen, and the hardware cursor behind two ports. `cells` gives the
-- bytes from MEMORY_FRAMEBUFFER on: a character at each even offset, its colour behind it.
pub mod Cursor
pub mod Scroll
use if2230_2023_ntaraja.Prelude.{
  ℕ, zero, suc, ◌+◌, ◌*◌, ◌/◌, ◌%◌, ◌^◌, bit_and, bit_or, ◌==◌, ◌&&◌, if◌then◌else◌,
}
use if2230_2023_ntaraja.Memory.{Mem, memset, memcpy}
use if2230_2023_ntaraja.Ports.{Ports}

pub record Display (Hw : Type 0) : Type 0 where
  pub hw : Hw
  pub cells : Mem

-- `'\n'`
abbrev pub newline : ℕ
newline = 10

-- The first loop of the scroll: `rounds` cells are left, from offset `i` on.
pub scroll_rows : ℕ → ℕ → Mem → Mem
scroll_rows zero i m = m
scroll_rows (suc rounds) i m =
    scroll_rows rounds (i + 2) (memcpy (i + 1) (i + 161) 1 (memcpy i (i + 160) 1 m))

-- The loop that blanks `rounds` cells from offset `i` on
pub blank_cells : ℕ → ℕ → Mem → Mem
blank_cells zero i m = m
blank_cells (suc rounds) i m =
    blank_cells rounds (i + 2) (memset (i + 1) 0x07 1 (memset i 0x00 1 m))

-- The rows move up by one, and the last row is blanked.
unfoldable pub scroll : Mem → Mem
scroll m = blank_cells 80 3840 (scroll_rows 1920 0 m)

-- `(bg << 4) | (fg & 0x0F)` as a `uint8_t`
abbrev pub attribute : ℕ → ℕ → ℕ
attribute fg bg = bit_or (bg * 2 ^ 4) (bit_and fg 0x0F) % 2 ^ 8

module _ {Hw : Type 0} ⦃ports : Ports Hw⦄ where
  -- `pos` is a `uint16_t`; the rows and columns are bytes.
  unfoldable pub framebuffer_set_cursor : ℕ → ℕ → Display Hw → Display Hw
  framebuffer_set_cursor r c d =
      let position = (r * 80 + c) % 2 ^ 16 in
      let low = ports.out (ports.out d.hw 0x3D4 0x0F) 0x3D5 (position % 2 ^ 8) in
      let high = ports.out (ports.out low 0x3D4 0x0E) 0x3D5 (position / 2 ^ 8 % 2 ^ 8) in
      record d { hw = high }

  -- The high byte is shifted into an empty half, so `|=` is a sum.
  unfoldable pub framebuffer_get_cursor : Display Hw → (ℕ × ℕ) × Display Hw
  framebuffer_get_cursor d =
      let (low, h₁) = ports.in_byte (ports.out d.hw 0x3D4 0x0F) 0x3D5 in
      let (high, h₂) = ports.in_byte (ports.out h₁ 0x3D4 0x0E) 0x3D5 in
      let position = low + high * 2 ^ 8 in
      ((position / 80 % 2 ^ 8, position % 80), record d { hw = h₂ })

  unfoldable pub framebuffer_write : ℕ → ℕ → ℕ → ℕ → ℕ → Display Hw → Display Hw
  framebuffer_write row col c fg bg d =
      let offset = 2 * (row * 80 + col) in
      if (row == 24) && (c == newline)
      then framebuffer_set_cursor 24 0 (record d { cells = scroll d.cells })
      else if c == newline
      then framebuffer_set_cursor ((row + 1) % 2 ^ 8) 0 d
      else record d { cells = memset (offset + 1) (attribute fg bg) 1 (memset offset c 1 d.cells) }

  unfoldable pub framebuffer_clear : Display Hw → Display Hw
  framebuffer_clear d = record d { cells = blank_cells 2000 0 d.cells }
