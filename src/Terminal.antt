-- ===== src/Terminal.antt =====
-- src/terminal.c: text on the screen, with scrolling at the last row.
pub mod Screen
use if2230_2023_ntaraja.Prelude.{
  ◌-◌, ◌*◌, ℕ, zero, suc, ◌+◌, ◌%◌, ◌^◌, ◌==◌, List, [], ◌∷◌, Option, none, some, if◌then◌else◌,
}
use if2230_2023_ntaraja.Framebuffer.{
  Display, scroll, newline, framebuffer_get_cursor, framebuffer_set_cursor, framebuffer_write,
}
use if2230_2023_ntaraja.Ports.{Ports}

-- The screen, and the file's three variables
pub record Terminal (Hw : Type 0) : Type 0 where
  pub display : Display Hw
  pub row : ℕ
  pub column : ℕ
  pub background_color : ℕ

abbrev pub vga_width : ℕ
vga_width = 80

abbrev pub vga_height : ℕ
vga_height = 25

module _ {Hw : Type 0} ⦃ports : Ports Hw⦄ where
  -- The blank is written `rounds` times, each time to the first cell.
  pub blank_loop : ℕ → Display Hw → Display Hw
  blank_loop zero d = d
  blank_loop (suc rounds) d = blank_loop rounds (framebuffer_write 0 0 b' ' 0x0F 0x0F d)

  unfoldable pub init_terminal : Terminal Hw → Terminal Hw
  init_terminal t = record {
    row = 0;
    column = 0;
    background_color = 0x0F;
    display = blank_loop (vga_width * vga_height) t.display;
  }

  unfoldable pub terminal_set_background_color : ℕ → Terminal Hw → Terminal Hw
  terminal_set_background_color color t = record t { background_color = color }

  -- A newline at row `r`: the next row, or the last one again with the others moved up
  unfoldable pub put_newline : ℕ → Terminal Hw → Terminal Hw
  put_newline r t =
      let next = if r == 24 then 24 else (r + 1) % 2 ^ 8 in
      let d = t.display in
      let d' = if r == 24 then record d { cells = scroll d.cells } else d in
      record t { display = framebuffer_set_cursor next 0 d'; row = next; column = 0 }

  -- Another character at row `r` and column `c`
  unfoldable pub put_plain : ℕ → ℕ → ℕ → ℕ → Terminal Hw → Terminal Hw
  put_plain r c ch color t =
      let d = framebuffer_write r c ch (color % 2 ^ 8) t.background_color t.display in
      let c' = (c + 1) % 2 ^ 8 in
      let wrapped = c' == vga_width in
      let r' = (r + 1) % 2 ^ 8 in
      let row' = if wrapped then (if r' == vga_height then vga_height - 1 else r') else r in
      let column' = if wrapped then 0 else c' in
      record t { display = framebuffer_set_cursor row' column' d; row = row'; column = column' }

  -- One character that is not the end of the string
  unfoldable pub put_char : ℕ → ℕ → Terminal Hw → Terminal Hw
  put_char ch color t =
      let ((r, c), d) = framebuffer_get_cursor t.display in
      let t' = record t { display = d; row = r; column = c } in
      if ch == newline then put_newline r t' else put_plain r c ch color t'

  -- `len` characters at most; `none` where the string's memory ends before
  unfoldable pub puts : List ℕ → ℕ → ℕ → Terminal Hw → Option (Terminal Hw)
  puts text zero color t = some t
  puts [] (suc len) color t = none
  puts (ch ∷ text) (suc len) color t =
      if ch == 0 then some t else puts text len color (put_char ch color t)
