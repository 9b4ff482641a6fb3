-- ===== src/Terminal/Screen.antt =====
-- src/terminal.c: puts character by character, and the bounds of the screen.
use if2230_2023_ntaraja.Framebuffer.{attribute}
use if2230_2023_ntaraja.Memory.Copy.{memset_fills}
use if2230_2023_ntaraja.Framebuffer.Scroll.{scroll_lem}
use if2230_2023_ntaraja.Memory.{memset}
use if2230_2023_ntaraja.Framebuffer.Cursor.{set_cursor_registers, get_cursor_registers}
use if2230_2023_ntaraja.Prelude.{
  inr, inl, false, ap, Option-cases, Bool-cases, ==→ne, ◌==◌, refl, ℕ, zero, suc, ◌+◌, ◌*◌, ◌%◌,
  ◌^◌, ◌/◌, ◌≤◌, ◌<◌, ◌≡◌, ◌∙◌, List, [], ◌∷◌, some, arith,
}
use if2230_2023_ntaraja.Prelude.Opt.{◌>>=◌}
use if2230_2023_ntaraja.Ports.{Ports}
use if2230_2023_ntaraja.Framebuffer.{
  scroll, newline, Display, framebuffer_get_cursor, framebuffer_set_cursor, framebuffer_write,
}
use if2230_2023_ntaraja.Shell.Session.{printed}
use if2230_2023_ntaraja.Terminal.{Terminal, puts, put_char, put_plain, put_newline}

module _ {Hw : Type 0} ⦃ports : Ports Hw⦄ where
  unfoldable pub put_all : List ℕ → ℕ → Terminal Hw → Terminal Hw
  put_all [] color t = t
  put_all (ch ∷ text) color t = put_all text color (put_char ch color t)

  -- puts shows the characters up to the string's zero, its length at most, one by one, and is
  -- undefined just where the string's memory ends before.
  pub puts-put_all :
      (text : List ℕ) (len color : ℕ) (t : Terminal Hw)
      → puts text len color t ≡ (do shown ← printed len text; some (put_all shown color t))
  unfolding puts printed put_all
  puts-put_all text zero color t = refl
  puts-put_all [] (suc len) color t = refl
  puts-put_all (ch ∷ text) (suc len) color t = elim (Bool-cases (ch == 0)) [
    | inl e ↦ rw e refl
    | inr e ↦ rw e (
        puts-put_all text len color (put_char ch color t) ∙ elim (Option-cases (printed len text)) [
          | inl lost ↦ rw lost refl
          | inr (shown, found) ↦ rw found refl
        ])
  ]

  -- The display controller's position
  abbrev pub position : Display Hw → ℕ
  position d = ports.cursor d.hw 0x0F + ports.cursor d.hw 0x0E * 2 ^ 8

  -- The cursor is on the screen, and the memory from `a` on, behind the screen, holds `v` there.
  record OnScreen (a v : ℕ) (d : Display Hw) : Type 0 where
    on : position d < 2000
    kept : d.cells a ≡ v

  set_cursor-OnScreen :
      (a v r c : ℕ) (d : Display Hw)
      → r < 25
      → c < 80
      → d.cells a ≡ v
      → OnScreen a v (framebuffer_set_cursor r c d)
  unfolding framebuffer_set_cursor
  set_cursor-OnScreen a v r c d hr hc kept =
      let (low, high) = set_cursor_registers d r c in
      record { on = omega (arith, low, high); kept = kept }

  put_newline-OnScreen :
      (a v r : ℕ) (t : Terminal Hw)
      → 4000 ≤ a
      → r < 25
      → t.display.cells a ≡ v
      → OnScreen a v (put_newline r t).display
  unfolding put_newline
  put_newline-OnScreen a v r t behind hr kept = elim (Bool-cases (r == 24)) [
    | inl last ↦ rw last (
        set_cursor-OnScreen a v 24 0 (record t.display { cells = scroll t.display.cells })
          (omega arith) (omega arith) (scroll_lem t.display.cells a ∙ ground (arith, kept)))
    | inr above ↦ rw above (
        set_cursor-OnScreen a v ((r + 1) % 2 ^ 8) 0 t.display (omega (arith, ==→ne r 24 above))
          (omega arith) kept)
  ]

  write_plain :
      (r c ch fg bg : ℕ) (d : Display Hw)
      → (ch == newline) ≡ false
      → framebuffer_write r c ch fg bg d ≡ record d {
        cells =
            memset
              (2 * (r * 80 + c) + 1)
              (attribute fg bg)
              1
              (memset (2 * (r * 80 + c)) ch 1 d.cells);
      }
  unfolding framebuffer_write
  write_plain r c ch fg bg d plain = elim (Bool-cases (r == 24)) [
    | inl last ↦ rw (last, plain) refl
    | inr above ↦ rw (above, plain) refl
  ]

  put_plain-OnScreen :
      (a v r c ch color : ℕ) (t : Terminal Hw)
      → 4000 ≤ a
      → r < 25
      → c < 80
      → (ch == newline) ≡ false
      → t.display.cells a ≡ v
      → OnScreen a v (put_plain r c ch color t).display
  unfolding put_plain
  put_plain-OnScreen a v r c ch color t behind hr hc plain kept =
      rw (write_plain r c ch (color % 2 ^ 8) t.background_color t.display plain) (
        set_cursor-OnScreen a v _ _ _ (ground arith) (ground arith)
          (rw (memset_fills, memset_fills) (ground (arith, kept))))

  get_cursor_cells : (a : ℕ) (d : Display Hw) → (framebuffer_get_cursor d).1.cells a ≡ d.cells a
  unfolding framebuffer_get_cursor
  get_cursor_cells a d = refl

  put_char-OnScreen :
      (a v ch color : ℕ) (t : Terminal Hw)
      → 4000 ≤ a
      → OnScreen a v t.display
      → OnScreen a v (put_char ch color t).display
  unfolding put_char
  put_char-OnScreen a v ch color t behind on =
      let kept = get_cursor_cells a t.display ∙ on.kept in
      let ((r, c), d) = framebuffer_get_cursor t.display in
      let t' : Terminal Hw = record t { display = d; row = r; column = c } in
      let at_row : r ≡ position t.display / 80 % 2 ^ 8 =
        ap (λ p. p.0) (get_cursor_registers t.display) in
      let at_column : c ≡ position t.display % 80 =
        ap (λ p. p.1) (get_cursor_registers t.display) in
      elim (Bool-cases (ch == newline)) [
        | inl e ↦ rw e (put_newline-OnScreen a v r t' behind (omega (arith, on.on, at_row)) kept)
        | inr e ↦ rw e (
            put_plain-OnScreen a v r c ch color t' behind (omega (arith, on.on, at_row))
              (omega (arith, on.on, at_column)) e kept)
      ]

  put_all-OnScreen :
      (a v color : ℕ) (text : List ℕ) (t : Terminal Hw)
      → 4000 ≤ a
      → OnScreen a v t.display
      → OnScreen a v (put_all text color t).display
  unfolding put_all
  put_all-OnScreen a v color [] t behind on = on
  put_all-OnScreen a v color (ch ∷ text) t behind on =
      put_all-OnScreen a v color text (put_char ch color t) behind
        (put_char-OnScreen a v ch color t behind on)

  -- puts of a string whose memory does not end too early, started with the cursor among the
  -- screen's 2000 cells, returns with the cursor among them, and changes no memory behind the
  -- screen.
  pub puts-position :
      (text shown : List ℕ) (len color a : ℕ) (t : Terminal Hw)
      → printed len text ≡ some shown
      → position t.display < 2000
      → 4000 ≤ a
      → (t' : Terminal Hw) × (puts text len color t ≡ some t')
        × (position t'.display < 2000)
        × (t'.display.cells a ≡ t.display.cells a)
  puts-position text shown len color a t run on behind =
      let after =
        put_all-OnScreen a (t.display.cells a) color shown t behind
          (record { on = on; kept = refl }) in
      (put_all shown color t, puts-put_all text len color t ∙ rw run refl, after.on, after.kept)
