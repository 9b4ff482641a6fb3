-- ===== src/Keyboard/Typing.antt =====
-- src/keyboard.c: what typing does to the line.
use if2230_2023_ntaraja.Framebuffer.{framebuffer_get_cursor}
use if2230_2023_ntaraja.Prelude.{
  if◌then◌else◌, ◌∙◌, zero, suc, set, refl, ne→==, ltb, length-set, length, leb, byte_at, arith,
  ◌^◌, List, ◌==◌, ◌<◌, ◌-◌, ◌+◌, ◌&&◌, ◌%◌, ℕ, ◌≡◌,
}
use if2230_2023_ntaraja.Ports.{Ports}
use if2230_2023_ntaraja.Keyboard.{
  draw, keyboard_buffer_size, keyboard_insert, shift_right, Keyboard,
}
use if2230_2023_ntaraja.Keyboard.Line.{shifted-suc, byte_at-set, IsLine}

module _ {Hw : Type 0} ⦃ports : Ports Hw⦄ where
  -- Shifting touches only the characters behind the cursor.
  record Shifted (rounds : ℕ) (s s' : Keyboard Hw) : Type 0 where
    on : s'.input_on ≡ s.input_on
    index : s'.buffer_index ≡ s.buffer_index
    max : s'.buffer_index_max ≡ s.buffer_index_max
    width : length s'.buffer ≡ length s.buffer
    bytes :
        (j : ℕ)
        → byte_at s'.buffer j ≡ (
            if ltb s.buffer_index j && leb j (s.buffer_index + rounds)
            then byte_at s.buffer (j - 1)
            else byte_at s.buffer j)

  shift_right-Shifted :
      (r c rounds : ℕ) (s : Keyboard Hw)
      → s.buffer_index + rounds < length s.buffer
      → Shifted rounds s (shift_right r c rounds s)
  unfolding shift_right
  shift_right-Shifted r c zero s lt = record {
    on = refl;
    index = refl;
    max = refl;
    width = refl;
    bytes = λ j. ground arith;
  }
  shift_right-Shifted r c (suc rounds) s lt =
      let ih =
        shift_right-Shifted r c rounds
          (record s {
            buffer =
                set s.buffer (s.buffer_index + suc rounds)
                  (byte_at s.buffer (s.buffer_index + rounds));
            display =
                draw r ((c + suc rounds) % 2 ^ 8) (byte_at s.buffer (s.buffer_index + rounds))
                  s.display;
          })
          (rw (length-set) (omega (arith))) in
      record {
        on = ih.on;
        index = ih.index;
        max = ih.max;
        width =
            ih.width
            ∙ length-set s.buffer (s.buffer_index + suc rounds)
                (byte_at s.buffer (s.buffer_index + rounds));
        bytes = λ j. rw (ih.bytes j) (shifted-suc s.buffer s.buffer_index rounds j lt);
      }

  inserted :
      (s : Keyboard Hw) (j ch : ℕ) (xs : List ℕ)
      → IsLine s
      → length xs ≡ length s.buffer
      → byte_at xs j ≡ (
          if ltb s.buffer_index j && leb j (s.buffer_index + (s.buffer_index_max - s.buffer_index))
          then byte_at s.buffer (j - 1)
          else byte_at s.buffer j)
      → byte_at (set xs s.buffer_index ch) j ≡ (
          if s.buffer_index == j
          then ch
          else if ltb s.buffer_index j && leb j s.buffer_index_max
          then byte_at s.buffer (j - 1)
          else byte_at s.buffer j)
  inserted s j ch xs l width e =
      let total : s.buffer_index + (s.buffer_index_max - s.buffer_index) ≡ s.buffer_index_max =
        omega (arith, l.cursor) in
      rw
        (
          byte_at-set xs s.buffer_index ch j
              (rw (width, l.width) (omega (arith, l.cursor, l.small))),
          e,
          total,
        )
        refl

  -- What a typed character does to the line.
  pub record Typed (ch : ℕ) (s s' : Keyboard Hw) : Type 0 where
    pub line : IsLine s'
    pub index : s'.buffer_index ≡ s.buffer_index + 1
    pub max : s'.buffer_index_max ≡ s.buffer_index_max + 1
    pub bytes :
        (j : ℕ)
        → byte_at s'.buffer j ≡ (
            if s.buffer_index == j
            then ch
            else if ltb s.buffer_index j && leb j s.buffer_index_max
            then byte_at s.buffer (j - 1)
            else byte_at s.buffer j)

  -- A character typed into a line with room left goes to the cursor, the characters behind it
  -- move up by one, the cursor and the end of the line advance by one, and the line stays
  -- inside the buffer.
  pub keyboard_insert-Typed :
      (ch : ℕ) (s : Keyboard Hw)
      → IsLine s
      → s.buffer_index_max < keyboard_buffer_size - 1
      → Typed ch s (keyboard_insert ch s)
  unfolding keyboard_insert
  keyboard_insert-Typed ch s l lt =
      let ((r, c), d) = framebuffer_get_cursor s.display in
      let rounds = s.buffer_index_max - s.buffer_index in
      let k =
        shift_right-Shifted r c rounds (record s { display = d })
          (rw (l.width) (omega (arith, l.cursor, l.small))) in
      let s₁ = shift_right r c rounds (record s { display = d }) in
      rw (ne→== s.buffer_index_max 255 (λ e. omega (arith))) (record {
        line = record {
          width = length-set s₁.buffer s.buffer_index ch ∙ k.width ∙ l.width;
          cursor = omega (arith, l.cursor);
          small = omega (arith, l.cursor);
        };
        index = omega (arith, l.cursor);
        max = omega arith;
        bytes = λ j. inserted s j ch s₁.buffer l k.width (k.bytes j);
      })
