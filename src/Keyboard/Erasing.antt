-- ===== src/Keyboard/Erasing.antt =====
-- src/keyboard.c: what erasing does to the line.
use if2230_2023_ntaraja.Framebuffer.{framebuffer_get_cursor, framebuffer_set_cursor}
use if2230_2023_ntaraja.Prelude.{
  if◌then◌else◌, ◌≤◌, ◌∙◌, zero, true, suc, some, set, refl, ne→==, length-set, length, leb, inr,
  inl, get_elem?-eq-get_or, false, byte_at, arith, ap, ◌^◌, Bool-cases, ◌==◌, ◌<◌, ◌-◌, ◌+◌, ◌&&◌,
  ◌%◌, ℕ, ◌≡◌,
}
use if2230_2023_ntaraja.Ports.{Ports}
use if2230_2023_ntaraja.Keyboard.{
  keyboard_insert, draw, keyboard_buffer_size, keyboard_delete, shift_left, Keyboard,
}
use if2230_2023_ntaraja.Keyboard.Line.{byte_at-set, moved_bytes, IsLine}
use if2230_2023_ntaraja.Keyboard.Typing.{keyboard_insert-Typed}

module _ {Hw : Type 0} ⦃ports : Ports Hw⦄ where
  -- Shifting back moves the characters from `ii` to the end of the line.
  record Moved (ii : ℕ) (s s' : Keyboard Hw) : Type 0 where
    index : s'.buffer_index ≡ s.buffer_index
    max : s'.buffer_index_max ≡ s.buffer_index_max
    width : length s'.buffer ≡ length s.buffer
    bytes :
        (j : ℕ)
        → byte_at s'.buffer j ≡ (
            if leb ii j && leb j s.buffer_index_max
            then byte_at s.buffer (j + 1)
            else byte_at s.buffer j)

  -- One round of the loop
  abbrev stepped : ℕ → ℕ → ℕ → Keyboard Hw → Keyboard Hw
  stepped r c ii s = record s {
    buffer = set s.buffer ii (byte_at s.buffer (ii + 1));
    display =
        draw r ((c + 2 ^ 8 + ii - s.buffer_index) % 2 ^ 8) (byte_at s.buffer (ii + 1)) s.display;
  }

  shift_left_done :
      (r c fuel ii : ℕ) (s : Keyboard Hw)
      → leb ii s.buffer_index_max ≡ false
      → shift_left (suc fuel) r c ii s ≡ some s
  unfolding shift_left
  shift_left_done r c fuel ii s past = rw (past, shift_left) refl

  shift_left_step :
      (r c fuel ii : ℕ) (s : Keyboard Hw)
      → leb ii s.buffer_index_max ≡ true
      → ii + 1 < length s.buffer
      → shift_left (suc fuel) r c ii s ≡ shift_left fuel r c ((ii + 1) % 2 ^ 8) (stepped r c ii s)
  unfolding shift_left
  shift_left_step r c fuel ii s inside lt =
      rw (inside, shift_left, get_elem?-eq-get_or s.buffer (ii + 1) 0 lt) refl

  Moved-none : (ii : ℕ) (s : Keyboard Hw) → s.buffer_index_max < ii → Moved ii s s
  Moved-none ii s past = record {
    index = refl;
    max = refl;
    width = refl;
    bytes = λ j. ground arith;
  }

  shift_left-Moved :
      (r c fuel ii : ℕ) (s : Keyboard Hw)
      → length s.buffer ≡ keyboard_buffer_size
      → s.buffer_index_max < keyboard_buffer_size - 1
      → s.buffer_index_max < ii + fuel
      → ii ≤ s.buffer_index_max + 1
      → (s' : Keyboard Hw) × (shift_left (suc fuel) r c ii s ≡ some s') × Moved ii s s'
  shift_left-Moved r c zero ii s width small enough le =
      let past : leb ii s.buffer_index_max ≡ false = ground arith in
      (s, shift_left_done r c 0 ii s past, Moved-none ii s (omega arith))
  shift_left-Moved r c (suc fuel) ii s width small enough le =
      elim (Bool-cases (leb ii s.buffer_index_max)) [
        | inr past ↦ (s, shift_left_done r c (suc fuel) ii s past, Moved-none ii s (ground arith))
        | inl inside ↦
            let lt : ii ≤ s.buffer_index_max = ground arith in
            let no_wrap : (ii + 1) % 2 ^ 8 ≡ ii + 1 = omega arith in
            let (s', run, moved) =
              shift_left-Moved r c fuel (ii + 1) (stepped r c ii s)
                (length-set s.buffer ii (byte_at s.buffer (ii + 1)) ∙ width) small (omega arith)
                (omega arith) in
            (
              s',
              shift_left_step r c (suc fuel) ii s inside (rw (width) (omega arith))
                  ∙ ap (λ i. shift_left (suc fuel) r c i (stepped r c ii s)) no_wrap
                  ∙ run,
              record {
                index = moved.index;
                max = moved.max;
                width = moved.width ∙ length-set s.buffer ii (byte_at s.buffer (ii + 1));
                bytes = λ j.
                    moved.bytes j
                    ∙ moved_bytes s.buffer ii s.buffer_index_max j lt (rw (width) (omega arith));
              },
            )
      ]

  -- What the backspace key does to the line
  pub record Deleted (s s' : Keyboard Hw) : Type 0 where
    pub line : IsLine s'
    pub index : s'.buffer_index + 1 ≡ s.buffer_index
    pub max : s'.buffer_index_max + 1 ≡ s.buffer_index_max
    pub bytes :
        (j : ℕ)
        → byte_at s'.buffer j ≡ (
            if s.buffer_index_max == j
            then b' '
            else if leb (s.buffer_index - 1) j && leb j s.buffer_index_max
            then byte_at s.buffer (j + 1)
            else byte_at s.buffer j)

  -- What follows the loop of keyboard_delete, with `s` from before it and `s₁` from behind it
  abbrev after_shift : ℕ → ℕ → Keyboard Hw → Keyboard Hw → Keyboard Hw
  after_shift r c s s₁ =
      let col = (c + 2 ^ 8 + s.buffer_index_max - s.buffer_index) % 2 ^ 8 in
      record s₁ {
        buffer = set s₁.buffer s.buffer_index_max b' ';
        buffer_index = s.buffer_index - 1;
        buffer_index_max = (s.buffer_index_max + 2 ^ 8 - 1) % 2 ^ 8;
        display = framebuffer_set_cursor r ((c + 2 ^ 8 - 1) % 2 ^ 8) (draw r col b' ' s₁.display);
      }

  -- keyboard_delete returns for a line with room left and characters before the cursor: the
  -- characters from the cursor on move down by one over the one before it, a space goes to the
  -- old end, the cursor and the end of the line go back by one, and the line stays inside the
  -- buffer.
  pub keyboard_delete-Deleted :
      (s : Keyboard Hw)
      → IsLine s
      → 0 < s.buffer_index
      → s.buffer_index_max < keyboard_buffer_size - 1
      → (s' : Keyboard Hw) × (keyboard_delete s ≡ some s') × Deleted s s'
  unfolding keyboard_delete
  keyboard_delete-Deleted s l some_left small =
      let ((r, c), d) = framebuffer_get_cursor s.display in
      let (s₁, run, moved) =
        shift_left-Moved r c 256 (s.buffer_index - 1) (record s { display = d }) l.width small
          (omega arith) (omega (arith, l.cursor)) in
      (
        after_shift r c s s₁,
        rw (ne→== s.buffer_index 0 (λ e. omega arith), run) refl,
        record {
          line = record {
            width = length-set s₁.buffer s.buffer_index_max b' ' ∙ moved.width ∙ l.width;
            cursor = omega (arith, l.cursor);
            small = omega (arith, l.cursor);
          };
          index = omega arith;
          max = omega (arith, l.cursor);
          bytes = λ j.
              rw
                (
                  byte_at-set s₁.buffer s.buffer_index_max b' ' j
                      (rw (moved.width, l.width) (omega arith)),
                  moved.bytes j,
                )
                refl;
        },
      )

  -- Deleting a character that was just typed, into a line with room for two, returns, puts the
  -- cursor and the end of the line back, and leaves every character of the line as it was.
  pub keyboard_delete-keyboard_insert :
      (ch : ℕ) (s : Keyboard Hw) (j : ℕ)
      → IsLine s
      → s.buffer_index_max + 1 < keyboard_buffer_size - 1
      → j < s.buffer_index_max
      → (s' : Keyboard Hw) × (keyboard_delete (keyboard_insert ch s) ≡ some s')
        × (s'.buffer_index ≡ s.buffer_index)
        × (s'.buffer_index_max ≡ s.buffer_index_max)
        × (byte_at s'.buffer j ≡ byte_at s.buffer j)
  keyboard_delete-keyboard_insert ch s j l small lt =
      let back : j + 1 - 1 ≡ j = omega arith in
      let typed = keyboard_insert-Typed ch s l (omega arith) in
      let (s', run, deleted) =
        keyboard_delete-Deleted (keyboard_insert ch s) typed.line (omega (arith, typed.index))
          (omega (arith, typed.max)) in
      (
        s',
        run,
        omega (arith, deleted.index, typed.index),
        omega (arith, deleted.max, typed.max),
        deleted.bytes j
            ∙ rw (typed.index, typed.max, typed.bytes j, typed.bytes (j + 1), back) (ground arith),
      )
