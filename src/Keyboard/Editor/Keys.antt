-- ===== src/Keyboard/Editor/Keys.antt =====
-- src/keyboard.c: the editing keys and the editor's text.
use if2230_2023_ntaraja.Keyboard.Erasing.{keyboard_delete-Deleted}
use if2230_2023_ntaraja.Keyboard.Typing.{keyboard_insert-Typed}
use if2230_2023_ntaraja.Keyboard.Editor.Indices.{
  byte_at-removed, byte_at-inserted, take-snoc, take-eq, take_all_short, byte_at-take,
}
use if2230_2023_ntaraja.Prelude.{
  true, ltb, false, refl, eq→==, sym, length-take, length-append, append_assoc, dec_lt, ap, ℕ, zero,
  suc, ◌+◌, ◌-◌, ◌<◌, ◌≡◌, ◌∙◌, ◌==◌, List, [], ◌∷◌, ◌++◌, length, take, byte_at, some, arith,
}
use if2230_2023_ntaraja.Ports.{Ports}
use if2230_2023_ntaraja.Keyboard.{Keyboard, keyboard_insert, keyboard_delete, keyboard_buffer_size}
use if2230_2023_ntaraja.Keyboard.Line.{IsLine}
use if2230_2023_ntaraja.Keyboard.Isr.{tab_key, left_key, right_key}
use if2230_2023_ntaraja.Keyboard.Editor.{
  Editor, Shows, text, type_char, spaces, go_right_over, erase, go_left,
}

module _ {Hw : Type 0} ⦃ports : Ports Hw⦄ where
  pub chars_at :
      (e : Editor) (s : Keyboard Hw) (j : ℕ)
      → Shows e s
      → j < length e.before + length e.after
      → byte_at s.buffer j ≡ byte_at (e.before ++ e.after) j
  unfolding text
  chars_at e s j shows lt =
      sym (byte_at-take s.buffer_index_max s.buffer j (omega (arith, shows.max)))
      ∙ ap (λ t. byte_at t j) shows.chars

  Shows-bytes :
      (e : Editor) (s : Keyboard Hw)
      → IsLine s
      → s.buffer_index ≡ length e.before
      → s.buffer_index_max ≡ length e.before + length e.after
      → ((j : ℕ)
          → j < length e.before + length e.after
          → byte_at s.buffer j ≡ byte_at (e.before ++ e.after) j)
      → Shows e s
  unfolding text
  Shows-bytes e s line index max h = record {
    line = line;
    index = index;
    max = max;
    chars =
        let total = length-append e.before e.after in
        ap (λ n. take n s.buffer) (max ∙ sym total)
        ∙ take-eq s.buffer (e.before ++ e.after) (omega (arith, total, max, line.width, line.small))
            (λ j lt. h j (omega (arith, total)));
  }

  pub keyboard_insert-Shows :
      (ch : ℕ) (e : Editor) (s : Keyboard Hw)
      → Shows e s
      → s.buffer_index_max < keyboard_buffer_size - 1
      → Shows (type_char ch e) (keyboard_insert ch s)
  unfolding type_char
  keyboard_insert-Shows ch e s shows room =
      let typed = keyboard_insert-Typed ch s shows.line room in
      let total = length-append e.before (ch ∷ []) in
      Shows-bytes (type_char ch e) (keyboard_insert ch s) typed.line
        (omega (arith, typed.index, shows.index, total))
        (omega (arith, typed.max, shows.max, total))
        (λ j lt.
          typed.bytes j
          ∙ rw (shows.index, shows.max)
              (byte_at-inserted e.before e.after s.buffer ch j (λ k le. chars_at e s k shows le)
                (omega (arith, total))))

  pub keyboard_delete-Shows :
      (e : Editor) (s : Keyboard Hw)
      → Shows e s
      → s.buffer_index_max < keyboard_buffer_size - 1
      → (s' : Keyboard Hw) × (keyboard_delete s ≡ some s') × Shows (erase e) s'
  unfolding erase keyboard_delete
  keyboard_delete-Shows e s shows room = elim (dec_lt 0 s.buffer_index) [
    | no none_left ↦
        let start : s.buffer_index ≡ 0 = omega arith in
        let total = length-take (length e.before - 1) e.before in
        let nothing : length e.before ≡ 0 = omega (arith, shows.index) in
        (
          s,
          rw (eq→== s.buffer_index 0 start, keyboard_delete) refl,
          Shows-bytes (erase e) s shows.line (omega (arith, shows.index, total))
              (omega (arith, shows.max, total))
              (λ j lt.
                chars_at e s j shows (omega (arith, total))
                ∙ ap (λ xs. byte_at (xs ++ e.after) j) (sym (take_all_short e.before nothing))),
        )
    | yes some_left ↦
        let (s', run, deleted) = keyboard_delete-Deleted s shows.line some_left room in
        let total = length-take (length e.before - 1) e.before in
        (
          s',
          run,
          Shows-bytes (erase e) s' deleted.line (omega (arith, deleted.index, shows.index, total))
              (omega (arith, deleted.max, shows.max, shows.index, total))
              (λ j lt.
                deleted.bytes j
                ∙ rw (shows.index, shows.max)
                    (byte_at-removed e.before e.after s.buffer j (omega (arith, shows.index))
                      (λ k le. chars_at e s k shows le) (omega (arith, total, shows.index)))),
        )
  ]

  pub tab_key-Shows :
      (n : ℕ) (e : Editor) (s : Keyboard Hw)
      → Shows e s
      → s.buffer_index_max + n < keyboard_buffer_size
      → Shows (spaces n e) (tab_key n s)
  unfolding spaces tab_key
  tab_key-Shows zero e s shows room = shows
  tab_key-Shows (suc n) e s shows room =
      let typed = keyboard_insert-Typed b' ' s shows.line (omega arith) in
      let inside : ltb s.buffer_index (keyboard_buffer_size - 1) ≡ true =
        ground (arith, shows.line.cursor) in
      rw (inside) (
        tab_key-Shows n (type_char b' ' e) (keyboard_insert b' ' s)
          (keyboard_insert-Shows b' ' e s shows (omega arith)) (omega (arith, typed.max)))

  pub left_key-Shows :
      (r c : ℕ) (e : Editor) (s : Keyboard Hw) → Shows e s → Shows (go_left e) (left_key r c s)
  unfolding go_left left_key text
  left_key-Shows r c e s shows = elim (dec_lt 0 s.buffer_index) [
    | no none_left ↦
        let stay : ltb 0 s.buffer_index ≡ false = ground arith in
        let nothing : (length e.before == 0) ≡ true = ground (arith, shows.index) in
        rw (stay, nothing) shows
    | yes some_left ↦
        let go : ltb 0 s.buffer_index ≡ true = ground arith in
        let some_before : (length e.before == 0) ≡ false = ground (arith, shows.index) in
        let total = length-take (length e.before - 1) e.before in
        rw (go, some_before)
          (record {
            line = record {
              width = shows.line.width;
              cursor = omega (arith, shows.line.cursor);
              small = shows.line.small;
            };
            index = omega (arith, shows.index, total);
            max = omega (arith, shows.max, shows.index, total);
            chars =
                shows.chars
                ∙ sym
                    (take-snoc (length e.before - 1) e.before e.after (omega (arith, shows.index)));
          })
  ]

  pub right_key-Shows :
      (r c : ℕ) (b a : List ℕ) (s : Keyboard Hw)
      → Shows (record { before = b; after = a }) s
      → Shows (go_right_over b a) (right_key r c s)
  unfolding go_right_over right_key text
  right_key-Shows r c b [] s shows =
      let stay : ltb s.buffer_index s.buffer_index_max ≡ false =
        ground (arith, shows.index, shows.max) in
      rw (stay) shows
  right_key-Shows r c b (x ∷ a) s shows =
      let go : ltb s.buffer_index s.buffer_index_max ≡ true =
        ground (arith, shows.index, shows.max) in
      let total = length-append b (x ∷ []) in
      rw (go) (record {
        line = record {
          width = shows.line.width;
          cursor = omega (arith, shows.index, shows.max);
          small = shows.line.small;
        };
        index = omega (arith, shows.index, total);
        max = omega (arith, shows.max, total);
        chars = shows.chars ∙ sym (append_assoc b (x ∷ []) a);
      })
