-- ===== src/Keyboard/Sound.antt =====
-- src/keyboard.c: what each key leaves of the line, at every length of it.
use if2230_2023_ntaraja.Keyboard.Typing.{keyboard_insert-Typed}
use if2230_2023_ntaraja.Prelude.{
  sym, if_either, false≢true, length-set, eq→==, ==→ne, ltb, length, leb, inr, inl, get_elem?,
  dec_lt, arith, Option-cases, Bool-cases, ℕ, zero, suc, ◌+◌, ◌-◌, ◌^◌, ◌%◌, ◌≡◌, ◌∙◌, ◌==◌, true,
  false, Option,
}
use if2230_2023_ntaraja.Prelude.Opt.{Returns, Returns-bind}
use if2230_2023_ntaraja.Ports.{Ports}
use if2230_2023_ntaraja.Framebuffer.{framebuffer_get_cursor}
use if2230_2023_ntaraja.Keyboard.{Keyboard, keyboard_insert, keyboard_delete, shift_left}
use if2230_2023_ntaraja.Keyboard.Line.{IsLine}
use if2230_2023_ntaraja.Keyboard.Isr.{
  keyboard_isr, handle_key, tab_key, left_key, right_key, enter_key,
}

module _ {Hw : Type 0} ⦃ports : Ports Hw⦄ where
  -- The buffer keeps its size, and holds a line as long as keys go there.
  pub record IsSound (s : Keyboard Hw) : Type 0 where
    pub width : length s.buffer ≡ 256
    pub line : s.input_on ≡ true → IsLine s

  line-IsSound : (s : Keyboard Hw) → IsLine s → IsSound s
  line-IsSound s l = record { width = l.width; line = λ on. l }

  -- The loop of keyboard_delete keeps the buffer's size.
  shift_left-width :
      (fuel r c ii n : ℕ) (s : Keyboard Hw)
      → length s.buffer ≡ n
      → Returns (λ s'. length s'.buffer ≡ n) (shift_left fuel r c ii s)
  unfolding shift_left Returns
  shift_left-width zero r c ii n s e = tt
  shift_left-width (suc fuel) r c ii n s e = elim (Bool-cases (leb ii s.buffer_index_max)) [
    | inr past ↦ rw (past, shift_left) e
    | inl inside ↦ elim (Option-cases (get_elem? s.buffer (ii + 1))) [
      | inl lost ↦ rw (inside, shift_left, lost) tt
      | inr (ch, found) ↦
          rw (inside, shift_left, found)
            (shift_left-width fuel r c ((ii + 1) % 2 ^ 8) n _ (length-set s.buffer ii ch ∙ e))
    ]
  ]

  keyboard_delete-IsSound : (s : Keyboard Hw) → IsLine s → Returns IsSound (keyboard_delete s)
  unfolding keyboard_delete Returns
  keyboard_delete-IsSound s l = elim (Bool-cases (s.buffer_index == 0)) [
    | inl first ↦ rw (first) (line-IsSound s l)
    | inr behind ↦
        let ((r, c), d) = framebuffer_get_cursor s.display in
        rw (behind) (
          Returns-bind (λ s₁. length s₁.buffer ≡ 256) IsSound
            (shift_left 257 r c (s.buffer_index - 1) (record s { display = d })) _
            (shift_left-width 257 r c (s.buffer_index - 1) 256 (record s { display = d }) l.width)
            (λ s₁ kept. line-IsSound _ (record {
              width = length-set s₁.buffer s.buffer_index_max b' ' ∙ kept;
              cursor = omega (arith, l.cursor, l.small, ==→ne s.buffer_index 0 behind);
              small = omega arith;
            })))
  ]

  keyboard_insert-IsLine : (ch : ℕ) (s : Keyboard Hw) → IsLine s → IsLine (keyboard_insert ch s)
  unfolding keyboard_insert
  keyboard_insert-IsLine ch s l = elim (dec_lt s.buffer_index_max 255) [
    | yes room ↦ (keyboard_insert-Typed ch s l room).line
    | no full ↦ rw (eq→== s.buffer_index_max 255 (omega (arith, l.small)), keyboard_insert) l
  ]

  tab_key-IsLine : (n : ℕ) (s : Keyboard Hw) → IsLine s → IsLine (tab_key n s)
  unfolding tab_key
  tab_key-IsLine zero s l = l
  tab_key-IsLine (suc n) s l = elim (Bool-cases (ltb s.buffer_index 255)) [
    | inr past ↦ rw (past) l
    | inl room ↦
        rw (room) (tab_key-IsLine n (keyboard_insert b' ' s) (keyboard_insert-IsLine b' ' s l))
  ]

  left_key-IsLine : (r c : ℕ) (s : Keyboard Hw) → IsLine s → IsLine (left_key r c s)
  unfolding left_key
  left_key-IsLine r c s l = elim (Bool-cases (ltb 0 s.buffer_index)) [
    | inr first ↦ rw (first) l
    | inl behind ↦
        rw (behind) (record { width = l.width; cursor = omega (arith, l.cursor); small = l.small })
  ]

  right_key-IsLine : (r c : ℕ) (s : Keyboard Hw) → IsLine s → IsLine (right_key r c s)
  unfolding right_key
  right_key-IsLine r c s l = elim (Bool-cases (ltb s.buffer_index s.buffer_index_max)) [
    | inr last ↦ rw (last) l
    | inl before ↦
        rw (before) (record { width = l.width; cursor = ground (arith); small = l.small })
  ]

  enter_key-IsSound : (r c : ℕ) (s : Keyboard Hw) → IsLine s → IsSound (enter_key r c s)
  unfolding enter_key
  enter_key-IsSound r c s l = record {
    width = length-set s.buffer s.buffer_index 0 ∙ l.width;
    line = λ on. absurd (false≢true on);
  }

  handle_key-IsSound :
      (scancode ch r c : ℕ) (s : Keyboard Hw)
      → IsLine s
      → Returns IsSound (handle_key scancode ch r c s)
  unfolding handle_key Returns
  handle_key-IsSound scancode ch r c s l =
      let sound = line-IsSound s l in
      let left = line-IsSound (left_key r c s) (left_key-IsLine r c s l) in
      let right = line-IsSound (right_key r c s) (right_key-IsLine r c s l) in
      let typed = line-IsSound (keyboard_insert ch s) (keyboard_insert-IsLine ch s l) in
      let any : Keyboard Hw → Type 0 = IsSound in
      let result : Option (Keyboard Hw) → Type 0 = Returns IsSound in
      if_either result (ch == 8) _ _ (keyboard_delete-IsSound s l) (
        if_either result (ch == 10) _ _ (enter_key-IsSound r c s l) (
          if_either result (ch == 9) _ _ (line-IsSound (tab_key 4 s) (tab_key-IsLine 4 s l)) (
            if_either result (ch == 0) _ _
              (if_either any (scancode == 0x4B) _ _ left
                (if_either any (scancode == 0x4D) _ _ right sound))
              (if_either result (ltb s.buffer_index_max 255) _ _ typed sound))))

  -- A key keeps the driver sound, whether it waits for keys or not.
  pub keyboard_isr-IsSound : (s : Keyboard Hw) → IsSound s → Returns IsSound (keyboard_isr s)
  unfolding keyboard_isr Returns
  keyboard_isr-IsSound s sound = elim (Bool-cases s.input_on) [
    | inr off ↦
        rw (off, keyboard_isr)
          (record { width = sound.width; line = λ on. absurd (false≢true (sym off ∙ on)) })
    | inl on ↦
        let l = sound.line on in
        rw (on, keyboard_isr)
          (Returns-bind IsSound IsSound _ _
            (handle_key-IsSound _ _ _ _ _
              (record { width = l.width; cursor = l.cursor; small = l.small }))
            (λ s' after. record {
              width = after.width;
              line = λ on.
                  let l' = after.line on in
                  record { width = l'.width; cursor = l'.cursor; small = l'.small };
            }))
  ]

  -- Without a request, no key goes to the buffer, and it is ready for the next one.
  pub record IsQuiet (s : Keyboard Hw) : Type 0 where
    pub off : s.input_on ≡ false
    pub line : IsLine s

  pub keyboard_isr-IsQuiet : (s : Keyboard Hw) → IsQuiet s → Returns IsQuiet (keyboard_isr s)
  unfolding keyboard_isr Returns
  keyboard_isr-IsQuiet s ready =
      let l = ready.line in
      rw (ready.off, keyboard_isr)
        (record {
          off = ready.off;
          line = record { width = l.width; cursor = omega arith; small = l.small };
        })
