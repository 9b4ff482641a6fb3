-- ===== src/Keyboard/Requests/Progress.antt =====
-- src/keyboard.c: whether the interrupt handler returns.
use if2230_2023_ntaraja.Keyboard.Requests.{interrupted, Run-IsLine, Run, Phase}
use if2230_2023_ntaraja.Prelude.Opt.{◌>>=◌}
use if2230_2023_ntaraja.Keyboard.Erasing.{keyboard_delete-Deleted}
use if2230_2023_ntaraja.Prelude.{
  subst, ap, byte_at, sym, if_either, eq→==, ltb, inr, inl, dec_lt, arith, Bool-cases, ℕ, ◌-◌, ◌≡◌,
  ◌<◌, ◌==◌, refl, true, false, Option, some,
}
use if2230_2023_ntaraja.Ports.{Ports}
use if2230_2023_ntaraja.Framebuffer.{framebuffer_get_cursor}
use if2230_2023_ntaraja.Keyboard.{keyboard_buffer_size, Keyboard, keyboard_delete}
use if2230_2023_ntaraja.Keyboard.Line.{IsLine}
use if2230_2023_ntaraja.Keyboard.Isr.{scancode_map, acknowledge, keyboard_isr, handle_key}

module _ {Hw : Type 0} ⦃ports : Ports Hw⦄ where
  -- The scancode, and the driver behind its read and the cursor's
  abbrev fetched_key : Keyboard Hw → ℕ × ((ℕ × ℕ) × Keyboard Hw)
  fetched_key s =
      let d = s.display in
      let (scancode, h) = ports.in_byte d.hw 0x60 in
      let (place, d₁) = framebuffer_get_cursor (record d { hw = h }) in
      (scancode, (place, record s { display = d₁ }))

  abbrev Yields : Option (Keyboard Hw) → Type 0
  Yields m = (s : Keyboard Hw) × (m ≡ some s)

  keyboard_delete-Yields :
      (s : Keyboard Hw)
      → IsLine s
      → s.buffer_index_max < keyboard_buffer_size - 1
      → Yields (keyboard_delete s)
  unfolding keyboard_delete
  keyboard_delete-Yields s l room = elim (dec_lt 0 s.buffer_index) [
    | yes behind ↦ let (s', run, deleted) = keyboard_delete-Deleted s l behind room in (s', run)
    | no first ↦ (s, rw (eq→== s.buffer_index 0 (omega arith), keyboard_delete) refl)
  ]

  handle_key-Yields :
      (scancode ch r c : ℕ) (s : Keyboard Hw)
      → IsLine s
      → s.buffer_index_max < keyboard_buffer_size - 1
      → Yields (handle_key scancode ch r c s)
  unfolding handle_key
  handle_key-Yields scancode ch r c s l room =
      if_either Yields (ch == 8) _ _ (keyboard_delete-Yields s l room) (
        if_either Yields (ch == 10) _ _ (_, refl)
          (if_either Yields (ch == 9) _ _ (_, refl)
            (if_either Yields (ch == 0) _ _ (_, refl)
              (if_either Yields (ltb s.buffer_index_max 255) _ _ (_, refl) (_, refl)))))

  active-Yields :
      (s : Keyboard Hw)
      → IsLine s
      → s.buffer_index_max < keyboard_buffer_size - 1
      → Yields (keyboard_isr (record s { input_on = true }))
  unfolding keyboard_isr
  active-Yields s l room =
      let (scancode, ((r, c), t)) = fetched_key (record s { input_on = true }) in
      let (s', key) =
        handle_key-Yields scancode (byte_at scancode_map scancode) r c t
          (record { width = l.width; cursor = l.cursor; small = l.small }) room in
      (acknowledge s', ap (λ m. m >>= (λ s₁. some (acknowledge s₁))) key)

  keyboard_isr-Yields :
      (s : Keyboard Hw)
      → (s.input_on ≡ true → IsLine s)
      → s.buffer_index_max < keyboard_buffer_size - 1
      → Yields (keyboard_isr s)
  unfolding keyboard_isr
  keyboard_isr-Yields s line room = elim (Bool-cases s.input_on) [
    | inr off ↦
        subst (λ b. Yields (keyboard_isr (record s { input_on = b }))) (sym off)
          (acknowledge (record s { input_on = false; buffer_index = 0 }), refl)
    | inl on ↦
        subst (λ b. Yields (keyboard_isr (record s { input_on = b }))) (sym on)
          (active-Yields s (line on) room)
  ]

  -- In every state that requests, keyboard interrupts, drawing and fetched lines lead to from
  -- the start, the interrupt handler returns as long as the line has room for another
  -- character, in a state that is reached so again.
  pub keyboard_isr-Run :
      (phase : Phase) (s : Keyboard Hw)
      → Run phase s
      → s.buffer_index_max < keyboard_buffer_size - 1
      → (s' : Keyboard Hw) × (keyboard_isr s ≡ some s') × Run phase s'
  keyboard_isr-Run phase s run room =
      let (s', step) = keyboard_isr-Yields s (Run-IsLine phase s run).1 room in
      (s', step, interrupted phase s s' run step)
