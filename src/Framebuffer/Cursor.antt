-- ===== src/Framebuffer/Cursor.antt =====
-- The cursor is where it was set.
use if2230_2023_ntaraja.Framebuffer.{framebuffer_set_cursor, framebuffer_get_cursor, Display}
use if2230_2023_ntaraja.Prelude.{◌≡◌, ◌∙◌, ℕ, arith, ap₂, ◌^◌, ◌<◌, ◌/◌, ◌+◌, ◌*◌, ◌%◌}
use if2230_2023_ntaraja.Ports.{Ports}

module _ {Hw : Type 0} ⦃ports : Ports Hw⦄ (d : Display Hw) where
  -- The position register pair after the cursor was set
  pub set_cursor_registers :
      (r c : ℕ)
      → let h = (framebuffer_set_cursor r c d).hw in
        (ports.cursor h 0x0F ≡ (r * 80 + c) % 2 ^ 16 % 2 ^ 8 % 2 ^ 8)
        × (ports.cursor h 0x0E ≡ (r * 80 + c) % 2 ^ 16 / 2 ^ 8 % 2 ^ 8 % 2 ^ 8)
  unfolding framebuffer_set_cursor
  set_cursor_registers r c = (ports.store _ _ _ _ ∙ ports.store _ _ _ _, ports.store _ _ _ _)

  pub get_cursor_registers : (framebuffer_get_cursor d).0 ≡ (
    (ports.cursor d.hw 0x0F + ports.cursor d.hw 0x0E * 2 ^ 8) / 80 % 2 ^ 8,
    (ports.cursor d.hw 0x0F + ports.cursor d.hw 0x0E * 2 ^ 8) % 80,
  )
  unfolding framebuffer_get_cursor
  get_cursor_registers = rw (ports.fetch, ports.fetch, ports.fetch_keeps)

module _ {Hw : Type 0} ⦃ports : Ports Hw⦄ where
  -- A cursor set to a row that fits a byte and a column below 80 is read back.
  pub get-set_cursor :
      (d : Display Hw) (r c : ℕ)
      → r < 256
      → c < 80
      → (framebuffer_get_cursor (framebuffer_set_cursor r c d)).0 ≡ (r, c)
  get-set_cursor d r c hr hc =
      let (low, high) = set_cursor_registers d r c in
      get_cursor_registers (framebuffer_set_cursor r c d)
      ∙ rw (low, high) (ap₂ (λ a b. (a, b)) (omega arith) (omega arith))
