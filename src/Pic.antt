-- ===== src/Pic.antt =====
-- src/interrupt.c: the interrupt controllers' port sequences.
use if2230_2023_ntaraja.Prelude.{ℕ, ◌^◌, bit_or, bit_xor, leb, if◌then◌else◌}
use if2230_2023_ntaraja.Ports.{Ports}

abbrev pub pic1_offset : ℕ
pic1_offset = 0x20

abbrev pub pic2_offset : ℕ
pic2_offset = 0x28

abbrev pub pic1_command : ℕ
pic1_command = 0x20

abbrev pub pic1_data : ℕ
pic1_data = 0x21

abbrev pub pic2_command : ℕ
pic2_command = 0xA0

abbrev pub pic2_data : ℕ
pic2_data = 0xA1

abbrev pub pic_ack_code : ℕ
pic_ack_code = 0x20

abbrev pub pic_disable_all_mask : ℕ
pic_disable_all_mask = 0xFF

abbrev pub irq_keyboard : ℕ
irq_keyboard = 1

module _ {Hw : Type 0} ⦃ports : Ports Hw⦄ where
  -- Every line but the keyboard's is masked.
  unfoldable pub activate_keyboard_interrupt : Hw → Hw
  activate_keyboard_interrupt h =
      ports.out (ports.out h pic1_data (bit_xor pic_disable_all_mask (2 ^ irq_keyboard))) pic2_data
        pic_disable_all_mask

  unfoldable pub io_wait : Hw → Hw
  io_wait h = ports.out h 0x80 0

  -- A request of the second controller is acknowledged at both.
  unfoldable pub pic_ack : ℕ → Hw → Hw
  pic_ack irq h =
      let h' = if leb 8 irq then ports.out h pic2_command pic_ack_code else h in
      ports.out h' pic1_command pic_ack_code

  -- One `out` and the wait behind it
  abbrev out_wait : ℕ → ℕ → Hw → Hw
  out_wait port v h = io_wait (ports.out h port v)

  -- The masks are read first, and restored behind the four initialisation words.
  unfoldable pub pic_remap : Hw → Hw
  pic_remap h =
      let (a1, h₁) = ports.in_byte h pic1_data in
      let (a2, h₂) = ports.in_byte h₁ pic2_data in
      let h₃ =
        out_wait pic2_command (bit_or 0x10 0x01) (out_wait pic1_command (bit_or 0x10 0x01) h₂) in
      let h₄ = out_wait pic2_data pic2_offset (out_wait pic1_data pic1_offset h₃) in
      let h₅ = out_wait pic2_data 0b0010 (out_wait pic1_data 0b0100 h₄) in
      let h₆ = out_wait pic2_data 0x01 (out_wait pic1_data 0x01 h₅) in
      ports.out (ports.out h₆ pic1_data a1) pic2_data a2
