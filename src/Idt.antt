-- ===== src/Idt.antt =====
-- src/idt.c and src/lib-header/interrupt/idt.h: the interrupt gates. The addresses of the stubs, which
-- the assembler lays out, are a parameter.
pub mod Gates
use if2230_2023_ntaraja.Prelude.{
  ℕ, zero, suc, ◌+◌, ◌/◌, ◌%◌, ◌^◌, List, set, byte_at, leb, if◌then◌else◌,
}

-- `struct IDTGate`
pub record IdtGate : Type 0 where
  pub offset_low : ℕ
  pub segment : ℕ
  pub reserved : ℕ
  pub r_bit_1 : ℕ
  pub r_bit_2 : ℕ
  pub gate_32 : ℕ
  pub r_bit_3 : ℕ
  pub privilege : ℕ
  pub valid_bit : ℕ
  pub offset_high : ℕ

abbrev pub idt_max_entry_count : ℕ
idt_max_entry_count = 256

abbrev pub isr_stub_table_limit : ℕ
isr_stub_table_limit = 64

abbrev pub kernel_code_selector : ℕ
kernel_code_selector = 8

-- Every field of the gate is written.
unfoldable pub set_interrupt_gate : ℕ → ℕ → ℕ → ℕ → List IdtGate → List IdtGate
set_interrupt_gate int_vector handler_address gdt_seg_selector privilege table =
    set table int_vector (record {
      offset_low = handler_address % 2 ^ 16;
      offset_high = handler_address / 2 ^ 16 % 2 ^ 16;
      privilege = privilege % 2 ^ 2;
      segment = gdt_seg_selector;
      reserved = 0;
      r_bit_1 = 0;
      r_bit_2 = 6;
      r_bit_3 = 0;
      gate_32 = 1;
      valid_bit = 1;
    })

-- `rounds` gates are left, from vector `i` on.
pub gate_loop : List ℕ → ℕ → ℕ → List IdtGate → List IdtGate
gate_loop stubs zero i table = table
gate_loop stubs (suc rounds) i table =
    gate_loop stubs rounds (i + 1) (
      set_interrupt_gate i (byte_at stubs i) kernel_code_selector (if leb 48 i then 3 else 0) table)

-- The table, less the instructions that load it and let interrupts in
unfoldable pub initialize_idt : List ℕ → List IdtGate → List IdtGate
initialize_idt stubs table = gate_loop stubs isr_stub_table_limit 0 table
