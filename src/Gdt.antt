-- ===== src/Gdt.antt =====
-- src/gdt.c and src/lib-header/gdt.h: the segment descriptors, and where the task state segment goes.
pub mod Base
use if2230_2023_ntaraja.Prelude.{ℕ, ◌/◌, ◌%◌, ◌^◌, List, ◌∷◌, set, get_or, replicate}

-- `struct SegmentDescriptor`
pub record SegmentDescriptor : Type 0 where
  pub segment_low : ℕ
  pub base_low : ℕ
  pub base_mid : ℕ
  pub type_bit : ℕ
  pub non_system : ℕ
  pub descriptor_privilege_level : ℕ
  pub present : ℕ
  pub segment_high : ℕ
  pub available : ℕ
  pub long_mode : ℕ
  pub default_operation_size : ℕ
  pub granularity : ℕ
  pub base_high : ℕ

abbrev pub gdt_max_entry_count : ℕ
gdt_max_entry_count = 32

-- `sizeof(struct TSSEntry)`: twenty-five double words and two words
abbrev pub tss_entry_size : ℕ
tss_entry_size = 104

abbrev pub null_descriptor : SegmentDescriptor
null_descriptor = record {
  segment_low = 0;
  base_low = 0;
  base_mid = 0;
  type_bit = 0;
  non_system = 0;
  descriptor_privilege_level = 0;
  present = 0;
  segment_high = 0;
  available = 0;
  long_mode = 0;
  default_operation_size = 0;
  granularity = 0;
  base_high = 0;
}

-- A segment over the whole memory: its type, privilege level and long-mode bit differ.
abbrev flat_segment : ℕ → ℕ → ℕ → SegmentDescriptor
flat_segment kind privilege long = record {
  segment_low = 0xFFFF;
  base_low = 0;
  base_mid = 0;
  type_bit = kind;
  non_system = 1;
  descriptor_privilege_level = privilege;
  present = 1;
  segment_high = 0xF;
  available = 0;
  long_mode = long;
  default_operation_size = 1;
  granularity = 1;
  base_high = 0;
}

abbrev tss_descriptor : SegmentDescriptor
tss_descriptor = record {
  segment_low = tss_entry_size;
  base_low = 0;
  base_mid = 0;
  type_bit = 9;
  non_system = 0;
  descriptor_privilege_level = 0;
  present = 1;
  segment_high = tss_entry_size / 2 ^ 16 % 2 ^ 4;
  available = 0;
  long_mode = 0;
  default_operation_size = 1;
  granularity = 0;
  base_high = 0;
}

-- The table at the start: null, kernel code and data, user code and data, and the task state segment
abbrev pub global_descriptor_table : List SegmentDescriptor
global_descriptor_table =
    null_descriptor
    ∷ flat_segment 0xA 0 1
    ∷ flat_segment 0x2 0 0
    ∷ flat_segment 0xA 3 1
    ∷ flat_segment 0x2 3 0
    ∷ tss_descriptor
    ∷ replicate 26 null_descriptor

-- `base` is the address of the task state segment.
unfoldable pub gdt_install_tss : ℕ → List SegmentDescriptor → List SegmentDescriptor
gdt_install_tss base table =
    let d = get_or table 5 null_descriptor in
    set table 5 (record d {
      base_high = base / 2 ^ 24 % 2 ^ 8;
      base_mid = base / 2 ^ 16 % 2 ^ 8;
      base_low = base % 2 ^ 16;
    })
