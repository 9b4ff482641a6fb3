-- ===== src/Gdt/Base.antt =====
-- src/gdt.c: the address that the processor finds in the installed descriptor.
use if2230_2023_ntaraja.Prelude.{
  sym, refl, ℕ, ◌+◌, ◌*◌, ◌^◌, ◌<◌, ◌≡◌, ◌≢◌, List, length, get_or, get_or-set_self, get_or-set_ne,
  arith,
}
use if2230_2023_ntaraja.Gdt.{SegmentDescriptor, null_descriptor, gdt_install_tss}

-- The three parts of a descriptor's base, put together
abbrev pub segment_base : SegmentDescriptor → ℕ
segment_base d = d.base_low + d.base_mid * 2 ^ 16 + d.base_high * 2 ^ 24

-- Once the task state segment is installed in a table with room for it, descriptor 5 has its
-- 32-bit address as base and keeps its limit, and any other descriptor is as it was.
pub gdt_install_tss-segment_base :
    (base : ℕ) (table : List SegmentDescriptor) (i : ℕ)
    → base < 2 ^ 32
    → 5 < length table
    → i ≢ 5
    → (segment_base (get_or (gdt_install_tss base table) 5 null_descriptor) ≡ base)
      × ((get_or (gdt_install_tss base table) 5 null_descriptor).segment_low
          ≡ (get_or table 5 null_descriptor).segment_low)
      × (get_or (gdt_install_tss base table) i null_descriptor ≡ get_or table i null_descriptor)
unfolding gdt_install_tss
gdt_install_tss-segment_base base table i lt room ne =
    rw (get_or-set_self table 5 _ null_descriptor room)
      (omega arith, refl, get_or-set_ne table 5 i _ null_descriptor (λ e. ne (sym e)))
