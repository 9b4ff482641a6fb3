-- ===== src/Boot/Ready.antt =====
-- src/kernel.c: what the start of the kernel leaves for interrupts, the screen and the shell.
use if2230_2023_ntaraja.Framebuffer.{framebuffer_get_cursor}
use if2230_2023_ntaraja.Paging.Translation.{
  Access, IsPlain, at, is_allowed-user_flags, translate, update_page_directory_entry-translate,
  page_of,
}
use if2230_2023_ntaraja.Gdt.{null_descriptor}
use if2230_2023_ntaraja.Framebuffer.Cursor.{get-set_cursor}
use if2230_2023_ntaraja.Gdt.Base.{segment_base, gdt_install_tss-segment_base}
use if2230_2023_ntaraja.Idt.Gates.{LeadsTo, initialize_idt-LeadsTo}
use if2230_2023_ntaraja.Paging.{
  no_entry, update_page_directory_entry, user_flags, page_frame_size, page_entry_count,
  allocate_single_user_page_frame,
}
use if2230_2023_ntaraja.Idt.{IdtGate, isr_stub_table_limit, idt_max_entry_count}
use if2230_2023_ntaraja.Prelude.{
  ap, if◌then◌else◌, ◌∙◌, true, some, length, leb, get_or, get_elem?, byte_at, arith, ◌==◌, ℕ, ◌<◌,
  ◌≡◌, ◌*◌, ◌%◌, ◌+◌, ◌^◌, refl,
}
use if2230_2023_ntaraja.Disk.{BlockDevice}
use if2230_2023_ntaraja.Ports.{Ports}
use if2230_2023_ntaraja.Boot.{Machine, Given, machine_setup}

module _ {Disk Hw : Type 0} ⦃device : BlockDevice Disk⦄ ⦃ports : Ports Hw⦄ where
  -- What the kernel has in memory when it starts
  pub record IsWhole (given : Given) (frame : ℕ) (m : Machine Disk Hw) : Type 0 where
    pub stubs : (k : ℕ) → byte_at given.stubs k < 2 ^ 32
    pub tss : given.tss_address < 2 ^ 32
    pub gates : length m.idt ≡ idt_max_entry_count
    pub segments : 5 < length m.gdt
    pub directory : length m.pages.table ≡ page_entry_count
    pub next_frame : m.pages.last_available_physical_addr ≡ frame * page_frame_size
    pub low : frame < 1024
    pub plain : IsPlain (get_or m.pages.table 0 no_entry)

  -- Every vector leads to its stub, the task's segment is known, the cursor is at the screen's
  -- corner, and the user's page is mapped, for every access.
  pub record IsReady (given : Given) (frame : ℕ) (m : Machine Disk Hw) : Type 0 where
    pub leads :
        (j : ℕ)
        → j < isr_stub_table_limit
        → (g : IdtGate) × (get_elem? m.idt j ≡ some g)
          × LeadsTo (byte_at given.stubs j) (if leb 48 j then 3 else 0) g
    pub task : segment_base (get_or m.gdt 5 null_descriptor) ≡ given.tss_address
    pub cursor : (framebuffer_get_cursor m.display).0 ≡ (0, 0)
    pub page :
        (access : Access) (a : ℕ)
        → a < page_frame_size
        → translate access m.pages a ≡ at (frame * page_frame_size + a)

  -- The first part of the kernel's start, with 32-bit stub addresses, whole tables, a first
  -- page entry without high address bits and with a clear reserved bit, and a frame below 4 GiB
  -- as the next one, leaves each of the first 64 vectors leading to its own stub through a
  -- valid 32-bit interrupt gate, the task state segment's address in descriptor 5, the cursor
  -- at the screen's corner, and the first 4 MiB of addresses mapped to that frame for the
  -- kernel's reads and the user's reads and writes.
  pub machine_setup-IsReady :
      (given : Given) (frame : ℕ) (m : Machine Disk Hw)
      → IsWhole given frame m
      → IsReady given frame (machine_setup given m)
  unfolding machine_setup allocate_single_user_page_frame
  machine_setup-IsReady given frame m whole = record {
    leads = λ j lt. initialize_idt-LeadsTo given.stubs m.idt j whole.stubs whole.gates lt;
    task =
        (gdt_install_tss-segment_base given.tss_address m.gdt 0 whole.tss whole.segments
          (λ e. omega arith)).0;
    cursor = get-set_cursor _ 0 0 (omega arith) (omega arith);
    page = λ access a lt.
        let same : (page_of 0 == page_of a) ≡ true = ground arith in
        let rest : a % page_frame_size ≡ a = omega arith in
        ap (λ n. translate access (update_page_directory_entry n 0 user_flags m.pages) a)
          whole.next_frame
        ∙ update_page_directory_entry-translate access frame 0 a user_flags m.pages whole.directory
            refl refl whole.plain whole.low
        ∙ rw (same, rest, is_allowed-user_flags access) refl;
  }
