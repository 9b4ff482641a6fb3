-- ===== src/Paging.antt =====
-- src/paging.c and src/lib-header/paging.h: the page directory, of 4 MiB pages. The instruction that
-- drops a translation from the processor's cache has no effect on the directory.
pub mod Translation
use if2230_2023_ntaraja.Prelude.{
  ℕ, ◌*◌, ◌/◌, ◌%◌, ◌^◌, List, set, get_or, replicate, ℤ, pos, negsuc,
}

-- `struct PageDirectoryEntryFlag`
pub record PageDirectoryEntryFlag : Type 0 where
  pub present_bit : ℕ
  pub write_bit : ℕ
  pub user : ℕ
  pub w_through : ℕ
  pub cache : ℕ
  pub access : ℕ
  pub dirty : ℕ
  pub use_pagesize_4_mb : ℕ

-- `struct PageDirectoryEntry`
pub record PageDirectoryEntry : Type 0 where
  pub flag : PageDirectoryEntryFlag
  pub global_page : ℕ
  pub ignored : ℕ
  pub pat : ℕ
  pub higher_address : ℕ
  pub reserved : ℕ
  pub lower_address : ℕ

abbrev pub page_entry_count : ℕ
page_entry_count = 1024

abbrev pub page_frame_size : ℕ
page_frame_size = 4 * 1024 * 1024

abbrev pub no_flags : PageDirectoryEntryFlag
no_flags = record {
  present_bit = 0;
  write_bit = 0;
  user = 0;
  w_through = 0;
  cache = 0;
  access = 0;
  dirty = 0;
  use_pagesize_4_mb = 0;
}

abbrev pub no_entry : PageDirectoryEntry
no_entry = record {
  flag = no_flags;
  global_page = 0;
  ignored = 0;
  pat = 0;
  higher_address = 0;
  reserved = 0;
  lower_address = 0;
}

-- The kernel's page, present and writable, at the start of the physical memory
abbrev pub kernel_entry : PageDirectoryEntry
kernel_entry = record no_entry {
  flag = record no_flags { present_bit = 1; write_bit = 1; use_pagesize_4_mb = 1 };
}

-- The page directory, and `last_available_physical_addr`
pub record PageDriver : Type 0 where
  pub table : List PageDirectoryEntry
  pub last_available_physical_addr : ℕ

abbrev pub initial_pages : PageDriver
initial_pages = record {
  table = set (set (replicate page_entry_count no_entry) 0 kernel_entry) 0x300 kernel_entry;
  last_available_physical_addr = page_frame_size;
}

unfoldable pub update_page_directory_entry :
    ℕ → ℕ → PageDirectoryEntryFlag → PageDriver → PageDriver
update_page_directory_entry physical_addr virtual_addr flag s =
    let page_index = virtual_addr / 2 ^ 22 % 2 ^ 10 in
    let entry = get_or s.table page_index no_entry in
    record s {
      table =
          set s.table page_index
            (record entry { flag = flag; lower_address = physical_addr / 2 ^ 22 % 2 ^ 10 });
    }

abbrev pub user_flags : PageDirectoryEntryFlag
user_flags = record no_flags { present_bit = 1; write_bit = 1; user = 1; use_pagesize_4_mb = 1 }

unfoldable pub allocate_single_user_page_frame : ℕ → PageDriver → ℤ × PageDriver
allocate_single_user_page_frame virtual_addr s =
    (negsuc 0, update_page_directory_entry s.last_available_physical_addr virtual_addr user_flags s)
