-- ===== src/Paging/Translation.antt =====
-- src/paging.c: the addresses that the page directory translates to.
use if2230_2023_ntaraja.Prelude.{
  ◌∙◌, sym, set, length-set, get_or-set_self, eq→==, ap, ℕ_discrete, refl, ne→==, get_or-set_ne, ℕ,
  ◌+◌, ◌*◌, ◌/◌, ◌%◌, ◌^◌, ◌<◌, ◌≡◌, ◌≢◌, length, get_or, arith, Bool, true, ◌&&◌, ◌==◌,
  if◌then◌else◌, negsuc,
}
use if2230_2023_ntaraja.Paging.{
  PageDirectoryEntry, user_flags, PageDirectoryEntryFlag, PageDriver, no_entry,
  update_page_directory_entry, allocate_single_user_page_frame, page_entry_count, page_frame_size,
}

-- The page that an address is in
abbrev pub page_of : ℕ → ℕ
page_of a = a / 2 ^ 22 % 2 ^ 10

-- What reaches for an address: the kernel for reading, or the user's code
pub data Access : Type 0 where
  kernel_read : Access
  user_read : Access
  user_write : Access

-- What the processor makes of an address: a page fault, a walk through the entry's page table, or
-- a physical address
pub data Translation : Type 0 where
  fault : Translation
  through_table : Translation
  at : ℕ → Translation

abbrev pub is_allowed : Access → PageDirectoryEntryFlag → Bool
is_allowed kernel_read flag = true
is_allowed user_read flag = flag.user == 1
is_allowed user_write flag = (flag.user == 1) && (flag.write_bit == 1)

-- The translation through one entry: a 4 MiB page needs the page-size bit and a clear reserved
-- bit, and has the address bits from 32 on in `higher_address`.
abbrev pub through : Access → PageDirectoryEntry → ℕ → Translation
through access entry a =
    if entry.flag.present_bit == 0
    then fault
    else if is_allowed access entry.flag
    then (if entry.flag.use_pagesize_4_mb == 0
        then through_table
        else if entry.reserved == 0
        then at (entry.lower_address * 2 ^ 22 + entry.higher_address * 2 ^ 32 + a % 2 ^ 22)
        else fault)
    else fault

-- The processor's translation through the directory
abbrev pub translate : Access → PageDriver → ℕ → Translation
translate access s a = through access (get_or s.table (page_of a) no_entry) a

-- An entry without address bits above 32 and with the reserved bit clear
pub record IsPlain (entry : PageDirectoryEntry) : Type 0 where
  pub low : entry.higher_address ≡ 0
  pub clear : entry.reserved ≡ 0

through-present :
    (access : Access) (entry : PageDirectoryEntry) (frame a : ℕ)
    → entry.flag.present_bit ≡ 1
    → entry.flag.use_pagesize_4_mb ≡ 1
    → IsPlain entry
    → entry.lower_address ≡ frame
    → through access entry a ≡ (
        if is_allowed access entry.flag
        then at (frame * page_frame_size + a % page_frame_size)
        else fault)
through-present access entry frame a present large plain e =
    let base : frame * 2 ^ 22 + 0 * 2 ^ 32 + a % 2 ^ 22
        ≡ frame * page_frame_size + a % page_frame_size =
      omega arith in
    rw (present, large, plain.clear, plain.low, e, base) refl

-- A 4 MiB frame below 4 GiB, mapped in a whole directory as present and as a 4 MiB page through
-- an entry without high address bits and with a clear reserved bit, is where the addresses of
-- the page translate to, each with its offset, for every access that the flags allow, and the
-- others fault; the other pages translate as before.
pub update_page_directory_entry-translate :
    (access : Access) (frame virtual_addr a : ℕ) (flag : PageDirectoryEntryFlag) (s : PageDriver)
    → length s.table ≡ page_entry_count
    → flag.present_bit ≡ 1
    → flag.use_pagesize_4_mb ≡ 1
    → IsPlain (get_or s.table (page_of virtual_addr) no_entry)
    → frame < 1024
    → translate access (update_page_directory_entry (frame * page_frame_size) virtual_addr flag s) a
      ≡ (if page_of virtual_addr == page_of a
          then (if is_allowed access flag
              then at (frame * page_frame_size + a % page_frame_size)
              else fault)
          else translate access s a)
unfolding update_page_directory_entry
update_page_directory_entry-translate access frame virtual_addr a flag s width present large plain
      low =
    elim (ℕ_discrete (page_of virtual_addr) (page_of a)) [
      | yes e ↦
          let entry = record (get_or s.table (page_of virtual_addr) no_entry) {
            flag = flag;
            lower_address = frame * page_frame_size / 2 ^ 22 % 2 ^ 10;
          } in
          rw (eq→== (page_of virtual_addr) (page_of a) e) (
            ap (λ found. through access found a)
              (ap (λ i. get_or (set s.table (page_of virtual_addr) entry) i no_entry) (sym e)
                ∙ get_or-set_self s.table (page_of virtual_addr) entry no_entry
                    (rw (width) (omega arith)))
            ∙ through-present access entry frame a present large
                (record { low = plain.low; clear = plain.clear }) (omega arith))
      | no ne ↦
          rw
            (
              ne→== (page_of virtual_addr) (page_of a) ne,
              get_or-set_ne s.table (page_of virtual_addr) (page_of a) _ no_entry ne,
            )
            refl
    ]

length-update_page_directory_entry :
    (p v : ℕ) (flag : PageDirectoryEntryFlag) (s : PageDriver)
    → length (update_page_directory_entry p v flag s).table ≡ length s.table
unfolding update_page_directory_entry
length-update_page_directory_entry p v flag s = length-set s.table (v / 2 ^ 22 % 2 ^ 10) _

-- The flags of a user's page allow every access.
pub is_allowed-user_flags : (access : Access) → is_allowed access user_flags ≡ true
is_allowed-user_flags kernel_read = refl
is_allowed-user_flags user_read = refl
is_allowed-user_flags user_write = refl

-- Two allocations for addresses in different pages of a whole directory whose entries for them
-- have no high address bits and a clear reserved bit, with a frame below 4 GiB as the next one,
-- give both pages that frame for the kernel's reads and the user's reads and writes, and both
-- return -1.
pub allocate_single_user_page_frame-translate :
    (access : Access) (frame a b : ℕ) (s : PageDriver)
    → length s.table ≡ page_entry_count
    → s.last_available_physical_addr ≡ frame * page_frame_size
    → IsPlain (get_or s.table (page_of a) no_entry)
    → IsPlain (get_or s.table (page_of b) no_entry)
    → frame < 1024
    → page_of a ≢ page_of b
    → let (code, s₁) = allocate_single_user_page_frame a s in
      let (code₂, s₂) = allocate_single_user_page_frame b s₁ in
      (code ≡ negsuc 0)
      × (code₂ ≡ negsuc 0)
      × (translate access s₂ a ≡ at (frame * page_frame_size + a % page_frame_size))
      × (translate access s₂ b ≡ at (frame * page_frame_size + b % page_frame_size))
unfolding allocate_single_user_page_frame update_page_directory_entry
allocate_single_user_page_frame-translate access frame a b s width base plain plain₂ low ne =
    let s₁ = update_page_directory_entry (frame * page_frame_size) a user_flags s in
    let width₁ : length s₁.table ≡ page_entry_count =
      length-update_page_directory_entry (frame * page_frame_size) a user_flags s ∙ width in
    let plain₁ : IsPlain (get_or s₁.table (page_of b) no_entry) =
      rw (get_or-set_ne s.table (page_of a) (page_of b) _ no_entry ne) plain₂ in
    let free = is_allowed-user_flags access in
    rw (base) (
      refl,
      refl,
      update_page_directory_entry-translate access frame b a user_flags s₁ width₁ refl refl plain₁
            low
          ∙ rw (ne→== (page_of b) (page_of a) (λ e. ne (sym e))) (
              update_page_directory_entry-translate access frame a a user_flags s width refl refl
                plain low
              ∙ rw (eq→== (page_of a) (page_of a) refl, free) refl),
      update_page_directory_entry-translate access frame b b user_flags s₁ width₁ refl refl plain₁
            low
          ∙ rw (eq→== (page_of b) (page_of b) refl, free) refl,
    )
