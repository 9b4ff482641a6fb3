-- ===== src/Fat32/Directory.antt =====
-- src/fat32.c: looking for an entry or a free slot in a directory table. An index is a C
-- `int32_t`, with -1 for none; as an array index it is taken modulo 2 ^ 32.

pub mod Search
use if2230_2023_ntaraja.Prelude.{
  ℕ, ◌+◌, ◌-◌, ◌%◌, ◌/◌, ◌^◌, ◌==◌, ◌&&◌, Bool, List, [], ◌∷◌, Option, byte_at, set?, get_elem?, ℤ,
  pos, negsuc, is_zero, if◌then◌else◌,
}
use if2230_2023_ntaraja.Prelude.Opt.{◌>>=◌}
use if2230_2023_ntaraja.Memory.{memcmp}
use if2230_2023_ntaraja.Fat32.{DirectoryEntry, Request, empty_name, attr_subdirectory, attr_archive}

-- `memcmp(a, b, n) == 0`
unfoldable pub same_bytes : List ℕ → List ℕ → ℕ → Bool
same_bytes a b n = is_zero (memcmp (byte_at a) (byte_at b) n)

abbrev pub has_name : List ℕ → DirectoryEntry → Bool
has_name name e = same_bytes e.name name 8

abbrev pub has_name_ext : List ℕ → List ℕ → DirectoryEntry → Bool
has_name_ext name ext e = same_bytes e.name name 8 && same_bytes e.ext ext 3

-- The first index, from `i` on, of an entry that passes the test
unfoldable pub index_of : (DirectoryEntry → Bool) → ℕ → List DirectoryEntry → ℤ
index_of test i [] = negsuc 0
index_of test i (e ∷ es) = if test e then pos i else index_of test (i + 1) es

unfoldable pub find_empty_entry : List DirectoryEntry → ℤ
find_empty_entry dir = index_of (has_name empty_name) 0 dir

unfoldable pub dir_table_search : List ℕ → List ℕ → List DirectoryEntry → ℤ
dir_table_search name ext dir = index_of (has_name_ext name ext) 0 dir

abbrev pub to_u32 : ℤ → ℕ
to_u32 (pos n) = n % 2 ^ 32
to_u32 (negsuc n) = 2 ^ 32 - 1 - n

-- The times of the entry that stood in the slot are kept.
unfoldable pub add_directory_entry :
    Request → ℕ → List DirectoryEntry → Option (List DirectoryEntry)
add_directory_entry r cluster dir = do
  let folder = to_u32 (find_empty_entry dir)
  e ← get_elem? dir folder
  set? dir folder (record e {
    name = r.name;
    ext = r.ext;
    user_attribute = 0;
    attribute = if r.buffer_size == 0 then attr_subdirectory else attr_archive;
    cluster_high = cluster / 2 ^ 16 % 2 ^ 16;
    cluster_low = cluster % 2 ^ 16;
    filesize = r.buffer_size;
  })
