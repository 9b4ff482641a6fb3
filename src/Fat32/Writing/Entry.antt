-- ===== src/Fat32/Writing/Entry.antt =====
-- The entries that write makes fit their struct, and the mark on a directory changes nothing else.
use if2230_2023_ntaraja.Fat32.Layout.RoundTrip.{IsEntry}
use if2230_2023_ntaraja.Fat32.Writing.{mark_not_empty, file_entry}
use if2230_2023_ntaraja.Fat32.{
  uattr_not_empty, entry_cluster, zero_entry, DirectoryEntry, Request, DateTime,
}
use if2230_2023_ntaraja.Prelude.{
  ◌≢◌, ne→==, zero, suc, ◌≡◌, ◌∷◌, ℕ, refl, length, inr, inl, get_or, arith, ◌^◌, [], List, Bytes,
  Bool-cases, All, ◌==◌, ◌<◌,
}
use if2230_2023_ntaraja.Fat32.Volume.{pack_date, pack_time, init_directory_entry}

-- What a request must hold to be stored: its arrays have their sizes.
pub record IsRequest (r : Request) : Type 0 where
  pub name_length : length r.name ≡ 8
  pub name_bytes : Bytes r.name
  pub ext_length : length r.ext ≡ 3
  pub ext_bytes : Bytes r.ext
  pub size_small : r.buffer_size < 2 ^ 32

pack-lt : (now : DateTime) → (pack_time now < 2 ^ 16) × (pack_date now < 2 ^ 16)
unfolding pack_time pack_date
pack-lt now = omega arith

pub init_directory_entry-IsEntry :
    (now : DateTime) (name : List ℕ) (cluster : ℕ)
    → length name ≡ 8
    → Bytes name
    → IsEntry (init_directory_entry now name cluster)
unfolding init_directory_entry
init_directory_entry-IsEntry now name cluster e b =
    let (time, date) = pack-lt now in
    record {
      name_length = e;
      name_bytes = b;
      ext_length = refl;
      ext_bytes = omega arith;
      attribute = omega arith;
      user_attribute = omega arith;
      undelete = omega arith;
      create_time = time;
      create_date = date;
      access_date = date;
      cluster_high = omega arith;
      modified_time = time;
      modified_date = date;
      cluster_low = omega arith;
      filesize = omega arith;
    }

pub file_entry-IsEntry :
    (now : DateTime) (r : Request) (head : ℕ)
    → IsRequest r
    → IsEntry (file_entry now r head r.buffer_size)
unfolding file_entry init_directory_entry
file_entry-IsEntry now r head v =
    let is = init_directory_entry-IsEntry now r.name head v.name_length v.name_bytes in
    record {
      name_length = is.name_length;
      name_bytes = is.name_bytes;
      ext_length = v.ext_length;
      ext_bytes = v.ext_bytes;
      attribute = omega arith;
      user_attribute = is.user_attribute;
      undelete = is.undelete;
      create_time = is.create_time;
      create_date = is.create_date;
      access_date = is.access_date;
      cluster_high = is.cluster_high;
      modified_time = is.modified_time;
      modified_date = is.modified_date;
      cluster_low = is.cluster_low;
      filesize = v.size_small;
    }

-- One entry with another user attribute
abbrev pub marked : DirectoryEntry → ℕ → DirectoryEntry
marked e u = record e { user_attribute = u }

marked-IsEntry : (e : DirectoryEntry) (u : ℕ) → u < 2 ^ 8 → IsEntry e → IsEntry (marked e u)
marked-IsEntry e u lt is = record {
  name_length = is.name_length;
  name_bytes = is.name_bytes;
  ext_length = is.ext_length;
  ext_bytes = is.ext_bytes;
  attribute = is.attribute;
  user_attribute = lt;
  undelete = is.undelete;
  create_time = is.create_time;
  create_date = is.create_date;
  access_date = is.access_date;
  cluster_high = is.cluster_high;
  modified_time = is.modified_time;
  modified_date = is.modified_date;
  cluster_low = is.cluster_low;
  filesize = is.filesize;
}

pub mark_not_empty-IsEntry :
    (c : ℕ) (dir : List DirectoryEntry) → All IsEntry dir → All IsEntry (mark_not_empty c dir)
unfolding mark_not_empty
mark_not_empty-IsEntry c [] h = h
mark_not_empty-IsEntry c (e ∷ dir) h = elim (Bool-cases (entry_cluster e == c)) [
  | inl hit ↦ rw hit (marked-IsEntry e uattr_not_empty (omega arith) h.0, h.1)
  | inr miss ↦ rw miss (h.0, mark_not_empty-IsEntry c dir h.1)
]

-- Every entry stays, but for its user attribute.
pub get_or-mark_not_empty :
    (c : ℕ) (dir : List DirectoryEntry) (i : ℕ)
    → (u : ℕ) × (get_or (mark_not_empty c dir) i zero_entry ≡ marked (get_or dir i zero_entry) u)
unfolding mark_not_empty
get_or-mark_not_empty c [] i = (0, refl)
get_or-mark_not_empty c (e ∷ dir) zero = elim (Bool-cases (entry_cluster e == c)) [
  | inl hit ↦ (uattr_not_empty, rw hit)
  | inr miss ↦ (e.user_attribute, rw miss)
]
get_or-mark_not_empty c (e ∷ dir) (suc i) = elim (Bool-cases (entry_cluster e == c)) [
  | inl hit ↦ ((get_or dir i zero_entry).user_attribute, rw hit)
  | inr miss ↦ let (u, same) = get_or-mark_not_empty c dir i in (u, rw miss same)
]

pub length-mark_not_empty :
    (c : ℕ) (dir : List DirectoryEntry) → length (mark_not_empty c dir) ≡ length dir
unfolding mark_not_empty
length-mark_not_empty c [] = refl
length-mark_not_empty c (e ∷ dir) = ground (arith, length-mark_not_empty c dir)

-- An entry of another cluster stays as it is.
pub mark_not_empty_elsewhere :
    (c : ℕ) (dir : List DirectoryEntry) (i : ℕ)
    → entry_cluster (get_or dir i zero_entry) ≢ c
    → get_or (mark_not_empty c dir) i zero_entry ≡ get_or dir i zero_entry
unfolding mark_not_empty
mark_not_empty_elsewhere c [] i h = refl
mark_not_empty_elsewhere c (e ∷ dir) zero h = rw (ne→== (entry_cluster e) c h) refl
mark_not_empty_elsewhere c (e ∷ dir) (suc i) h = elim (Bool-cases (entry_cluster e == c)) [
  | inl hit ↦ rw hit refl
  | inr miss ↦ rw miss (mark_not_empty_elsewhere c dir i h)
]
