-- ===== src/Fat32/RoundTrip/Reads.antt =====
-- Reading a stored file.
pub mod Removal
use if2230_2023_ntaraja.Fat32.Reading.Chain.{read-found, read_chain-IsStored}
use if2230_2023_ntaraja.Memory.{load_bytes}
use if2230_2023_ntaraja.Fat32.Reading.{read_file, read, Reply, read_chain}
use if2230_2023_ntaraja.Fat32.Layout.{encode_dir, encode_fat}
use if2230_2023_ntaraja.Fat32.Directory.Search.{same_bytes_self}
use if2230_2023_ntaraja.Fat32.Volume.{read_to_dir_table, init_directory_entry, flush}
use if2230_2023_ntaraja.Fat32.Writing.{mark_not_empty, file_entry}
use if2230_2023_ntaraja.Fat32.Layout.RoundTrip.{IsEntry}
use if2230_2023_ntaraja.Fat32.Writing.Entry.{
  file_entry-IsEntry, get_or-mark_not_empty, marked, mark_not_empty-IsEntry, length-mark_not_empty,
}
use if2230_2023_ntaraja.Fat32.{
  fat_cluster_number, DirectoryEntry, zero_entry, State, Request, DateTime,
}
use if2230_2023_ntaraja.Disk.{cluster_size, write_clusters, BlockDevice}
use if2230_2023_ntaraja.Prelude.{
  get_elem?-eq-get_or, some, ne→==, ltb, ◌^◌, ◌/◌, ◌+◌, ◌*◌, refl, ◌%◌, ◌≡◌, ◌∙◌, ℕ, true, suc, set,
  pos, length-set, length, inr, inl, get_or-set_self, get_or-set_ne, get_or, false, arith, ap, List,
  Bool, All-set, All, ◌<◌,
}
use if2230_2023_ntaraja.Fat32.RoundTrip.{
  take_load, dir_at-write, dir_at-fits, CanStore, dir_at, loaded,
}
use if2230_2023_ntaraja.Fat32.RoundTrip.Checks.{
  Passes, slot_inside, slot_empty, slot_small, search-slot,
}
use if2230_2023_ntaraja.Fat32.RoundTrip.Writes.{passes, at_parent, final, last_round}
use if2230_2023_ntaraja.Fat32.Directory.{dir_table_search, has_name_ext}
use if2230_2023_ntaraja.Fat32.Writing.Store.{IsStored-write, IsStored, Stored}

module _ {Disk : Type 0} ⦃device : BlockDevice Disk⦄ (now : DateTime) (r : Request) (slot : ℕ)
    (s : State Disk) (can : CanStore r slot s) (first : ℕ) (s₂ : State Disk)
    (st : Stored now r slot 3 0
      (last_round now r slot s can)
      r.buffer_size
      first
      (at_parent now r slot s can)
      s₂) where
  abbrev parent : ℕ
  parent = r.parent_cluster_number

  abbrev before : List DirectoryEntry
  before = dir_at s parent

  abbrev new_entry : DirectoryEntry
  new_entry = file_entry now r first r.buffer_size

  -- The table that is flushed
  abbrev after : List DirectoryEntry
  after = mark_not_empty parent (set before slot new_entry)

  before_width : length before ≡ 64
  before_width = (dir_at-fits s parent).0

  abbrev pass : Passes r slot s
  pass = passes now r slot s can

  slot_fits : slot < length before
  slot_fits = slot_small r slot s pass

  dir-eq : mark_not_empty parent s₂.dir_table ≡ after
  dir-eq = ap (mark_not_empty parent) (st.dir ∙ rw (slot_empty r slot s pass))

  after_width : length after ≡ 64
  after_width =
      length-mark_not_empty parent (set before slot new_entry)
      ∙ length-set before slot new_entry
      ∙ before_width

  after-IsEntry : All IsEntry after
  after-IsEntry = mark_not_empty-IsEntry parent (set before slot new_entry) (
      All-set IsEntry before slot new_entry (dir_at-fits s parent).1
        (file_entry-IsEntry now r first can.request))

  -- The parent's cluster holds that table.
  dir_at-final : dir_at (final now r slot s can s₂) parent ≡ after
  unfolding flush
  dir_at-final = rw dir-eq (
      dir_at-write s (write_clusters s₂.disk (encode_fat s₂.fat_table) fat_cluster_number 1) after
        parent after_width after-IsEntry)

  entry_at :
      (i : ℕ)
      → (u : ℕ) × (get_or after i zero_entry
          ≡ marked (get_or (set before slot new_entry) i zero_entry) u)
  entry_at = get_or-mark_not_empty parent (set before slot new_entry)

  abbrev matches : DirectoryEntry → Bool
  matches = has_name_ext r.name r.ext

  hit : matches (get_or after slot zero_entry) ≡ true
  unfolding file_entry init_directory_entry
  hit =
      let (u, e) = entry_at slot in
      rw (
        e,
        get_or-set_self before slot new_entry zero_entry slot_fits,
        same_bytes_self r.name 8,
        same_bytes_self r.ext 3,
      )

  earlier :
      (k : ℕ)
      → k < slot
      → matches (get_or after k zero_entry) ≡ matches (get_or before k zero_entry)
  earlier k lt =
      let (u, e) = entry_at k in
      rw (e, get_or-set_ne before slot k new_entry zero_entry (omega arith)) refl

  -- The search finds the slot that was filled.
  found : dir_table_search r.name r.ext after ≡ pos slot
  found = search-slot r slot s pass after after_width hit earlier

  abbrev fat_buf : List ℕ
  fat_buf = encode_fat s₂.fat_table

  abbrev dir_buf : List ℕ
  dir_buf = encode_dir (mark_not_empty parent s₂.dir_table)

  abbrev rounds : ℕ
  rounds = suc (last_round now r slot s can)

  chain-final : IsStored s₂.fat_table (final now r slot s can s₂).disk r.buf first 0 rounds
  unfolding flush
  chain-final =
      IsStored-write {Disk = Disk} rounds s₂.fat_table
        (write_clusters s₂.disk fat_buf fat_cluster_number 1) dir_buf r.buf parent first 0
        can.parent_inside (st.avoids parent (inr can.parent_taken))
        (IsStored-write {Disk = Disk} rounds s₂.fat_table s₂.disk fat_buf r.buf fat_cluster_number
          first 0 (omega arith) (st.avoids fat_cluster_number (inl (omega arith))) st.chain)

  -- The state in which read looks at the entry
  abbrev pub reading : State Disk
  reading = loaded (final now r slot s can s₂) parent

  abbrev pub reply : Reply
  reply = record { code = pos 0; output = some (load_bytes r.buf 0 r.buffer_size) }

  first-lt : (0 < first) × (first < 2 ^ 16)
  first-lt = omega (arith, st.after, st.inside)

  chain-read :
      read_chain (r.buffer_size / cluster_size + 1) reading.disk reading.fat_table first
      ≡ some (load_bytes r.buf 0 (rounds * cluster_size))
  unfolding flush
  chain-read =
      read_chain-IsStored s₂.fat_table reading.disk r.buf st.width (last_round now r slot s can)
        (r.buffer_size / cluster_size + 1) first 0 (omega arith) chain-final

  read_file-reply :
      (stack : List ℕ) (u : ℕ) → read_file stack r (marked new_entry u) reading ≡ some reply
  unfolding read_file file_entry init_directory_entry
  read_file-reply stack u =
      let whole : first / 2 ^ 16 % 2 ^ 16 * 2 ^ 16 + first % 2 ^ 16 ≡ first =
        omega (arith, first-lt) in
      let enough : ltb r.buffer_size r.buffer_size ≡ false = ground arith in
      let some_cluster = ne→== first 0 (omega (arith, first-lt)) in
      rw (enough, whole, some_cluster, chain-read)
        (ap (λ out. some (record { code = pos 0; output = some out }))
          (take_load r.buffer_size (rounds * cluster_size) r.buf 0 _ (omega arith)))

  pub read-final :
      (stack : List ℕ) → read stack r (final now r slot s can s₂) ≡ some (reply, reading)
  unfolding read read_to_dir_table
  read-final stack =
      let (u, e) = entry_at slot in
      read-found stack r reading slot (marked new_entry u) reply (rw dir_at-final found)
        (rw dir_at-final (
          get_elem?-eq-get_or after slot zero_entry
            (omega (arith, after_width, slot_inside r slot s pass))
          ∙ ap some (
              e
              ∙ ap (λ t. marked t u) (get_or-set_self before slot new_entry zero_entry slot_fits))))
        (read_file-reply stack u)
