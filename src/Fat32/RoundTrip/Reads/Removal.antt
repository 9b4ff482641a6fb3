-- ===== src/Fat32/RoundTrip/Reads/Removal.antt =====
-- src/fat32.c: a stored file that is deleted.
use if2230_2023_ntaraja.Prelude.{
  ==→eq, ℕ, ◌≡◌, ◌≢◌, ◌∙◌, ◌<◌, ◌+◌, ◌*◌, ◌/◌, ◌%◌, ◌^◌, refl, sym, ap, subst, inl, inr, List,
  length, get_or, get_elem?, set, true, false, some, pos, negsuc, arith, Bool-cases,
  get_elem?-eq-get_or, get_or-set_self, get_or-set_ne, length-set, set?-eq-set,
}
use if2230_2023_ntaraja.Disk.{BlockDevice}
use if2230_2023_ntaraja.Fat32.{
  empty_name, fat_empty_entry, fat_end_of_file, zero_entry, entry_cluster, DateTime, DirectoryEntry,
  Request, State,
}
use if2230_2023_ntaraja.Fat32.Volume.{flush, init_directory_entry}
use if2230_2023_ntaraja.Fat32.Directory.{has_name, index_of, same_bytes}
use if2230_2023_ntaraja.Fat32.Directory.Search.{
  index_of-FirstIndex, index_of-eq, FirstIndex, same_bytes_self,
}
use if2230_2023_ntaraja.Fat32.Deletion.{load_dir, remove_folder, delete}
use if2230_2023_ntaraja.Fat32.Writing.{file_entry}
use if2230_2023_ntaraja.Fat32.Writing.Entry.{get_or-mark_not_empty, mark_not_empty_elsewhere}
use if2230_2023_ntaraja.Fat32.Writing.Free.{entry_of}
use if2230_2023_ntaraja.Fat32.Writing.Store.{Stored}
use if2230_2023_ntaraja.Fat32.RoundTrip.{CanStore, dir_at}
use if2230_2023_ntaraja.Fat32.RoundTrip.Checks.{slot_inside}
use if2230_2023_ntaraja.Fat32.RoundTrip.Writes.{at_parent, final, last_round}
use if2230_2023_ntaraja.Fat32.RoundTrip.Folder.Removal.{delete_lem}
use if2230_2023_ntaraja.Fat32.RoundTrip.Reads.{
  new_entry, after, slot_fits, after_width, dir_at-final, pass,
}
use if2230_2023_ntaraja.Prelude.{All-set, ◌==◌}
use if2230_2023_ntaraja.Fat32.Layout.RoundTrip.{IsEntry}
use if2230_2023_ntaraja.Fat32.Writing.Folder.{zero_entry-IsEntry}
use if2230_2023_ntaraja.Fat32.RoundTrip.{dir_at-fits, dir_at-write, loaded}
use if2230_2023_ntaraja.Fat32.Directory.{dir_table_search, has_name_ext}
use if2230_2023_ntaraja.Fat32.Directory.Search.{same_bytes_iff, index_of_none}
use if2230_2023_ntaraja.Fat32.RoundTrip.Checks.{absent-FirstIndex}
use if2230_2023_ntaraja.Fat32.Reading.{fails, read, read_from_table}
use if2230_2023_ntaraja.Fat32.Volume.{read_to_dir_table}

module _ {Disk : Type 0} ⦃device : BlockDevice Disk⦄ (now : DateTime) (r : Request) (slot : ℕ)
    (s : State Disk) (can : CanStore r slot s) (first : ℕ) (s₂ : State Disk)
    (st : Stored now r slot 3 0
      (last_round now r slot s can)
      r.buffer_size
      first
      (at_parent now r slot s can)
      s₂)
    (ends : entry_of s.fat_table r.parent_cluster_number ≡ fat_end_of_file)
    (alone : index_of (has_name r.name) 0 (dir_at s r.parent_cluster_number) ≡ negsuc 0) where
  abbrev dir : ℕ
  dir = r.parent_cluster_number

  abbrev stored_state : State Disk
  stored_state = final now r slot s can s₂

  abbrev table : List DirectoryEntry
  table = after now r slot s can first s₂ st

  abbrev entry : DirectoryEntry
  entry = new_entry now r slot s can first s₂ st

  abbrev with_entry : List DirectoryEntry
  with_entry = set (dir_at s dir) slot entry

  fits : slot < length (dir_at s dir)
  fits = slot_fits now r slot s can first s₂ st

  alone-FirstIndex : FirstIndex (has_name r.name) 0 (dir_at s dir) (negsuc 0)
  alone-FirstIndex =
      subst (FirstIndex (has_name r.name) 0 (dir_at s dir)) alone
        (index_of-FirstIndex (has_name r.name) 0 (dir_at s dir))

  first_cluster : entry_cluster entry ≡ first
  unfolding file_entry init_directory_entry
  first_cluster = omega (arith, st.inside)

  apart : first ≢ dir
  apart e = can.parent_taken (ap (entry_of s.fat_table) (sym e) ∙ st.free)

  -- The new entry is not the one that write marks.
  entry_there : get_or table slot zero_entry ≡ entry
  entry_there =
      let put = get_or-set_self (dir_at s dir) slot entry zero_entry fits in
      mark_not_empty_elsewhere dir with_entry slot
        (λ e. apart (sym first_cluster ∙ ap entry_cluster (sym put) ∙ e))
      ∙ put

  named : has_name r.name entry ≡ true
  unfolding file_entry init_directory_entry
  named = same_bytes_self r.name 8

  earlier : (k : ℕ) → k < slot → has_name r.name (get_or table k zero_entry) ≡ false
  earlier k lt =
      let (u, e) = get_or-mark_not_empty dir with_entry k in
      rw (e, get_or-set_ne (dir_at s dir) slot k entry zero_entry (omega arith))
        (alone-FirstIndex.1 k (omega (arith, fits)))

  slot_in_table : slot < length table
  slot_in_table = omega (
    arith,
    after_width now r slot s can first s₂ st,
    slot_inside r slot s (pass now r slot s can first s₂ st),
  )

  found : index_of (has_name r.name) 0 (dir_at stored_state dir) ≡ pos slot
  found = rw (dir_at-final now r slot s can first s₂ st) (
      index_of-eq (has_name r.name) 0 slot table slot_in_table
        (ap (has_name r.name) entry_there ∙ named) earlier
      ∙ ap pos (omega arith))

  here : get_elem? (dir_at stored_state dir) slot ≡ some entry
  here =
      rw (dir_at-final now r slot s can first s₂ st)
        (get_elem?-eq-get_or table slot zero_entry slot_in_table ∙ ap some entry_there)

  still_ends : get_elem? stored_state.fat_table dir ≡ some fat_end_of_file
  unfolding flush
  still_ends =
      get_elem?-eq-get_or s₂.fat_table dir 0 (omega (arith, can.parent_inside, st.width))
      ∙ ap some (st.same_entries dir (inr can.parent_taken) ∙ ends)

  -- The state after the removal
  abbrev pub gone : State Disk
  gone = flush dir (record (load_dir dir stored_state) {
    fat_table = set s₂.fat_table first fat_empty_entry;
    dir_table = set (dir_at stored_state dir) slot zero_entry;
  })

  remove_folder-there :
      remove_folder dir slot entry (load_dir dir stored_state) ≡ some (pos 0, gone)
  unfolding remove_folder load_dir flush file_entry init_directory_entry
  remove_folder-there =
      let whole : first / 2 ^ 16 % 2 ^ 16 * 2 ^ 16 + first % 2 ^ 16 ≡ first =
        omega (arith, st.inside) in
      rw
        (whole, set?-eq-set s₂.fat_table first fat_empty_entry (omega (arith, st.inside, st.width)))
        refl

  pub delete-stored : delete r stored_state ≡ some (pos 0, gone)
  delete-stored =
      delete_lem r slot entry stored_state can.parent_inside still_ends found here
      ∙ remove_folder-there

  -- The directory's table afterwards
  abbrev cleared : List DirectoryEntry
  cleared = set (dir_at stored_state dir) slot zero_entry

  dir_at-gone : dir_at gone dir ≡ cleared
  unfolding flush
  dir_at-gone =
      let (width, words) = dir_at-fits stored_state dir in
      dir_at-write s _ cleared dir (length-set (dir_at stored_state dir) slot zero_entry ∙ width)
        (All-set IsEntry (dir_at stored_state dir) slot zero_entry words zero_entry-IsEntry)

  -- An entry without a name is not the file's.
  nameless : same_bytes empty_name r.name 8 ≡ false
  nameless = elim (Bool-cases (same_bytes empty_name r.name 8)) [
    | inl same ↦
        let width = can.request.name_length in
        let equal = (same_bytes_iff empty_name r.name 8 refl width).0 same in
        let again = (same_bytes_iff r.name empty_name 8 width refl).1 (sym equal) in
        (let other = can.named in cc)
    | inr other ↦ other
  ]

  no_match :
      (k : ℕ) → k < length cleared → has_name_ext r.name r.ext (get_or cleared k zero_entry) ≡ false
  no_match k lt = elim (Bool-cases (k == slot)) [
    | inl here_is ↦
        let same : k ≡ slot = ==→eq k slot here_is in
        let (width, words) = dir_at-fits stored_state dir in
        let inside : slot < length (dir_at stored_state dir) =
          omega (arith, width, slot_inside r slot s (pass now r slot s can first s₂ st)) in
        rw
          (
            same,
            get_or-set_self (dir_at stored_state dir) slot zero_entry zero_entry inside,
            nameless,
          )
          refl
    | inr elsewhere ↦
        let ne : slot ≢ k = λ e. ground arith in
        let (u, e) = get_or-mark_not_empty dir with_entry k in
        let (width, words) = dir_at-fits stored_state dir in
        let below : k < length (dir_at s dir) = omega (
          arith,
          lt,
          length-set (dir_at stored_state dir) slot zero_entry,
          width,
          (dir_at-fits s dir).0,
        ) in
        rw
          (
            get_or-set_ne (dir_at stored_state dir) slot k zero_entry zero_entry ne,
            dir_at-final now r slot s can first s₂ st,
            e,
            get_or-set_ne (dir_at s dir) slot k entry zero_entry ne,
          )
          ((absent-FirstIndex r slot s (pass now r slot s can first s₂ st)).1 k below)
  ]

  search-gone : dir_table_search r.name r.ext (dir_at gone dir) ≡ negsuc 0
  unfolding dir_table_search
  search-gone = rw dir_at-gone (index_of_none (has_name_ext r.name r.ext) 0 cleared no_match)

  pub read-gone : (stack : List ℕ) → read stack r gone ≡ some (fails (pos 3), loaded gone dir)
  unfolding read read_to_dir_table read_from_table
  read-gone stack = rw (search-gone, read_from_table) refl

  -- The table of allocations loses the first cluster alone.
  pub fat-gone : gone.fat_table ≡ set stored_state.fat_table first fat_empty_entry
  unfolding flush
  fat-gone = refl

  -- The first cluster is the one that the directory names,
  pub cluster-stored : first ≡ entry_cluster (get_or (dir_at stored_state dir) slot zero_entry)
  cluster-stored =
      rw (dir_at-final now r slot s can first s₂ st)
        (sym (ap entry_cluster entry_there ∙ first_cluster))

  -- and it is in use before the removal.
  pub taken-stored : entry_of stored_state.fat_table first ≢ fat_empty_entry
  unfolding flush
  taken-stored = st.taken
