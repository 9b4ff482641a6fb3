-- ===== src/Fat32/NoCmos/Same/Storing.antt =====
-- src/fat32-no-cmos.c and src/fat32.c: write, call by call.
use if2230_2023_ntaraja.Fat32.Layout.{encode_dir}
use if2230_2023_ntaraja.Prelude.{
  if◌then◌else◌, subst, Bool-cases, ℕ, zero, suc, ◌+◌, ◌==◌, ◌≡◌, refl, inl, inr, List, some,
  get_elem?, set?, pos, negsuc, ℤ-cases,
}
use if2230_2023_ntaraja.Prelude.Opt.{Agree-eq, Agree, Agree-refl, Agree-bind, Agree-if}
use if2230_2023_ntaraja.Disk.{write_clusters, BlockDevice}
use if2230_2023_ntaraja.Fat32.{
  empty_name, fat_end_of_file, zero_entry, fat_empty_entry, attr_subdirectory, State, Request,
  DateTime, DirectoryEntry, cluster_map_size,
}
use if2230_2023_ntaraja.Fat32.Volume.{read_to_dir_table}
use if2230_2023_ntaraja.Fat32.Directory.{
  add_directory_entry, same_bytes, find_empty_entry, dir_table_search, to_u32,
}
use if2230_2023_ntaraja.Fat32.Writing.{
  left_after, link, next_empty, mark_not_empty, Outcome, stored, full,
}
use if2230_2023_ntaraja.Fat32.Volume.{flush as clocked_flush}
use if2230_2023_ntaraja.Fat32.Writing.{
  enter_file as clocked_enter_file, make_folder as clocked_make_folder,
  store_file as clocked_store_file, write_file as clocked_write_file,
  write_entry as clocked_write_entry, write as clocked_write,
}
use if2230_2023_ntaraja.Fat32.NoCmos.{flush}
use if2230_2023_ntaraja.Fat32.NoCmos.Writing.{
  make_folder, store_file, write_file, write_entry, write,
}
use if2230_2023_ntaraja.Fat32.NoCmos.Same.{
  IsStamped, init_directory_entry-eq, enter_file-eq, entry_memory, outcome_of,
}

module _ {Disk : Type 0} ⦃device : BlockDevice Disk⦄ where
  store_file-Agree :
      (now : DateTime) (e : DirectoryEntry) (r : Request) (slot fuel head count size : ℕ)
      (s : State Disk)
      → IsStamped now e
      → Agree
          (λ p. p)
          (store_file e r slot fuel head count size s)
          (clocked_store_file now r slot fuel head count size s)
  unfolding store_file clocked_store_file
  store_file-Agree now e r slot zero head count size s st = Agree-refl _ _
  store_file-Agree now e r slot (suc fuel) head count size s st =
      Agree-if _ (head == cluster_map_size) _ _ _ _ (Agree-refl _ _) (
        Agree-bind _ (get_elem? s.fat_table head) _ _ (λ v.
          Agree-if _ (v == fat_empty_entry) _ _ _ _
            (rw (enter_file-eq now e r slot head size s.dir_table st) (
              Agree-bind _ (clocked_enter_file now r slot head size s.dir_table) _ _ (λ dir.
                Agree-bind _ (next_empty cluster_map_size s.fat_table (head + 1)) _ _ (λ next.
                  Agree-bind _ (link head next (left_after size) s.fat_table) _ _ (λ fat.
                    Agree-if _ (left_after size == 0) _ _ _ _ (Agree-refl _ _) (
                      store_file-Agree now e r slot fuel next (count + 1) (left_after size) _
                        st))))))
            (store_file-Agree now e r slot fuel (head + 1) count size s st)))

  store_file-eq :
      (now : DateTime) (e : DirectoryEntry) (r : Request) (slot : ℕ) (s : State Disk)
      → IsStamped now e
      → store_file e r slot cluster_map_size 3 0 r.buffer_size s
        ≡ clocked_store_file now r slot cluster_map_size 3 0 r.buffer_size s
  store_file-eq now e r slot s st =
      Agree-eq _ _ (store_file-Agree now e r slot cluster_map_size 3 0 r.buffer_size s st)

  -- What follows the file loop
  write_file_end :
      (now : DateTime) (r : Request) (p : Outcome × State Disk)
      → Agree outcome_of
          (elim p.0 [
            | full ↦ some (negsuc 0, p.1)
            | stored ↦ some (
              pos 0,
              flush r.parent_cluster_number
                  (record p.1 { dir_table = mark_not_empty r.parent_cluster_number p.1.dir_table }),
            )
          ])
          (elim p.0 [
            | full ↦ some (negsuc 0, p.1)
            | stored ↦ some (
              pos 0,
              clocked_flush r.parent_cluster_number
                  (record p.1 { dir_table = mark_not_empty r.parent_cluster_number p.1.dir_table }),
            )
          ])
  unfolding Agree outcome_of flush clocked_flush
  write_file_end now r (full, s) = refl
  write_file_end now r (stored, s) = refl

  write_file-Agree :
      (now : DateTime) (e : DirectoryEntry) (r : Request) (slot : ℕ) (s : State Disk)
      → IsStamped now e
      → Agree outcome_of (write_file e r slot s) (clocked_write_file now r slot s)
  unfolding write_file clocked_write_file
  write_file-Agree now e r slot s st = rw (store_file-eq now e r slot s st) (
      Agree-bind outcome_of (clocked_store_file now r slot cluster_map_size 3 0 r.buffer_size s) _ _
        (λ p. write_file_end now r p))

  -- What follows the choice of a cluster
  make_folder_end :
      (r : Request) (usable : ℕ) (fat : List ℕ) (dir table : List DirectoryEntry) (s : State Disk)
      → Agree outcome_of
          (some (
            pos 0,
            (let s₁ =
                  flush r.parent_cluster_number (record s { fat_table = fat; dir_table = dir }) in
                let buf = encode_dir table in
                record s₁ { disk = write_clusters s₁.disk buf usable 1; cluster_buf = buf }),
          ))
          (some (
            pos 0,
            (let s₁ =
                  clocked_flush r.parent_cluster_number
                    (record s { fat_table = fat; dir_table = dir }) in
                let buf = encode_dir table in
                record s₁ { disk = write_clusters s₁.disk buf usable 1; cluster_buf = buf }),
          ))
  unfolding Agree outcome_of flush clocked_flush
  make_folder_end r usable fat dir table s = refl

  make_folder-Agree :
      (now : DateTime) (r : Request) (left usable : ℕ) (s : State Disk)
      → IsStamped now zero_entry
      → Agree outcome_of (make_folder r left usable s) (clocked_make_folder now r left usable s)
  unfolding make_folder clocked_make_folder
  make_folder-Agree now r zero usable s st = Agree-refl _ _
  make_folder-Agree now r (suc left) usable s st =
      Agree-bind _ (get_elem? s.fat_table usable) _ _ (λ v.
        Agree-if _ (v == fat_empty_entry) _ _ _ _
          (rw (init_directory_entry-eq now zero_entry r.name usable st) (
            Agree-bind _ (set? s.fat_table usable fat_end_of_file) _ _ (λ fat.
              Agree-bind _ (add_directory_entry r usable s.dir_table) _ _
                (λ dir. make_folder_end r usable fat dir _ s))))
          (make_folder-Agree now r left (usable + 1) s st))

  write_entry-Agree :
      (now : DateTime) (e : DirectoryEntry) (r : Request) (slot : ℕ) (s : State Disk)
      → IsStamped now (entry_memory e r)
      → Agree outcome_of (write_entry e r slot s) (clocked_write_entry now r slot s)
  unfolding write_entry clocked_write_entry
  write_entry-Agree now e r slot s st = elim (Bool-cases (r.buffer_size == 0)) [
    | inl none_given ↦
        let zeroed = subst (λ b. IsStamped now (if b then zero_entry else e)) none_given st in
        rw (none_given) (make_folder-Agree now r 509 3 s zeroed)
    | inr some_given ↦
        let stamped = subst (λ b. IsStamped now (if b then zero_entry else e)) some_given st in
        rw (some_given) (write_file-Agree now e r slot s stamped)
  ]

  -- If the memory that the new entry is made in, a zeroed table for a folder and the stack for
  -- a file, holds the five stamps of a time, then write without the clock and write with the
  -- clock at that time agree for every request and state: either neither returns, or both
  -- return the same code, disk, allocation table and directory table.
  pub write-Agree :
      (now : DateTime) (e : DirectoryEntry) (r : Request) (s : State Disk)
      → IsStamped now (entry_memory e r)
      → Agree outcome_of (write e r s) (clocked_write now r s)
  unfolding write clocked_write
  write-Agree now e r s st =
      let t = read_to_dir_table r.parent_cluster_number s in
      Agree-if _ (same_bytes r.name empty_name 8) _ _ _ _ (Agree-refl _ _) (
        Agree-bind _ (get_elem? t.dir_table (to_u32 (find_empty_entry t.dir_table))) _ _ (λ old.
          Agree-if _ (old.attribute == attr_subdirectory) _ _ _ _ (Agree-refl _ _)
            (elim (ℤ-cases (dir_table_search r.name r.ext t.dir_table)) [
              | inl (i, found) ↦ rw (found) (Agree-refl _ _)
              | inr (i, absent) ↦
                  rw (absent)
                    (write_entry-Agree now e r (to_u32 (find_empty_entry t.dir_table)) t st)
            ])))
