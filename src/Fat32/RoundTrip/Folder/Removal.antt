-- ===== src/Fat32/RoundTrip/Folder/Removal.antt =====
-- src/fat32.c: a folder that was made and removed.
use if2230_2023_ntaraja.Prelude.{
  ℕ, suc, ◌≡◌, ◌≢◌, ◌∙◌, ◌<◌, ◌-◌, ◌+◌, ◌*◌, ◌/◌, ◌%◌, ◌^◌, refl, sym, ap, ap₂, false, subst, List,
  length, get_or, get_elem?, set, true, some, pos, negsuc, arith, get_elem?-eq-get_or,
  get_or-set_self, get_or-set_ne, length-set, set-get_or, set-set, set?-eq-set, All, All-set,
}
use if2230_2023_ntaraja.Disk.{BlockDevice, read_clusters}
use if2230_2023_ntaraja.Disk.Clusters.{read-write_clusters_self, read-write_clusters_other}
use if2230_2023_ntaraja.Fat32.{
  cluster_map_size, fat_cluster_number, fat_empty_entry, fat_end_of_file, zero_entry, DateTime,
  DirectoryEntry, Request, State,
}
use if2230_2023_ntaraja.Fat32.Layout.{encode_dir, encode_fat, decode_fat}
use if2230_2023_ntaraja.Fat32.Layout.RoundTrip.{
  IsEntry, decode-encode_fat, length-encode_fat, encode_fat-Bytes,
}
use if2230_2023_ntaraja.Fat32.Volume.{flush}
use if2230_2023_ntaraja.Fat32.Directory.{has_name, index_of}
use if2230_2023_ntaraja.Fat32.Directory.Search.{
  index_of-FirstIndex, index_of-eq, FirstIndex, same_bytes_self,
}
use if2230_2023_ntaraja.Fat32.Deletion.{load_dir, remove_folder, delete_loop, delete}
use if2230_2023_ntaraja.Fat32.Writing.{write}
use if2230_2023_ntaraja.Fat32.Writing.Free.{entry_of, IsFirstFree}
use if2230_2023_ntaraja.Fat32.Writing.Folder.{folder_table, make_folder-first, zero_entry-IsEntry}
use if2230_2023_ntaraja.Fat32.RoundTrip.{dir_at, dir_at-fits, dir_at-write, loaded}
use if2230_2023_ntaraja.Fat32.RoundTrip.Checks.{slot_inside}
use if2230_2023_ntaraja.Memory.{Mem}
use if2230_2023_ntaraja.Fat32.Reading.{read_directory}
use if2230_2023_ntaraja.Fat32.RoundTrip.Folder.{
  listing, read_directory-made, CanMake, new_entry, after, made, slot_fits, after_width, write-made,
  dir_at-parent,
}

module _ {Disk : Type 0} ⦃device : BlockDevice Disk⦄ where
  -- delete in a parent that ends a chain and holds the name
  pub delete_lem :
      (r : Request) (i : ℕ) (e : DirectoryEntry) (s : State Disk)
      → r.parent_cluster_number < cluster_map_size
      → get_elem? s.fat_table r.parent_cluster_number ≡ some fat_end_of_file
      → index_of (has_name r.name) 0 (dir_at s r.parent_cluster_number) ≡ pos i
      → get_elem? (dir_at s r.parent_cluster_number) i ≡ some e
      → delete r s ≡ remove_folder r.parent_cluster_number i e (load_dir r.parent_cluster_number s)
  unfolding delete delete_loop load_dir
  delete_lem r i e s inside ends found here =
      let left : cluster_map_size - r.parent_cluster_number ≡ suc (511 - r.parent_cluster_number) =
        omega arith in
      rw (left, ends, found, here) refl

module _ {Disk : Type 0} ⦃device : BlockDevice Disk⦄ (now : DateTime) (r : Request) (slot : ℕ)
    (s : State Disk) (can : CanMake r slot s)
    (ends : entry_of s.fat_table r.parent_cluster_number ≡ fat_end_of_file)
    (alone : index_of (has_name r.name) 0 (dir_at s r.parent_cluster_number) ≡ negsuc 0) where
  abbrev dir : ℕ
  dir = r.parent_cluster_number

  -- The parent's table without the folder
  abbrev cleared : List DirectoryEntry
  cleared = set (dir_at s dir) slot zero_entry

  cleared-IsEntry : All IsEntry cleared
  cleared-IsEntry =
      All-set IsEntry (dir_at s dir) slot zero_entry (dir_at-fits s dir).1 zero_entry-IsEntry

  alone-FirstIndex : FirstIndex (has_name r.name) 0 (dir_at s dir) (negsuc 0)
  alone-FirstIndex =
      subst (FirstIndex (has_name r.name) 0 (dir_at s dir)) alone
        (index_of-FirstIndex (has_name r.name) 0 (dir_at s dir))

  module _ (first : ℕ) (is : IsFirstFree s.fat_table 3 509 first) where
    abbrev there : State Disk
    there = made now r slot s can first is

    abbrev entry : DirectoryEntry
    entry = new_entry now r slot s can first is

    abbrev table : List DirectoryEntry
    table = after now r slot s can first is

    fits : slot < length (dir_at s dir)
    fits = slot_fits now r slot s can first is

    apart : first ≢ dir
    apart e = can.parent_taken (ap (entry_of s.fat_table) (sym e) ∙ is.free)

    still_ends : get_elem? there.fat_table dir ≡ some fat_end_of_file
    unfolding flush
    still_ends =
        get_elem?-eq-get_or (set s.fat_table first fat_end_of_file) dir 0 (
          omega (
            arith,
            can.parent_inside,
            can.volume.width,
            length-set s.fat_table first fat_end_of_file,
          ))
        ∙ ap some (get_or-set_ne s.fat_table first dir fat_end_of_file 0 apart ∙ ends)

    found_there : index_of (has_name r.name) 0 (dir_at there dir) ≡ pos slot
    found_there = rw (dir_at-parent now r slot s can first is) (
        index_of-eq (has_name r.name) 0 slot table
          (omega (arith, after_width now r slot s can first is, slot_inside r slot s can.passes))
          hit earlier
        ∙ ap pos (omega arith))
      where
        hit : has_name r.name (get_or table slot zero_entry) ≡ true
        hit =
            rw (get_or-set_self (dir_at s dir) slot entry zero_entry fits, same_bytes_self r.name 8)

        earlier : (k : ℕ) → k < slot → has_name r.name (get_or table k zero_entry) ≡ false
        earlier k lt =
            ap (has_name r.name)
              (get_or-set_ne (dir_at s dir) slot k entry zero_entry (omega arith))
            ∙ alone-FirstIndex.1 k (omega (arith, fits))

    here : get_elem? (dir_at there dir) slot ≡ some entry
    here = rw (dir_at-parent now r slot s can first is) (
        get_elem?-eq-get_or table slot zero_entry
          (omega (arith, after_width now r slot s can first is, slot_inside r slot s can.passes))
        ∙ ap some (get_or-set_self (dir_at s dir) slot entry zero_entry fits))

    -- The state after the removal
    abbrev gone : State Disk
    gone = flush dir (record (load_dir dir there) { fat_table = s.fat_table; dir_table = cleared })

    -- The driver with other caches, as calls in between may leave them
    abbrev later : List DirectoryEntry → List ℕ → State Disk
    later loaded_table buf = record there { dir_table = loaded_table; cluster_buf = buf }

    remove_folder-there :
        (loaded_table : List DirectoryEntry) (buf : List ℕ)
        → remove_folder dir slot entry (load_dir dir (later loaded_table buf)) ≡ some (pos 0, gone)
    unfolding remove_folder load_dir flush
    remove_folder-there loaded_table buf =
        let whole : first / 2 ^ 16 % 2 ^ 16 * 2 ^ 16 + first % 2 ^ 16 ≡ first =
          omega (arith, is.inside, can.volume.width) in
        let room : first < length (set s.fat_table first fat_end_of_file) =
          omega (arith, is.inside, length-set s.fat_table first fat_end_of_file) in
        rw (whole, set?-eq-set (set s.fat_table first fat_end_of_file) first fat_empty_entry room)
          (ap₂
            (λ f t. some (
              pos 0,
              flush dir
                  (record (load_dir dir (later loaded_table buf)) { fat_table = f; dir_table = t }),
            ))
            (set-get_or s.fat_table first fat_end_of_file fat_empty_entry 0 is.free)
            (ap (λ t. set t slot zero_entry) (dir_at-parent now r slot s can first is)
              ∙ set-set (dir_at s dir) slot entry zero_entry))

    removed :
        (request_buf : Mem) (loaded_table : List DirectoryEntry) (buf : List ℕ)
        → delete (record r { buf = request_buf }) (later loaded_table buf) ≡ some (pos 0, gone)
    removed request_buf loaded_table buf =
        delete_lem (record r { buf = request_buf }) slot entry (later loaded_table buf)
          can.parent_inside still_ends found_there here
        ∙ remove_folder-there loaded_table buf

    dir_at-gone : dir_at gone dir ≡ cleared
    unfolding flush
    dir_at-gone =
        dir_at-write s _ cleared dir
          (length-set (dir_at s dir) slot zero_entry ∙ (dir_at-fits s dir).0) cleared-IsEntry

    fat-gone : decode_fat 512 (read_clusters gone.disk fat_cluster_number 1) ≡ s.fat_table
    unfolding flush
    fat-gone =
        ap (decode_fat 512) (
          read-write_clusters_other _ (encode_dir cleared) dir fat_cluster_number
            (omega (arith, can.parent_inside)) (omega arith) can.parent_not_fat
          ∙ read-write_clusters_self _ (encode_fat s.fat_table) fat_cluster_number
              (length-encode_fat s.fat_table ∙ omega (arith, can.volume.width))
              (encode_fat-Bytes s.fat_table))
        ∙ subst (λ n. decode_fat n (encode_fat s.fat_table) ≡ s.fat_table) can.volume.width
            (decode-encode_fat s.fat_table can.volume.words)

  -- For a new folder as in read_directory-write, in a directory whose own cluster ends a chain
  -- and which has no entry of that name with any extension, write returns 0 and delete of the
  -- same request then returns 0: the allocation table is what it was before both, in the driver
  -- and in cluster 1, and the directory's cluster holds its old table with the slot zeroed.
  pub delete-write :
      (s' : State Disk) × (s'' : State Disk) × (write now r s ≡ some (pos 0, s'))
      × (delete r s' ≡ some (pos 0, s''))
      × (s''.fat_table ≡ s.fat_table)
      × (decode_fat 512 (read_clusters s''.disk fat_cluster_number 1) ≡ s.fat_table)
      × (dir_at s'' dir ≡ cleared)
  unfolding flush
  delete-write =
      let (first, run, is) =
        make_folder-first now r 509 3 (loaded s dir) (omega (arith, can.volume.width)) can.room in
      (
        there first is,
        gone first is,
        write-made now r slot s can first is run,
        removed first is r.buf (there first is).dir_table (there first is).cluster_buf,
        refl,
        fat-gone first is,
        dir_at-gone first is,
      )

  -- The same after the folder was listed, for a request with another buffer
  pub delete-read_directory :
      (request_buf : Mem)
      → (c : ℕ) × (s' : State Disk) × (s'' : State Disk) × (s₃ : State Disk) × (write now r s
          ≡ some (pos 0, s'))
        × (read_directory r s'
            ≡ some
                (record { code = pos 0; output = some (encode_dir (folder_table now r c)) }, s''))
        × (delete (record r { buf = request_buf }) s'' ≡ some (pos 0, s₃))
        × (s₃.fat_table ≡ s.fat_table)
        × (dir_at s₃ dir ≡ cleared)
  unfolding flush
  delete-read_directory request_buf =
      let (first, run, is) =
        make_folder-first now r 509 3 (loaded s dir) (omega (arith, can.volume.width)) can.room in
      let after_listing = listing now r slot s can first is in
      (
        first,
        there first is,
        after_listing,
        gone first is,
        write-made now r slot s can first is run,
        read_directory-made now r slot s can first is,
        removed first is request_buf after_listing.dir_table after_listing.cluster_buf,
        refl,
        dir_at-gone first is,
      )
