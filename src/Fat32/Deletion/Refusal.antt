-- ===== src/Fat32/Deletion/Refusal.antt =====
-- src/fat32.c: deletions that remove nothing.
use if2230_2023_ntaraja.Prelude.{
  ℤ-cases, length, get_or, get_elem?-eq-get_or, arith, set?, if_either, get_elem?, ◌-◌, ℕ, zero,
  suc, ◌+◌, ◌≡◌, ◌≢◌, ◌⊎◌, ◌==◌, inl, inr, refl, ℤ, pos, negsuc, Option, some, ◌≤◌,
}
use if2230_2023_ntaraja.Prelude.Opt.{Returns, Returns-any, Returns-some}
use if2230_2023_ntaraja.Disk.{BlockDevice}
use if2230_2023_ntaraja.Fat32.{
  entry_cluster, State, Request, DirectoryEntry, cluster_map_size, fat_end_of_file, fat_empty_entry,
  uattr_not_empty,
}
use if2230_2023_ntaraja.Fat32.Directory.{index_of, has_name, has_name_ext}
use if2230_2023_ntaraja.Fat32.Deletion.{
  free_chain, delete, delete_loop, remove_folder, remove_file, load_dir,
}

module _ {Disk : Type 0} where
  -- Either the call removed something, or the disk and the allocation table are those of `s`.
  unfoldable IsHonest : State Disk → ℤ × State Disk → Type 0
  IsHonest s (code, s') = (code ≡ pos 0) ⊎ ((s'.disk ≡ s.disk) × (s'.fat_table ≡ s.fat_table))

module _ {Disk : Type 0} ⦃device : BlockDevice Disk⦄ where
  remove_folder-IsHonest :
      (cluster i : ℕ) (e : DirectoryEntry) (s : State Disk)
      → Returns (IsHonest s) (remove_folder cluster i e s)
  unfolding remove_folder IsHonest Returns
  remove_folder-IsHonest cluster i e s =
      if_either (Returns (IsHonest s)) (e.user_attribute == uattr_not_empty) _ _ (inr (refl, refl))
        (Returns-any (IsHonest s) (set? s.fat_table (entry_cluster e) fat_empty_entry) _
          (λ fat. inl refl))

  remove_file-IsHonest :
      (cluster i : ℕ) (e : DirectoryEntry) (s : State Disk)
      → Returns (IsHonest s) (remove_file cluster i e s)
  unfolding remove_file IsHonest Returns
  remove_file-IsHonest cluster i e s =
      Returns-any (IsHonest s) (free_chain (cluster_map_size + 1) (entry_cluster e) s.fat_table) _
        (λ fat. inl refl)

  delete_loop-IsHonest :
      (r : Request) (left cluster : ℕ) (s : State Disk)
      → Returns (IsHonest s) (delete_loop r left cluster s)
  unfolding delete_loop load_dir Returns IsHonest
  delete_loop-IsHonest r zero cluster s = inr (refl, refl)
  delete_loop-IsHonest r (suc left) cluster s =
      let here = load_dir cluster s in
      let parent = load_dir r.parent_cluster_number s in
      Returns-any (IsHonest s) (get_elem? s.fat_table cluster) _ (λ v.
        if_either (Returns (IsHonest s)) (v == fat_end_of_file) _ _
          (elim (ℤ-cases (index_of (has_name r.name) 0 here.dir_table)) [
            | inr (i, absent) ↦
                rw (absent, Returns) (delete_loop-IsHonest r left (cluster + 1) here)
            | inl (i, found) ↦
                rw (found, Returns)
                  (Returns-any (IsHonest s) (get_elem? here.dir_table i) _
                    (λ e. remove_folder-IsHonest cluster i e here))
          ])
          (if_either (Returns (IsHonest s)) (v == fat_empty_entry) _ _
            (delete_loop-IsHonest r left (cluster + 1) s)
            (elim (ℤ-cases (index_of (has_name_ext r.name r.ext) 0 parent.dir_table)) [
              | inr (i, absent) ↦
                  rw (absent, Returns) (delete_loop-IsHonest r left (cluster + 1) parent)
              | inl (i, found) ↦
                  rw (found, Returns)
                    (Returns-any (IsHonest s) (get_elem? parent.dir_table i) _
                      (λ e. remove_file-IsHonest cluster i e parent))
            ])))

  -- Whenever delete returns a code other than 0, the disk and the allocation table are as they
  -- were.
  pub delete_refused :
      (r : Request) (s s' : State Disk) (code : ℤ)
      → delete r s ≡ some (code, s')
      → code ≢ pos 0
      → (s'.disk ≡ s.disk) × (s'.fat_table ≡ s.fat_table)
  unfolding delete IsHonest
  delete_refused r s s' code run refused =
      elim (Returns-some (IsHonest s) (delete r s) (code, s') run
        (delete_loop-IsHonest r (cluster_map_size - r.parent_cluster_number) r.parent_cluster_number
          s)) [ inl removed ↦ absurd (refused removed) | inr kept ↦ kept ]

  -- No directory that delete looks at has the name: neither one whose cluster ends a chain, nor the
  -- parent with the extension.
  pub record IsMissing (r : Request) (s : State Disk) : Type 0 where
    pub parent_inside : r.parent_cluster_number ≤ cluster_map_size
    pub width : length s.fat_table ≡ cluster_map_size
    pub folders : (c : ℕ) → index_of (has_name r.name) 0 (load_dir c s).dir_table ≡ negsuc 0
    pub files :
        index_of (has_name_ext r.name r.ext) 0 (load_dir r.parent_cluster_number s).dir_table
        ≡ negsuc 0

  load_dir-IsMissing :
      (r : Request) (c : ℕ) (s : State Disk) → IsMissing r s → IsMissing r (load_dir c s)
  unfolding load_dir
  load_dir-IsMissing r c s missing = record {
    parent_inside = missing.parent_inside;
    width = missing.width;
    folders = missing.folders;
    files = missing.files;
  }

  -- The result of a search that finds nothing
  abbrev Unfound : State Disk → Option (ℤ × State Disk) → Type 0
  Unfound s m =
      (s' : State Disk) × (m ≡ some (pos 1, s')) × (s'.disk ≡ s.disk) × (s'.fat_table ≡ s.fat_table)

  delete_loop-Unfound :
      (r : Request) (left cluster : ℕ) (s : State Disk)
      → cluster + left ≤ cluster_map_size
      → IsMissing r s
      → Unfound s (delete_loop r left cluster s)
  unfolding delete_loop load_dir
  delete_loop-Unfound r zero cluster s le missing = (s, refl, refl, refl)
  delete_loop-Unfound r (suc left) cluster s le missing =
      let here = load_dir cluster s in
      let parent = load_dir r.parent_cluster_number s in
      rw
        (
          get_elem?-eq-get_or s.fat_table cluster 0 (omega (arith, missing.width)),
          missing.folders cluster,
          missing.files,
        )
        (let v = get_or s.fat_table cluster 0 in
          if_either (Unfound s) (v == fat_end_of_file) _ _
            (delete_loop-Unfound r left (cluster + 1) here (omega arith)
              (load_dir-IsMissing r cluster s missing))
            (if_either (Unfound s) (v == fat_empty_entry) _ _
              (delete_loop-Unfound r left (cluster + 1) s (omega arith) missing)
              (delete_loop-Unfound r left (cluster + 1) parent (omega arith)
                (load_dir-IsMissing r r.parent_cluster_number s missing))))

  -- If the parent's number is at most 512, the table has 512 entries, no cluster holds a
  -- directory with an entry of the name, and the parent none of the name and extension, then
  -- delete returns 1 and leaves the disk and the allocation table as they were.
  pub delete_missing :
      (r : Request) (s : State Disk)
      → IsMissing r s
      → (s' : State Disk) × (delete r s ≡ some (pos 1, s'))
        × (s'.disk ≡ s.disk)
        × (s'.fat_table ≡ s.fat_table)
  unfolding delete
  delete_missing r s missing =
      delete_loop-Unfound r (cluster_map_size - r.parent_cluster_number) r.parent_cluster_number s
        (omega (arith, missing.parent_inside)) missing
