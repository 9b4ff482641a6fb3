-- ===== src/Fat32/NoCmos/Same/Deleting.antt =====
-- src/fat32-no-cmos.c and src/fat32.c: delete, call by call.
use if2230_2023_ntaraja.Prelude.{
  ℤ-cases, ℕ, zero, suc, some, set?, refl, pos, inr, inl, get_elem?, ◌==◌, ◌+◌,
}
use if2230_2023_ntaraja.Prelude.Opt.{Agree, Agree-refl, Agree-bind, Agree-if}
use if2230_2023_ntaraja.Disk.{BlockDevice}
use if2230_2023_ntaraja.Fat32.{
  fat_empty_entry, fat_end_of_file, cluster_map_size, entry_cluster, uattr_not_empty, State,
  DirectoryEntry, Request,
}
use if2230_2023_ntaraja.Fat32.Directory.{has_name_ext, has_name, index_of}
use if2230_2023_ntaraja.Fat32.Deletion.{
  free_chain, load_dir, remove_folder as clocked_remove_folder, remove_file as clocked_remove_file,
  delete_loop as clocked_delete_loop, delete as clocked_delete,
}
use if2230_2023_ntaraja.Fat32.Volume.{flush as clocked_flush}
use if2230_2023_ntaraja.Fat32.NoCmos.{flush}
use if2230_2023_ntaraja.Fat32.NoCmos.Deletion.{remove_folder, remove_file, delete_loop, delete}
use if2230_2023_ntaraja.Fat32.NoCmos.Same.{outcome_of}

module _ {Disk : Type 0} ⦃device : BlockDevice Disk⦄ where
  flushed-Agree :
      (cluster : ℕ) (s : State Disk)
      → Agree outcome_of (some (pos 0, flush cluster s)) (some (pos 0, clocked_flush cluster s))
  unfolding Agree outcome_of flush clocked_flush
  flushed-Agree cluster s = refl

  remove_folder-Agree :
      (cluster i : ℕ) (e : DirectoryEntry) (s : State Disk)
      → Agree outcome_of (remove_folder cluster i e s) (clocked_remove_folder cluster i e s)
  unfolding remove_folder clocked_remove_folder
  remove_folder-Agree cluster i e s =
      Agree-if _ (e.user_attribute == uattr_not_empty) _ _ _ _ (Agree-refl _ _) (
        Agree-bind _ (set? s.fat_table (entry_cluster e) fat_empty_entry) _ _
          (λ fat. flushed-Agree cluster _))

  remove_file-Agree :
      (cluster i : ℕ) (e : DirectoryEntry) (s : State Disk)
      → Agree outcome_of (remove_file cluster i e s) (clocked_remove_file cluster i e s)
  unfolding remove_file clocked_remove_file
  remove_file-Agree cluster i e s =
      Agree-bind _ (free_chain (cluster_map_size + 1) (entry_cluster e) s.fat_table) _ _
        (λ fat. flushed-Agree cluster _)

  delete_loop-Agree :
      (r : Request) (left cluster : ℕ) (s : State Disk)
      → Agree outcome_of (delete_loop r left cluster s) (clocked_delete_loop r left cluster s)
  unfolding delete_loop clocked_delete_loop
  delete_loop-Agree r zero cluster s = Agree-refl _ _
  delete_loop-Agree r (suc left) cluster s =
      let here = load_dir cluster s in
      let parent = load_dir r.parent_cluster_number s in
      Agree-bind _ (get_elem? s.fat_table cluster) _ _ (λ v.
        Agree-if _ (v == fat_end_of_file) _ _ _ _
          (elim (ℤ-cases (index_of (has_name r.name) 0 here.dir_table)) [
            | inl (i, found) ↦ rw (found) (
                Agree-bind _ (get_elem? here.dir_table i) _ _
                  (λ e. remove_folder-Agree cluster i e here))
            | inr (i, absent) ↦ rw (absent) (delete_loop-Agree r left (cluster + 1) here)
          ])
          (Agree-if _ (v == fat_empty_entry) _ _ _ _ (delete_loop-Agree r left (cluster + 1) s)
            (elim (ℤ-cases (index_of (has_name_ext r.name r.ext) 0 parent.dir_table)) [
              | inl (i, found) ↦ rw (found) (
                  Agree-bind _ (get_elem? parent.dir_table i) _ _
                    (λ e. remove_file-Agree cluster i e parent))
              | inr (i, absent) ↦ rw (absent) (delete_loop-Agree r left (cluster + 1) parent)
            ])))

  -- The deletes of the two file systems agree for every request and state: either neither
  -- returns, or both return the same code, disk, allocation table and directory table.
  pub delete-Agree :
      (r : Request) (s : State Disk) → Agree outcome_of (delete r s) (clocked_delete r s)
  unfolding delete clocked_delete
  delete-Agree r s = delete_loop-Agree r _ _ s
