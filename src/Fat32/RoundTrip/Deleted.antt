-- ===== src/Fat32/RoundTrip/Deleted.antt =====
-- src/fat32.c: write, delete and read of one file.
use if2230_2023_ntaraja.Prelude.{ℕ, ◌≡◌, ◌≢◌, ◌<◌, get_or, List, set, some, pos, negsuc}
use if2230_2023_ntaraja.Disk.{BlockDevice}
use if2230_2023_ntaraja.Fat32.{
  fat_empty_entry, fat_end_of_file, cluster_map_size, zero_entry, entry_cluster, DateTime, Request,
  State,
}
use if2230_2023_ntaraja.Fat32.Directory.{has_name, index_of}
use if2230_2023_ntaraja.Fat32.Deletion.{delete}
use if2230_2023_ntaraja.Fat32.Reading.{fails, read}
use if2230_2023_ntaraja.Fat32.Writing.{write}
use if2230_2023_ntaraja.Fat32.Writing.Free.{entry_of}
use if2230_2023_ntaraja.Fat32.RoundTrip.{CanStore, dir_at, loaded}
use if2230_2023_ntaraja.Fat32.RoundTrip.Writes.{write-Stored, final}
use if2230_2023_ntaraja.Fat32.RoundTrip.Reads.Removal.{
  gone, delete-stored, read-gone, fat-gone, cluster-stored, taken-stored,
}

module _ {Disk : Type 0} ⦃device : BlockDevice Disk⦄ (now : DateTime) (r : Request) (slot : ℕ)
    (s : State Disk) (can : CanStore r slot s) where
  -- For a file that write can store as in read-write, in a directory whose own cluster ends a
  -- chain and which has no entry of that name with any extension, write returns 0 and delete of
  -- the same request then returns 0; of the allocation table that write left, one entry alone
  -- is freed, whatever the file's size: that of the first cluster that the directory names for
  -- the file, which was free before the write and in use after it; and read of the name then
  -- returns 3, not found.
  pub read-delete :
      entry_of s.fat_table r.parent_cluster_number ≡ fat_end_of_file
      → index_of (has_name r.name) 0 (dir_at s r.parent_cluster_number) ≡ negsuc 0
      → (c : ℕ) × (s' : State Disk) × (s'' : State Disk) × (write now r s ≡ some (pos 0, s'))
        × (delete r s' ≡ some (pos 0, s''))
        × (c < cluster_map_size)
        × (c ≡ entry_cluster (get_or (dir_at s' r.parent_cluster_number) slot zero_entry))
        × (entry_of s.fat_table c ≡ fat_empty_entry)
        × (entry_of s'.fat_table c ≢ fat_empty_entry)
        × (s''.fat_table ≡ set s'.fat_table c fat_empty_entry)
        × ((stack : List ℕ)
            → read stack r s'' ≡ some (fails (pos 3), loaded s'' r.parent_cluster_number))
  read-delete ends alone =
      let (first, s₂, run, st) = write-Stored now r slot s can in
      (
        first,
        final now r slot s can s₂,
        gone now r slot s can first s₂ st ends alone,
        run,
        delete-stored now r slot s can first s₂ st ends alone,
        st.inside,
        cluster-stored now r slot s can first s₂ st ends alone,
        st.free,
        taken-stored now r slot s can first s₂ st ends alone,
        fat-gone now r slot s can first s₂ st ends alone,
        read-gone now r slot s can first s₂ st ends alone,
      )
