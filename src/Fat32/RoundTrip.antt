-- ===== src/Fat32/RoundTrip.antt =====
-- A file that write stored is read back by read.
pub mod Checks
pub mod Writes
pub mod Reads
pub mod File
pub mod Deleted
pub mod Full
pub mod Restart
pub mod Folder
use if2230_2023_ntaraja.Disk.Clusters.{read-write_clusters_self, read_clusters-Bytes}
use if2230_2023_ntaraja.Fat32.Volume.{zero_cluster}
use if2230_2023_ntaraja.Memory.{Mem, load_bytes}
use if2230_2023_ntaraja.Fat32.Writing.Total.{cluster_rounds}
use if2230_2023_ntaraja.Fat32.Directory.{dir_table_search, find_empty_entry, same_bytes}
use if2230_2023_ntaraja.Fat32.Layout.RoundTrip.{
  decode-encode_dir, encode_dir-Bytes, length-encode_dir, decode_dir-IsEntry, length-decode_dir,
  IsEntry, IsWord,
}
use if2230_2023_ntaraja.Fat32.Layout.{encode_dir, decode_dir}
use if2230_2023_ntaraja.Disk.{write_clusters, read_clusters, BlockDevice}
use if2230_2023_ntaraja.Fat32.{
  attr_subdirectory, zero_entry, fat_empty_entry, fat_cluster_number, empty_name, DirectoryEntry,
  Request, cluster_map_size, State,
}
use if2230_2023_ntaraja.Prelude.{
  ◌≤◌, ◌∷◌, ◌∙◌, zero, take, suc, subst, refl, arith, ap, ◌^◌, ◌++◌, ◌+◌, ◌%◌, ◌≢◌, ◌≡◌, ℕ, pos,
  negsuc, length, get_or, false, List, All, ◌<◌,
}
use if2230_2023_ntaraja.Fat32.Writing.Entry.{IsRequest}
use if2230_2023_ntaraja.Fat32.Writing.Free.{entry_of, free_count}
use if2230_2023_ntaraja.Fat32.Reading.{Reply}

-- The table that a cluster holds
abbrev pub dir_at :
    {Disk : Type 0} ⦃device : BlockDevice Disk⦄ → State Disk → ℕ → List DirectoryEntry
dir_at s c = decode_dir 64 (read_clusters s.disk c 1)

-- The cached allocation table has its size, and its entries are words.
pub record IsVolume {Disk : Type 0} (s : State Disk) : Type 0 where
  pub width : length s.fat_table ≡ cluster_map_size
  pub words : All IsWord s.fat_table

-- A request for a new file that has room: the parent is an allocated cluster, its table has a
-- free slot and no entry of that name, and one cluster more than the file fills is free.
pub record CanStore {Disk : Type 0} ⦃device : BlockDevice Disk⦄ (r : Request) (slot : ℕ)
    (s : State Disk) : Type 0 where
  pub volume : IsVolume s
  pub request : IsRequest r
  pub named : same_bytes r.name empty_name 8 ≡ false
  pub some_bytes : 0 < r.buffer_size
  pub parent_inside : r.parent_cluster_number < cluster_map_size
  pub parent_not_fat : r.parent_cluster_number ≢ fat_cluster_number
  pub parent_taken : entry_of s.fat_table r.parent_cluster_number ≢ fat_empty_entry
  pub slot_found : find_empty_entry (dir_at s r.parent_cluster_number) ≡ pos slot
  pub slot_plain :
      (get_or (dir_at s r.parent_cluster_number) slot zero_entry).attribute ≢ attr_subdirectory
  pub absent : dir_table_search r.name r.ext (dir_at s r.parent_cluster_number) ≡ negsuc 0
  pub room : cluster_rounds r.buffer_size < free_count s.fat_table 3 509

module _ {Disk : Type 0} ⦃device : BlockDevice Disk⦄ where
  abbrev pub loaded : State Disk → ℕ → State Disk
  loaded s c = record s { dir_table = dir_at s c; cluster_buf = zero_cluster }

  -- Writing a storable table and reading it back
  pub dir_at-write :
      (s : State Disk) (disk : Disk) (dir : List DirectoryEntry) (c : ℕ)
      → length dir ≡ 64
      → All IsEntry dir
      → decode_dir 64 (read_clusters (write_clusters disk (encode_dir dir) c 1) c 1) ≡ dir
  dir_at-write s disk dir c width fits =
      let back =
        read-write_clusters_self disk (encode_dir dir) c
          (length-encode_dir dir ∙ omega (arith, width)) (encode_dir-Bytes dir fits) in
      rw back (subst (λ n. decode_dir n (encode_dir dir) ≡ dir) width (decode-encode_dir dir fits))

  pub dir_at-fits : (s : State Disk) (c : ℕ) → (length (dir_at s c) ≡ 64) × All IsEntry (dir_at s c)
  dir_at-fits s c = (length-decode_dir 64 _, decode_dir-IsEntry 64 _ (read_clusters-Bytes s.disk c))

pub take_load :
    (n k : ℕ) (m : Mem) (a : ℕ) (rest : List ℕ)
    → n ≤ k
    → take n (load_bytes m a k ++ rest) ≡ load_bytes m a n
unfolding load_bytes
take_load zero k m a rest le = refl
take_load (suc n) zero m a rest le = absurd (omega arith)
take_load (suc n) (suc k) m a rest le =
    ap (λ t. m a % 2 ^ 8 ∷ t) (take_load n k m (a + 1) rest (omega arith))
