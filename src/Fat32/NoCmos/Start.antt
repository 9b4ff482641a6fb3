-- ===== src/Fat32/NoCmos/Start.antt =====
-- src/fat32-no-cmos.c: the disk after the driver has started.
use if2230_2023_ntaraja.Prelude.{
  ℕ, List, ◌++◌, replicate, not, false, ◌≡◌, refl, ap, ◌∙◌, inl, inr, Bool-cases, arith,
}
use if2230_2023_ntaraja.Disk.{BlockDevice, read_clusters}
use if2230_2023_ntaraja.Disk.Clusters.{read-write_clusters_self, read-write_clusters_other}
use if2230_2023_ntaraja.Fat32.{State, boot_sector, fat_cluster_number, root_cluster_number}
use if2230_2023_ntaraja.Fat32.Volume.{fs_signature, is_empty_storage, read_to_fat_table}
use if2230_2023_ntaraja.Fat32.Directory.{same_bytes}
use if2230_2023_ntaraja.Fat32.Directory.Search.{same_bytes_self}
use if2230_2023_ntaraja.Fat32.NoCmos.{create_fat32, initialize_filesystem_fat32}

-- The boot cluster of a formatted disk
abbrev signed : List ℕ
signed = fs_signature ++ replicate 1536 0

module _ {Disk : Type 0} ⦃device : BlockDevice Disk⦄ where
  signed-formatted :
      (s : State Disk)
      → read_clusters s.disk boot_sector 1 ≡ signed
      → (is_empty_storage s).0 ≡ false
  unfolding is_empty_storage same_bytes
  signed-formatted s e = rw (e) (ap not (same_bytes_self fs_signature 512))

  create_fat32-signed :
      (pointer_area : List ℕ) (s : State Disk)
      → read_clusters (create_fat32 pointer_area s).disk boot_sector 1 ≡ signed
  unfolding create_fat32
  create_fat32-signed pointer_area s =
      read-write_clusters_other _ _ root_cluster_number boot_sector (omega arith) (omega arith)
        (λ e. omega arith)
      ∙ read-write_clusters_other _ _ fat_cluster_number boot_sector (omega arith) (omega arith)
          (λ e. omega arith)
      ∙ read-write_clusters_self s.disk signed boot_sector refl (omega arith)

  -- Loading the allocation table leaves the disk alone.
  loading_keeps :
      (s : State Disk)
      → (is_empty_storage (read_to_fat_table fat_cluster_number (is_empty_storage s).1)).0
        ≡ (is_empty_storage s).0
  unfolding is_empty_storage read_to_fat_table
  loading_keeps s = refl

  -- After a start the disk has the signature: it had it, or it was formatted.
  pub initialize-formatted :
      (pointer_area : List ℕ) (s : State Disk)
      → (is_empty_storage (initialize_filesystem_fat32 pointer_area s)).0 ≡ false
  unfolding initialize_filesystem_fat32 read_to_fat_table
  initialize-formatted pointer_area s = elim (Bool-cases (is_empty_storage s).0) [
    | inl missing ↦ rw (missing) (signed-formatted _ (create_fat32-signed pointer_area _))
    | inr formatted ↦ rw (formatted) (loading_keeps s ∙ formatted)
  ]
