-- ===== src/Disk.antt =====
-- The disk behind fat32.c: `read_blocks` and `write_blocks` as the interface that
-- src/disk.c (the ATA driver) and src/external-inserter.c (an image in memory) both implement, and
-- the cluster operations of src/fat32.c over it.
pub mod Clusters
use if2230_2023_ntaraja.Prelude.{ℕ, ◌+◌, ◌*◌, ◌%◌, ◌^◌, ◌≤◌, ◌≡◌, ◌⊎◌, List, length, Bytes}

abbrev pub block_size : ℕ
block_size = 512

abbrev pub cluster_block_count : ℕ
cluster_block_count = 4

abbrev pub cluster_size : ℕ
cluster_size = 2048

-- `read_blocks d lba n` is what the call leaves at its pointer, `write_blocks d buf lba n` the disk
-- after a write of the bytes at the pointer.
pub record BlockDevice (Disk : Type 0) : Type 0 where
  pub read_blocks : Disk → ℕ → ℕ → List ℕ
  pub write_blocks : Disk → List ℕ → ℕ → ℕ → Disk
  pub length-read : (d : Disk) (lba n : ℕ) → length (read_blocks d lba n) ≡ n * block_size
  pub read-Bytes : (d : Disk) (lba n : ℕ) → Bytes (read_blocks d lba n)
  pub read-write_self :
      (d : Disk) (buf : List ℕ) (lba n : ℕ)
      → length buf ≡ n * block_size
      → Bytes buf
      → read_blocks (write_blocks d buf lba n) lba n ≡ buf
  pub read-write_other :
      (d : Disk) (buf : List ℕ) (lba n lba' n' : ℕ)
      → (lba + n ≤ lba') ⊎ (lba' + n' ≤ lba)
      → read_blocks (write_blocks d buf lba n) lba' n' ≡ read_blocks d lba' n'

-- `cluster * CLUSTER_BLOCK_COUNT` on a `uint32_t`
unfoldable pub cluster_to_lba : ℕ → ℕ
cluster_to_lba cluster = cluster * cluster_block_count % 2 ^ 32

module _ {Disk : Type 0} ⦃device : BlockDevice Disk⦄ where
  -- The block count is a `uint8_t`.
  unfoldable pub write_clusters : Disk → List ℕ → ℕ → ℕ → Disk
  write_clusters d buf cluster count =
      device.write_blocks d buf (cluster_to_lba cluster) (count * cluster_block_count % 2 ^ 8)

  unfoldable pub read_clusters : Disk → ℕ → ℕ → List ℕ
  read_clusters d cluster count =
      device.read_blocks d (cluster_to_lba cluster) (count * cluster_block_count % 2 ^ 8)
