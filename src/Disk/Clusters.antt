-- ===== src/Disk/Clusters.antt =====
-- Single clusters as the file system uses them: a read sees the last write of its cluster.
use if2230_2023_ntaraja.Prelude.{
  ℕ, ◌+◌, ◌^◌, ◌<◌, ◌≡◌, ◌≢◌, inl, inr, List, arith, dec_lt, length, Bytes, ◌⊎◌, ◌≤◌,
}
use if2230_2023_ntaraja.Disk.{
  cluster_size, BlockDevice, cluster_to_lba, write_clusters, read_clusters,
}

-- Cluster numbers below this do not wrap as block addresses.
abbrev pub cluster_limit : ℕ
cluster_limit = 2 ^ 30

lba_apart :
    (c c' : ℕ)
    → c < cluster_limit
    → c' < cluster_limit
    → c ≢ c'
    → (cluster_to_lba c + 4 ≤ cluster_to_lba c') ⊎ (cluster_to_lba c' + 4 ≤ cluster_to_lba c)
unfolding cluster_to_lba
lba_apart c c' h h' ne = elim (dec_lt c c') [ yes p ↦ inl (omega arith) | no p ↦ inr (omega arith) ]

module _ {Disk : Type 0} ⦃device : BlockDevice Disk⦄ where
  pub length-read_clusters : (d : Disk) (c : ℕ) → length (read_clusters d c 1) ≡ cluster_size
  unfolding read_clusters
  length-read_clusters d c = device.length-read d _ 4

  pub read_clusters-Bytes : (d : Disk) (c : ℕ) → Bytes (read_clusters d c 1)
  unfolding read_clusters
  read_clusters-Bytes d c = device.read-Bytes d _ 4

  pub read-write_clusters_self :
      (d : Disk) (buf : List ℕ) (c : ℕ)
      → length buf ≡ cluster_size
      → Bytes buf
      → read_clusters (write_clusters d buf c 1) c 1 ≡ buf
  unfolding read_clusters write_clusters
  read-write_clusters_self d buf c h b = device.read-write_self d buf _ 4 h b

  -- A cluster reads as before when another one is written, if both numbers are below 2^30,
  -- where block addresses do not wrap.
  pub read-write_clusters_other :
      (d : Disk) (buf : List ℕ) (c c' : ℕ)
      → c < cluster_limit
      → c' < cluster_limit
      → c ≢ c'
      → read_clusters (write_clusters d buf c 1) c' 1 ≡ read_clusters d c' 1
  unfolding read_clusters write_clusters
  read-write_clusters_other d buf c c' h h' ne =
      device.read-write_other d buf _ 4 _ 4 (lba_apart c c' h h' ne)
