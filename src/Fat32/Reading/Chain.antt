-- ===== src/Fat32/Reading/Chain.antt =====
-- The loop of read follows a stored chain to its end.
use if2230_2023_ntaraja.Fat32.Directory.{dir_table_search}
use if2230_2023_ntaraja.Memory.Load.{load_bytes-add}
use if2230_2023_ntaraja.Prelude.Opt.{◌>>=◌}
use if2230_2023_ntaraja.Fat32.{DirectoryEntry, State, Request, cluster_map_size, fat_end_of_file}
use if2230_2023_ntaraja.Fat32.Writing.Free.{entry_of}
use if2230_2023_ntaraja.Memory.{load_bytes, Mem}
use if2230_2023_ntaraja.Disk.{read_clusters, cluster_size, BlockDevice}
use if2230_2023_ntaraja.Prelude.{
  pos, get_elem?, if◌then◌else◌, ◌≡◌, ◌∙◌, ℕ, zero, suc, some, refl, not, ne→==, length,
  get_elem?-eq-get_or, arith, ap, List, ◌==◌, ◌<◌, ◌++◌, ◌+◌, ◌*◌, ◌&&◌,
}
use if2230_2023_ntaraja.Fat32.Reading.{read_from_table, read_file, Reply, read_chain}
use if2230_2023_ntaraja.Fat32.Writing.Store.{IsStored}

read_chain_step :
    {Disk : Type 0} ⦃device : BlockDevice Disk⦄ (slots : ℕ) (disk : Disk) (fat : List ℕ)
    (cluster : ℕ)
    → cluster < length fat
    → entry_of fat cluster < length fat
    → read_chain (suc slots) disk fat cluster ≡ (
        if not (entry_of fat (entry_of fat cluster) == fat_end_of_file)
          && not (entry_of fat cluster == fat_end_of_file)
        then (do
          more ← read_chain slots disk fat (entry_of fat cluster)
          some (read_clusters disk cluster 1 ++ more))
        else some (read_clusters disk cluster 1))
unfolding read_chain
read_chain_step slots disk fat cluster h k =
    rw (get_elem?-eq-get_or fat cluster 0 h, get_elem?-eq-get_or fat (entry_of fat cluster) 0 k)

module _ {Disk : Type 0} ⦃device : BlockDevice Disk⦄ (fat : List ℕ) (disk : Disk) (buf : Mem)
    (width : length fat ≡ cluster_map_size) where
  -- Enough room in `cbuf` is one slot for each cluster.
  pub read_chain-IsStored :
      (n slots cluster count : ℕ)
      → n < slots
      → IsStored fat disk buf cluster count (suc n)
      → read_chain slots disk fat cluster
        ≡ some (load_bytes buf (count * cluster_size) (suc n * cluster_size))
  read_chain-IsStored n zero cluster count lt st = absurd (omega arith)
  read_chain-IsStored zero (suc slots) cluster count lt (inside, more, bytes, (next_inside, last)) =
      read_chain_step slots disk fat cluster (omega arith) (omega arith)
      ∙ rw (last, bytes) (ap some one)
    where
      one :
          load_bytes buf (count * cluster_size) cluster_size
          ≡ load_bytes buf (count * cluster_size) (1 * cluster_size)
      one = refl
  read_chain-IsStored (suc n) (suc slots) cluster count lt (inside, more, bytes, rest) =
      read_chain_step slots disk fat cluster (omega arith) (omega (arith, rest.0))
      ∙ rw
          (
            ne→== (entry_of fat (entry_of fat cluster)) fat_end_of_file rest.1,
            ne→== (entry_of fat cluster) fat_end_of_file (omega (arith, rest.0)),
            read_chain-IsStored n slots (entry_of fat cluster) (count + 1) (omega arith) rest,
            bytes,
          )
          (ap some joined)
    where
      joined :
          load_bytes buf (count * cluster_size) cluster_size
            ++ load_bytes buf ((count + 1) * cluster_size) (suc n * cluster_size)
          ≡ load_bytes buf (count * cluster_size) (suc (suc n) * cluster_size)
      joined =
          let start : (count + 1) * 2048 ≡ count * 2048 + 2048 = omega arith in
          let size : suc (suc n) * 2048 ≡ 2048 + suc n * 2048 = omega arith in
          rw (start, size, load_bytes-add)

-- read once the search has found an entry
pub read-found :
    {Disk : Type 0} ⦃device : BlockDevice Disk⦄ (stack : List ℕ) (r : Request) (s : State Disk)
    (i : ℕ) (e : DirectoryEntry) (reply : Reply)
    → dir_table_search r.name r.ext s.dir_table ≡ pos i
    → get_elem? s.dir_table i ≡ some e
    → read_file stack r e s ≡ some reply
    → read_from_table stack r s ≡ some (reply, s)
unfolding read_from_table
read-found stack r s i e reply found here run = rw (found, read_from_table) (rw (here, run))
