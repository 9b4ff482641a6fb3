-- ===== src/Fat32/Writing/Store.antt =====
-- What the file loop of write leaves: a chain of clusters that holds the caller's bytes, and
-- everything that was allocated before as it was.
use if2230_2023_ntaraja.Disk.Clusters.{read-write_clusters_other}
use if2230_2023_ntaraja.Prelude.{
  get_elem?-eq-get_or, set?-eq-set, get_or-set_self, length-set, Bool-cases, ◌==◌, some,
  if◌then◌else◌, ℕ, zero, suc, ◌+◌, ◌*◌, ◌≤◌, ◌<◌, ◌≡◌, ◌≢◌, sym, ◌∙◌, ◌⊎◌, inl, inr, false, arith,
  List, length, get_or, set, All,
}
use if2230_2023_ntaraja.Memory.{Mem, load_bytes}
use if2230_2023_ntaraja.Disk.{cluster_size, BlockDevice, write_clusters, read_clusters}
use if2230_2023_ntaraja.Fat32.{
  zero_entry, empty_name, fat_end_of_file, fat_empty_entry, cluster_map_size, DateTime,
  DirectoryEntry, State, Request,
}
use if2230_2023_ntaraja.Fat32.Layout.RoundTrip.{IsWord}
use if2230_2023_ntaraja.Fat32.Volume.{init_directory_entry}
use if2230_2023_ntaraja.Fat32.Directory.{same_bytes}
use if2230_2023_ntaraja.Fat32.Writing.{link, enter_file, file_entry}
use if2230_2023_ntaraja.Fat32.Writing.Free.{entry_of}

-- The directory table once the entry of the file is in
abbrev pub entered : DateTime → Request → ℕ → ℕ → ℕ → List DirectoryEntry → List DirectoryEntry
entered now r slot first size dir =
    if same_bytes (get_or dir slot zero_entry).name empty_name 8
    then set dir slot (file_entry now r first size)
    else dir

pub enter_file-eq :
    (now : DateTime) (r : Request) (slot first size : ℕ) (dir : List DirectoryEntry)
    → slot < length dir
    → enter_file now r slot first size dir ≡ some (entered now r slot first size dir)
unfolding enter_file
enter_file-eq now r slot first size dir h =
    rw
      (
        get_elem?-eq-get_or dir slot zero_entry h,
        set?-eq-set dir slot (file_entry now r first size) h,
      )
      (ground arith)

pub entered_again :
    (now : DateTime) (r : Request) (slot first size first' size' : ℕ) (dir : List DirectoryEntry)
    → slot < length dir
    → same_bytes r.name empty_name 8 ≡ false
    → entered now r slot first' size' (entered now r slot first size dir)
      ≡ entered now r slot first size dir
unfolding file_entry init_directory_entry
entered_again now r slot first size first' size' dir h named =
    elim (Bool-cases (same_bytes (get_or dir slot zero_entry).name empty_name 8)) [
      | inl e ↦ rw (e, get_or-set_self dir slot (file_entry now r first size) zero_entry h, named)
      | inr e ↦ rw (e, e)
    ]

pub length-entered :
    (now : DateTime) (r : Request) (slot first size : ℕ) (dir : List DirectoryEntry)
    → length (entered now r slot first size dir) ≡ length dir
length-entered now r slot first size dir =
    ground (arith, length-set dir slot (file_entry now r first size))

pub link-eq_last :
    (tail next : ℕ) (fat : List ℕ)
    → tail < length fat
    → next < length fat
    → link tail next 0 fat ≡ some (set (set fat tail next) next fat_end_of_file)
unfolding link
link-eq_last tail next fat h k =
    rw (set?-eq-set fat tail next h) (
      set?-eq-set (set fat tail next) next fat_end_of_file
        (omega (arith, length-set fat tail next)))

pub link-eq_more :
    (tail next left : ℕ) (fat : List ℕ)
    → tail < length fat
    → (left == 0) ≡ false
    → link tail next left fat ≡ some (set fat tail next)
unfolding link
link-eq_more tail next left fat h e = rw (set?-eq-set fat tail next h, e)

-- The first `n` clusters of the chain from `cluster` on are not `c`.
abbrev pub Avoids : List ℕ → ℕ → ℕ → ℕ → Type 0
Avoids fat c cluster zero = Unit
Avoids fat c cluster (suc n) = (cluster ≢ c) × Avoids fat c (entry_of fat cluster) n

module _ {Disk : Type 0} ⦃device : BlockDevice Disk⦄ where
  -- `n` clusters from `cluster` on along the chain hold the caller's bytes from its cluster `count`
  -- on, and a marker that ends the chain comes behind them.
  abbrev pub IsStored : List ℕ → Disk → Mem → ℕ → ℕ → ℕ → Type 0
  IsStored fat disk buf cluster count zero =
      (cluster < cluster_map_size) × (entry_of fat cluster ≡ fat_end_of_file)
  IsStored fat disk buf cluster count (suc n) =
      (cluster < cluster_map_size)
      × (entry_of fat cluster ≢ fat_end_of_file)
      × (read_clusters disk cluster 1 ≡ load_bytes buf (count * cluster_size) cluster_size)
      × IsStored fat disk buf (entry_of fat cluster) (count + 1) n

  -- A write to a cluster that the chain avoids leaves the chain stored.
  pub IsStored-write :
      (n : ℕ) (fat : List ℕ) (disk : Disk) (bytes : List ℕ) (buf : Mem) (c cluster count : ℕ)
      → c < cluster_map_size
      → Avoids fat c cluster n
      → IsStored fat disk buf cluster count n
      → IsStored fat (write_clusters disk bytes c 1) buf cluster count n
  IsStored-write zero fat disk bytes buf c cluster count lt away st = st
  IsStored-write (suc n) fat disk bytes buf c cluster count lt (ne, away) (inside, more, read, st) =
      (
        inside,
        more,
        read-write_clusters_other disk bytes c cluster (omega arith) (omega arith) (λ e. ne (sym e))
            ∙ read,
        IsStored-write n fat disk bytes buf c (entry_of fat cluster) (count + 1) lt away st,
      )

  -- What the loop leaves, started at `head` with `size` bytes of `n + 1` clusters to store: `first`
  -- is where the chain begins.
  pub record Stored (now : DateTime) (r : Request) (slot head count n size first : ℕ)
      (s s' : State Disk) : Type 0 where
    pub chain : IsStored s'.fat_table s'.disk r.buf first count (suc n)
    pub avoids :
        (c : ℕ)
        → (c < head) ⊎ (entry_of s.fat_table c ≢ fat_empty_entry)
        → Avoids s'.fat_table c first (suc n)
    pub same_entries :
        (c : ℕ)
        → (c < head) ⊎ (entry_of s.fat_table c ≢ fat_empty_entry)
        → entry_of s'.fat_table c ≡ entry_of s.fat_table c
    pub same_clusters :
        (c : ℕ)
        → c < cluster_map_size
        → (c < head) ⊎ (entry_of s.fat_table c ≢ fat_empty_entry)
        → read_clusters s'.disk c 1 ≡ read_clusters s.disk c 1
    pub width : length s'.fat_table ≡ cluster_map_size
    pub words : All IsWord s'.fat_table
    pub dir : s'.dir_table ≡ entered now r slot first size s.dir_table
    pub after : head ≤ first
    pub inside : first < cluster_map_size
    pub free : entry_of s.fat_table first ≡ fat_empty_entry
    pub taken : entry_of s'.fat_table first ≢ fat_empty_entry
    pub at_head : entry_of s.fat_table head ≡ fat_empty_entry → first ≡ head

  -- What a run of the loop needs of the state
  pub record IsReady (slot : ℕ) (s : State Disk) : Type 0 where
    pub width : length s.fat_table ≡ cluster_map_size
    pub words : All IsWord s.fat_table
    pub slot_inside : slot < length s.dir_table
