-- ===== src/Fat32/RoundTrip/Checks.antt =====
-- src/fat32.c: the checks of write, passed.
use if2230_2023_ntaraja.Prelude.{
  ℕ, ◌≡◌, ◌≢◌, ◌∙◌, ◌-◌, ◌%◌, ◌^◌, ◌<◌, List, true, false, pos, negsuc, get_or, length, subst, ap,
  arith, get_elem?-eq-get_or, ne→==,
}
use if2230_2023_ntaraja.Disk.{BlockDevice}
use if2230_2023_ntaraja.Fat32.{
  attr_subdirectory, empty_name, zero_entry, DirectoryEntry, State, Request, DateTime,
}
use if2230_2023_ntaraja.Fat32.Volume.{read_to_dir_table}
use if2230_2023_ntaraja.Fat32.Directory.{
  find_empty_entry, dir_table_search, has_name, has_name_ext, same_bytes,
}
use if2230_2023_ntaraja.Fat32.Directory.Search.{index_of-FirstIndex, index_of-eq, FirstIndex}
use if2230_2023_ntaraja.Fat32.Writing.{write_entry, write}
use if2230_2023_ntaraja.Fat32.RoundTrip.{dir_at-fits, dir_at, loaded}

-- A request that passes: it has a name, and its directory has a plain free slot and no entry of
-- that name.
pub record Passes {Disk : Type 0} ⦃device : BlockDevice Disk⦄ (r : Request) (slot : ℕ)
    (s : State Disk) : Type 0 where
  pub named : same_bytes r.name empty_name 8 ≡ false
  pub slot_found : find_empty_entry (dir_at s r.parent_cluster_number) ≡ pos slot
  pub slot_plain :
      (get_or (dir_at s r.parent_cluster_number) slot zero_entry).attribute ≢ attr_subdirectory
  pub absent : dir_table_search r.name r.ext (dir_at s r.parent_cluster_number) ≡ negsuc 0

module _ {Disk : Type 0} ⦃device : BlockDevice Disk⦄ (r : Request) (slot : ℕ) (s : State Disk)
    (passes : Passes r slot s) where
  abbrev pub parent_dir : List DirectoryEntry
  parent_dir = dir_at s r.parent_cluster_number

  -- The slot is the first entry without a name.
  slot-FirstIndex : FirstIndex (has_name empty_name) 0 parent_dir (pos slot)
  unfolding find_empty_entry
  slot-FirstIndex =
      subst (FirstIndex (has_name empty_name) 0 parent_dir) passes.slot_found
        (index_of-FirstIndex (has_name empty_name) 0 parent_dir)

  pub slot_empty : has_name empty_name (get_or parent_dir slot zero_entry) ≡ true
  slot_empty =
      let z : slot - 0 ≡ slot = omega arith in
      subst (λ i. has_name empty_name (get_or parent_dir i zero_entry) ≡ true) z slot-FirstIndex.2

  pub absent-FirstIndex : FirstIndex (has_name_ext r.name r.ext) 0 parent_dir (negsuc 0)
  unfolding dir_table_search
  absent-FirstIndex =
      subst (FirstIndex (has_name_ext r.name r.ext) 0 parent_dir) passes.absent
        (index_of-FirstIndex (has_name_ext r.name r.ext) 0 parent_dir)

  pub slot_inside : slot < 64
  slot_inside = omega (arith, slot-FirstIndex, dir_at-fits s r.parent_cluster_number)

  pub slot_small : slot < length parent_dir
  slot_small = omega (arith, slot_inside, dir_at-fits s r.parent_cluster_number)

  pub write-checks :
      (now : DateTime) → write now r s ≡ write_entry now r slot (loaded s r.parent_cluster_number)
  unfolding write read_to_dir_table
  write-checks now =
      let small : slot % 2 ^ 32 ≡ slot = omega (arith, slot_inside) in
      rw
        (
          passes.named,
          passes.slot_found,
          small,
          get_elem?-eq-get_or parent_dir slot zero_entry slot_small,
          ne→== _ attr_subdirectory passes.slot_plain,
          passes.absent,
        )
        (rw (passes.slot_found, small))

  -- An entry of that name in the slot is found there, in a table that is as before up to the slot.
  pub search-slot :
      (dir : List DirectoryEntry)
      → length dir ≡ 64
      → has_name_ext r.name r.ext (get_or dir slot zero_entry) ≡ true
      → ((k : ℕ)
          → k < slot
          → has_name_ext r.name r.ext (get_or dir k zero_entry)
            ≡ has_name_ext r.name r.ext (get_or parent_dir k zero_entry))
      → dir_table_search r.name r.ext dir ≡ pos slot
  unfolding dir_table_search
  search-slot dir width hit same =
      index_of-eq (has_name_ext r.name r.ext) 0 slot dir (omega (arith, width, slot_inside)) hit
        (λ k lt. same k lt ∙ absent-FirstIndex.1 k (omega (arith, slot_small)))
      ∙ ap pos (omega arith)
