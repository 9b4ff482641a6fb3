-- ===== src/Fat32/RoundTrip/Full.antt =====
-- src/fat32.c: a write that finds no free cluster.
use if2230_2023_ntaraja.Fat32.Writing.{write_file, write_entry, write}
use if2230_2023_ntaraja.Fat32.Writing.Free.{free_count}
use if2230_2023_ntaraja.Fat32.RoundTrip.Checks.{Passes, slot_small, write-checks}
use if2230_2023_ntaraja.Fat32.RoundTrip.{dir_at, loaded, IsVolume}
use if2230_2023_ntaraja.Fat32.{attr_subdirectory, empty_name, zero_entry, State, Request, DateTime}
use if2230_2023_ntaraja.Fat32.Directory.{find_empty_entry, dir_table_search, same_bytes}
use if2230_2023_ntaraja.Fat32.Writing.Full.{store_file-full}
use if2230_2023_ntaraja.Disk.{BlockDevice}
use if2230_2023_ntaraja.Prelude.{
  refl, ne→==, ℕ, ◌<◌, ◌≡◌, ◌≢◌, ◌∙◌, some, pos, negsuc, get_or, arith, false,
}

-- A request for a new file that passes the checks on a volume without a free cluster
pub record IsRefused {Disk : Type 0} ⦃device : BlockDevice Disk⦄ (r : Request) (slot : ℕ)
    (s : State Disk) : Type 0 where
  pub volume : IsVolume s
  pub named : same_bytes r.name empty_name 8 ≡ false
  pub some_bytes : 0 < r.buffer_size
  pub slot_found : find_empty_entry (dir_at s r.parent_cluster_number) ≡ pos slot
  pub slot_plain :
      (get_or (dir_at s r.parent_cluster_number) slot zero_entry).attribute ≢ attr_subdirectory
  pub absent : dir_table_search r.name r.ext (dir_at s r.parent_cluster_number) ≡ negsuc 0
  pub no_room : free_count s.fat_table 3 509 ≡ 0

module _ {Disk : Type 0} ⦃device : BlockDevice Disk⦄ (now : DateTime) (r : Request) (slot : ℕ) where
  module _ (s : State Disk) (refused : IsRefused r slot s) where
    abbrev passing : Passes r slot s
    passing = record {
      named = refused.named;
      slot_found = refused.slot_found;
      slot_plain = refused.slot_plain;
      absent = refused.absent;
    }

    -- write of a named file that is not empty, into a directory with a plain free slot and no
    -- entry of that name, returns -1 on a volume without a free cluster, and leaves the disk
    -- and the allocation table as they were.
    pub write-full :
        (s' : State Disk) × (write now r s ≡ some (negsuc 0, s'))
        × (s'.disk ≡ s.disk)
        × (s'.fat_table ≡ s.fat_table)
    unfolding write_entry write_file
    write-full =
        let s₁ = loaded s r.parent_cluster_number in
        (
          s₁,
          write-checks r slot s passing now
              ∙ rw
                  (
                    ne→== r.buffer_size 0 (omega (arith, refused.some_bytes)),
                    store_file-full now r slot 512 3 0 r.buffer_size 509 s₁
                        (record {
                          width = refused.volume.width;
                          words = refused.volume.words;
                          slot_inside = slot_small r slot s passing;
                        })
                        refl (omega arith) refused.no_room,
                  )
                  refl,
          refl,
          refl,
        )
