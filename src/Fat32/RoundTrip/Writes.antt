-- ===== src/Fat32/RoundTrip/Writes.antt =====
-- What write leaves of a request that it can store.
use if2230_2023_ntaraja.Fat32.Writing.Store.{Stored, IsReady}
use if2230_2023_ntaraja.Fat32.Writing.{mark_not_empty, write_file, write_entry, write}
use if2230_2023_ntaraja.Fat32.Writing.Total.{store_file-Stores, cluster_rounds}
use if2230_2023_ntaraja.Fat32.Volume.{flush}
use if2230_2023_ntaraja.Fat32.{State, Request, DateTime}
use if2230_2023_ntaraja.Disk.{BlockDevice}
use if2230_2023_ntaraja.Prelude.{◌≡◌, ◌∙◌, ℕ, some, refl, pos, ne→==, arith, ◌-◌}
use if2230_2023_ntaraja.Fat32.RoundTrip.Checks.{Passes, slot_small, write-checks}
use if2230_2023_ntaraja.Fat32.RoundTrip.{CanStore, loaded}

module _ {Disk : Type 0} ⦃device : BlockDevice Disk⦄ (now : DateTime) (r : Request) (slot : ℕ)
    (s : State Disk) (can : CanStore r slot s) where
  abbrev pub passes : Passes r slot s
  passes = record {
    named = can.named;
    slot_found = can.slot_found;
    slot_plain = can.slot_plain;
    absent = can.absent;
  }

  abbrev pub at_parent : State Disk
  at_parent = loaded s r.parent_cluster_number

  pub at_parent-IsReady : IsReady slot at_parent
  at_parent-IsReady = record {
    width = can.volume.width;
    words = can.volume.words;
    slot_inside = slot_small r slot s passes;
  }

  -- The clusters filled, less one
  abbrev pub last_round : ℕ
  last_round = cluster_rounds r.buffer_size - 1

  abbrev pub final : State Disk → State Disk
  final s₂ =
      flush r.parent_cluster_number
        (record s₂ { dir_table = mark_not_empty r.parent_cluster_number s₂.dir_table })

  -- write returns 0, with the state of the file loop marked and flushed.
  pub write-Stored :
      (first : ℕ) × (s₂ : State Disk) × (write now r s ≡ some (pos 0, final s₂))
      × Stored now r slot 3 0 last_round r.buffer_size first at_parent s₂
  unfolding write_entry write_file
  write-Stored =
      let (first, s₂, run, st) =
        store_file-Stores now r slot can.named 512 3 0 last_round r.buffer_size 509 at_parent
          at_parent-IsReady refl (omega arith) (omega (arith, can.some_bytes))
          (omega (arith, can.room, can.some_bytes)) in
      (
        first,
        s₂,
        write-checks r slot s passes now
            ∙ rw (ne→== r.buffer_size 0 (omega (arith, can.some_bytes)), run),
        st,
      )
