-- ===== src/Fat32/Writing/Full.antt =====
-- The file loop of write on a volume without a free cluster.
use if2230_2023_ntaraja.Fat32.Writing.Free.{free_count_miss, free_count_hit, entry_of, free_count}
use if2230_2023_ntaraja.Fat32.Writing.Store.{IsReady}
use if2230_2023_ntaraja.Fat32.Writing.{full, store_file}
use if2230_2023_ntaraja.Fat32.Writing.Loop.{store_file_skip}
use if2230_2023_ntaraja.Fat32.{fat_empty_entry, cluster_map_size, State, Request, DateTime}
use if2230_2023_ntaraja.Disk.{BlockDevice}
use if2230_2023_ntaraja.Prelude.{
  sym, refl, inr, inl, eq→==, Bool-cases, ◌==◌, ℕ, zero, suc, ◌+◌, ◌<◌, ◌≡◌, ◌∙◌, some, arith,
}

module _ {Disk : Type 0} ⦃device : BlockDevice Disk⦄ (now : DateTime) (r : Request) (slot : ℕ) where
  -- The file loop ends at the end of the table with nothing changed.
  pub store_file-full :
      (fuel head count size k : ℕ) (s : State Disk)
      → IsReady slot s
      → head + k ≡ cluster_map_size
      → k < fuel
      → free_count s.fat_table head k ≡ 0
      → store_file now r slot fuel head count size s ≡ some (full, s)
  unfolding store_file
  store_file-full zero head count size k s ready e le none_free = absurd (omega arith)
  store_file-full (suc fuel) head count size zero s ready e le none_free =
      rw (eq→== head cluster_map_size (omega arith)) refl
  store_file-full (suc fuel) head count size (suc k) s ready e le none_free =
      elim (Bool-cases (entry_of s.fat_table head == fat_empty_entry)) [
        | inl hit ↦ absurd (omega (arith, free_count_hit s.fat_table head k hit))
        | inr miss ↦
            store_file_skip now r slot fuel head count size s ready (omega arith) miss
            ∙ store_file-full fuel (head + 1) count size k s ready (omega arith) (omega arith)
                (sym (free_count_miss s.fat_table head k miss) ∙ none_free)
      ]
