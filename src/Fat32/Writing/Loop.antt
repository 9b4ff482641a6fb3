-- ===== src/Fat32/Writing/Loop.antt =====
-- The file loop of write, round by round, and what it leaves when it ends.
use if2230_2023_ntaraja.Fat32.Writing.{stored, left_after, next_empty, store_file}
use if2230_2023_ntaraja.Fat32.Writing.Free.{entry_of}
use if2230_2023_ntaraja.Memory.{load_bytes}
use if2230_2023_ntaraja.Prelude.{
  ne→==, set, get_elem?-eq-get_or, some, ◌+◌, suc, false, true, ◌≡◌, ◌==◌, ◌*◌, arith, length, ◌<◌,
  List, ℕ,
}
use if2230_2023_ntaraja.Fat32.{
  fat_end_of_file, fat_empty_entry, cluster_map_size, State, Request, DateTime,
}
use if2230_2023_ntaraja.Disk.{cluster_size, write_clusters, BlockDevice}
use if2230_2023_ntaraja.Fat32.Writing.Store.{
  link-eq_more, link-eq_last, enter_file-eq, IsReady, entered,
}

module _ {Disk : Type 0} ⦃device : BlockDevice Disk⦄ (now : DateTime) (r : Request) (slot : ℕ) where
  -- The state after one cluster was filled
  abbrev pub filled : ℕ → ℕ → ℕ → List ℕ → State Disk → State Disk
  filled head count size fat s = record s {
    disk = write_clusters s.disk (load_bytes r.buf (count * cluster_size) cluster_size) head 1;
    dir_table = entered now r slot head size s.dir_table;
    fat_table = fat;
  }

  module _ (fuel head count size : ℕ) (s : State Disk) (ready : IsReady slot s)
      (head_inside : head < cluster_map_size) where
    in_table : head < length s.fat_table
    in_table = omega (arith, ready.width)

    pub store_file_skip :
        (entry_of s.fat_table head == fat_empty_entry) ≡ false
        → store_file now r slot (suc fuel) head count size s
          ≡ store_file now r slot fuel (head + 1) count size s
    unfolding store_file
    store_file_skip miss =
        let inside = ne→== head cluster_map_size (omega arith) in
        rw (inside, get_elem?-eq-get_or s.fat_table head 0 in_table, miss)

    module _ (hit : (entry_of s.fat_table head == fat_empty_entry) ≡ true) (next : ℕ)
        (run : next_empty cluster_map_size s.fat_table (head + 1) ≡ some next)
        (next_inside : next < cluster_map_size) where
      pub store_file_last :
          left_after size ≡ 0
          → store_file now r slot (suc fuel) head count size s
            ≡ some (
              stored,
              filled head count size (set (set s.fat_table head next) next fat_end_of_file) s,
            )
      unfolding store_file
      store_file_last left =
          let inside = ne→== head cluster_map_size (omega arith) in
          rw (
            inside,
            get_elem?-eq-get_or s.fat_table head 0 in_table,
            hit,
            enter_file-eq now r slot head size s.dir_table ready.slot_inside,
            run,
            left,
            link-eq_last head next s.fat_table in_table (omega (arith, ready.width)),
          )

      pub store_file_more :
          (left_after size == 0) ≡ false
          → store_file now r slot (suc fuel) head count size s
            ≡ store_file now r slot fuel next
                (count + 1)
                (left_after size)
                (filled head count size (set s.fat_table head next) s)
      unfolding store_file
      store_file_more more =
          let inside = ne→== head cluster_map_size (omega arith) in
          rw (
            inside,
            get_elem?-eq-get_or s.fat_table head 0 in_table,
            hit,
            enter_file-eq now r slot head size s.dir_table ready.slot_inside,
            run,
            link-eq_more head next (left_after size) s.fat_table in_table more,
            more,
          )
