-- ===== src/Fat32/Writing/Total.antt =====
-- Enough free clusters are enough: the file loop ends, and has stored everything.
use if2230_2023_ntaraja.Fat32.Writing.Chain.{more-Stored, last-Stored}
use if2230_2023_ntaraja.Fat32.Layout.RoundTrip.{IsWord}
use if2230_2023_ntaraja.Fat32.Writing.Store.{length-entered, Stored, IsReady}
use if2230_2023_ntaraja.Fat32.Directory.{same_bytes}
use if2230_2023_ntaraja.Fat32.{
  fat_end_of_file, cluster_map_size, fat_empty_entry, State, empty_name, Request, DateTime,
}
use if2230_2023_ntaraja.Fat32.Writing.{next_empty, stored, store_file, left_after}
use if2230_2023_ntaraja.Disk.{BlockDevice}
use if2230_2023_ntaraja.Prelude.{
  subst, ne→==, length, get_or-set_ne, ==→eq, ◌-◌, ◌⊎◌, ◌≢◌, ◌≡◌, ◌∙◌, ℕ, zero, true, suc, some,
  set, length-set, inr, inl, false, arith, Bool-cases, All-set, ==→ne, ◌==◌, ◌<◌, ◌/◌, ◌+◌,
}
use if2230_2023_ntaraja.Fat32.Writing.Free.{
  free_count-set, next_empty-IsFirstFree, free_count_hit, free_count_miss, entry_of, IsFirstFree,
  free_count,
}
use if2230_2023_ntaraja.Fat32.Writing.Loop.{
  store_file_more, store_file_last, store_file_skip, filled,
}

-- How many clusters a file of `size` bytes fills
abbrev pub cluster_rounds : ℕ → ℕ
cluster_rounds size = (size + 2047) / 2048

rounds_last : (size : ℕ) → cluster_rounds size ≡ 1 → left_after size ≡ 0
rounds_last size e = ground arith

rounds_more :
    (size n : ℕ)
    → cluster_rounds size ≡ suc (suc n)
    → (cluster_rounds (left_after size) ≡ suc n) × (left_after size ≢ 0)
rounds_more size n e = ground arith

module _ {Disk : Type 0} ⦃device : BlockDevice Disk⦄ (now : DateTime) (r : Request) (slot : ℕ)
    (named : same_bytes r.name empty_name 8 ≡ false) where
  -- The loop started at `head` stores the buffer, in a chain that begins at `first`.
  abbrev pub Stores : ℕ → ℕ → ℕ → ℕ → ℕ → State Disk → Type 0
  Stores fuel head count n size s =
      (first : ℕ) × (s' : State Disk) × (store_file now r slot fuel head count size s
        ≡ some (stored, s'))
      × Stored now r slot head count n size first s s'

  skip-Stored :
      (head count n size first : ℕ) (s s' : State Disk)
      → entry_of s.fat_table head ≢ fat_empty_entry
      → Stored now r slot (head + 1) count n size first s s'
      → Stored now r slot head count n size first s s'
  skip-Stored head count n size first s s' taken rest = record {
    chain = rest.chain;
    avoids = λ c h. rest.avoids c (frame c h);
    same_entries = λ c h. rest.same_entries c (frame c h);
    same_clusters = λ c lt h. rest.same_clusters c lt (frame c h);
    width = rest.width;
    words = rest.words;
    dir = rest.dir;
    after = omega (arith, rest.after);
    inside = rest.inside;
    free = rest.free;
    taken = rest.taken;
    at_head = λ e. absurd (taken e);
  }
    where
      frame :
          (c : ℕ)
          → (c < head) ⊎ (entry_of s.fat_table c ≢ fat_empty_entry)
          → (c < head + 1) ⊎ (entry_of s.fat_table c ≢ fat_empty_entry)
      frame c (inl lt) = inl (omega arith)
      frame c (inr ne) = inr ne

  filled-IsReady :
      (head count size next : ℕ) (s : State Disk)
      → IsReady slot s
      → next < cluster_map_size
      → IsReady slot (filled now r slot head count size (set s.fat_table head next) s)
  filled-IsReady head count size next s ready lt = record {
    width = length-set s.fat_table head next ∙ ready.width;
    words = All-set IsWord s.fat_table head next ready.words (omega arith);
    slot_inside = rw (length-entered now r slot head size s.dir_table) ready.slot_inside;
  }

  -- A round that fills a cluster, with the later rounds as the induction gives them
  filled-Stores :
      (fuel head count size k : ℕ) (s : State Disk) (ready : IsReady slot s)
      → head + suc k ≡ cluster_map_size
      → k < fuel
      → (entry_of s.fat_table head == fat_empty_entry) ≡ true
      → (next : ℕ) → next_empty cluster_map_size s.fat_table (head + 1) ≡ some next
      → IsFirstFree s.fat_table (head + 1) k next
      → ((head count n size k : ℕ) (s : State Disk)
          → IsReady slot s
          → head + k ≡ cluster_map_size
          → k < fuel
          → cluster_rounds size ≡ suc n
          → suc n < free_count s.fat_table head k
          → Stores fuel head count n size s)
      → (n : ℕ) → cluster_rounds size ≡ suc n
      → n < free_count s.fat_table (head + 1) k
      → Stores (suc fuel) head count n size s
  filled-Stores fuel head count size k s ready e le hit next run is again zero sz free =
      let here : head < cluster_map_size = omega arith in
      let there : next < cluster_map_size = omega (arith, is.inside, ready.width) in
      let left = rounds_last size sz in
      (
        head,
        filled now r slot head count size (set (set s.fat_table head next) next fat_end_of_file) s,
        store_file_last now r slot fuel head count size s ready here hit next run there left,
        last-Stored now r slot named head count size s ready here (==→eq _ _ hit) next
            (omega (arith, is.after)) there is.free,
      )
  filled-Stores fuel head count size k s ready e le hit next run is again (suc n) sz free =
      let here : head < cluster_map_size = omega arith in
      let there : next < cluster_map_size = omega (arith, is.inside, ready.width) in
      let later : head < next = omega (arith, is.after) in
      let (rounds, more) = rounds_more size n sz in
      let s₁ = filled now r slot head count size (set s.fat_table head next) s in
      let kept = free_count-set s.fat_table head next next (length s.fat_table - next) later in
      let (first, s', rest_run, rest) =
        again next (count + 1) n (left_after size) (length s.fat_table - next) s₁
          (filled-IsReady head count size next s ready there) (omega (arith, ready.width))
          (omega (arith, ready.width)) rounds (omega (arith, is.count)) in
      let at_next =
        rest.at_head (get_or-set_ne s.fat_table head next next 0 (omega arith) ∙ is.free) in
      (
        head,
        s',
        store_file_more now r slot fuel head count size s ready here hit next run there
              (ne→== _ 0 more)
            ∙ rest_run,
        more-Stored now r slot named head count size s ready here (==→eq _ _ hit) next later there
            is.free n (left_after size) s'
            (subst (λ f. Stored now r slot next (count + 1) n (left_after size) f s₁ s') at_next
              rest),
      )

  pub store_file-Stores :
      (fuel head count n size k : ℕ) (s : State Disk)
      → IsReady slot s
      → head + k ≡ cluster_map_size
      → k < fuel
      → cluster_rounds size ≡ suc n
      → suc n < free_count s.fat_table head k
      → Stores fuel head count n size s
  store_file-Stores zero head count n size k s ready e le sz free = absurd (omega arith)
  store_file-Stores (suc fuel) head count n size zero s ready e le sz free =
      absurd (unfold free_count in omega arith)
  store_file-Stores (suc fuel) head count n size (suc k) s ready e le sz free =
      elim (Bool-cases (entry_of s.fat_table head == fat_empty_entry)) [
        | inr miss ↦
            let (first, s', run, rest) =
              store_file-Stores fuel (head + 1) count n size k s ready (omega arith) (omega arith)
                sz (omega (arith, free_count_miss s.fat_table head k miss)) in
            (
              first,
              s',
              store_file_skip now r slot fuel head count size s ready (omega arith) miss ∙ run,
              skip-Stored head count n size first s s' (==→ne _ _ miss) rest,
            )
        | inl hit ↦
            let one_less = free_count_hit s.fat_table head k hit in
            let (next, run, is) =
              next_empty-IsFirstFree cluster_map_size s.fat_table (head + 1) k (omega arith)
                (omega (arith, ready.width)) (omega arith) in
            filled-Stores fuel head count size k s ready (omega arith) (omega arith) hit next run is
              (store_file-Stores fuel) n sz (omega arith)
      ]
