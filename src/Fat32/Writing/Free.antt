-- ===== src/Fat32/Writing/Free.antt =====
-- Free clusters: how many there are, and that the search finds the first one.
use if2230_2023_ntaraja.Prelude.{
  sym, ℕ, zero, suc, ◌+◌, ◌-◌, ◌≤◌, ◌<◌, ◌≡◌, refl, ◌∙◌, inl, inr, true, false, arith, List, length,
  get_or, set, get_elem?-eq-get_or, get_or-set_ne, ◌==◌, some, Bool-cases, if◌then◌else◌,
}
use if2230_2023_ntaraja.Fat32.{fat_empty_entry}
use if2230_2023_ntaraja.Fat32.Writing.{next_empty}

-- The entry of a cluster, 0 past the end
abbrev pub entry_of : List ℕ → ℕ → ℕ
entry_of fat c = get_or fat c 0

-- How many of the `k` clusters from `c` on are free
unfoldable pub free_count : List ℕ → ℕ → ℕ → ℕ
free_count fat c zero = 0
free_count fat c (suc k) =
    (if entry_of fat c == fat_empty_entry then 1 else 0) + free_count fat (c + 1) k

-- The first free cluster from `head` on
pub record IsFirstFree (fat : List ℕ) (head k : ℕ) (first : ℕ) : Type 0 where
  pub after : head ≤ first
  pub inside : first < length fat
  pub free : entry_of fat first ≡ fat_empty_entry
  pub count : free_count fat first (length fat - first) ≡ free_count fat head k

next_empty_hit :
    (fuel : ℕ) (fat : List ℕ) (head : ℕ)
    → head < length fat
    → (entry_of fat head == fat_empty_entry) ≡ true
    → next_empty (suc fuel) fat head ≡ some head
unfolding next_empty
next_empty_hit fuel fat head lt hit = rw (get_elem?-eq-get_or fat head 0 lt, hit)

next_empty_miss :
    (fuel : ℕ) (fat : List ℕ) (head : ℕ)
    → head < length fat
    → (entry_of fat head == fat_empty_entry) ≡ false
    → next_empty (suc fuel) fat head ≡ next_empty fuel fat (head + 1)
unfolding next_empty
next_empty_miss fuel fat head lt miss = rw (get_elem?-eq-get_or fat head 0 lt, miss)

pub free_count_hit :
    (fat : List ℕ) (head k : ℕ)
    → (entry_of fat head == fat_empty_entry) ≡ true
    → free_count fat head (suc k) ≡ suc (free_count fat (head + 1) k)
unfolding free_count
free_count_hit fat head k hit = rw hit (omega arith)

pub free_count_miss :
    (fat : List ℕ) (head k : ℕ)
    → (entry_of fat head == fat_empty_entry) ≡ false
    → free_count fat head (suc k) ≡ free_count fat (head + 1) k
unfolding free_count
free_count_miss fat head k miss = rw miss (omega arith)

-- With at most `fuel` entries up to the end of the table, one of them free, the inner loop of
-- write returns the first free cluster from `head` on.
pub next_empty-IsFirstFree :
    (fuel : ℕ) (fat : List ℕ) (head k : ℕ)
    → k ≤ fuel
    → head + k ≡ length fat
    → 0 < free_count fat head k
    → (first : ℕ) × (next_empty fuel fat head ≡ some first) × IsFirstFree fat head k first
next_empty-IsFirstFree fuel fat head zero le e pos = absurd (unfold free_count in omega arith)
next_empty-IsFirstFree zero fat head (suc k) le e pos = absurd (omega arith)
next_empty-IsFirstFree (suc fuel) fat head (suc k) le e pos =
    elim (Bool-cases (entry_of fat head == fat_empty_entry)) [
      | inl hit ↦
          let k_left : length fat - head ≡ suc k = omega arith in
          (
            head,
            next_empty_hit fuel fat head (omega arith) hit,
            record {
              after = omega arith;
              inside = omega arith;
              free = ground arith;
              count = rw k_left;
            },
          )
      | inr miss ↦
          let fewer = free_count_miss fat head k miss in
          let (first, run, is) =
            next_empty-IsFirstFree fuel fat (head + 1) k (omega arith) (omega arith)
              (omega arith) in
          (
            first,
            next_empty_miss fuel fat head (omega arith) miss ∙ run,
            record {
              after = omega (arith, is.after);
              inside = is.inside;
              free = is.free;
              count = is.count ∙ sym fewer;
            },
          )
    ]

-- A write in front of the range does not change the count.
pub free_count-set :
    (fat : List ℕ) (i v c k : ℕ) → i < c → free_count (set fat i v) c k ≡ free_count fat c k
unfolding free_count
free_count-set fat i v c zero h = refl
free_count-set fat i v c (suc k) h =
    let same : entry_of (set fat i v) c ≡ entry_of fat c =
      get_or-set_ne fat i c v 0 (omega arith) in
    rw (same, free_count-set fat i v (c + 1) k (omega arith))
