-- ===== src/Fat32/Writing/Chain.antt =====
-- The file loop of write stores the whole buffer where enough clusters are free.
use if2230_2023_ntaraja.Memory.{load_bytes}
use if2230_2023_ntaraja.Memory.Load.{load_bytes-Bytes, length-load_bytes}
use if2230_2023_ntaraja.Disk.Clusters.{read-write_clusters_other, read-write_clusters_self}
use if2230_2023_ntaraja.Fat32.Layout.RoundTrip.{IsWord}
use if2230_2023_ntaraja.Fat32.Writing.Loop.{filled}
use if2230_2023_ntaraja.Fat32.Directory.{same_bytes}
use if2230_2023_ntaraja.Fat32.Writing.Free.{entry_of}
use if2230_2023_ntaraja.Fat32.{
  fat_end_of_file, cluster_map_size, State, fat_empty_entry, empty_name, Request, DateTime,
}
use if2230_2023_ntaraja.Disk.{cluster_size, read_clusters, BlockDevice}
use if2230_2023_ntaraja.Prelude.{
  sym, refl, inr, ap, ◌*◌, get_or-set_self, All-set, ◌∙◌, inl, length-set, suc, arith, ◌+◌, set,
  get_or-set_ne, length, All, ◌≢◌, ◌⊎◌, ◌<◌, false, ◌≡◌, ◌≤◌, ℕ, List,
}
use if2230_2023_ntaraja.Fat32.Writing.Store.{entered_again, Stored, IsReady}

-- A free cluster is none of those that the frame speaks of.
free_apart :
    (fat : List ℕ) (head f c : ℕ)
    → head ≤ f
    → entry_of fat f ≡ fat_empty_entry
    → (c < head) ⊎ (entry_of fat c ≢ fat_empty_entry)
    → f ≢ c
free_apart fat head f c le free (inl lt) e = absurd (omega arith)
free_apart fat head f c le free (inr ne) e = ne (ap (entry_of fat) (sym e) ∙ free)

module _ {Disk : Type 0} ⦃device : BlockDevice Disk⦄ (now : DateTime) (r : Request) (slot : ℕ)
    (named : same_bytes r.name empty_name 8 ≡ false) (head count size : ℕ) (s : State Disk)
    (ready : IsReady slot s) (head_inside : head < cluster_map_size)
    (free : entry_of s.fat_table head ≡ fat_empty_entry) (next : ℕ) (later : head < next)
    (next_inside : next < cluster_map_size)
    (next_free : entry_of s.fat_table next ≡ fat_empty_entry) where
  in_table : head < length s.fat_table
  in_table = omega (arith, ready.width)

  abbrev linked : List ℕ
  linked = set s.fat_table head next

  abbrev closed : List ℕ
  closed = set linked next fat_end_of_file

  next_in_linked : next < length linked
  next_in_linked = omega (arith, ready.width, length-set s.fat_table head next)

  head_apart : (c : ℕ) → (c < head) ⊎ (entry_of s.fat_table c ≢ fat_empty_entry) → head ≢ c
  head_apart c h = free_apart s.fat_table head head c (omega arith) free h

  same_in_linked :
      (c : ℕ)
      → (c < head) ⊎ (entry_of s.fat_table c ≢ fat_empty_entry)
      → entry_of linked c ≡ entry_of s.fat_table c
  same_in_linked c h = get_or-set_ne s.fat_table head c next 0 (head_apart c h)

  linked-width : length linked ≡ cluster_map_size
  linked-width = length-set s.fat_table head next ∙ ready.width

  linked-words : All IsWord linked
  linked-words = All-set IsWord s.fat_table head next ready.words (omega arith)

  head_in_closed : entry_of closed head ≡ next
  head_in_closed =
      get_or-set_ne linked next head fat_end_of_file 0 (omega arith)
      ∙ get_or-set_self s.fat_table head next 0 in_table

  pub last-Stored :
      Stored now r slot head count 0 size head s (filled now r slot head count size closed s)
  last-Stored = record {
    chain = (
      head_inside,
      rw head_in_closed (omega arith),
      read-write_clusters_self s.disk _ head (length-load_bytes r.buf _ cluster_size)
          (load_bytes-Bytes r.buf _ cluster_size),
      rw head_in_closed (next_inside, get_or-set_self linked next fat_end_of_file 0 next_in_linked),
    );
    avoids = λ c h. (head_apart c h, tt);
    same_entries = λ c h.
        get_or-set_ne linked next c fat_end_of_file 0
          (free_apart s.fat_table head next c (omega arith) next_free h)
        ∙ same_in_linked c h;
    same_clusters = λ c lt h.
        read-write_clusters_other s.disk _ head c (omega arith) (omega arith) (head_apart c h);
    width = length-set linked next fat_end_of_file ∙ linked-width;
    words = All-set IsWord linked next fat_end_of_file linked-words (omega arith);
    dir = refl;
    after = omega arith;
    inside = head_inside;
    free = free;
    taken = rw head_in_closed (omega arith);
    at_head = λ e. refl;
  }

  pub more-Stored :
      (n left : ℕ) (s' : State Disk)
      → Stored now r slot next
          (count + 1)
          n
          left
          next
          (filled now r slot head count size linked s)
          s'
      → Stored now r slot head count (suc n) size head s s'
  more-Stored n left s' rest = record {
    chain = (head_inside, rw head_to_next (omega arith), head_kept, rw head_to_next rest.chain);
    avoids = λ c h. (head_apart c h, rw head_to_next (rest.avoids c (frame c h)));
    same_entries = λ c h. rest.same_entries c (frame c h) ∙ same_in_linked c h;
    same_clusters = λ c lt h.
        rest.same_clusters c lt (frame c h)
        ∙ read-write_clusters_other s.disk _ head c (omega arith) (omega arith) (head_apart c h);
    width = rest.width;
    words = rest.words;
    dir =
        rest.dir ∙ entered_again now r slot head size next left s.dir_table ready.slot_inside named;
    after = omega arith;
    inside = head_inside;
    free = free;
    taken = rw head_to_next (omega arith);
    at_head = λ e. refl;
  }
    where
      head_to_next : entry_of s'.fat_table head ≡ next
      head_to_next =
          rest.same_entries head (inl later) ∙ get_or-set_self s.fat_table head next 0 in_table

      head_kept :
          read_clusters s'.disk head 1 ≡ load_bytes r.buf (count * cluster_size) cluster_size
      head_kept =
          rest.same_clusters head head_inside (inl later)
          ∙ read-write_clusters_self s.disk _ head (length-load_bytes r.buf _ cluster_size)
              (load_bytes-Bytes r.buf _ cluster_size)

      frame :
          (c : ℕ)
          → (c < head) ⊎ (entry_of s.fat_table c ≢ fat_empty_entry)
          → (c < next) ⊎ (entry_of linked c ≢ fat_empty_entry)
      frame c (inl lt) = inl (omega arith)
      frame c (inr ne) = inr (λ e. ne (sym (same_in_linked c (inr ne)) ∙ e))
