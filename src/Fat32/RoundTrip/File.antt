-- ===== src/Fat32/RoundTrip/File.antt =====
-- Writing a file, and what may be read afterwards.
use if2230_2023_ntaraja.Fat32.Layout.RoundTrip.{
  decode-encode_fat, encode_fat-Bytes, length-encode_fat,
}
use if2230_2023_ntaraja.Disk.Clusters.{read-write_clusters_self, read-write_clusters_other}
use if2230_2023_ntaraja.Fat32.RoundTrip.Reads.{read-final, reading}
use if2230_2023_ntaraja.Memory.{load_bytes}
use if2230_2023_ntaraja.Fat32.Layout.{decode_fat, encode_dir, encode_fat}
use if2230_2023_ntaraja.Fat32.Reading.{read}
use if2230_2023_ntaraja.Fat32.Writing.Free.{entry_of}
use if2230_2023_ntaraja.Fat32.Writing.{mark_not_empty, write}
use if2230_2023_ntaraja.Fat32.Volume.{flush}
use if2230_2023_ntaraja.Fat32.{
  fat_cluster_number, cluster_map_size, fat_empty_entry, State, Request, DateTime,
}
use if2230_2023_ntaraja.Disk.{read_clusters, write_clusters, BlockDevice}
use if2230_2023_ntaraja.Prelude.{◌≢◌, ◌≡◌, ◌∙◌, ℕ, sym, subst, some, pos, inr, arith, ap, List, ◌<◌}
use if2230_2023_ntaraja.Fat32.RoundTrip.{CanStore, IsVolume}
use if2230_2023_ntaraja.Fat32.RoundTrip.Writes.{write-Stored, final}

module _ {Disk : Type 0} ⦃device : BlockDevice Disk⦄ (now : DateTime) (r : Request) (slot : ℕ)
    (s : State Disk) (can : CanStore r slot s) where
  -- write of a named file that is not empty, from a request whose fields fit their widths, into
  -- a directory whose cluster is in use and not the allocation table's own, which has a plain
  -- free slot and no entry of that name, where the volume has one free cluster more than the
  -- file fills, returns 0, and a read of the same name with the same size then returns 0 and
  -- the bytes that were written, whatever the stack held.
  pub read-write :
      (s' : State Disk) × (write now r s ≡ some (pos 0, s'))
      × ((stack : List ℕ)
          → (s'' : State Disk) × (read stack r s'
              ≡ some
                  (record { code = pos 0; output = some (load_bytes r.buf 0 r.buffer_size) }, s'')))
  read-write =
      let (first, s₂, run, st) = write-Stored now r slot s can in
      (
        final now r slot s can s₂,
        run,
        λ stack.
            (reading now r slot s can first s₂ st, read-final now r slot s can first s₂ st stack),
      )

  -- What a write leaves alone, and what it keeps up
  pub record Frame (s' : State Disk) : Type 0 where
    pub volume : IsVolume s'
    pub entries :
        (c : ℕ)
        → entry_of s.fat_table c ≢ fat_empty_entry
        → entry_of s'.fat_table c ≡ entry_of s.fat_table c
    pub clusters :
        (c : ℕ)
        → c < cluster_map_size
        → c ≢ fat_cluster_number
        → c ≢ r.parent_cluster_number
        → entry_of s.fat_table c ≢ fat_empty_entry
        → read_clusters s'.disk c 1 ≡ read_clusters s.disk c 1
    pub table_on_disk : decode_fat 512 (read_clusters s'.disk fat_cluster_number 1) ≡ s'.fat_table

  pub write-Frame : (s' : State Disk) × (write now r s ≡ some (pos 0, s')) × Frame s'
  unfolding flush
  write-Frame =
      let (first, s₂, run, st) = write-Stored now r slot s can in
      let p = r.parent_cluster_number in
      let fat_buf = encode_fat s₂.fat_table in
      let disk₁ = write_clusters s₂.disk fat_buf fat_cluster_number 1 in
      let dir_buf = encode_dir (mark_not_empty p s₂.dir_table) in
      (
        final now r slot s can s₂,
        run,
        record {
          volume = record { width = st.width; words = st.words };
          entries = λ c used. st.same_entries c (inr used);
          clusters = λ c lt not_fat not_parent used.
              read-write_clusters_other disk₁ dir_buf p c (omega (arith, can.parent_inside))
                (omega arith) (λ e. not_parent (sym e))
              ∙ read-write_clusters_other s₂.disk fat_buf fat_cluster_number c (omega arith)
                  (omega arith) (λ e. not_fat (sym e))
              ∙ st.same_clusters c lt (inr used);
          table_on_disk =
              ap (decode_fat 512) (
                read-write_clusters_other disk₁ dir_buf p fat_cluster_number
                  (omega (arith, can.parent_inside)) (omega arith) can.parent_not_fat
                ∙ read-write_clusters_self s₂.disk fat_buf fat_cluster_number
                    (length-encode_fat s₂.fat_table ∙ omega (arith, st.width))
                    (encode_fat-Bytes s₂.fat_table))
              ∙ subst (λ n. decode_fat n fat_buf ≡ s₂.fat_table) st.width
                  (decode-encode_fat s₂.fat_table st.words);
        },
      )

  -- write of a file that its parent directory and the volume can store, under the conditions of
  -- read-write, returns 0, and an entry of the allocation table that was in use is as it was.
  pub write-entry_of :
      (c : ℕ)
      → entry_of s.fat_table c ≢ fat_empty_entry
      → (s' : State Disk) × (write now r s ≡ some (pos 0, s'))
        × (entry_of s'.fat_table c ≡ entry_of s.fat_table c)
  write-entry_of c used = let (s', run, frame) = write-Frame in (s', run, frame.entries c used)

  -- write of a file that its parent directory and the volume can store, under the conditions of
  -- read-write, returns 0, and a cluster of the table that was in use reads as before, unless
  -- it is the allocation table's own or the parent directory's.
  pub write-read_clusters :
      (c : ℕ)
      → c < cluster_map_size
      → c ≢ fat_cluster_number
      → c ≢ r.parent_cluster_number
      → entry_of s.fat_table c ≢ fat_empty_entry
      → (s' : State Disk) × (write now r s ≡ some (pos 0, s'))
        × (read_clusters s'.disk c 1 ≡ read_clusters s.disk c 1)
  write-read_clusters c lt not_fat not_parent used =
      let (s', run, frame) = write-Frame in (s', run, frame.clusters c lt not_fat not_parent used)

  -- write of a file that its parent directory and the volume can store, under the conditions of
  -- read-write, returns 0 and leaves a table of 512 32-bit entries, and the disk then holds
  -- that table in cluster 1.
  pub write-IsVolume :
      (s' : State Disk) × (write now r s ≡ some (pos 0, s'))
      × IsVolume s'
      × (decode_fat 512 (read_clusters s'.disk fat_cluster_number 1) ≡ s'.fat_table)
  write-IsVolume =
      let (s', run, frame) = write-Frame in (s', run, frame.volume, frame.table_on_disk)
