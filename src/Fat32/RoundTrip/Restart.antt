-- ===== src/Fat32/RoundTrip/Restart.antt =====
-- src/fat32.c: the files of a disk on which the driver starts again.
use if2230_2023_ntaraja.Prelude.Opt.{some_inj}
use if2230_2023_ntaraja.Prelude.{sym, ap, refl, ℕ, ◌≡◌, ◌≢◌, ◌∙◌, List, some, pos, false, arith}
use if2230_2023_ntaraja.Memory.{load_bytes}
use if2230_2023_ntaraja.Disk.{BlockDevice, read_clusters}
use if2230_2023_ntaraja.Fat32.{
  State, Request, DateTime, DirectoryEntry, fat_empty_entry, boot_sector,
}
use if2230_2023_ntaraja.Fat32.Layout.{decode_fat}
use if2230_2023_ntaraja.Fat32.Volume.{
  zero_cluster, is_empty_storage, initialize_filesystem_fat32, read_to_fat_table, read_to_dir_table,
}
use if2230_2023_ntaraja.Fat32.Reading.{read}
use if2230_2023_ntaraja.Fat32.Writing.{write}
use if2230_2023_ntaraja.Fat32.Writing.Free.{entry_of}
use if2230_2023_ntaraja.Fat32.RoundTrip.{CanStore}
use if2230_2023_ntaraja.Fat32.RoundTrip.File.{read-write, write-Frame}

module _ {Disk : Type 0} ⦃device : BlockDevice Disk⦄ where
  -- A driver with the disk of `s` and other caches
  abbrev pub rebooted : State Disk → List ℕ → List DirectoryEntry → List ℕ → State Disk
  rebooted s fat dir buf = record s { fat_table = fat; dir_table = dir; cluster_buf = buf }

  -- read depends on the disk and the allocation table alone.
  read_caches :
      (stack : List ℕ) (r : Request) (s : State Disk) (dir : List DirectoryEntry) (buf : List ℕ)
      → read stack r (rebooted s s.fat_table dir buf) ≡ read stack r s
  unfolding read read_to_dir_table
  read_caches stack r s dir buf = refl

  -- Whether the signature is missing depends on the boot sector's cluster alone.
  signature-congr :
      (s s' : State Disk)
      → read_clusters s'.disk boot_sector 1 ≡ read_clusters s.disk boot_sector 1
      → (is_empty_storage s').0 ≡ (is_empty_storage s).0
  unfolding is_empty_storage
  signature-congr s s' e = rw e refl

  -- Starting on a disk with the signature loads the allocation table.
  start_lem :
      (now : DateTime) (pointer_area : List ℕ) (s : State Disk)
      → (is_empty_storage s).0 ≡ false
      → initialize_filesystem_fat32 now pointer_area s
        ≡ rebooted s (decode_fat 512 (read_clusters s.disk 1 1)) s.dir_table zero_cluster
  unfolding initialize_filesystem_fat32 read_to_fat_table is_empty_storage
  start_lem now pointer_area s formatted = rw formatted refl

  module _ (now : DateTime) (r : Request) (slot : ℕ) (s : State Disk)
      (can : CanStore r slot s) where
    -- On a disk with the signature, whose boot cluster is in use and not the parent directory,
    -- a file that write stored is read back whole after the driver has started again on the
    -- same disk, whatever its tables and its buffer held before.
    pub read-initialize_filesystem_fat32 :
        (later : DateTime) (pointer_area fat buf stack : List ℕ) (dir : List DirectoryEntry)
        → entry_of s.fat_table boot_sector ≢ fat_empty_entry
        → boot_sector ≢ r.parent_cluster_number
        → (is_empty_storage s).0 ≡ false
        → (s' : State Disk) × (s'' : State Disk) × (write now r s ≡ some (pos 0, s'))
          × (read stack r (initialize_filesystem_fat32 later pointer_area (rebooted s' fat dir buf))
              ≡ some
                  (record { code = pos 0; output = some (load_bytes r.buf 0 r.buffer_size) }, s''))
    read-initialize_filesystem_fat32 later pointer_area fat buf stack dir used apart formatted =
        let (s₁, run, back) = read-write now r slot s can in
        let (s₂, run', frame) = write-Frame now r slot s can in
        let same : s₂ ≡ s₁ = ap (λ p. p.1) (some_inj (sym run' ∙ run)) in
        let (s'', got) = back stack in
        let kept = frame.clusters boot_sector (omega arith) (λ e. omega arith) apart used in
        let still : (is_empty_storage (rebooted s₂ fat dir buf)).0 ≡ false =
          signature-congr s (rebooted s₂ fat dir buf) kept ∙ formatted in
        (
          s₂,
          s'',
          run',
          ap (read stack r) (start_lem later pointer_area (rebooted s₂ fat dir buf) still)
              ∙ ap (λ f. read stack r (rebooted s₂ f dir zero_cluster)) frame.table_on_disk
              ∙ read_caches stack r s₂ dir zero_cluster
              ∙ ap (read stack r) same
              ∙ got,
        )
