-- ===== src/Inserter/Main/Kept.antt =====
-- src/external-inserter.c and src/fat32.c: a file on its way into the kernel.
use if2230_2023_ntaraja.Fat32.RoundTrip.File.{write-Frame}
use if2230_2023_ntaraja.Memory.{load_bytes}
use if2230_2023_ntaraja.Fat32.Writing.Free.{entry_of}
use if2230_2023_ntaraja.Prelude.{
  ◌∙◌, sym, false, ap, ==→eq, ◌≢◌, inr, inl, Bytes, Bool-cases, ◌==◌, ℕ, ltb, length, pos, some,
  ◌≡◌, ◌<◌, ◌≤◌, refl, arith, List, ◌∷◌,
}
use if2230_2023_ntaraja.Prelude.Opt.{Agree-some, some_inj}
use native.Mathlib.Nat.{mod-eq_of_lt}
use if2230_2023_ntaraja.Inserter.{Image}
use if2230_2023_ntaraja.Memory.Load.{load_bytes-eq}
use if2230_2023_ntaraja.Inserter.Device.{image_device}
use if2230_2023_ntaraja.Fat32.{
  boot_sector, fat_empty_entry, DateTime, DirectoryEntry, Request, State,
}
use if2230_2023_ntaraja.Fat32.Reading.{read}
use if2230_2023_ntaraja.Fat32.Writing.{write as clocked_write}
use if2230_2023_ntaraja.Fat32.Volume.{initialize_filesystem_fat32 as clocked_initialize}
use if2230_2023_ntaraja.Fat32.RoundTrip.{CanStore}
use if2230_2023_ntaraja.Fat32.RoundTrip.Restart.{read-initialize_filesystem_fat32}
use if2230_2023_ntaraja.Fat32.NoCmos.{initialize_filesystem_fat32}
use if2230_2023_ntaraja.Fat32.NoCmos.Start.{initialize-formatted}
use if2230_2023_ntaraja.Fat32.NoCmos.Writing.{write}
use if2230_2023_ntaraja.Fat32.NoCmos.Same.Storing.{write-Agree}
use if2230_2023_ntaraja.Fat32.NoCmos.Same.{IsStamped, entry_memory, outcome_of}
use if2230_2023_ntaraja.Inserter.Main.{
  Host, write_success, buffer_of, buffer_bytes, static_state, target_of, request_of, report_of,
  main,
}

-- The whole of a file that fits the buffer
load_bytes-buffer_of :
    (contents : List ℕ)
    → Bytes contents
    → length contents ≤ buffer_bytes
    → load_bytes (buffer_of contents) 0 (length contents) ≡ contents
load_bytes-buffer_of contents b le =
    load_bytes-eq (buffer_of contents) contents 0 (length contents) refl b (λ j lo hi. ground arith)

-- A file is written over the entry on the stack.
stack_entry-IsStamped :
    (now : DateTime) (e : DirectoryEntry) (r : Request)
    → 0 < r.buffer_size
    → IsStamped now e
    → IsStamped now (entry_memory e r)
stack_entry-IsStamped now e r some_bytes st = elim (Bool-cases (r.buffer_size == 0)) [
  | inl none_given ↦
      (let none : r.buffer_size ≡ 0 = ==→eq r.buffer_size 0 none_given in absurd (omega arith))
  | inr some_given ↦ rw (some_given) st
]

-- The state in which the inserter calls write
abbrev pub at_write : List ℕ → List ℕ → State Image
at_write pointer_area bytes =
    initialize_filesystem_fat32 pointer_area (static_state (buffer_of bytes))

-- What the inserter asks of write for a file
abbrev pub insertion : Host → List ℕ → List ℕ → List ℕ → Request
insertion host target index contents =
    request_of (buffer_of contents, length contents) (host.scan_name target)
      (host.scan_number index)

-- A storage file and a file that the inserter can put into it: both are opened, the file fits the
-- buffer, and the volume has room for it and keeps its boot cluster.
pub record CanInsert (host : Host) (pointer_area target index storage bytes contents : List ℕ)
    (slot : ℕ) : Type 0 where
  pub storage_opened : host.open_file storage ≡ some bytes
  pub target_opened : host.open_file target ≡ some contents
  pub bytes_fit : Bytes contents
  pub size_fits : length contents ≤ buffer_bytes
  pub stores : CanStore (insertion host target index contents) slot (at_write pointer_area bytes)
  pub boot_taken : entry_of (at_write pointer_area bytes).fat_table boot_sector ≢ fat_empty_entry
  pub boot_apart : boot_sector ≢ host.scan_number index

-- Enough arguments
enough :
    (program target index storage : List ℕ) (rest : List (List ℕ))
    → ltb (length (program ∷ target ∷ index ∷ storage ∷ rest)) 4 ≡ false
enough program target index storage rest = ground arith

-- The write on the inserter's side, from the write on the kernel's
stored_alike :
    (now : DateTime) (e : DirectoryEntry) (r : Request) (s s₁ : State Image)
    → IsStamped now (entry_memory e r)
    → clocked_write now r s ≡ some (pos 0, s₁)
    → (s₂ : State Image) × (write e r s ≡ some (pos 0, s₂)) × (s₂.disk ≡ s₁.disk)
unfolding outcome_of
stored_alike now e r s s₁ st run =
    let ((code, s₂), ran, same) =
      Agree-some outcome_of (write e r s) (clocked_write now r s) (pos 0, s₁)
        (write-Agree now e r s st) run in
    (s₂, ran ∙ ap (λ c. some (c, s₂)) (ap (λ p. p.0) same), ap (λ p. p.1.0) same)

-- A run whose write returns 0
main_success :
    (host : Host) (pointer_area : List ℕ) (e : DirectoryEntry)
    (program target index storage bytes contents : List ℕ) (rest : List (List ℕ)) (s' : State Image)
    → host.open_file storage ≡ some bytes
    → host.open_file target ≡ some contents
    → write e (insertion host target index contents) (at_write pointer_area bytes)
      ≡ some (pos 0, s')
    → main host pointer_area e (program ∷ target ∷ index ∷ storage ∷ rest)
      ≡ some (record { report = write_success; status = 0; storage = some s'.disk })
unfolding main report_of target_of
main_success host pointer_area e program target index storage bytes contents rest s' opened found
      run =
    rw (enough program target index storage rest, opened, found, run) refl

module _ (host : Host) (pointer_area target index storage bytes contents : List ℕ) (slot : ℕ)
    (can : CanInsert host pointer_area target index storage bytes contents slot) where
  -- What a kernel on the disk of the write reads
  kernel_reads :
      (now : DateTime) (kernel : State Image) (later : DateTime) (area stack : List ℕ)
      (s₁ : State Image)
      → clocked_write now (insertion host target index contents) (at_write pointer_area bytes)
        ≡ some (pos 0, s₁)
      → kernel.disk ≡ s₁.disk
      → (s' : State Image) × (read stack
            (insertion host target index contents)
            (clocked_initialize later area kernel)
          ≡ some (record { code = pos 0; output = some contents }, s'))
  kernel_reads now kernel later area stack s₁ run on_disk =
      let r = insertion host target index contents in
      let s = at_write pointer_area bytes in
      let (s₂, s'', run₂, got) =
        read-initialize_filesystem_fat32 now r slot s can.stores later area kernel.fat_table
          kernel.cluster_buf stack kernel.dir_table can.boot_taken can.boot_apart
          (initialize-formatted pointer_area (static_state (buffer_of bytes))) in
      let alike : s₁ ≡ s₂ = ap (λ p. p.1) (some_inj (sym run ∙ run₂)) in
      let here : kernel.disk ≡ s₂.disk = on_disk ∙ ap (λ (t : State Image). t.disk) alike in
      let whole : load_bytes r.buf 0 r.buffer_size ≡ contents =
        ap (load_bytes r.buf 0) (mod-eq_of_lt (omega (arith, can.size_fits)))
        ∙ load_bytes-buffer_of contents can.bytes_fit can.size_fits in
      (
        s'',
        ap (λ d. read stack r (clocked_initialize later area (record kernel { disk = d }))) here
            ∙ got
            ∙ ap (λ o. some (record { code = pos 0; output = some o }, s'')) whole,
      )

  -- The inserter, run with a file of bytes that fits its buffer, a storage file that can be
  -- opened and a volume with room for the file under the scanned name in the scanned directory,
  -- whose boot cluster is in use and not that directory, reports success and writes out an
  -- image; a kernel that starts on that image, whatever its tables and its buffer held, then
  -- reads the whole file back under that name. The entry's memory on the inserter's stack must
  -- hold the five stamps of some time.
  pub main-read :
      (now : DateTime) (e : DirectoryEntry) (program : List ℕ) (rest : List (List ℕ))
      → IsStamped now e
      → (image : Image) × (main host pointer_area e (program ∷ target ∷ index ∷ storage ∷ rest)
          ≡ some (record { report = write_success; status = 0; storage = some image }))
        × ((kernel : State Image) (later : DateTime) (area stack : List ℕ)
            → kernel.disk ≡ image
            → (s' : State Image) × (read stack
                  (insertion host target index contents)
                  (clocked_initialize later area kernel)
                ≡ some (record { code = pos 0; output = some contents }, s')))
  main-read now e program rest st =
      let r = insertion host target index contents in
      let s = at_write pointer_area bytes in
      let (s₁, run₁, frame) = write-Frame now r slot s can.stores in
      let stamped = stack_entry-IsStamped now e r can.stores.some_bytes st in
      let (s₂, run₂, disk₂) = stored_alike now e r s s₁ stamped run₁ in
      (
        s₂.disk,
        main_success host pointer_area e program target index storage bytes contents rest s₂
            can.storage_opened can.target_opened run₂,
        λ kernel later area stack on_image.
            kernel_reads now kernel later area stack s₁ run₁ (on_image ∙ disk₂),
      )
