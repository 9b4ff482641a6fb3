-- ===== src/Ata.antt =====
-- src/disk.c: blocks over the disk's ports. The waits are on fuel, for how long the disk is busy is up
-- to the disk: `none` stands for a wait that the fuel does not cover.
pub mod Device
pub mod Addressing
pub mod Transfer
pub mod Storing
use if2230_2023_ntaraja.Prelude.{
  ℕ, zero, suc, ◌+◌, ◌/◌, ◌%◌, ◌^◌, ◌==◌, bit_and, Bool, true, false, List, [], ◌∷◌, ◌++◌, Option,
  none, some, drop,
}
use if2230_2023_ntaraja.Prelude.Opt.{◌>>=◌}
use if2230_2023_ntaraja.Fat32.Layout.{word_16, bytes_16}
use if2230_2023_ntaraja.Ports.{Ports}

abbrev pub ata_io : ℕ
ata_io = 0x1F0

abbrev pub ata_error : ℕ
ata_error = 0x1F1

abbrev pub ata_sector_count : ℕ
ata_sector_count = 0x1F2

abbrev pub ata_lba_low : ℕ
ata_lba_low = 0x1F3

abbrev pub ata_lba_mid : ℕ
ata_lba_mid = 0x1F4

abbrev pub ata_lba_high : ℕ
ata_lba_high = 0x1F5

abbrev pub ata_drive : ℕ
ata_drive = 0x1F6

abbrev pub ata_status : ℕ
ata_status = 0x1F7

abbrev pub status_busy : ℕ
status_busy = 0x80

abbrev pub status_ready : ℕ
status_ready = 0x40

abbrev pub half_block_size : ℕ
half_block_size = 256

-- The bytes that read_blocks and write_blocks send, with their ports. The address's top four bits go
-- into an empty half, so `|` is a sum.
abbrev pub address_commands : ℕ → ℕ → List (ℕ × ℕ)
address_commands lba block_count =
    (ata_sector_count, block_count)
    ∷ (ata_lba_low, lba % 2 ^ 8)
    ∷ (ata_lba_mid, lba / 2 ^ 8 % 2 ^ 8)
    ∷ (ata_lba_high, lba / 2 ^ 16 % 2 ^ 8)
    ∷ []

unfoldable pub read_commands : ℕ → ℕ → List (ℕ × ℕ)
read_commands lba block_count =
    (ata_drive, 0xE0 + lba / 2 ^ 24 % 2 ^ 4) ∷ (ata_error, 0) ∷ address_commands lba block_count
    ++ (ata_status, 0x20) ∷ []

unfoldable pub write_commands : ℕ → ℕ → List (ℕ × ℕ)
write_commands lba block_count =
    (ata_drive, 0xE0 + lba / 2 ^ 24 % 2 ^ 4) ∷ address_commands lba block_count
    ++ (ata_status, 0x30) ∷ []

module _ {Hw : Type 0} ⦃ports : Ports Hw⦄ where
  unfoldable pub send : List (ℕ × ℕ) → Hw → Hw
  send [] h = h
  send ((port, v) ∷ commands) h = send commands (ports.out h port v)

  pub ata_busy_wait : ℕ → Hw → Option Hw
  ata_busy_wait zero h = none
  ata_busy_wait (suc fuel) h =
      let (v, h') = ports.in_byte h ata_status in
      elim (bit_and v status_busy == 0) [ true ↦ some h' | false ↦ ata_busy_wait fuel h' ]

  -- The wait asks for the ready bit.
  pub ata_drq_wait : ℕ → Hw → Option Hw
  ata_drq_wait zero h = none
  ata_drq_wait (suc fuel) h =
      let (v, h') = ports.in_byte h ata_status in
      elim (bit_and v status_ready == 0) [ true ↦ ata_drq_wait fuel h' | false ↦ some h' ]

  -- Words from the data port, low byte first
  pub read_words : ℕ → Hw → List ℕ × Hw
  read_words zero h = ([], h)
  read_words (suc rounds) h =
      let (w, h₁) = ports.in16 h ata_io in
      let (rest, h₂) = read_words rounds h₁ in (bytes_16 w rest, h₂)

  pub read_sectors : ℕ → ℕ → Hw → Option (List ℕ × Hw)
  read_sectors fuel zero h = some ([], h)
  read_sectors fuel (suc rounds) h = do
    h₁ ← ata_busy_wait fuel h
    h₂ ← ata_drq_wait fuel h₁
    let (block, h₃) = read_words half_block_size h₂
    (rest, h₄) ← read_sectors fuel rounds h₃
    some (block ++ rest, h₄)

  -- The bytes that are left at `ptr`
  unfoldable pub ata_read_blocks : ℕ → ℕ → ℕ → Hw → Option (List ℕ × Hw)
  ata_read_blocks fuel lba block_count h = do
    h₁ ← ata_busy_wait fuel h
    read_sectors fuel block_count (send (read_commands lba block_count) h₁)

  pub write_words : ℕ → List ℕ → Hw → Hw
  write_words zero buf h = h
  write_words (suc rounds) buf h =
      write_words rounds (drop 2 buf) (ports.out16 h ata_io (word_16 buf 0))

  pub write_sectors : ℕ → ℕ → List ℕ → Hw → Option Hw
  write_sectors fuel zero buf h = some h
  write_sectors fuel (suc rounds) buf h = do
    h₁ ← ata_busy_wait fuel h
    h₂ ← ata_drq_wait fuel h₁
    write_sectors fuel rounds (drop 512 buf) (write_words half_block_size buf h₂)

  unfoldable pub ata_write_blocks : ℕ → List ℕ → ℕ → ℕ → Hw → Option Hw
  ata_write_blocks fuel buf lba block_count h = do
    h₁ ← ata_busy_wait fuel h
    write_sectors fuel block_count buf (send (write_commands lba block_count) h₁)
