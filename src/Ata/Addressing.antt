-- ===== src/Ata/Addressing.antt =====
-- src/disk.c: the operation that the commands start.
use if2230_2023_ntaraja.Prelude.{
  refl, ap, ℕ, ◌+◌, ◌/◌, ◌%◌, ◌^◌, ◌==◌, ◌<◌, ◌≡◌, ◌&&◌, true, List, [], ◌∷◌, if◌then◌else◌, arith,
}
use if2230_2023_ntaraja.Ata.{
  read_commands, write_commands, ata_lba_low, ata_lba_mid, ata_lba_high, ata_drive,
  ata_sector_count, ata_status,
}
use if2230_2023_ntaraja.Ata.Device.{
  sector_count, lba_low, lba_mid, lba_high, drive_select, Registers, store, Operation, reads,
  writes, address, blocks, operation,
}

-- The registers after a byte to a port
abbrev pub after_byte : ℕ → ℕ → Registers → Registers
after_byte port v g =
    if port == ata_sector_count
    then store sector_count v g
    else if port == ata_lba_low
    then store lba_low v g
    else if port == ata_lba_mid
    then store lba_mid v g
    else if port == ata_lba_high
    then store lba_high v g
    else if port == ata_drive
    then store drive_select v g
    else g

-- The operations that the bytes start, each with the registers as they are when its command arrives
abbrev pub issued : List (ℕ × ℕ) → Registers → List Operation
issued [] g = []
issued ((port, v) ∷ commands) g =
    let rest = issued commands (after_byte port v g) in
    if port == ata_status then operation v g ∷ rest else rest

-- The registers after the bytes of an address
abbrev pub addressed : ℕ → ℕ → Registers
addressed lba n = record {
  count = n % 2 ^ 8;
  low = lba % 2 ^ 8 % 2 ^ 8;
  mid = lba / 2 ^ 8 % 2 ^ 8 % 2 ^ 8;
  high = lba / 2 ^ 16 % 2 ^ 8 % 2 ^ 8;
  drive = (0xE0 + lba / 2 ^ 24 % 2 ^ 4) % 2 ^ 8;
}

addressed-address : (lba n : ℕ) → lba < 2 ^ 28 → address (addressed lba n) ≡ lba
addressed-address lba n lt = omega arith

addressed-blocks : (lba n : ℕ) → 0 < n → n < 256 → blocks (addressed lba n) ≡ n
addressed-blocks lba n some_blocks lt = ground arith

drive_bits :
    (lba n : ℕ)
    → (((addressed lba n).drive / 2 ^ 6 % 2 == 1) && ((addressed lba n).drive / 2 ^ 4 % 2 == 0))
      ≡ true
drive_bits lba n = ground arith

pub operation-reads :
    (lba n : ℕ) → lba < 2 ^ 28 → 0 < n → n < 256 → operation 0x20 (addressed lba n) ≡ reads lba n
operation-reads lba n lt some_blocks few =
    rw (drive_bits lba n, addressed-address lba n lt, addressed-blocks lba n some_blocks few) refl

pub operation-writes :
    (lba n : ℕ) → lba < 2 ^ 28 → 0 < n → n < 256 → operation 0x30 (addressed lba n) ≡ writes lba n
operation-writes lba n lt some_blocks few =
    rw (drive_bits lba n, addressed-address lba n lt, addressed-blocks lba n some_blocks few) refl

-- Whatever the disk's registers hold, the bytes that read_blocks and write_blocks send start
-- exactly one operation, a read or a write of the blocks from the address on, if the address
-- has 28 bits and the number of blocks is from 1 to 255.
pub commands-issued :
    (lba block_count : ℕ) (g : Registers)
    → lba < 2 ^ 28
    → 0 < block_count
    → block_count < 256
    → (issued (read_commands lba block_count) g ≡ reads lba block_count ∷ [])
      × (issued (write_commands lba block_count) g ≡ writes lba block_count ∷ [])
unfolding read_commands write_commands
commands-issued lba block_count g lt some_blocks few = (
  ap (λ o. o ∷ []) (operation-reads lba block_count lt some_blocks few),
  ap (λ o. o ∷ []) (operation-writes lba block_count lt some_blocks few),
)
