-- ===== src/Ata/Device.antt =====
-- The disk behind src/disk.c's ports, as the ATA documents describe it: its registers, what a command in
-- the status port starts, and the status bits that its polls show.
use if2230_2023_ntaraja.Prelude.{
  ℕ, zero, suc, ◌+◌, ◌-◌, ◌*◌, ◌/◌, ◌%◌, ◌^◌, ◌==◌, ◌≤◌, ◌≡◌, ◌≢◌, ◌&&◌, not, bit_and, List, [],
  ◌∷◌, ◌++◌, length, if◌then◌else◌,
}
use if2230_2023_ntaraja.Ports.{Ports}
use if2230_2023_ntaraja.Ata.{
  ata_io, ata_error, ata_sector_count, ata_lba_low, ata_lba_mid, ata_lba_high, ata_drive,
  ata_status, status_busy, status_ready,
}

-- The registers that a command reads
pub data TaskRegister : Type 0 where
  sector_count : TaskRegister
  lba_low : TaskRegister
  lba_mid : TaskRegister
  lba_high : TaskRegister
  drive_select : TaskRegister

abbrev pub port_of : TaskRegister → ℕ
port_of sector_count = ata_sector_count
port_of lba_low = ata_lba_low
port_of lba_mid = ata_lba_mid
port_of lba_high = ata_lba_high
port_of drive_select = ata_drive

pub record Registers : Type 0 where
  pub count : ℕ
  pub low : ℕ
  pub mid : ℕ
  pub high : ℕ
  pub drive : ℕ

-- A byte into a register
abbrev pub store : TaskRegister → ℕ → Registers → Registers
store sector_count v g = record g { count = v % 2 ^ 8 }
store lba_low v g = record g { low = v % 2 ^ 8 }
store lba_mid v g = record g { mid = v % 2 ^ 8 }
store lba_high v g = record g { high = v % 2 ^ 8 }
store drive_select v g = record g { drive = v % 2 ^ 8 }

-- What a command starts: a transfer of blocks from an address on, or anything else
pub data Operation : Type 0 where
  reads : ℕ → ℕ → Operation
  writes : ℕ → ℕ → Operation
  other : Operation

abbrev pub address : Registers → ℕ
address g = g.low + g.mid * 2 ^ 8 + g.high * 2 ^ 16 + g.drive % 2 ^ 4 * 2 ^ 24

-- No count stands for 256 blocks.
abbrev pub blocks : Registers → ℕ
blocks g = if g.count == 0 then 256 else g.count

-- The registers hold a block's number only with the drive register's LBA bit, bit 6, and the first
-- drive is the one with bit 4 clear.
abbrev pub operation : ℕ → Registers → Operation
operation v g =
    if (g.drive / 2 ^ 6 % 2 == 1) && (g.drive / 2 ^ 4 % 2 == 0)
    then (if v == 0x20
        then reads (address g) (blocks g)
        else if v == 0x30
        then writes (address g) (blocks g)
        else other)
    else other

-- The words of `n` blocks from `lba` on
abbrev pub sectors : (ℕ → List ℕ) → ℕ → ℕ → List ℕ
sectors medium lba zero = []
sectors medium lba (suc n) = medium lba ++ sectors medium (lba + 1) n

-- A disk that follows the documents while it is read. `busy` is for how many polls of the status it is
-- still busy, `late` for how many it is then not ready, both within `patience`; `queue` is the words
-- that it has to hand over. A busy disk takes no bytes, and hands over no words.
pub record IsAta (Hw : Type 0) ⦃ports : Ports Hw⦄ : Type 0 where
  pub registers : Hw → Registers
  pub medium : Hw → ℕ → List ℕ
  pub queue : Hw → List ℕ
  pub busy : Hw → ℕ
  pub late : Hw → ℕ
  pub patience : ℕ
  pub width : (h : Hw) (lba : ℕ) → length (medium h lba) ≡ 256
  pub busy_bound : (h : Hw) → busy h ≤ patience
  pub late_bound : (h : Hw) → late h ≤ patience
  pub take_byte :
      (h : Hw) (r : TaskRegister) (v : ℕ)
      → busy h ≡ 0
      → (registers (ports.out h (port_of r) v) ≡ store r v (registers h))
        × (medium (ports.out h (port_of r) v) ≡ medium h)
        × (busy (ports.out h (port_of r) v) ≡ 0)
  pub take_feature :
      (h : Hw) (v : ℕ)
      → busy h ≡ 0
      → (registers (ports.out h ata_error v) ≡ registers h)
        × (medium (ports.out h ata_error v) ≡ medium h)
        × (busy (ports.out h ata_error v) ≡ 0)
  pub start :
      (h : Hw) (lba n : ℕ)
      → busy h ≡ 0
      → operation 0x20 (registers h) ≡ reads lba n
      → queue (ports.out h ata_status 0x20) ≡ sectors (medium h) lba n
  pub busy_bit :
      (h : Hw) → (bit_and (ports.in_byte h ata_status).0 status_busy == 0) ≡ (busy h == 0)
  pub ready_bit :
      (h : Hw)
      → busy h ≡ 0
      → (bit_and (ports.in_byte h ata_status).0 status_ready == 0) ≡ not (late h == 0)
  pub poll_keeps :
      (h : Hw)
      → (medium (ports.in_byte h ata_status).1 ≡ medium h)
        × (queue (ports.in_byte h ata_status).1 ≡ queue h)
  pub poll_busy : (h : Hw) → busy (ports.in_byte h ata_status).1 ≡ busy h - 1
  pub poll_late : (h : Hw) → busy h ≡ 0 → late (ports.in_byte h ata_status).1 ≡ late h - 1
  pub hand_over :
      (h : Hw) (w : ℕ) (rest : List ℕ)
      → busy h ≡ 0
      → late h ≡ 0
      → queue h ≡ w ∷ rest
      → ((ports.in16 h ata_io).0 ≡ w) × (queue (ports.in16 h ata_io).1 ≡ rest)
  -- Between blocks the disk may be busy again.
  pub hand_over_ready :
      (h : Hw) (w : ℕ) (rest : List ℕ)
      → busy h ≡ 0
      → late h ≡ 0
      → queue h ≡ w ∷ rest
      → length rest % 256 ≢ 0
      → (busy (ports.in16 h ata_io).1 ≡ 0) × (late (ports.in16 h ata_io).1 ≡ 0)
