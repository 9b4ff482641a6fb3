-- ===== src/Ata/Storing.antt =====
-- src/disk.c: what write_blocks gives to a disk that follows its documents.
use if2230_2023_ntaraja.Prelude.{[], ◌∷◌, ◌++◌, ℕ, ◌+◌, ◌%◌, ◌^◌, ◌≡◌, ◌≢◌, ◌<◌, List, length}
use if2230_2023_ntaraja.Ports.{Ports}
use if2230_2023_ntaraja.Ata.{ata_status, ata_io}
use if2230_2023_ntaraja.Ata.Device.{IsAta, Operation, writes, operation}

abbrev pub IsWord16 : ℕ → Type 0
IsWord16 w = w < 2 ^ 16

-- The disk while it is written: `current` is the operation that it is in, and `received` the words that
-- it took since the command. Between blocks it may be busy again.
pub record TakesWords {Hw : Type 0} ⦃ports : Ports Hw⦄ (disk : IsAta Hw) : Type 0 where
  pub current : Hw → Operation
  pub received : Hw → List ℕ
  pub start :
      (h : Hw) (lba n : ℕ)
      → disk.busy h ≡ 0
      → operation 0x30 (disk.registers h) ≡ writes lba n
      → (current (ports.out h ata_status 0x30) ≡ writes lba n)
        × (received (ports.out h ata_status 0x30) ≡ [])
  pub poll_keeps :
      (h : Hw)
      → (current (ports.in_byte h ata_status).1 ≡ current h)
        × (received (ports.in_byte h ata_status).1 ≡ received h)
  pub take_word :
      (h : Hw) (w : ℕ)
      → disk.busy h ≡ 0
      → disk.late h ≡ 0
      → (current (ports.out16 h ata_io w) ≡ current h)
        × (received (ports.out16 h ata_io w) ≡ received h ++ w ∷ [])
  pub take_word_ready :
      (h : Hw) (w : ℕ)
      → disk.busy h ≡ 0
      → disk.late h ≡ 0
      → (length (received h) + 1) % 256 ≢ 0
      → (disk.busy (ports.out16 h ata_io w) ≡ 0) × (disk.late (ports.out16 h ata_io w) ≡ 0)

module _ {Hw : Type 0} ⦃ports : Ports Hw⦄ (disk : IsAta Hw) (takes : TakesWords disk) where
  -- A state with the same operation, and `ws` more received
  record Took (ws : List ℕ) (h h' : Hw) : Type 0 where
    same : takes.current h' ≡ takes.current h
    more : takes.received h' ≡ takes.received h ++ ws

  -- What the disk is in and has received
  abbrev view : Hw → Operation × List ℕ
  view h = (takes.current h, takes.received h)

  abbrev polled : Hw → Hw
  polled h = (ports.in_byte h ata_status).1
