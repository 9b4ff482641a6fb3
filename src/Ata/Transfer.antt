-- ===== src/Ata/Transfer.antt =====
-- src/disk.c: what read_blocks takes from a disk that follows its documents.
use if2230_2023_ntaraja.Prelude.{
  inr, inl, ap, ◌∙◌, refl, [], ◌∷◌, ◌++◌, ℕ, zero, suc, ◌==◌, ◌≡◌, ◌≢◌, ◌<◌, not, Bool-cases, List,
  some, arith, ==→eq, ==→ne,
}
use if2230_2023_ntaraja.Ports.{Ports}
use if2230_2023_ntaraja.Fat32.Layout.{bytes_16}
use if2230_2023_ntaraja.Ata.{ata_status, ata_busy_wait, ata_drq_wait}
use if2230_2023_ntaraja.Ata.Device.{IsAta}

-- Words in memory, low byte first
abbrev pub word_bytes : List ℕ → List ℕ
word_bytes [] = []
word_bytes (w ∷ ws) = bytes_16 w (word_bytes ws)

pub word_bytes-append : (ws vs : List ℕ) → word_bytes (ws ++ vs) ≡ word_bytes ws ++ word_bytes vs
word_bytes-append [] vs = refl
word_bytes-append (w ∷ ws) vs = ap (bytes_16 w) (word_bytes-append ws vs)

module _ {Hw : Type 0} ⦃ports : Ports Hw⦄ (disk : IsAta Hw) where
  -- The state after a poll
  abbrev polled : Hw → Hw
  polled h = (ports.in_byte h ata_status).1

  -- A wait that the fuel covers ends with a disk that is not busy.
  pub busy_returns :
      (fuel : ℕ) (h : Hw)
      → disk.busy h < fuel
      → (h' : Hw) × (ata_busy_wait fuel h ≡ some h')
        × (disk.busy h' ≡ 0)
        × (disk.medium h' ≡ disk.medium h)
        × (disk.queue h' ≡ disk.queue h)
  unfolding ata_busy_wait
  busy_returns zero h lt = absurd (omega arith)
  busy_returns (suc fuel) h lt = elim (Bool-cases (disk.busy h == 0)) [
    | inl done ↦
        let (medium, queue) = disk.poll_keeps h in
        let now_zero : disk.busy h ≡ 0 = ==→eq (disk.busy h) 0 done in
        (
          polled h,
          rw (disk.busy_bit h ∙ done, ata_busy_wait) refl,
          omega (arith, disk.poll_busy h, now_zero),
          medium,
          queue,
        )
    | inr waits ↦
        let (medium, queue) = disk.poll_keeps h in
        let some_left : disk.busy h ≢ 0 = ==→ne (disk.busy h) 0 waits in
        let (h', run, idle, medium', queue') =
          busy_returns fuel (polled h) (omega (arith, disk.poll_busy h, some_left, lt)) in
        (
          h',
          rw (disk.busy_bit h ∙ waits, ata_busy_wait) run,
          idle,
          medium' ∙ medium,
          queue' ∙ queue,
        )
  ]

  pub drq_returns :
      (fuel : ℕ) (h : Hw)
      → disk.busy h ≡ 0
      → disk.late h < fuel
      → (h' : Hw) × (ata_drq_wait fuel h ≡ some h')
        × (disk.busy h' ≡ 0)
        × (disk.late h' ≡ 0)
        × (disk.queue h' ≡ disk.queue h)
  unfolding ata_drq_wait
  drq_returns zero h idle lt = absurd (omega arith)
  drq_returns (suc fuel) h idle lt = elim (Bool-cases (disk.late h == 0)) [
    | inl done ↦
        let now_zero : disk.late h ≡ 0 = ==→eq (disk.late h) 0 done in
        (
          polled h,
          rw (disk.ready_bit h idle ∙ ap not done, ata_drq_wait) refl,
          omega (arith, disk.poll_busy h, idle),
          omega (arith, disk.poll_late h idle, now_zero),
          (disk.poll_keeps h).1,
        )
    | inr waits ↦
        let some_left : disk.late h ≢ 0 = ==→ne (disk.late h) 0 waits in
        let (h', run, idle', ready, queue') =
          drq_returns fuel (polled h) (omega (arith, disk.poll_busy h, idle))
            (omega (arith, disk.poll_late h idle, some_left, lt)) in
        (
          h',
          rw (disk.ready_bit h idle ∙ ap not waits, ata_drq_wait) run,
          idle',
          ready,
          queue' ∙ (disk.poll_keeps h).1,
        )
  ]
