-- ===== src/Tests/Drive.antt =====
-- A disk that follows the documents, and what src/disk.c reads from it and writes to it.
use if2230_2023_ntaraja.Prelude.{
  ◌++◌, not, Bool, refl, ℕ, ◌+◌, ◌-◌, ◌%◌, ◌^◌, ◌==◌, ◌<◌, ◌≡◌, List, [], ◌∷◌, length, replicate,
  if◌then◌else◌, arith, eq→==, ne→==, Bool-cases, bit_and, inl, inr,
}
use if2230_2023_ntaraja.Ports.{Ports}
use if2230_2023_ntaraja.Ata.{ata_status, read_commands, write_commands}
use if2230_2023_ntaraja.Ata.Device.{
  Registers, TaskRegister, sector_count, lba_low, lba_mid, lba_high, drive_select, port_of, store,
  Operation, reads, writes, other, operation, sectors, IsAta,
}
use if2230_2023_ntaraja.Ata.Addressing.{after_byte, issued, commands-issued}

-- The disk's registers, the words it has to hand over, the polls for which it is busy and then not
-- ready, and the display controller's registers
record Drive : Type 0 where
  task : Registers
  pending : List ℕ
  doing : Operation
  taken : List ℕ
  polls : ℕ
  delay : ℕ
  selected : ℕ
  video : ℕ → ℕ

abbrev block_words : ℕ → List ℕ
block_words lba = replicate 256 (0x4100 + lba % 2 ^ 8)

abbrev is_idle : Drive → Bool
is_idle h = h.polls % 4 == 0

abbrev begin : Operation → Drive → Drive
begin (reads lba n) h = record h { pending = sectors block_words lba n; polls = 2; delay = 1 }
begin (writes lba n) h = record h { doing = writes lba n; taken = []; polls = 1; delay = 2 }
begin other h = h

abbrev drive_out : Drive → ℕ → ℕ → Drive
drive_out h port v =
    if port == 0x3D4
    then record h { selected = v }
    else if port == 0x3D5
    then record h { video = λ j. if h.selected == j then v % 2 ^ 8 else h.video j }
    else if is_idle h
    then (if port == ata_status
        then begin (operation v h.task) h
        else record h { task = after_byte port v h.task })
    else h

abbrev status : Drive → ℕ
status h = if is_idle h then (if h.delay % 4 == 0 then 0x48 else 0) else 0x80

abbrev drive_polled : Drive → Drive
drive_polled h = record h {
  polls = h.polls % 4 - 1;
  delay = if is_idle h then h.delay % 4 - 1 else h.delay;
}

abbrev drive_in : Drive → ℕ → ℕ × Drive
drive_in h port =
    if port == ata_status then (status h, drive_polled h) else (h.video h.selected % 2 ^ 8, h)

abbrev next_word : List ℕ → Drive → ℕ × Drive
next_word [] h = (0, h)
next_word (w ∷ rest) h =
    (w, record h { pending = rest; polls = if length rest % 256 == 0 then 2 else h.polls })

drive_in-lt : (h : Drive) (port : ℕ) → (drive_in h port).0 < 256
drive_in-lt h port = ground arith

instance abbrev drive : Ports Drive
drive = record {
  out = drive_out;
  in_byte = drive_in;
  out16 = λ h port v. record h {
    taken = h.taken ++ v ∷ [];
    polls = if (length h.taken + 1) % 256 == 0 then 3 else h.polls;
  };
  in16 = λ h port. next_word h.pending h;
  cursor = λ h j. h.video j % 2 ^ 8;
  in_byte-lt = drive_in-lt;
  select = λ h k j. refl;
  store = λ h k v j. ground arith;
  fetch = λ h k. refl;
  fetch_keeps = λ h k j. refl;
}

drive_takes :
    (h : Drive) (r : TaskRegister) (v : ℕ)
    → h.polls % 4 ≡ 0
    → ((drive_out h (port_of r) v).task ≡ store r v h.task)
      × ((drive_out h (port_of r) v).polls % 4 ≡ 0)
drive_takes h sector_count v idle = rw (eq→== (h.polls % 4) 0 idle) (refl, idle)
drive_takes h lba_low v idle = rw (eq→== (h.polls % 4) 0 idle) (refl, idle)
drive_takes h lba_mid v idle = rw (eq→== (h.polls % 4) 0 idle) (refl, idle)
drive_takes h lba_high v idle = rw (eq→== (h.polls % 4) 0 idle) (refl, idle)
drive_takes h drive_select v idle = rw (eq→== (h.polls % 4) 0 idle) (refl, idle)

status_busy_lem : (h : Drive) → (bit_and (status h) 0x80 == 0) ≡ (h.polls % 4 == 0)
status_busy_lem h = elim (Bool-cases (h.polls % 4 == 0)) [
  | inr waits ↦ rw waits refl
  | inl idle ↦ elim (Bool-cases (h.delay % 4 == 0)) [
    | inl ready ↦ rw (idle, ready) refl
    | inr late ↦ rw (idle, late) refl
  ]
]

status_ready_lem :
    (h : Drive) → h.polls % 4 ≡ 0 → (bit_and (status h) 0x40 == 0) ≡ not (h.delay % 4 == 0)
status_ready_lem h idle = elim (Bool-cases (h.delay % 4 == 0)) [
  | inl ready ↦ rw (eq→== (h.polls % 4) 0 idle, ready) refl
  | inr late ↦ rw (eq→== (h.polls % 4) 0 idle, late) refl
]

drive-IsAta : IsAta Drive
drive-IsAta = record {
  registers = λ h. h.task;
  medium = λ h. block_words;
  queue = λ h. h.pending;
  busy = λ h. h.polls % 4;
  late = λ h. h.delay % 4;
  patience = 3;
  width = λ h lba. refl;
  busy_bound = λ h. omega arith;
  late_bound = λ h. omega arith;
  take_byte = λ h r v idle. let (named, still) = drive_takes h r v idle in (named, refl, still);
  take_feature = λ h v idle. rw (eq→== (h.polls % 4) 0 idle) (refl, refl, idle);
  start = λ h lba n idle named. rw (eq→== (h.polls % 4) 0 idle, named) refl;
  busy_bit = status_busy_lem;
  ready_bit = status_ready_lem;
  poll_keeps = λ h. (refl, refl);
  poll_busy = λ h. omega arith;
  poll_late = λ h idle. rw (eq→== (h.polls % 4) 0 idle) (omega arith);
  hand_over = λ h w rest idle ready queue. rw queue (refl, refl);
  hand_over_ready = λ h w rest idle ready queue inside.
      rw (queue, ne→== (length rest % 256) 0 inside) (idle, ready);
}

abbrev still : Drive
still = record {
  task = record { count = 9; low = 9; mid = 9; high = 9; drive = 9 };
  pending = [];
  doing = other;
  taken = [];
  polls = 1;
  delay = 0;
  selected = 0;
  video = λ j. 0;
}

abbrev new_words : ℕ → List ℕ
new_words b = replicate 256 0x4142

commands-issued_example :
    (issued (read_commands 0x1234567 4) still.task ≡ reads 0x1234567 4 ∷ [])
    × (issued (write_commands 0x1234567 4) still.task ≡ writes 0x1234567 4 ∷ [])
commands-issued_example =
    commands-issued 0x1234567 4 still.task (omega arith) (omega arith) (omega arith)
