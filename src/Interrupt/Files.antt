-- ===== src/Interrupt/Files.antt =====
-- src/interrupt.c and src/user-shell.c: the file system's calls as the shell makes them.
use if2230_2023_ntaraja.Prelude.{
  true, false, ℕ, ◌+◌, ◌-◌, ◌==◌, ◌≤◌, ◌<◌, ◌≡◌, ◌∙◌, ◌⊎◌, refl, ap, arith, List, [], ◌∷◌, length,
  byte_at, Bytes, Option, none, some, ℤ, none-ne-some, if◌then◌else◌,
}
use if2230_2023_ntaraja.Prelude.Opt.{some_inj, ◌>>=◌}
use if2230_2023_ntaraja.Memory.{Mem, inside, poke, load_bytes}
use if2230_2023_ntaraja.Memory.Load.{load_bytes-eq}
use if2230_2023_ntaraja.Disk.{BlockDevice}
use if2230_2023_ntaraja.Ports.{Ports}
use if2230_2023_ntaraja.Fat32.{DateTime, Request, State}
use if2230_2023_ntaraja.Fat32.Layout.{word_32}
use if2230_2023_ntaraja.Fat32.Reading.{Reply, fails, read, read_directory}
use if2230_2023_ntaraja.Fat32.Writing.{write}
use if2230_2023_ntaraja.Fat32.Deletion.{delete}
use if2230_2023_ntaraja.Terminal.{Terminal}
use if2230_2023_ntaraja.Interrupt.{
  CpuRegister, Kernel, request_at, store_bytes, code_byte, store_reply, answer, answer_code,
  syscall, main_interrupt_handler,
}
use if2230_2023_ntaraja.Interrupt.Screen.{Displays, show_all}
use if2230_2023_ntaraja.Shell.Session.{Session, sys_read, sys_read_directory}
use if2230_2023_ntaraja.Shell.Commands.{sys_write, sys_delete}

-- The calls of the file system
pub data FileCall : Type 0 where
  by_read by_read_directory by_write by_delete : FileCall

-- The number of the system call
abbrev pub call_number : FileCall → ℕ
call_number by_read = 0
call_number by_read_directory = 1
call_number by_write = 2
call_number by_delete = 3

module _ {Disk : Type 0} ⦃device : BlockDevice Disk⦄ where
  -- The call on the shell's side
  unfoldable pub shell_call :
      FileCall → DateTime → List ℕ → Request → Session Disk → Option (Reply × Session Disk)
  shell_call by_read now stack r s = sys_read stack r s
  shell_call by_read_directory now stack r s = sys_read_directory r s
  shell_call by_write now stack r s = do (code, s') ← sys_write now r s; some (fails code, s')
  shell_call by_delete now stack r s = do (code, s') ← sys_delete r s; some (fails code, s')

-- The address of the caller's buffer
abbrev pub buffer_address : Mem → CpuRegister → ℕ
buffer_address m cpu = word_32 (load_bytes m cpu.ebx 4) 0

-- The memory from `a` on holds what a call put out.
unfoldable pub Holds : Mem → ℕ → Option (List ℕ) → Type 0
Holds m a none = Unit
Holds m a (some bytes) = load_bytes m a (length bytes) ≡ bytes

-- The output is bytes, and they end before `b` or begin behind it.
unfoldable pub Clear : ℕ → ℕ → Option (List ℕ) → Type 0
Clear b a none = Unit
Clear b a (some bytes) = Bytes bytes × ((b < a) ⊎ (a + length bytes ≤ b))

store_bytes_lem :
    (bytes : List ℕ) (a : ℕ) (m : Mem) (x : ℕ)
    → store_bytes bytes a m x ≡ (if inside a (length bytes) x then byte_at bytes (x - a) else m x)
unfolding store_bytes
store_bytes_lem [] a m x = ground arith
store_bytes_lem (b ∷ bytes) a m x = rw (store_bytes_lem bytes (a + 1) (poke m a b) x) (ground arith)

-- The buffer holds the output, behind which the code was stored.
output-Holds :
    (m : Mem) (a b code : ℕ) (output : Option (List ℕ))
    → Clear b a output
    → Holds (poke (elim output [ none ↦ m | some bytes ↦ store_bytes bytes a m ]) b code) a output
unfolding Holds Clear
output-Holds m a b code none clear = tt
output-Holds m a b code (some bytes) (is_bytes, apart) =
    load_bytes-eq (poke (store_bytes bytes a m) b code) bytes a (length bytes) refl is_bytes
      (λ j lo hi.
        let miss : (b == j) ≡ false = ground arith in
        let hit : inside a (length bytes) j ≡ true = ground arith in
        rw (miss, store_bytes_lem bytes a m j, hit) refl)

module _ {Disk : Type 0} where
  -- A result of the file system, in the session
  abbrev in_session : {A : Type 0} → Session Disk → A × State Disk → Option (A × Session Disk)
  in_session s (out, files) = some (out, record s { files = files })

  -- A code alone, as a reply
  abbrev coded : ℤ × Session Disk → Option (Reply × Session Disk)
  coded (code, s) = some (fails code, s)

  -- What a call of the shell is made of: the file system's result, and the session with its state
  reply_parts :
      (m : Option (Reply × State Disk)) (s s' : Session Disk) (reply : Reply)
      → (m >>= in_session s) ≡ some (reply, s')
      → (files : State Disk) × (m ≡ some (reply, files)) × (record s { files = files } ≡ s')
  reply_parts none s s' reply run = absurd (none-ne-some _ run)
  reply_parts (some (out, files)) s s' reply run =
      let same = some_inj run in (files, ap (λ p. some (p.0, files)) same, ap (λ p. p.1) same)

  code_parts :
      (m : Option (ℤ × State Disk)) (s s' : Session Disk) (reply : Reply)
      → ((m >>= in_session s) >>= coded) ≡ some (reply, s')
      → (code : ℤ) × (files : State Disk) × (m ≡ some (code, files))
        × (fails code ≡ reply)
        × (record s { files = files } ≡ s')
  code_parts none s s' reply run = absurd (none-ne-some _ run)
  code_parts (some (code, files)) s s' reply run =
      let same = some_inj run in (code, files, refl, ap (λ p. p.0) same, ap (λ p. p.1) same)

module _ {Disk Hw : Type 0} ⦃device : BlockDevice Disk⦄ ⦃ports : Ports Hw⦄ where
  -- The handler's answer to a call that the shell's model makes
  handler_answers :
      (c : FileCall) (fuel : ℕ) (now : DateTime) (stack : List ℕ) (cpu : CpuRegister)
      (reply : Reply) (s s' : Session Disk) (k : Kernel Disk Hw)
      → cpu.eax ≡ call_number c
      → k.files ≡ s.files
      → shell_call c now stack (request_at k.memory cpu.ebx) s ≡ some (reply, s')
      → (files : State Disk) × (main_interrupt_handler fuel now stack cpu 0x30 k
          ≡ some (answer cpu reply files k))
        × (record s { files = files } ≡ s')
  unfolding shell_call sys_read sys_read_directory sys_write sys_delete main_interrupt_handler
      syscall answer answer_code store_reply
  handler_answers by_read fuel now stack cpu reply s s' k number same run =
      let r = request_at k.memory cpu.ebx in
      let (files, found, kept) = reply_parts (read stack r s.files) s s' reply run in
      let here : read stack r k.files ≡ some (reply, files) = ap (read stack r) same ∙ found in
      let read_call : (cpu.eax == 0) ≡ true = ap (λ t. t == 0) number in
      (files, rw (read_call, here) refl, kept)
  handler_answers by_read_directory fuel now stack cpu reply s s' k number same run =
      let r = request_at k.memory cpu.ebx in
      let (files, found, kept) = reply_parts (read_directory r s.files) s s' reply run in
      let here : read_directory r k.files ≡ some (reply, files) =
        ap (read_directory r) same ∙ found in
      let read_call : (cpu.eax == 0) ≡ false = ap (λ t. t == 0) number in
      let list_call : (cpu.eax == 1) ≡ true = ap (λ t. t == 1) number in
      (files, rw (read_call, list_call, here) refl, kept)
  handler_answers by_write fuel now stack cpu reply s s' k number same run =
      let r = request_at k.memory cpu.ebx in
      let (code, files, found, is, kept) = code_parts (write now r s.files) s s' reply run in
      let here : write now r k.files ≡ some (code, files) = ap (write now r) same ∙ found in
      let read_call : (cpu.eax == 0) ≡ false = ap (λ t. t == 0) number in
      let list_call : (cpu.eax == 1) ≡ false = ap (λ t. t == 1) number in
      let write_call : (cpu.eax == 2) ≡ true = ap (λ t. t == 2) number in
      (
        files,
        rw (read_call, list_call, write_call, here) (ap (λ p. some (answer cpu p files k)) is),
        kept,
      )
  handler_answers by_delete fuel now stack cpu reply s s' k number same run =
      let r = request_at k.memory cpu.ebx in
      let (code, files, found, is, kept) = code_parts (delete r s.files) s s' reply run in
      let here : delete r k.files ≡ some (code, files) = ap (delete r) same ∙ found in
      let read_call : (cpu.eax == 0) ≡ false = ap (λ t. t == 0) number in
      let list_call : (cpu.eax == 1) ≡ false = ap (λ t. t == 1) number in
      let write_call : (cpu.eax == 2) ≡ false = ap (λ t. t == 2) number in
      let delete_call : (cpu.eax == 3) ≡ true = ap (λ t. t == 3) number in
      (
        files,
        rw (read_call, list_call, write_call, delete_call, here)
            (ap (λ p. some (answer cpu p files k)) is),
        kept,
      )

  -- The session's files are the kernel's, and its texts are on the terminal.
  pub record Simulates (start : Terminal Hw) (s : Session Disk) (k : Kernel Disk Hw) : Type 0 where
    pub files : k.files ≡ s.files
    pub screen : Displays start s k

  -- If the kernel has the files of the shell's session and its terminal shows what the session
  -- printed, and the shell's read, read_directory, write or delete of the request in memory
  -- returns a reply, then the system call of that number returns, the same holds of the
  -- sessions and kernels afterwards, the reply's code is at the caller's address for it, and
  -- what the reply put out, if these are bytes and that address is not among theirs, is in the
  -- request's buffer.
  pub main_interrupt_handler-Simulates :
      (c : FileCall) (fuel : ℕ) (now : DateTime) (stack : List ℕ) (cpu : CpuRegister)
      (start : Terminal Hw) (reply : Reply) (s s' : Session Disk) (k : Kernel Disk Hw)
      → cpu.eax ≡ call_number c
      → shell_call c now stack (request_at k.memory cpu.ebx) s ≡ some (reply, s')
      → Clear cpu.ecx (buffer_address k.memory cpu) reply.output
      → Simulates start s k
      → (k' : Kernel Disk Hw) × (main_interrupt_handler fuel now stack cpu 0x30 k ≡ some k')
        × Simulates start s' k'
        × (k'.memory cpu.ecx ≡ code_byte reply.code)
        × Holds k'.memory (buffer_address k.memory cpu) reply.output
  unfolding answer store_reply Displays
  main_interrupt_handler-Simulates c fuel now stack cpu start reply s s' k number run clear sim =
      let (files, ran, kept) =
        handler_answers c fuel now stack cpu reply s s' k number sim.files run in
      let a = buffer_address k.memory cpu in
      (
        answer cpu reply files k,
        ran,
        record {
          files = ap (λ (t : Session Disk). t.files) kept;
          screen = sim.screen ∙ ap (λ (t : Session Disk). show_all t.screen start) kept;
        },
        ground arith,
        output-Holds k.memory a cpu.ecx (code_byte reply.code) reply.output clear,
      )
