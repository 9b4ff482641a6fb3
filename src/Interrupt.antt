-- ===== src/Interrupt.antt =====
-- src/interrupt.c: the system calls and the dispatch of interrupts, over the file system, the keyboard
-- and the terminal. The user's memory is one memory of bytes; the stack of read is an argument.
pub mod Screen
pub mod Files
use if2230_2023_ntaraja.Prelude.{
  ℕ, zero, suc, ◌+◌, ◌-◌, ◌%◌, ◌^◌, ◌==◌, leb, true, false, List, [], ◌∷◌, Option, none, some, take,
  window, ℤ, pos, negsuc, if◌then◌else◌,
}
use if2230_2023_ntaraja.Prelude.Opt.{◌>>=◌}
use if2230_2023_ntaraja.Memory.{Mem, poke, load_bytes}
use if2230_2023_ntaraja.Disk.{BlockDevice}
use if2230_2023_ntaraja.Ports.{Ports}
use if2230_2023_ntaraja.Fat32.{State, Request, DateTime}
use if2230_2023_ntaraja.Fat32.Layout.{word_32}
use if2230_2023_ntaraja.Fat32.Reading.{Reply, read, read_directory}
use if2230_2023_ntaraja.Fat32.Writing.{write}
use if2230_2023_ntaraja.Fat32.Deletion.{delete}
use if2230_2023_ntaraja.Keyboard.{
  Keyboard, keyboard_state_activate, get_keyboard_buffer, keyboard_buffer_size,
}
use if2230_2023_ntaraja.Keyboard.Isr.{keyboard_isr}
use if2230_2023_ntaraja.Terminal.{Terminal, puts}

-- `struct CPURegister`, less the two stack registers
pub record CpuRegister : Type 0 where
  pub eax : ℕ
  pub ebx : ℕ
  pub ecx : ℕ
  pub edx : ℕ

-- What the system calls act on. The keyboard holds the screen; the other three are the terminal's.
pub record Kernel (Disk Hw : Type 0) : Type 0 where
  pub files : State Disk
  pub keyboard : Keyboard Hw
  pub row : ℕ
  pub column : ℕ
  pub background_color : ℕ
  pub memory : Mem

-- The packed request at an address
unfoldable pub request_at : Mem → ℕ → Request
request_at m a =
    let bs = load_bytes m a 23 in
    record {
      buf = λ i. m (word_32 bs 0 + i);
      name = window bs 4 8;
      ext = window bs 12 3;
      parent_cluster_number = word_32 bs 15;
      buffer_size = word_32 bs 19;
    }

unfoldable pub store_bytes : List ℕ → ℕ → Mem → Mem
store_bytes [] a m = m
store_bytes (b ∷ bs) a m = store_bytes bs (a + 1) (poke m a b)

-- An `int8_t` as a byte
abbrev pub code_byte : ℤ → ℕ
code_byte (pos n) = n % 2 ^ 8
code_byte (negsuc n) = 255 - n

-- `request.buf` after the call, if the call writes there
unfoldable pub store_reply : Reply → ℕ → Mem → Mem
store_reply reply a m = elim reply.output [
  | none ↦ m
  | some bytes ↦ store_bytes bytes (word_32 (load_bytes m a 4) 0) m
]

module _ {Hw : Type 0} ⦃ports : Ports Hw⦄ where
  -- `while (is_keyboard_blocking())`: a round is a keyboard interrupt, as many as the fuel.
  pub await_line : ℕ → Keyboard Hw → Option (Keyboard Hw)
  await_line zero s = none
  await_line (suc fuel) s = elim s.input_on [
    | false ↦ some s
    | true ↦ do s' ← keyboard_isr s; await_line fuel s'
  ]

module _ {Disk Hw : Type 0} ⦃device : BlockDevice Disk⦄ ⦃ports : Ports Hw⦄ where
  -- `*((int8_t*) cpu.ecx) = ...`, after the bytes at the request's buffer
  unfoldable pub answer : CpuRegister → Reply → State Disk → Kernel Disk Hw → Kernel Disk Hw
  answer cpu reply files k = record k {
    files = files;
    memory = poke (store_reply reply cpu.ebx k.memory) cpu.ecx (code_byte reply.code);
  }

  unfoldable pub answer_code : CpuRegister → ℤ → State Disk → Kernel Disk Hw → Kernel Disk Hw
  answer_code cpu code files k = record k {
    files = files;
    memory = poke k.memory cpu.ecx (code_byte code);
  }

  -- The line goes to the caller; more bytes than the buffer has are an access past its end.
  unfoldable pub read_line : ℕ → CpuRegister → Kernel Disk Hw → Option (Kernel Disk Hw)
  read_line fuel cpu k = do
    s ← await_line fuel (keyboard_state_activate k.keyboard)
    let (buf, s') = get_keyboard_buffer s
    if leb cpu.ecx keyboard_buffer_size
        then some
            (record k { keyboard = s'; memory = store_bytes (take cpu.ecx buf) cpu.ebx k.memory })
        else none

  unfoldable pub put_text : CpuRegister → Kernel Disk Hw → Option (Kernel Disk Hw)
  put_text cpu k =
      let t : Terminal Hw = record {
        display = k.keyboard.display;
        row = k.row;
        column = k.column;
        background_color = k.background_color;
      } in
      do
        t' ← puts (load_bytes k.memory cpu.ebx cpu.ecx) cpu.ecx cpu.edx t
        let s = k.keyboard
        some (record k {
          keyboard = record s { display = t'.display };
          row = t'.row;
          column = t'.column;
          background_color = t'.background_color;
        })

  unfoldable pub syscall :
      ℕ → DateTime → List ℕ → CpuRegister → Kernel Disk Hw → Option (Kernel Disk Hw)
  syscall fuel now stack cpu k =
      let request = request_at k.memory cpu.ebx in
      if cpu.eax == 0
      then (do (reply, files) ← read stack request k.files; some (answer cpu reply files k))
      else if cpu.eax == 1
      then (do (reply, files) ← read_directory request k.files; some (answer cpu reply files k))
      else if cpu.eax == 2
      then (do (code, files) ← write now request k.files; some (answer_code cpu code files k))
      else if cpu.eax == 3
      then (do (code, files) ← delete request k.files; some (answer_code cpu code files k))
      else if cpu.eax == 4
      then read_line fuel cpu k
      else if cpu.eax == 5
      then (if cpu.ecx == 0 then some k else put_text cpu k)
      else some k

  -- A page fault halts the processor with interrupts off, so the handler does not return.
  unfoldable pub main_interrupt_handler :
      ℕ → DateTime → List ℕ → CpuRegister → ℕ → Kernel Disk Hw → Option (Kernel Disk Hw)
  main_interrupt_handler fuel now stack cpu int_number k =
      if int_number == 0x21
      then (do s ← keyboard_isr k.keyboard; some (record k { keyboard = s }))
      else if int_number == 0x30
      then syscall fuel now stack cpu k
      else if int_number == 0xE
      then none
      else some k
