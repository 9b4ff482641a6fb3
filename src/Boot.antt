-- ===== src/Boot.antt =====
-- src/kernel.c: the start of the kernel, up to the jump to the shell. The instructions that load the
-- descriptor tables' registers are left out, as in the parts. The addresses that the linker gives, the clock
-- and what uninitialised memory holds are arguments.
pub mod Ready
use if2230_2023_ntaraja.Prelude.{[], ℕ, List, Option, none, some, ◌++◌, replicate, ℤ}
use if2230_2023_ntaraja.Prelude.Opt.{◌>>=◌}
use if2230_2023_ntaraja.Memory.{Mem}
use if2230_2023_ntaraja.Disk.{BlockDevice, cluster_size}
use if2230_2023_ntaraja.Ports.{Ports}
use if2230_2023_ntaraja.Framebuffer.{Display, framebuffer_clear, framebuffer_set_cursor}
use if2230_2023_ntaraja.Pic.{pic_remap, activate_keyboard_interrupt}
use if2230_2023_ntaraja.Idt.{IdtGate, initialize_idt}
use if2230_2023_ntaraja.Gdt.{SegmentDescriptor, gdt_install_tss}
use if2230_2023_ntaraja.Paging.{PageDriver, allocate_single_user_page_frame}
use if2230_2023_ntaraja.Fat32.{State, Request, DateTime, root_cluster_number}
use if2230_2023_ntaraja.Fat32.Volume.{initialize_filesystem_fat32}
use if2230_2023_ntaraja.Fat32.Reading.{Reply, read, read_directory}
use if2230_2023_ntaraja.Fat32.Writing.{write}
use if2230_2023_ntaraja.Interrupt.{store_bytes}
use if2230_2023_ntaraja.Shell.Session.{codes, request_for, received, table_cluster}

-- What the start sets up, with the user's memory from address 0 on
pub record Machine (Disk Hw : Type 0) : Type 0 where
  pub display : Display Hw
  pub idt : List IdtGate
  pub gdt : List SegmentDescriptor
  pub pages : PageDriver
  pub files : State Disk
  pub memory : Mem

-- The addresses of the interrupt stubs and of the task state segment, the time of each call, the bytes
-- behind the pointer that create_fat32 copies, the stack of read, and what the three tables hold before
pub record Given : Type 0 where
  pub stubs : List ℕ
  pub tss_address : ℕ
  pub clock : ℕ → DateTime
  pub pointer_area : List ℕ
  pub stack : List ℕ
  pub stack_table : List ℕ
  pub stack_table2 : List ℕ
  pub stack_table3 : List ℕ

-- `cbuf`: a cluster of `a` and one of `b`
abbrev pub letters : List ℕ
letters = replicate 2048 b'a' ++ replicate 2048 b'b'

-- A folder, by the name that fills its eight bytes
abbrev pub folder : List ℕ → List ℕ → ℕ → Request
folder buf name parent = request_for buf name (replicate 3 0) parent 0

-- `filefile.exe`, a cluster of letters
abbrev pub letter_file : ℕ → Request
letter_file parent = request_for letters (codes "filefile") (codes "exe") parent cluster_size

module _ {Disk : Type 0} ⦃device : BlockDevice Disk⦄ where
  -- The folders and files that the kernel makes, each result ignored
  unfoldable pub make_samples : Given → State Disk → Option (State Disk)
  make_samples given s₀ = do
    let ikanaide = folder given.stack_table (codes "ikanaide") root_cluster_number
    (code₁, s₁) ← write (given.clock 1) ikanaide s₀
    (code₂, s₂) ← write (given.clock 2) (letter_file root_cluster_number) s₁
    (reply₁, s₃) ← read_directory ikanaide s₂
    let parent = table_cluster (received reply₁.output given.stack_table)
    (code₃, s₄) ← write (given.clock 3) (letter_file parent) s₃
    (code₄, s₅) ←
        write (given.clock 4) (folder given.stack_table2 (codes "cakcok" ++ replicate 2 0) parent)
          s₄
    let cicak = folder given.stack_table3 (codes "cicak" ++ replicate 3 0) parent
    (code₅, s₆) ← write (given.clock 5) cicak s₅
    (reply₂, s₇) ← read_directory cicak s₆
    let inner = table_cluster (received reply₂.output given.stack_table3)
    (code₆, s₈) ← write (given.clock 6) (letter_file inner) s₇
    some s₈

module _ {Disk Hw : Type 0} ⦃device : BlockDevice Disk⦄ ⦃ports : Ports Hw⦄ where
  -- Up to the user's page: the controllers, the tables, the screen and the file system
  unfoldable pub machine_setup : Given → Machine Disk Hw → Machine Disk Hw
  machine_setup given m =
      let d = m.display in
      let d₁ : Display Hw = record d { hw = activate_keyboard_interrupt (pic_remap d.hw) } in
      let (code, pages) = allocate_single_user_page_frame 0 m.pages in
      record m {
        idt = initialize_idt given.stubs m.idt;
        display = framebuffer_set_cursor 0 0 (framebuffer_clear d₁);
        files = initialize_filesystem_fat32 (given.clock 0) given.pointer_area m.files;
        gdt = gdt_install_tss given.tss_address m.gdt;
        pages = pages;
      }

  -- The shell is read to the user's page.
  unfoldable pub load_shell : Given → Machine Disk Hw → Option (Machine Disk Hw)
  load_shell given m = do
    (reply, files) ←
        read given.stack
          (request_for [] (codes "shell" ++ replicate 3 0) (replicate 3 0) root_cluster_number
            0x100000)
          m.files
    some (record m { files = files; memory = store_bytes (received reply.output []) 0 m.memory })

  unfoldable pub kernel_setup : Given → Machine Disk Hw → Option (Machine Disk Hw)
  kernel_setup given m = do
    m₁ ← load_shell given (machine_setup given m)
    files ← make_samples given m₁.files
    some (record m₁ { files = files })
