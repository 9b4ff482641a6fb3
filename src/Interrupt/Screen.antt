-- ===== src/Interrupt/Screen.antt =====
-- src/interrupt.c and src/user-shell.c: the shell's printed texts and the terminal.
use if2230_2023_ntaraja.Prelude.{
  arith, true, false, ℕ, ◌==◌, ◌≡◌, ◌∙◌, refl, sym, ap, inl, inr, List, [], ◌∷◌, ◌++◌, some,
  Bool-cases, Option-cases, none-ne-some, if◌then◌else◌,
}
use if2230_2023_ntaraja.Prelude.Opt.{some_inj}
use if2230_2023_ntaraja.Memory.{load_bytes}
use if2230_2023_ntaraja.Disk.{BlockDevice}
use if2230_2023_ntaraja.Ports.{Ports}
use if2230_2023_ntaraja.Fat32.{DateTime}
use if2230_2023_ntaraja.Terminal.{Terminal, puts}
use if2230_2023_ntaraja.Terminal.Screen.{put_all, puts-put_all}
use if2230_2023_ntaraja.Interrupt.{CpuRegister, Kernel, put_text, syscall, main_interrupt_handler}
use if2230_2023_ntaraja.Shell.Session.{Session, printed, print}

module _ {Hw : Type 0} ⦃ports : Ports Hw⦄ where
  -- The texts one after another, each in its colour
  unfoldable pub show_all : List (List ℕ × ℕ) → Terminal Hw → Terminal Hw
  show_all [] t = t
  show_all ((text, color) ∷ texts) t = show_all texts (put_all text color t)

  show_all_last :
      (texts : List (List ℕ × ℕ)) (text : List ℕ) (color : ℕ) (t : Terminal Hw)
      → show_all (texts ++ (text, color) ∷ []) t ≡ put_all text color (show_all texts t)
  unfolding show_all
  show_all_last [] text color t = refl
  show_all_last ((first, c) ∷ texts) text color t =
      show_all_last texts text color (put_all first c t)

module _ {Disk : Type 0} where
  -- What print did, by the length and the characters
  print_nothing :
      (text : List ℕ) (len color : ℕ) (s s' : Session Disk)
      → (len == 0) ≡ true
      → print text len color s ≡ some s'
      → s ≡ s'
  unfolding print
  print_nothing text len color s s' empty run = some_inj (sym (rw empty refl) ∙ run)

  print_shown :
      (text : List ℕ) (len color : ℕ) (s s' : Session Disk)
      → (len == 0) ≡ false
      → print text len color s ≡ some s'
      → (shown : List ℕ) × (printed len text ≡ some shown)
        × (record s { screen = s.screen ++ (shown, color) ∷ [] } ≡ s')
  unfolding print
  print_shown text len color s s' some_text run = elim (Option-cases (printed len text)) [
    | inl lost ↦ absurd (none-ne-some _ (sym (rw (some_text, lost) refl) ∙ run))
    | inr (shown, found) ↦ (shown, found, some_inj (sym (rw (some_text, found) refl) ∙ run))
  ]

module _ {Disk Hw : Type 0} ⦃device : BlockDevice Disk⦄ ⦃ports : Ports Hw⦄ where
  abbrev pub terminal_of : Kernel Disk Hw → Terminal Hw
  terminal_of k = record {
    display = k.keyboard.display;
    row = k.row;
    column = k.column;
    background_color = k.background_color;
  }

  -- The terminal is where the session's texts bring one that starts as `t`.
  unfoldable pub Displays : Terminal Hw → Session Disk → Kernel Disk Hw → Type 0
  Displays t s k = terminal_of k ≡ show_all s.screen t

  put_text_lem :
      (cpu : CpuRegister) (k : Kernel Disk Hw) (t : Terminal Hw)
      → puts (load_bytes k.memory cpu.ebx cpu.ecx) cpu.ecx cpu.edx (terminal_of k) ≡ some t
      → (k' : Kernel Disk Hw) × (put_text cpu k ≡ some k')
        × (terminal_of k' ≡ t)
        × (k'.files ≡ k.files)
        × (k'.memory ≡ k.memory)
  unfolding put_text
  put_text_lem cpu k t run =
      let s = k.keyboard in
      (
        record k {
          keyboard = record s { display = t.display };
          row = t.row;
          column = t.column;
          background_color = t.background_color;
        },
        rw run refl,
        refl,
        refl,
        refl,
      )

  -- System call 5 in the dispatch
  handler_print :
      (fuel : ℕ) (now : DateTime) (stack : List ℕ) (cpu : CpuRegister) (k : Kernel Disk Hw)
      → cpu.eax ≡ 5
      → main_interrupt_handler fuel now stack cpu 0x30 k
        ≡ (if cpu.ecx == 0 then some k else put_text cpu k)
  unfolding main_interrupt_handler syscall
  handler_print fuel now stack cpu k five =
      let read : (cpu.eax == 0) ≡ false = ground (arith, five) in
      let read_directory : (cpu.eax == 1) ≡ false = ground (arith, five) in
      let write : (cpu.eax == 2) ≡ false = ground (arith, five) in
      let delete : (cpu.eax == 3) ≡ false = ground (arith, five) in
      let line : (cpu.eax == 4) ≡ false = ground (arith, five) in
      let text : (cpu.eax == 5) ≡ true = ground (arith, five) in
      rw (read, read_directory, write, delete, line, text) refl

  -- If the terminal shows what the shell's session has printed, then the system call that
  -- prints the same text returns and the terminal shows what the session has printed with that
  -- text, while the files and the user's memory stay as they were.
  pub main_interrupt_handler-Displays :
      (fuel : ℕ) (now : DateTime) (stack : List ℕ) (cpu : CpuRegister) (start : Terminal Hw)
      (s s' : Session Disk) (k : Kernel Disk Hw)
      → cpu.eax ≡ 5
      → print (load_bytes k.memory cpu.ebx cpu.ecx) cpu.ecx cpu.edx s ≡ some s'
      → Displays start s k
      → (k' : Kernel Disk Hw) × (main_interrupt_handler fuel now stack cpu 0x30 k ≡ some k')
        × Displays start s' k'
        × (k'.files ≡ k.files)
        × (k'.memory ≡ k.memory)
  unfolding Displays
  main_interrupt_handler-Displays fuel now stack cpu start s s' k five run shows =
      elim (Bool-cases (cpu.ecx == 0)) [
        | inl empty ↦
            let same =
              print_nothing (load_bytes k.memory cpu.ebx cpu.ecx) cpu.ecx cpu.edx s s' empty run in
            (
              k,
              handler_print fuel now stack cpu k five ∙ rw (empty) refl,
              shows ∙ ap (λ z. show_all z.screen start) same,
              refl,
              refl,
            )
        | inr some_text ↦
            let (shown, found, same) =
              print_shown (load_bytes k.memory cpu.ebx cpu.ecx) cpu.ecx cpu.edx s s' some_text
                run in
            let (k', put, at, files, memory) =
              put_text_lem cpu k (put_all shown cpu.edx (terminal_of k)) (
                puts-put_all (load_bytes k.memory cpu.ebx cpu.ecx) cpu.ecx cpu.edx (terminal_of k)
                ∙ rw found refl) in
            (
              k',
              handler_print fuel now stack cpu k five ∙ rw (some_text) put,
              at
                  ∙ ap (put_all shown cpu.edx) shows
                  ∙ sym (show_all_last s.screen shown cpu.edx start)
                  ∙ ap (λ z. show_all z.screen start) same,
              files,
              memory,
            )
      ]
