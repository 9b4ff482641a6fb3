-- ===== src/Shell/ReadOnly/Flips.antt =====
-- src/user-shell.c: rounds of the loop whose line is the coin's.
use if2230_2023_ntaraja.Shell.{flipcoin}
use if2230_2023_ntaraja.Fat32.Directory.Search.{FirstIndex, index_of-FirstIndex}
use if2230_2023_ntaraja.Fat32.Reading.{fails, Reply, open_directory, read_directory}
use if2230_2023_ntaraja.Shell.Commands.{flip}
use if2230_2023_ntaraja.Fat32.{DirectoryEntry, root_cluster_number, zero_entry, State, Request}
use if2230_2023_ntaraja.Fat32.Directory.{has_name_ext, dir_table_search}
use if2230_2023_ntaraja.Fat32.Volume.{root_name, read_to_dir_table}
use if2230_2023_ntaraja.Shell.Session.{
  received, request_for, printed, print, sys_read_directory, white, Session, codes,
}
use if2230_2023_ntaraja.Shell.Prompt.{
  run_flip, command_names, choose, execute, prompt, load_root, Ambient, round,
}
use if2230_2023_ntaraja.Disk.{cluster_size, BlockDevice}
use if2230_2023_ntaraja.Prelude.{
  ◌∙◌, sym, not, ◌==◌, ◌%◌, append_assoc, replicate, pos, get_or, ap, if◌then◌else◌, ◌≡◌, ◌∷◌,
  ℤ-cases, ℕ, zero, suc, subst, some, refl, inr, inl, get_elem?-eq-get_or, arith, [], Option, List,
  Bool-cases, Bool, ◌++◌,
}
use mathlib.Core.List.{append-nil}
use if2230_2023_ntaraja.Prelude.Opt.{◌>>=◌}
use if2230_2023_ntaraja.Shell.Coin.{flips, in_turn, flips-in_turn}

-- What a round with the coin prints
abbrev pub prompt_texts : List ℕ → List (List ℕ × ℕ)
prompt_texts name = (codes "ntarAja@OS-IF2230:", 0x0A) ∷ (name, 0x09) ∷ (codes "$ ", white) ∷ []

abbrev pub side_text : Bool → List ℕ
side_text heads = if heads then codes "Heads\n" else codes "Tails\n"

abbrev pub flip_texts : List ℕ → Bool → List (List ℕ × ℕ)
flip_texts name heads = prompt_texts name ++ (side_text heads, white) ∷ []

abbrev pub all_texts : List ℕ → List Bool → List (List ℕ × ℕ)
all_texts name [] = []
all_texts name (heads ∷ rest) = flip_texts name heads ++ all_texts name rest

append_three :
    {A : Type 0} (xs : List A) (a b c : A)
    → ((xs ++ a ∷ []) ++ b ∷ []) ++ c ∷ [] ≡ xs ++ a ∷ b ∷ c ∷ []
append_three xs a b c =
    append_assoc (xs ++ a ∷ []) (b ∷ []) (c ∷ []) ∙ append_assoc xs (a ∷ []) (b ∷ c ∷ [])

dir_table_search-FirstIndex :
    (name ext : List ℕ) (dir : List DirectoryEntry)
    → FirstIndex (has_name_ext name ext) 0 dir (dir_table_search name ext dir)
unfolding dir_table_search
dir_table_search-FirstIndex name ext dir = index_of-FirstIndex (has_name_ext name ext) 0 dir

module _ {Disk : Type 0} ⦃device : BlockDevice Disk⦄ where
  -- read_directory always returns.
  read_directory_returns :
      (r : Request) (s : State Disk) → (p : Reply × State Disk) × (read_directory r s ≡ some p)
  unfolding read_directory read_to_dir_table
  read_directory_returns r s =
      let t = read_to_dir_table r.parent_cluster_number s in
      elim (ℤ-cases (dir_table_search r.name r.ext t.dir_table)) [
        | inr (i, absent) ↦ ((fails (pos 2), t), rw (absent, read_directory) refl)
        | inl (i, found) ↦
            let (low, high, hit, before) =
              subst (FirstIndex (has_name_ext r.name r.ext) 0 t.dir_table) found
                (dir_table_search-FirstIndex r.name r.ext t.dir_table) in
            let here = get_elem?-eq-get_or t.dir_table i zero_entry (omega (arith, high)) in
            let e = get_or t.dir_table i zero_entry in
            (open_directory e t, rw (found, here, read_directory) refl)
      ]

  -- `n` rounds with the same line
  unfoldable pub rounds : ℕ → Ambient → List ℕ → Session Disk → Option (Session Disk)
  rounds zero a buf s = some s
  rounds (suc n) a buf s = do s' ← round a buf s; rounds n a buf s'

  load_root_returns :
      (s : Session Disk)
      → (table : List ℕ) × (files : State Disk) × (load_root s.root_table s
          ≡ some (table, record s { files = files }))
  unfolding load_root sys_read_directory
  load_root_returns s =
      let ((reply, files), read) =
        read_directory_returns
          (request_for s.root_table root_name (replicate 3 0) root_cluster_number cluster_size)
          s.files in
      (received reply.output s.root_table, files, rw (read, load_root) refl)

  prompt_lem :
      (name : List ℕ) (s : Session Disk)
      → printed 300 s.cur_dir_name ≡ some name
      → prompt s ≡ some (record s { screen = s.screen ++ prompt_texts name })
  unfolding prompt print printed
  prompt_lem name s named =
      rw (named, prompt)
        (ap (λ texts. some (record s { screen = texts }))
          (append_three s.screen (codes "ntarAja@OS-IF2230:", 0x0A) (name, 0x09)
            (codes "$ ", white)))

  flip_lem :
      (s : Session Disk)
      → flip s
        ≡ some (record s {
          rand_number = (flipcoin s.rand_number).1;
          screen = s.screen ++ (side_text (flipcoin s.rand_number).0, white) ∷ [];
        })
  unfolding flip print printed
  flip_lem s = elim (Bool-cases (flipcoin s.rand_number).0) [
    | inl heads ↦ rw (heads, flip) refl
    | inr tails ↦ rw (tails, flip) refl
  ]

  round_flip :
      (a : Ambient) (buf name : List ℕ) (s : Session Disk)
      → choose buf command_names ≡ some run_flip
      → printed 300 s.cur_dir_name ≡ some name
      → (s' : Session Disk) × (round a buf s ≡ some s')
        × (s'.screen ≡ s.screen ++ flip_texts name (flipcoin s.rand_number).0)
        × (s'.rand_number ≡ (flipcoin s.rand_number).1)
        × (s'.cur_dir_name ≡ s.cur_dir_name)
  unfolding round execute
  round_flip a buf name s chosen named =
      let (table, files, loaded) = load_root_returns s in
      let s₁ : Session Disk = record s { files = files; root_table = table } in
      let s₂ : Session Disk = record s₁ { screen = s.screen ++ prompt_texts name } in
      let side : List ℕ × ℕ = (side_text (flipcoin s.rand_number).0, white) in
      (
        record s₂ {
          rand_number = (flipcoin s.rand_number).1;
          screen = (s.screen ++ prompt_texts name) ++ side ∷ [];
        },
        rw (loaded, prompt_lem name s₁ named, chosen) (flip_lem s₂),
        append_assoc s.screen (prompt_texts name) (side ∷ []),
        refl,
        refl,
      )

  -- The same bytes on the line in every round, with the text of the directory's name kept
  rounds_flip :
      (n : ℕ) (a : Ambient) (buf name : List ℕ) (s : Session Disk)
      → choose buf command_names ≡ some run_flip
      → printed 300 s.cur_dir_name ≡ some name
      → (s' : Session Disk) × (rounds n a buf s ≡ some s')
        × (s'.screen ≡ s.screen ++ all_texts name (flips n s.rand_number))
  unfolding rounds flips
  rounds_flip zero a buf name s chosen named = (s, refl, sym (append-nil s.screen))
  rounds_flip (suc n) a buf name s chosen named =
      let (s₁, run, screen, number, dir) = round_flip a buf name s chosen named in
      let (s₂, run₂, screen₂) = rounds_flip n a buf name s₁ chosen (ap (printed 300) dir ∙ named) in
      (
        s₂,
        rw run run₂,
        screen₂
            ∙ rw (screen, number)
                (append_assoc s.screen (flip_texts name (flipcoin s.rand_number).0) _),
      )

  -- Rounds of the shell whose line chooses the coin, as many as you like, with a zero within
  -- the first 300 characters of the current directory's name, all return, and print in each
  -- round the prompt with that name and then a side of the coin, heads and tails in turn.
  pub rounds-in_turn :
      (n : ℕ) (a : Ambient) (buf name : List ℕ) (s : Session Disk)
      → choose buf command_names ≡ some run_flip
      → printed 300 s.cur_dir_name ≡ some name
      → (s' : Session Disk) × (rounds n a buf s ≡ some s')
        × (s'.screen ≡ s.screen ++ all_texts name (in_turn n (not (s.rand_number % 2 == 0))))
  rounds-in_turn n a buf name s chosen named =
      let (s', run, screen) = rounds_flip n a buf name s chosen named in
      (
        s',
        run,
        screen ∙ ap (λ sides. s.screen ++ all_texts name sides) (flips-in_turn n s.rand_number),
      )
