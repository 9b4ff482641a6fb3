-- ===== src/Shell/ReadOnly/Rounds.antt =====
-- src/user-shell.c: the disk and the allocation table behind a round of the loop.
use if2230_2023_ntaraja.Prelude.{
  if◌then◌else◌, replicate, min, ltb, if_either, drop, ◌+◌, ℕ, zero, suc, ◌≡◌, refl, List, some,
  ◌==◌,
}
use if2230_2023_ntaraja.Prelude.Opt.{Returns, Returns-bind, Returns-any, Returns-some}
use if2230_2023_ntaraja.Disk.{BlockDevice}
use if2230_2023_ntaraja.Fat32.Volume.{zero_cluster}
use if2230_2023_ntaraja.Interrupt.{code_byte}
use if2230_2023_ntaraja.Shell.{slen}
use if2230_2023_ntaraja.Shell.Session.{
  ext_text, entry_at, white, copy_string, sys_read_directory, is_used, literal, name_fields,
  name_text, Session, print, received, sys_read,
}
use if2230_2023_ntaraja.Shell.Commands.{cat, ls, flip, list_entry, list_entries}
use if2230_2023_ntaraja.Shell.Prompt.{
  Ambient, Command, run_cat, run_cd, run_rm, run_whereis, run_ls, run_mkdir, run_flip, run_cp,
  run_mv, nothing, choose, command_names, load_root, prompt, execute, round,
}
use if2230_2023_ntaraja.Shell.ReadOnly.{
  stored_in, Stored, Keeps, KeepsBehind, print-Keeps, sys_read-Keeps, sys_read_directory-Keeps,
}
use if2230_2023_ntaraja.Shell.ReadOnly.Walks.{cd-Keeps}
use if2230_2023_ntaraja.Shell.ReadOnly.Searches.{whereis-Keeps}

-- The commands that do not call write or delete
unfoldable pub OnlyReads : Command → Type 0
OnlyReads run_rm = ⊥
OnlyReads run_mkdir = ⊥
OnlyReads run_cp = ⊥
OnlyReads run_mv = ⊥
OnlyReads _ = Unit

module _ {Disk : Type 0} ⦃device : BlockDevice Disk⦄ (kept : Stored Disk) where
  cat-Keeps :
      (stack filename : List ℕ) (s : Session Disk)
      → Keeps kept s
      → Returns (Keeps kept) (cat stack filename s)
  unfolding cat Returns
  cat-Keeps stack filename s h = Returns-any (Keeps kept) (name_fields filename) _ (λ fields.
      Returns-bind (KeepsBehind kept) (Keeps kept) (sys_read stack _ s) _
        (sys_read-Keeps kept stack _ s h)
        (λ p h'. Returns-any (Keeps kept) (slen (received p.0.output zero_cluster)) _ (λ size.
          if_either (Returns (Keeps kept)) (code_byte p.0.code == 0) _ _
            (print-Keeps kept _ _ _ p.1 h') h')))

  list_entry-Keeps :
      (table : List ℕ) (i : ℕ) (s : Session Disk)
      → Keeps kept s
      → Returns (Keeps kept) (list_entry table i s)
  unfolding list_entry Returns
  list_entry-Keeps table i s h = Returns-any (Keeps kept) (slen (name_text table i)) _ (λ n.
      Returns-bind (Keeps kept) (Keeps kept) (print (name_text table i) (min 8 n) white s) _
        (print-Keeps kept _ _ _ s h)
        (λ s₁ h₁. Returns-any (Keeps kept) (slen (ext_text table i)) _ (λ e.
          Returns-bind (Keeps kept) (Keeps kept)
            (if ltb 0 (min 3 e) then print (literal ".") 1 white s₁ else some s₁) _
            (if_either (Returns (Keeps kept)) (ltb 0 (min 3 e)) _ _ (print-Keeps kept _ _ _ s₁ h₁)
              h₁)
            (λ s₂ h₂.
              Returns-bind (Keeps kept) (Keeps kept) (print (ext_text table i) (min 3 e) white s₂) _
                (print-Keeps kept _ _ _ s₂ h₂) (λ s₃ h₃. print-Keeps kept _ _ _ s₃ h₃)))))

  list_entries-Keeps :
      (rounds i : ℕ) (table : List ℕ) (s : Session Disk)
      → Keeps kept s
      → Returns (Keeps kept) (list_entries rounds i table s)
  unfolding list_entries Returns
  list_entries-Keeps zero i table s h = h
  list_entries-Keeps (suc rounds) i table s h =
      Returns-bind (Keeps kept) (Keeps kept)
        (if is_used (entry_at table i) then list_entry table i s else some s) _
        (if_either (Returns (Keeps kept)) (is_used (entry_at table i)) _ _
          (list_entry-Keeps table i s h) h)
        (λ s' h'. list_entries-Keeps rounds (i + 1) table s' h')

  ls-Keeps : (s : Session Disk) → Keeps kept s → Returns (Keeps kept) (ls s)
  unfolding ls Returns
  ls-Keeps s h =
      Returns-any (Keeps kept) (copy_string (name_text s.cur_table 0) (replicate 8 0)) _ (λ name.
        Returns-bind (KeepsBehind kept) (Keeps kept) (sys_read_directory _ s) _
          (sys_read_directory-Keeps kept _ s h) (λ p h'. list_entries-Keeps 63 1 _ _ h'))

  flip-Keeps : (s : Session Disk) → Keeps kept s → Returns (Keeps kept) (flip s)
  unfolding flip Returns
  flip-Keeps s h = print-Keeps kept _ _ _ _ h

  load_root-Keeps :
      (buf : List ℕ) (s : Session Disk)
      → Keeps kept s
      → Returns (KeepsBehind {A = List ℕ} kept) (load_root buf s)
  unfolding load_root Returns
  load_root-Keeps buf s h =
      Returns-bind (KeepsBehind kept) (KeepsBehind kept) (sys_read_directory _ s) _
        (sys_read_directory-Keeps kept _ s h) (λ p h'. h')

  prompt-Keeps : (s : Session Disk) → Keeps kept s → Returns (Keeps kept) (prompt s)
  unfolding prompt Returns
  prompt-Keeps s h =
      Returns-bind (Keeps kept) (Keeps kept) (print (literal "ntarAja@OS-IF2230:") 19 0x0A s) _
        (print-Keeps kept _ _ _ s h)
        (λ s₁ h₁.
          Returns-bind (Keeps kept) (Keeps kept) (print s.cur_dir_name 300 0x09 s₁) _
            (print-Keeps kept _ _ _ s₁ h₁) (λ s₂ h₂. print-Keeps kept _ _ _ s₂ h₂))

  execute-Keeps :
      (a : Ambient) (buf : List ℕ) (command : Command) (s : Session Disk)
      → OnlyReads command
      → Keeps kept s
      → Returns (Keeps kept) (execute a buf command s)
  unfolding execute OnlyReads Returns
  execute-Keeps a buf run_cat s r h = cat-Keeps a.stack (drop 4 buf) s h
  execute-Keeps a buf run_cd s r h = cd-Keeps kept a.fuel (drop 3 buf) s h
  execute-Keeps a buf run_rm s r h = absurd r
  execute-Keeps a buf run_whereis s r h = whereis-Keeps kept a.fuel a.stack_path (drop 8 buf) s h
  execute-Keeps a buf run_ls s r h = ls-Keeps s h
  execute-Keeps a buf run_mkdir s r h = absurd r
  execute-Keeps a buf run_flip s r h = flip-Keeps s h
  execute-Keeps a buf run_cp s r h = absurd r
  execute-Keeps a buf run_mv s r h = absurd r
  execute-Keeps a buf nothing s r h = h

module _ {Disk : Type 0} ⦃device : BlockDevice Disk⦄ where
  -- If a round of the shell whose line names cat, cd, whereis, ls, the coin or no command
  -- returns, then it leaves the disk and the allocation table as they were.
  pub round-stored_in :
      (a : Ambient) (buf : List ℕ) (command : Command) (s s' : Session Disk)
      → choose buf command_names ≡ some command
      → OnlyReads command
      → round a buf s ≡ some s'
      → stored_in s'.files ≡ stored_in s.files
  unfolding round Returns
  round-stored_in a buf command s s' chosen reads run =
      let kept = stored_in s.files in
      Returns-some (Keeps kept) (round a buf s) s' run (
        Returns-bind (KeepsBehind kept) (Keeps kept) (load_root s.root_table s) _
          (load_root-Keeps kept s.root_table s refl)
          (λ p h₁.
            Returns-bind (Keeps kept) (Keeps kept) (prompt _) _ (prompt-Keeps kept _ h₁)
              (λ s₂ h₂. rw (chosen) (execute-Keeps kept a buf command s₂ reads h₂))))
