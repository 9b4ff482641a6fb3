-- ===== src/Shell/ReadOnly/Searches.antt =====
-- src/user-shell.c: the disk and the allocation table behind the search through the directories.
use if2230_2023_ntaraja.Prelude.{
  if_either, if◌then◌else◌, replicate, inr, inl, Bool-cases, ◌+◌, ℕ, zero, suc, List, Option, some,
  ◌==◌,
}
use if2230_2023_ntaraja.Prelude.Opt.{Returns, Returns-bind, Returns-any}
use if2230_2023_ntaraja.Disk.{BlockDevice}
use if2230_2023_ntaraja.Fat32.Volume.{zero_cluster}
use if2230_2023_ntaraja.Interrupt.{code_byte}
use if2230_2023_ntaraja.Shell.{slen}
use if2230_2023_ntaraja.Shell.Session.{
  ext_text, name_text, copy_string, Session, received, entry_at, is_used,
}
use if2230_2023_ntaraja.Shell.Find.{
  Search, open_search, open_entry, new_path, note_hit, is_hit, reset_path, dfs_path, whereis,
}
use if2230_2023_ntaraja.Shell.ReadOnly.{
  Stored, Keeps, KeepsBehind, print-Keeps, sys_read_directory-Keeps,
}

module _ {Disk : Type 0} ⦃device : BlockDevice Disk⦄ (kept : Stored Disk) where
  -- What a search returns, with the session behind it
  abbrev KeepsFound : Option (List ℕ × Session Disk) → Type 0
  KeepsFound m = Returns (KeepsBehind {A = List ℕ} kept) m

  open_entry-Keeps :
      (table : List ℕ) (i : ℕ) (s : Session Disk)
      → Keeps kept s
      → Returns (KeepsBehind kept) (open_entry table i s)
  unfolding open_entry Returns
  open_entry-Keeps table i s h =
      Returns-any (KeepsBehind kept) (copy_string (name_text table i) (replicate 8 0)) _ (λ name.
        Returns-any (KeepsBehind kept) (copy_string (ext_text table i) (replicate 3 0)) _
          (λ ext. sys_read_directory-Keeps kept _ s h))

  dfs_path-Keeps :
      (fuel : ℕ) (filename : List ℕ) (left i : ℕ) (q : Search) (found : List ℕ) (s : Session Disk)
      → Keeps kept s
      → KeepsFound (dfs_path fuel filename left i q found s)
  unfolding dfs_path Returns
  dfs_path-Keeps zero filename left i q found s h = tt
  dfs_path-Keeps (suc fuel) filename zero i q found s h = h
  dfs_path-Keeps (suc fuel) filename (suc left) i q found s h =
      Returns-any (KeepsBehind kept) (is_hit q i) _ (λ hit.
        Returns-any (KeepsBehind kept)
          (if hit then note_hit q.table i q.path found else some (q.path, found)) _
          (λ noted. elim (Bool-cases (is_used (entry_at q.table i))) [
            | inr unused ↦
                rw (unused, dfs_path)
                  (dfs_path-Keeps fuel filename left (i + 1) (record q { path = noted.0 }) noted.1 s
                    h)
            | inl used ↦
                rw (used, dfs_path)
                  (Returns-any (KeepsBehind kept) (new_path q.table i noted.0) _ (λ deeper.
                    Returns-bind (KeepsBehind kept) (KeepsBehind kept) (open_entry q.table i s) _
                      (open_entry-Keeps q.table i s h)
                      (λ p h₁. elim (Bool-cases (code_byte p.0.code == 0)) [
                        | inr failed ↦
                            rw (failed, dfs_path)
                              (dfs_path-Keeps fuel filename left (i + 1)
                                (record q { path = noted.0 }) noted.1 p.1 h₁)
                        | inl opened ↦
                            rw (opened, dfs_path)
                              (Returns-any (KeepsBehind kept)
                                (open_search filename deeper (received p.0.output zero_cluster)) _
                                (λ q₂.
                                  Returns-bind (KeepsBehind kept) (KeepsBehind kept)
                                    (dfs_path fuel filename 63 1 q₂ noted.1 p.1) _
                                    (dfs_path-Keeps fuel filename 63 1 q₂ noted.1 p.1 h₁)
                                    (λ p₂ h₂.
                                      Returns-any (KeepsBehind kept)
                                        (reset_path (record q { path = noted.0 })) _
                                        (λ q₃.
                                          dfs_path-Keeps fuel filename left (i + 1) q₃ p₂.0 p₂.1
                                            h₂))))
                      ])))
          ]))

  pub whereis-Keeps :
      (fuel : ℕ) (stack_path filename : List ℕ) (s : Session Disk)
      → Keeps kept s
      → Returns (Keeps kept) (whereis fuel stack_path filename s)
  unfolding whereis Returns
  whereis-Keeps fuel stack_path filename s h =
      Returns-any (Keeps kept) (open_search filename _ s.root_table) _ (λ q.
        Returns-bind (KeepsBehind kept) (Keeps kept)
          (dfs_path fuel filename 63 1 q (replicate 2048 0) s) _
          (dfs_path-Keeps fuel filename 63 1 q (replicate 2048 0) s h)
          (λ p h'. Returns-any (Keeps kept) (slen p.0) _ (λ n.
            if_either (Returns (Keeps kept)) (n == 0) _ _ (print-Keeps kept _ _ _ p.1 h')
              (print-Keeps kept _ _ _ p.1 h'))))
