-- ===== src/Shell/ReadOnly.antt =====
-- src/user-shell.c: the disk and the allocation table behind the calls that read.
pub mod Walks
pub mod Searches
pub mod Rounds
pub mod Flips
use if2230_2023_ntaraja.Prelude.{
  ℤ-cases, ◌⊎◌, ◌∙◌, not, inr, inl, if_either, get_elem?, ◌==◌, ◌&&◌, ℕ, ℤ, pos, negsuc, ◌≡◌, refl,
  List, Option, none, some,
}
use if2230_2023_ntaraja.Prelude.Opt.{◌>>=◌, Returns, Returns-bind, Returns-any}
use if2230_2023_ntaraja.Disk.{BlockDevice}
use if2230_2023_ntaraja.Fat32.{attr_subdirectory, State, Request, DirectoryEntry}
use if2230_2023_ntaraja.Fat32.Volume.{read_to_dir_table}
use if2230_2023_ntaraja.Fat32.Directory.{dir_table_search}
use if2230_2023_ntaraja.Fat32.Reading.{
  Reply, read, read_from_table, read_file, read_directory, open_directory,
}
use if2230_2023_ntaraja.Shell.Session.{printed, Session, print, sys_read, sys_read_directory}

-- The disk and the allocation table of a driver
abbrev pub Stored : Type 0 → Type 0
Stored Disk = Disk × List ℕ

module _ {Disk : Type 0} where
  abbrev pub stored_in : State Disk → Stored Disk
  stored_in s = (s.disk, s.fat_table)

  -- The session's driver has them as in `kept`.
  abbrev pub Keeps : Stored Disk → Session Disk → Type 0
  Keeps kept s = stored_in s.files ≡ kept

  -- The same for a result with a session behind it
  abbrev pub KeepsBehind : {A : Type 0} → Stored Disk → A × Session Disk → Type 0
  KeepsBehind kept (a, s) = Keeps kept s

  pub print-Keeps :
      (kept : Stored Disk) (text : List ℕ) (len color : ℕ) (s : Session Disk)
      → Keeps kept s
      → Returns (Keeps kept) (print text len color s)
  unfolding print Returns
  print-Keeps kept text len color s h =
      if_either (Returns (Keeps kept)) (len == 0) _ _ h
        (Returns-any (Keeps kept) (printed len text) _ (λ shown. h))

module _ {Disk : Type 0} ⦃device : BlockDevice Disk⦄ where
  open_directory-stored_in :
      (e : DirectoryEntry) (s : State Disk) → stored_in (open_directory e s).1 ≡ stored_in s
  unfolding open_directory read_to_dir_table
  open_directory-stored_in e s =
      let same : Reply × State Disk → Type 0 = λ p. stored_in p.1 ≡ stored_in s in
      if_either same ((e.attribute == attr_subdirectory) && not (e.undelete == 0xE5)) _ _ refl
        (if_either same (not (e.attribute == attr_subdirectory)) _ _ refl refl)

  read_directory-stored_in :
      (r : Request) (s : State Disk)
      → Returns (λ p. stored_in p.1 ≡ stored_in s) (read_directory r s)
  unfolding read_directory read_to_dir_table Returns
  read_directory-stored_in r s =
      let t = read_to_dir_table r.parent_cluster_number s in
      elim (ℤ-cases (dir_table_search r.name r.ext t.dir_table)) [
        | inr (i, absent) ↦ rw (absent, Returns, read_directory) refl
        | inl (i, found) ↦
            rw (found, Returns, read_directory)
              (Returns-any (λ p. stored_in p.1 ≡ stored_in s) (get_elem? t.dir_table i) _
                (λ e. open_directory-stored_in e t))
      ]

  read-stored_in :
      (stack : List ℕ) (r : Request) (s : State Disk)
      → Returns (λ p. stored_in p.1 ≡ stored_in s) (read stack r s)
  unfolding read read_from_table read_to_dir_table Returns
  read-stored_in stack r s =
      let t = read_to_dir_table r.parent_cluster_number s in
      elim (ℤ-cases (dir_table_search r.name r.ext t.dir_table)) [
        | inr (i, absent) ↦ rw (absent, Returns, read, read_from_table) refl
        | inl (i, found) ↦
            rw (found, Returns, read, read_from_table)
              (Returns-any (λ p. stored_in p.1 ≡ stored_in s) (get_elem? t.dir_table i) _
                (λ e.
                  Returns-any (λ p. stored_in p.1 ≡ stored_in s) (read_file stack r e t) _
                    (λ reply. refl)))
      ]

  pub sys_read-Keeps :
      (kept : Stored Disk) (stack : List ℕ) (r : Request) (s : Session Disk)
      → Keeps kept s
      → Returns (KeepsBehind kept) (sys_read stack r s)
  unfolding sys_read Returns
  sys_read-Keeps kept stack r s h =
      Returns-bind _ (KeepsBehind kept) (read stack r s.files) _ (read-stored_in stack r s.files)
        (λ p same. same ∙ h)

  pub sys_read_directory-Keeps :
      (kept : Stored Disk) (r : Request) (s : Session Disk)
      → Keeps kept s
      → Returns (KeepsBehind kept) (sys_read_directory r s)
  unfolding sys_read_directory Returns
  sys_read_directory-Keeps kept r s h =
      Returns-bind _ (KeepsBehind kept) (read_directory r s.files) _
        (read_directory-stored_in r s.files) (λ p same. same ∙ h)
