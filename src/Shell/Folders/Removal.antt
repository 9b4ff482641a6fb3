-- ===== src/Shell/Folders/Removal.antt =====
-- src/user-shell.c: rm of what mkdir made.
use if2230_2023_ntaraja.Prelude.{
  [], ℕ, ◌≡◌, ◌∙◌, refl, List, replicate, byte_at, set, some, pos, negsuc,
}
use if2230_2023_ntaraja.Memory.{Mem}
use if2230_2023_ntaraja.Disk.{BlockDevice}
use if2230_2023_ntaraja.Fat32.{fat_end_of_file, zero_entry, DateTime, Request, State}
use if2230_2023_ntaraja.Fat32.Layout.{encode_dir, encode_entry}
use if2230_2023_ntaraja.Fat32.Directory.{has_name, index_of}
use if2230_2023_ntaraja.Fat32.Reading.{read_directory}
use if2230_2023_ntaraja.Fat32.Deletion.{delete}
use if2230_2023_ntaraja.Fat32.Writing.Free.{entry_of}
use if2230_2023_ntaraja.Fat32.Writing.Folder.{folder_table}
use if2230_2023_ntaraja.Fat32.RoundTrip.{dir_at}
use if2230_2023_ntaraja.Fat32.RoundTrip.Folder.Removal.{delete-read_directory}
use if2230_2023_ntaraja.Shell.{slen}
use if2230_2023_ntaraja.Shell.Session.{Session, name_text, ext_text, request_for}
use if2230_2023_ntaraja.Shell.Commands.{mkdir, rm, sys_delete}
use if2230_2023_ntaraja.Shell.Folders.{
  folder_request, CanMkdir, mkdir-sys_write, fields, sys_read_directory-eq,
}

-- A new folder has no second entry.
folder_empty :
    (now : DateTime) (r : Request) (c : ℕ)
    → (slen (name_text (encode_dir (folder_table now r c)) 1) ≡ some 0)
      × (slen (ext_text (encode_dir (folder_table now r c)) 1) ≡ some 0)
unfolding encode_dir encode_entry slen
folder_empty now r c = (refl, refl)

module _ {Disk : Type 0} ⦃device : BlockDevice Disk⦄ where
  sys_delete-eq :
      (r : Request) (s : Session Disk) (files : State Disk)
      → delete r s.files ≡ some (pos 0, files)
      → sys_delete r s ≡ some (pos 0, record s { files = files })
  unfolding sys_delete
  sys_delete-eq r s files run = rw run refl

  -- read_directory does not look at the request's buffer.
  read_directory_buf :
      (r : Request) (buf : Mem) (s : State Disk)
      → read_directory (record r { buf = buf }) s ≡ read_directory r s
  unfolding read_directory
  read_directory_buf r buf s = refl

module _ {Disk : Type 0} ⦃device : BlockDevice Disk⦄ (filename name field path : List ℕ)
    (n slot : ℕ) (s : Session Disk) (can : CanMkdir filename name field path n slot s) where
  abbrev asked : Request
  asked = folder_request filename name field path n s

  abbrev removal : Request
  removal = request_for [] field (replicate 3 0) s.current_dir 0

  rm_lem :
      (now : DateTime) (c : ℕ) (files files' files₃ : State Disk)
      → read_directory removal files
        ≡ some
            (record { code = pos 0; output = some (encode_dir (folder_table now asked c)) }, files')
      → delete removal files' ≡ some (pos 0, files₃)
      → rm filename (record s { files = files }) ≡ some (record s { files = files₃ })
  unfolding rm
  rm_lem now c files files' files₃ listed deleted =
      let s' : Session Disk = record s { files = files } in
      let s'' : Session Disk = record s { files = files' } in
      let (no_name, no_ext) = folder_empty now asked c in
      rw
        (
          fields filename name field path n slot s can,
          sys_read_directory-eq removal s' _ files' listed,
          no_name,
          no_ext,
          sys_delete-eq removal s'' files₃ deleted,
        )
        refl

  -- For a typed name without an extension that is new in the shell's table, in a directory that
  -- can take a folder, whose own cluster ends a chain and which has no entry of that name with
  -- any extension, mkdir and then rm of that name return: the allocation table is what it was,
  -- the directory's cluster holds its old table with the slot zeroed, and nothing was printed.
  pub rm-mkdir :
      (now : DateTime)
      → entry_of s.files.fat_table s.current_dir ≡ fat_end_of_file
      → index_of (has_name field) 0 (dir_at s.files s.current_dir) ≡ negsuc 0
      → (s' : Session Disk) × (s'' : Session Disk) × (mkdir now filename s ≡ some s')
        × (rm filename s' ≡ some s'')
        × (s''.files.fat_table ≡ s.files.fat_table)
        × (dir_at s''.files s.current_dir ≡ set (dir_at s.files s.current_dir) slot zero_entry)
        × (s''.screen ≡ s.screen)
  rm-mkdir now ends alone =
      let (c, files, files', files₃, made, listed, deleted, table, dir) =
        delete-read_directory now asked slot s.files can.makes ends alone (byte_at []) in
      (
        record s { files = files },
        record s { files = files₃ },
        mkdir-sys_write filename name field path n slot s can now files made,
        rm_lem now c files files' files₃ (read_directory_buf asked (byte_at []) files ∙ listed)
            deleted,
        table,
        dir,
        refl,
      )
