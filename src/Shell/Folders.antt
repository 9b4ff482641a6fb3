-- ===== src/Shell/Folders.antt =====
-- src/user-shell.c: mkdir, and cd to what it made.
pub mod Removal
use if2230_2023_ntaraja.Fat32.Reading.{Reply}
use if2230_2023_ntaraja.Fat32.Reading.{read_directory}
use if2230_2023_ntaraja.Fat32.Writing.{write}
use if2230_2023_ntaraja.Prelude.{
  sym, subst, ℕ, ◌==◌, ◌≡◌, ◌<◌, ◌/◌, ◌%◌, ◌^◌, ◌*◌, ◌+◌, refl, ap, List, drop, replicate, false,
  some, pos, arith, get_elem?,
}
use if2230_2023_ntaraja.Disk.{BlockDevice}
use if2230_2023_ntaraja.Fat32.{cluster_map_size, fat_empty_entry, DateTime, Request, State}
use if2230_2023_ntaraja.Fat32.Layout.{encode_dir}
use if2230_2023_ntaraja.Fat32.Layout.RoundTrip.{decode-encode_dir}
use if2230_2023_ntaraja.Fat32.Volume.{init_directory_entry}
use if2230_2023_ntaraja.Fat32.Writing.Entry.{IsRequest}
use if2230_2023_ntaraja.Fat32.Writing.Free.{entry_of}
use if2230_2023_ntaraja.Fat32.Writing.Folder.{folder_table, folder_table-IsEntry}
use if2230_2023_ntaraja.Fat32.RoundTrip.Folder.{CanMake, read_directory-write}
use if2230_2023_ntaraja.Shell.{readfname, slen, strcmp}
use if2230_2023_ntaraja.Shell.Session.{
  copy_text, Session, literal, name_fields, copy_string, request_for, table_cluster,
  sys_read_directory,
}
use if2230_2023_ntaraja.Shell.Commands.{exist_duplicate, mkdir, sys_write}
use if2230_2023_ntaraja.Shell.Walk.{append_part, change_to, cd, cd_name}

-- A folder's table names its own cluster.
table_cluster-folder :
    (now : DateTime) (r : Request) (c : ℕ)
    → IsRequest r
    → c < cluster_map_size
    → table_cluster (encode_dir (folder_table now r c)) ≡ c
unfolding init_directory_entry
table_cluster-folder now r c v small =
    let whole : c / 2 ^ 16 % 2 ^ 16 * 2 ^ 16 + c % 2 ^ 16 ≡ c = omega arith in
    rw (decode-encode_dir (folder_table now r c) (folder_table-IsEntry now r c v)) whole

module _ {Disk : Type 0} ⦃device : BlockDevice Disk⦄ where
  pub sys_read_directory-eq :
      (r : Request) (s : Session Disk) (reply : Reply) (files : State Disk)
      → read_directory r s.files ≡ some (reply, files)
      → sys_read_directory r s ≡ some (reply, record s { files = files })
  unfolding sys_read_directory
  sys_read_directory-eq r s reply files run = rw run refl

module _ {Disk : Type 0} ⦃device : BlockDevice Disk⦄ (filename name field path : List ℕ)
    (n : ℕ) where
  -- What mkdir asks of write
  abbrev pub folder_request : Session Disk → Request
  folder_request s = request_for s.cur_table field (replicate 3 0) s.current_dir 0

  -- A typed name without an extension, whose directory can take a folder
  pub record CanMkdir (slot : ℕ) (s : Session Disk) : Type 0 where
    pub parsed : readfname filename (replicate 9 0) (replicate 4 0) ≡ some (name, replicate 4 0)
    pub copied : copy_string name (replicate 8 0) ≡ some field
    pub new : exist_duplicate 63 1 s.cur_table filename ≡ some false
    pub makes : CanMake (folder_request s) slot s.files

  -- One that is no path, and which the name of the current directory does not begin with
  pub record CanEnter (slot first : ℕ) (s : Session Disk) : Type 0 where
    pub mkdir : CanMkdir slot s
    pub not_up : strcmp (literal "..") filename 2 ≡ some false
    pub first_char : get_elem? filename 0 ≡ some first
    pub not_path : (first == b'/') ≡ false
    pub name_size : slen name ≡ some n
    pub unlike : strcmp (drop 1 s.cur_dir_name) name n ≡ some false
    pub appended : append_part name s.cur_dir_name ≡ some path

  module _ (slot : ℕ) (s : Session Disk) (can : CanMkdir slot s) where
    pub mkdir-sys_write :
        (now : DateTime) (files : State Disk)
        → write now (folder_request s) s.files ≡ some (pos 0, files)
        → mkdir now filename s ≡ some (record s { files = files })
    unfolding mkdir sys_write
    mkdir-sys_write now files run = rw (can.parsed, can.new, can.copied, run) refl

    pub fields : name_fields filename ≡ some (field, replicate 3 0)
    unfolding name_fields
    fields = rw (can.parsed, can.copied) (unfold copy_string copy_text slen in refl)

  module _ (slot first : ℕ) (s : Session Disk) (can : CanEnter slot first s) where
    cd_lem :
        (fuel : ℕ) (table : List ℕ) (files files' : State Disk)
        → read_directory (folder_request s) files
          ≡ some (record { code = pos 0; output = some table }, files')
        → cd fuel filename (record s { files = files })
          ≡ some (change_to path table (record s { files = files' }))
    unfolding cd cd_name
    cd_lem fuel table files files' run =
        let s' : Session Disk = record s { files = files } in
        let listed = sys_read_directory-eq (folder_request s) s' _ files' run in
        rw
          (
            can.not_up,
            can.first_char,
            can.not_path,
            can.mkdir.parsed,
            fields slot s can.mkdir,
            listed,
            can.name_size,
            can.unlike,
            can.appended,
          )
          refl

    -- For a typed name without an extension that is no path, is new in the shell's table, and
    -- is not what the current directory's name goes on with, in a directory that can take a
    -- folder, mkdir and then cd of that name return; the current directory is then a cluster
    -- that was free, the shell's table is the new folder's, and the path is the old one with
    -- the name behind it.
    pub cd-mkdir :
        (now : DateTime) (fuel : ℕ)
        → (s' : Session Disk) × (s'' : Session Disk) × (mkdir now filename s ≡ some s')
          × (cd fuel filename s' ≡ some s'')
          × (entry_of s.files.fat_table s''.current_dir ≡ fat_empty_entry)
          × (s''.cur_table ≡ encode_dir (folder_table now (folder_request s) s''.current_dir))
          × (s''.cur_dir_name ≡ path)
    unfolding change_to
    cd-mkdir now fuel =
        let r = folder_request s in
        let (c, files, files', run, small, free, taken, listed) =
          read_directory-write now r slot s.files can.mkdir.makes in
        let table = encode_dir (folder_table now r c) in
        let here : c ≡ table_cluster table =
          sym (table_cluster-folder now r c can.mkdir.makes.request small) in
        (
          record s { files = files },
          change_to path table (record s { files = files' }),
          mkdir-sys_write slot s can.mkdir now files run,
          cd_lem fuel table files files' listed,
          subst (λ d. entry_of s.files.fat_table d ≡ fat_empty_entry) here free,
          ap (λ d. encode_dir (folder_table now r d)) here,
          refl,
        )
