-- ===== src/Shell/Commands.antt =====
-- src/user-shell.c: cat, rm, mkdir, ls, cp and flipcoin. The time, and what uninitialised memory holds, are
-- arguments.
use if2230_2023_ntaraja.Prelude.{
  take, drop, ◌++◌, ◌&&◌, ℕ, zero, suc, ◌+◌, ◌==◌, not, ltb, Bool, true, false, List, [], ◌∷◌,
  Option, none, some, set?, replicate, min, ℤ, if◌then◌else◌,
}
use if2230_2023_ntaraja.Prelude.Opt.{◌>>=◌}
use if2230_2023_ntaraja.Disk.{BlockDevice, cluster_size}
use if2230_2023_ntaraja.Fat32.{Request, DateTime}
use if2230_2023_ntaraja.Fat32.Volume.{zero_cluster}
use if2230_2023_ntaraja.Fat32.Writing.{write}
use if2230_2023_ntaraja.Fat32.Deletion.{delete}
use if2230_2023_ntaraja.Interrupt.{code_byte}
use if2230_2023_ntaraja.Shell.{readfname, slen, strcmp, checxt, flipcoin, copy_rest}
use if2230_2023_ntaraja.Shell.Session.{
  Session, literal, white, print, name_fields, request_for, name_text, ext_text, entry_at, is_used,
  received, copy_string, sys_read, sys_read_directory,
}

-- The copy up to the space: what is left behind it, and the copy
unfoldable pub copy_word : List ℕ → ℕ → List ℕ → Option (List ℕ × List ℕ)
copy_word [] i dest = none
copy_word (c ∷ text) i dest =
    if c == b' ' then some (text, dest) else do dest' ← set? dest i c; copy_word text (i + 1) dest'

-- Whether entry `i` is used, has the name, and has no extension
unfoldable pub is_duplicate : List ℕ → List ℕ → ℕ → Option Bool
is_duplicate table filename i =
    if is_used (entry_at table i)
    then (do
      n ← slen filename
      same ← strcmp (name_text table i) filename n
      if same then (do e ← slen (ext_text table i); some (e == 0)) else some false)
    else some false

-- Whether one of `rounds` entries from `i` on is such an entry
unfoldable pub exist_duplicate : ℕ → ℕ → List ℕ → List ℕ → Option Bool
exist_duplicate zero i table filename = some false
exist_duplicate (suc rounds) i table filename = do
  hit ← is_duplicate table filename i
  elim hit [ true ↦ some true | false ↦ exist_duplicate rounds (i + 1) table filename ]

module _ {Disk : Type 0} ⦃device : BlockDevice Disk⦄ where
  -- System calls 2 and 3
  unfoldable pub sys_write : DateTime → Request → Session Disk → Option (ℤ × Session Disk)
  sys_write now r s = do
    (code, files) ← write now r s.files
    some (code, record s { files = files })

  unfoldable pub sys_delete : Request → Session Disk → Option (ℤ × Session Disk)
  sys_delete r s = do (code, files) ← delete r s.files; some (code, record s { files = files })

  unfoldable pub cat : List ℕ → List ℕ → Session Disk → Option (Session Disk)
  cat stack filename s = do
    (name, ext) ← name_fields filename
    (reply, s') ← sys_read stack (request_for zero_cluster name ext s.current_dir cluster_size) s
    let cl = received reply.output zero_cluster
    size ← slen cl
    if code_byte reply.code == 0 then print cl size white s' else some s'

  unfoldable pub rm : List ℕ → Session Disk → Option (Session Disk)
  rm filename s = do
    (name, ext) ← name_fields filename
    let r = request_for [] name ext s.current_dir 0
    (reply, s') ← sys_read_directory r s
    let table = received reply.output []
    let retcode = code_byte reply.code
    if retcode == 0
        then (do
          n ← slen (name_text table 1)
          e ← slen (ext_text table 1)
          if (n == 0) && (e == 0) then (do (code, s'') ← sys_delete r s'; some s'') else some s')
        else if retcode == 1
        then (do (code, s'') ← sys_delete r s'; some s'')
        else (do
          s₁ ← print (literal "rm: cannot remove '") 20 white s'
          s₂ ← print filename 8 white s₁
          print (literal "': No such file or directory\n") 30 white s₂)

  unfoldable pub mkdir : DateTime → List ℕ → Session Disk → Option (Session Disk)
  mkdir now filename s = do
    (name, ext) ← readfname filename (replicate 9 0) (replicate 4 0)
    duplicate ← exist_duplicate 63 1 s.cur_table filename
    if duplicate
        then (do
          s₁ ← print (literal "mkdir: cannot create directory '") 33 white s
          s₂ ← print filename 8 white s₁
          print (literal "': File exists\n") 16 white s₂)
        else (do
          name' ← copy_string name (replicate 8 0)
          (code, s') ←
              sys_write now (request_for s.cur_table name' (replicate 3 0) s.current_dir 0) s
          some s')

  -- One used entry's line
  unfoldable pub list_entry : List ℕ → ℕ → Session Disk → Option (Session Disk)
  list_entry table i s = do
    n ← slen (name_text table i)
    s₁ ← print (name_text table i) (min 8 n) white s
    e ← slen (ext_text table i)
    s₂ ← if ltb 0 (min 3 e) then print (literal ".") 1 white s₁ else some s₁
    s₃ ← print (ext_text table i) (min 3 e) white s₂
    print (literal "\n") 1 white s₃

  unfoldable pub list_entries : ℕ → ℕ → List ℕ → Session Disk → Option (Session Disk)
  list_entries zero i table s = some s
  list_entries (suc rounds) i table s = do
    s' ← if is_used (entry_at table i) then list_entry table i s else some s
    list_entries rounds (i + 1) table s'

  unfoldable pub ls : Session Disk → Option (Session Disk)
  ls s = do
    name ← copy_string (name_text s.cur_table 0) (replicate 8 0)
    (reply, s') ←
        sys_read_directory (request_for s.cur_table name (replicate 3 0) s.current_dir 0) s
    let table = received reply.output s.cur_table
    list_entries 63 1 table (record s' { cur_table = table })

  -- `stack_source` and `stack_dest` are what the two arrays hold before, and what lies behind them.
  unfoldable pub cp :
      DateTime → List ℕ → List ℕ → List ℕ → List ℕ → Session Disk → Option (Session Disk)
  cp now stack stack_source stack_dest source_dest s = do
    (rest, word) ← copy_word source_dest 0 (take 12 stack_source)
    let source = word ++ drop 12 stack_source
    word' ← copy_rest rest 0 (take 12 stack_dest)
    let dest = word' ++ drop 12 stack_dest
    is_file ← checxt source
    (name, ext) ← name_fields source
    let buf = if is_file then zero_cluster else s.cur_table
    let r = request_for buf name ext s.current_dir cluster_size
    (reply, s') ← if is_file then sys_read stack r s else sys_read_directory r s
    let copied = received reply.output buf
    if not (code_byte reply.code == 2)
        then (do
          (name', ext') ← name_fields dest
          (code, s'') ←
              sys_write now
                (request_for copied name' ext' s.current_dir (if is_file then cluster_size else 0))
                s'
          some s'')
        else (do
          s₁ ← print (literal "cp: cannot stat '") 18 white s'
          s₂ ← print source 12 white s₁
          print (literal "': No such file or directory\n") 29 white s₂)

  unfoldable pub flip : Session Disk → Option (Session Disk)
  flip s =
      let (heads, next) = flipcoin s.rand_number in
      let s' : Session Disk = record s { rand_number = next } in
      print (if heads then literal "Heads\n" else literal "Tails\n") 6 white s'
