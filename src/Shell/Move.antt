-- ===== src/Shell/Move.antt =====
-- src/user-shell.c: mv.
use if2230_2023_ntaraja.Prelude.{
  ℕ, zero, suc, ◌+◌, ◌-◌, ◌==◌, Bool, true, false, List, [], ◌∷◌, Option, none, some, set, set?,
  get_elem?, replicate, if◌then◌else◌,
}
use if2230_2023_ntaraja.Prelude.Opt.{◌>>=◌}
use if2230_2023_ntaraja.Disk.{BlockDevice, cluster_size}
use if2230_2023_ntaraja.Fat32.{DateTime, root_cluster_number}
use if2230_2023_ntaraja.Fat32.Layout.{decode_dir}
use if2230_2023_ntaraja.Fat32.Volume.{zero_cluster}
use if2230_2023_ntaraja.Shell.{slen, strcmp, checxt, cluster_exist, copy_rest}
use if2230_2023_ntaraja.Shell.Session.{
  Session, literal, white, print, empty_path, name_fields, request_for, table_cluster, received,
  copy_text, copy_string, sys_read, sys_read_directory,
}
use if2230_2023_ntaraja.Shell.Commands.{copy_word, sys_write, rm, cp}
use if2230_2023_ntaraja.Shell.Walk.{Walk, climb, descend, not_found}

-- The slashes among the first `rounds` characters
unfoldable pub count_slashes : ℕ → List ℕ → Option ℕ
count_slashes zero text = some 0
count_slashes (suc rounds) [] = none
count_slashes (suc rounds) (c ∷ text) = do
  n ← count_slashes rounds text
  some (if c == b'/' then n + 1 else n)

-- The characters behind the last of `nslash` slashes, to `fname` from index `j` on
unfoldable pub copy_last : ℕ → ℕ → ℕ → List ℕ → ℕ → List ℕ → Option (List ℕ)
copy_last zero nslash passed text j fname = some fname
copy_last (suc rounds) nslash passed [] j fname = none
copy_last (suc rounds) nslash passed (c ∷ text) j fname =
    let passed' = if c == b'/' then passed + 1 else passed in
    if passed == nslash
    then (do fname' ← set? fname j c; copy_last rounds nslash passed' text (j + 1) fname')
    else copy_last rounds nslash passed' text j fname

module _ {Disk : Type 0} ⦃device : BlockDevice Disk⦄ where
  -- The walk from the root, one part for each slash at most
  unfoldable pub walk_slashes : ℕ → ℕ → Walk → Session Disk → Option ((Bool × Walk) × Session Disk)
  walk_slashes zero current w s = some ((true, w), s)
  walk_slashes (suc nslash) current w s = elim (cluster_exist (decode_dir 64 w.table) current) [
    | true ↦ some ((true, w), s)
    | false ↦ do
      ((found, w'), s') ← climb w s
      elim found [ false ↦ some ((false, w'), s') | true ↦ walk_slashes nslash current w' s' ]
  ]

  -- The walk down an absolute path, one part for each slash but the last
  unfoldable pub walk_parts : ℕ → Walk → Session Disk → Option ((Bool × Walk) × Session Disk)
  walk_parts zero w s = some ((true, w), s)
  walk_parts (suc parts) w s = do
    ((found, w'), s') ← descend w s
    elim found [ false ↦ some ((false, w'), s') | true ↦ walk_parts parts w' s' ]

  -- The file or folder is made anew in the directory with that table, and removed from the current one.
  unfoldable pub move_to :
      DateTime → List ℕ → List ℕ → List ℕ → List ℕ → Session Disk → Option (Session Disk)
  move_to now stack source fname table s = do
    (name, ext) ← name_fields source
    (reply, s₁) ← sys_read stack (request_for zero_cluster name ext s.current_dir cluster_size) s
    let cl = received reply.output zero_cluster
    (name', ext') ← name_fields fname
    is_file ← checxt source
    let size = if is_file then cluster_size else 0
    (reply', s₂) ← sys_read_directory (request_for cl name' ext' (table_cluster table) size) s₁
    let copied = received reply'.output cl
    (code, s₃) ← sys_write now (request_for copied name' ext' (table_cluster table) size) s₂
    rm source s₃

  unfoldable pub move_up :
      DateTime → List ℕ → List ℕ → List ℕ → ℕ → Session Disk → Option (Session Disk)
  move_up now stack source fname nslash s =
      if s.current_dir == root_cluster_number
      then print (literal "Already at root directory\n") 27 white s
      else (do
        post ← copy_string s.cur_dir_name empty_path
        let w : Walk = record { prev = set empty_path 0 b'/'; post = post; table = s.root_table }
        ((found, w'), s') ← walk_slashes nslash s.current_dir w s
        if found then move_to now stack source fname w'.table s' else not_found s')

  unfoldable pub move_down :
      DateTime → List ℕ → List ℕ → List ℕ → List ℕ → ℕ → Session Disk → Option (Session Disk)
  move_down now stack source fname dest nslash s = do
    n ← slen s.cur_dir_name
    temp ← copy_text (n - 1) s.cur_dir_name 1 (set empty_path 0 b'/')
    temp' ← set? temp n 0
    post ← copy_string dest empty_path
    length_dest ← slen dest
    let w : Walk = record { prev = temp'; post = post; table = s.cur_table }
    ((found, w'), s') ← walk_parts (if length_dest == 1 then 0 else nslash - 1) w s
    if found then move_to now stack source fname w'.table s' else not_found s'

  unfoldable pub mv :
      DateTime → List ℕ → List ℕ → List ℕ → List ℕ → Session Disk → Option (Session Disk)
  mv now stack stack_source stack_dest source_dest s = do
    (rest, source) ← copy_word source_dest 0 (replicate 13 0)
    dest ← copy_rest rest 0 empty_path
    n ← slen dest
    nslash ← count_slashes n dest
    fname ← copy_last n nslash 0 dest 0 (replicate 13 0)
    up ← strcmp (literal "..") dest 2
    first ← get_elem? dest 0
    if up
        then move_up now stack source fname nslash s
        else if first == b'/'
        then move_down now stack source fname dest nslash s
        else (do s' ← cp now stack stack_source stack_dest source_dest s; rm source s')
