-- ===== src/Shell/Walk.antt =====
-- src/user-shell.c: the walk along a path, and cd. A walk down a path that is not finished when its fuel is
-- used up is `none`.
use if2230_2023_ntaraja.Prelude.{
  get_elem?, ℕ, zero, suc, ◌-◌, ◌==◌, Bool, true, false, List, Option, none, some, set, set?, drop,
  replicate, min, if◌then◌else◌,
}
use if2230_2023_ntaraja.Prelude.Opt.{◌>>=◌}
use if2230_2023_ntaraja.Disk.{BlockDevice}
use if2230_2023_ntaraja.Fat32.{root_cluster_number}
use if2230_2023_ntaraja.Fat32.Layout.{decode_dir}
use if2230_2023_ntaraja.Interrupt.{code_byte}
use if2230_2023_ntaraja.Shell.{readfname, slen, strcmp, split_path, cluster_exist}
use if2230_2023_ntaraja.Shell.Session.{
  Session, literal, white, print, empty_path, name_fields, request_for, table_cluster, received,
  copy_text, copy_string, append_char, append_text, sys_read_directory,
}

-- The path that was walked, the rest of it, and the table of the directory that was reached
pub record Walk : Type 0 where
  pub prev : List ℕ
  pub post : List ℕ
  pub table : List ℕ

-- A part of a path as a name and an extension, cut to their sizes
unfoldable pub short_fields : List ℕ → Option (List ℕ × List ℕ)
short_fields pre = do
  (name, ext) ← readfname pre (replicate 9 0) (replicate 4 0)
  n ← slen name
  name' ← copy_text (min 8 n) name 0 (replicate 8 0)
  e ← slen ext
  ext' ← copy_text (min 3 e) ext 0 (replicate 3 0)
  some (name', ext')

-- `prev` with a part of the path and a slash behind it
unfoldable pub append_part : List ℕ → List ℕ → Option (List ℕ)
append_part pre prev = do prev' ← append_text pre prev; append_char prev' b'/'

module _ {Disk : Type 0} ⦃device : BlockDevice Disk⦄ where
  -- The directory that one part of the path names is read over the table. The result is the code.
  unfoldable pub enter_part : List ℕ → Walk → Session Disk → Option ((ℕ × Walk) × Session Disk)
  enter_part pre w s = do
    (name, ext) ← short_fields pre
    (reply, s') ← sys_read_directory (request_for w.table name ext (table_cluster w.table) 0) s
    some ((code_byte reply.code, record w { table = received reply.output w.table }), s')

  -- The body of the loop for `..`: the part is noted first. The result says whether it was found.
  unfoldable pub climb : Walk → Session Disk → Option ((Bool × Walk) × Session Disk)
  climb w s = do
    temp ← copy_string w.post empty_path
    (pre, post) ← split_path temp
    prev ← append_part pre w.prev
    ((retcode, w'), s') ← enter_part pre (record w { prev = prev; post = post }) s
    some ((retcode == 0, w'), s')

  -- The body of the loop for an absolute path: the part is noted once it was found.
  unfoldable pub descend : Walk → Session Disk → Option ((Bool × Walk) × Session Disk)
  descend w s = do
    temp ← copy_string w.post empty_path
    (pre, post) ← split_path temp
    ((retcode, w'), s') ← enter_part pre (record w { post = post }) s
    if retcode == 0
        then (do prev ← append_part pre w'.prev; some ((true, record w' { prev = prev }), s'))
        else some ((false, w'), s')

  -- From the root down to the parent of `current`
  unfoldable pub walk_to_parent :
      ℕ → ℕ → Walk → Session Disk → Option ((Bool × Walk) × Session Disk)
  walk_to_parent zero current w s = none
  walk_to_parent (suc fuel) current w s = elim (cluster_exist (decode_dir 64 w.table) current) [
    | true ↦ some ((true, w), s)
    | false ↦ do
      ((found, w'), s') ← climb w s
      elim found [ false ↦ some ((false, w'), s') | true ↦ walk_to_parent fuel current w' s' ]
  ]

  -- Down the path until a slash is all that is left of it
  unfoldable pub walk_path : ℕ → Walk → Session Disk → Option ((Bool × Walk) × Session Disk)
  walk_path zero w s = none
  walk_path (suc fuel) w s = do
    n ← slen w.post
    elim (n == 1) [
      | true ↦ some ((true, w), s)
      | false ↦ do
        ((found, w'), s') ← descend w s
        elim found [ false ↦ some ((false, w'), s') | true ↦ walk_path fuel w' s' ]
    ]

  -- The directory that a walk reached becomes the current one.
  unfoldable pub change_to : List ℕ → List ℕ → Session Disk → Session Disk
  change_to name table s = record s {
    cur_dir_name = name;
    cur_table = table;
    current_dir = table_cluster table;
  }

  unfoldable pub not_found : Session Disk → Option (Session Disk)
  not_found s = print (literal "Directory not found\n") 21 white s

  unfoldable pub cd_parent : ℕ → Session Disk → Option (Session Disk)
  cd_parent fuel s =
      if s.current_dir == root_cluster_number
      then print (literal "Already at root directory\n") 27 white s
      else (do
        post ← copy_string s.cur_dir_name empty_path
        let w : Walk = record { prev = set empty_path 0 b'/'; post = post; table = s.root_table }
        ((found, w'), s') ← walk_to_parent fuel s.current_dir w s
        if found
            then (do
              n ← slen w'.prev
              name ← copy_text (n - 1) w'.prev 1 (set empty_path 0 b'/')
              some (change_to name w'.table s'))
            else not_found s')

  unfoldable pub cd_path : ℕ → List ℕ → Session Disk → Option (Session Disk)
  cd_path fuel filename s = do
    n ← slen s.cur_dir_name
    temp ← copy_text (n - 1) s.cur_dir_name 1 (set empty_path 0 b'/')
    temp' ← set? temp n 0
    post ← copy_string filename empty_path
    let w : Walk = record { prev = temp'; post = post; table = s.cur_table }
    ((found, w'), s') ← walk_path fuel w s
    if found
        then (do name ← copy_string w'.prev empty_path; some (change_to name w'.table s'))
        else not_found s'

  unfoldable pub cd_name : List ℕ → Session Disk → Option (Session Disk)
  cd_name filename s = do
    (name, ext) ← readfname filename (replicate 9 0) (replicate 4 0)
    (name', ext') ← name_fields filename
    (reply, s') ← sys_read_directory (request_for s.cur_table name' ext' s.current_dir 0) s
    if code_byte reply.code == 0
        then (do
          n ← slen name
          same ← strcmp (drop 1 s'.cur_dir_name) name n
          path ← if same then some s'.cur_dir_name else append_part name s'.cur_dir_name
          some (change_to path (received reply.output s'.cur_table) s'))
        else print (literal "No such directory\n") 18 white s'

  unfoldable pub cd : ℕ → List ℕ → Session Disk → Option (Session Disk)
  cd fuel filename s = do
    up ← strcmp (literal "..") filename 2
    first ← get_elem? filename 0
    if up
        then cd_parent fuel s
        else if first == b'/'
        then cd_path fuel filename s
        else cd_name filename s
