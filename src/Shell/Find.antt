-- ===== src/Shell/Find.antt =====
-- src/user-shell.c: the search through all directories for a name. A search that is not finished when its
-- fuel is used up is `none`.
use if2230_2023_ntaraja.Prelude.{
  ℕ, zero, suc, ◌+◌, ◌==◌, ltb, Bool, true, false, List, ◌++◌, Option, none, some, set, set?, drop,
  replicate, min, if◌then◌else◌,
}
use if2230_2023_ntaraja.Prelude.Opt.{◌>>=◌}
use if2230_2023_ntaraja.Disk.{BlockDevice, cluster_size}
use if2230_2023_ntaraja.Fat32.{entry_cluster}
use if2230_2023_ntaraja.Fat32.Reading.{Reply}
use if2230_2023_ntaraja.Fat32.Volume.{zero_cluster}
use if2230_2023_ntaraja.Interrupt.{code_byte}
use if2230_2023_ntaraja.Shell.{readfname, slen, strcmp}
use if2230_2023_ntaraja.Shell.Session.{
  Session, literal, white, print, empty_path, request_for, name_text, ext_text, entry_at, is_used,
  received, copy_string, append_char, append_first, append_text, sys_read_directory,
}

-- One call's variables: the directory's table, the wanted name, and the path with its copy
pub record Search : Type 0 where
  pub table : List ℕ
  pub name : List ℕ
  pub ext : List ℕ
  pub path : List ℕ
  pub saved_path : List ℕ

unfoldable pub open_search : List ℕ → List ℕ → List ℕ → Option Search
open_search filename path table = do
  saved ← copy_string path empty_path
  (name, ext) ← readfname filename (replicate 9 0) (replicate 4 0)
  some (record { table = table; name = name; ext = ext; path = path; saved_path = saved })

unfoldable pub is_hit : Search → ℕ → Option Bool
is_hit q i = do
  n ← slen q.name
  same ← strcmp (name_text q.table i) q.name n
  if same then (do e ← slen q.ext; strcmp (ext_text q.table i) q.ext e) else some false

-- `path[slen(path)] = c`, and `'\0'` behind it
unfoldable pub append_end : List ℕ → ℕ → Option (List ℕ)
append_end dest c = do dest' ← append_char dest c; append_char dest' 0

-- The path with the entry's name and a slash, and what was found with that path
unfoldable pub note_hit : List ℕ → ℕ → List ℕ → List ℕ → Option (List ℕ × List ℕ)
note_hit table i path found = do
  n ← slen (name_text table i)
  path₁ ← append_first (min 8 n) (name_text table i) path
  e ← slen (ext_text table i)
  path₂ ←
      if ltb 0 e
      then (do dotted ← append_char path₁ b'.'; append_first (min 3 e) (ext_text table i) dotted)
      else some path₁
  path₃ ← append_end path₂ b'/'
  found₁ ← append_text path₃ found
  found₂ ← append_end found₁ 10
  some (path₃, found₂)

-- The path of the directory behind entry `i`
unfoldable pub new_path : List ℕ → ℕ → List ℕ → Option (List ℕ)
new_path table i path = do
  copied ← copy_string path (replicate 2048 0)
  n ← slen path
  ended ← set? copied n 0
  named ← append_text (name_text table i) ended
  e ← slen (ext_text table i)
  dotted ←
      if ltb 0 e
      then (do d ← append_char named b'.'; append_text (ext_text table i) d)
      else some named
  append_end dotted b'/'

-- The first 300 characters of the path are cleared, and the copy put back.
unfoldable pub reset_path : Search → Option Search
reset_path q = do
  path ← copy_string q.saved_path (empty_path ++ drop 300 q.path)
  some (record q { path = path })

module _ {Disk : Type 0} ⦃device : BlockDevice Disk⦄ where
  -- System call 1 for the directory behind entry `i`
  unfoldable pub open_entry : List ℕ → ℕ → Session Disk → Option (Reply × Session Disk)
  open_entry table i s = do
    name ← copy_string (name_text table i) (replicate 8 0)
    ext ← copy_string (ext_text table i) (replicate 3 0)
    sys_read_directory
        (request_for zero_cluster name ext (entry_cluster (entry_at table i)) cluster_size) s

  -- The loop of dfsPath from entry `i` on, with `left` entries to go. The result is `found`.
  unfoldable pub dfs_path :
      ℕ → List ℕ → ℕ → ℕ → Search → List ℕ → Session Disk → Option (List ℕ × Session Disk)
  dfs_path zero filename left i q found s = none
  dfs_path (suc fuel) filename zero i q found s = some (found, s)
  dfs_path (suc fuel) filename (suc left) i q found s = do
    hit ← is_hit q i
    (path, found₁) ← if hit then note_hit q.table i q.path found else some (q.path, found)
    let q₁ : Search = record q { path = path }
    elim (is_used (entry_at q.table i)) [
      | false ↦ dfs_path fuel filename left (i + 1) q₁ found₁ s
      | true ↦ do
        deeper ← new_path q.table i path
        (reply, s₁) ← open_entry q.table i s
        elim (code_byte reply.code == 0) [
          | false ↦ dfs_path fuel filename left (i + 1) q₁ found₁ s₁
          | true ↦ do
            q₂ ← open_search filename deeper (received reply.output zero_cluster)
            (found₂, s₂) ← dfs_path fuel filename 63 1 q₂ found₁ s₁
            q₃ ← reset_path q₁
            dfs_path fuel filename left (i + 1) q₃ found₂ s₂
        ]
    ]

  -- `stack_path` is what the array for the path holds before.
  unfoldable pub whereis : ℕ → List ℕ → List ℕ → Session Disk → Option (Session Disk)
  whereis fuel stack_path filename s = do
    q ← open_search filename (set (set stack_path 0 b'/') 1 0) s.root_table
    (found, s') ← dfs_path fuel filename 63 1 q (replicate 2048 0) s
    n ← slen found
    if n == 0 then print (literal "File not found\n") 15 white s' else print found n white s'
