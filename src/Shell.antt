-- ===== src/Shell.antt =====
-- src/user-shell.c: the shell's string helpers, its search through a directory, and its coin; the commands
-- are in the children. A string is the memory from its first character on; `none` stands for an access past the end of that memory.
pub mod Strings
pub mod Coin
pub mod Session
pub mod Commands
pub mod Walk
pub mod Move
pub mod Find
pub mod Folders
pub mod Prompt
pub mod Printing
pub mod ReadOnly
use if2230_2023_ntaraja.Prelude.{
  set, replicate, ◌||◌, ℕ, zero, suc, ◌+◌, ◌*◌, ◌%◌, ◌^◌, ◌==◌, ◌&&◌, ltb, Bool, true, false, List,
  [], ◌∷◌, Option, none, some, set?, get_elem?, drop, if◌then◌else◌,
}
use if2230_2023_ntaraja.Prelude.Opt.{◌>>=◌}
use if2230_2023_ntaraja.Fat32.{DirectoryEntry, entry_cluster}

-- The copy of a name up to the point or the end: what is left of `s` at that point, where `i` counts
unfoldable pub copy_name : List ℕ → ℕ → List ℕ → Option ((List ℕ × ℕ) × List ℕ)
copy_name [] i name = none
copy_name (c ∷ s) i name =
    if (c == b'.') || (c == 0)
    then some ((s, i), name)
    else do name' ← set? name i c; copy_name s (i + 1) name'

-- The second loop, with at most `left` characters to go
unfoldable pub copy_ext : ℕ → List ℕ → ℕ → List ℕ → Option (List ℕ)
copy_ext left [] j ext = none
copy_ext zero (c ∷ s) j ext = some ext
copy_ext (suc left) (c ∷ s) j ext =
    if c == 0 then some ext else do ext' ← set? ext j c; copy_ext left s (j + 1) ext'

-- `name` and `ext` afterwards
unfoldable pub readfname : List ℕ → List ℕ → List ℕ → Option (List ℕ × List ℕ)
readfname s name ext = do
  ((rest, i), copied) ← copy_name s 0 name
  name' ← set? copied i 0
  ext' ← copy_ext 3 rest 0 ext
  some (name', ext')

-- The path's first part, up to a slash or the end: what is left behind it, and how many were copied
unfoldable pub copy_part : List ℕ → ℕ → List ℕ → Option ((List ℕ × ℕ) × List ℕ)
copy_part [] i pre = none
copy_part (c ∷ s) i pre =
    if (c == b'/') || (c == 0)
    then some ((s, i), pre)
    else do pre' ← set? pre i c; copy_part s (i + 1) pre'

unfoldable pub copy_rest : List ℕ → ℕ → List ℕ → Option (List ℕ)
copy_rest [] j post = none
copy_rest (c ∷ s) j post =
    if c == 0 then some post else do post' ← set? post j c; copy_rest s (j + 1) post'

-- `pre` and `post`, of 300 characters each
unfoldable pub split_path : List ℕ → Option (List ℕ × List ℕ)
split_path path = do
  ((rest, i), copied) ← copy_part (drop 1 path) 0 (replicate 300 0)
  pre ← set? copied (i + 1) 0
  post ← copy_rest rest 1 (set (replicate 300 0) 0 b'/')
  some (pre, post)

unfoldable pub slen : List ℕ → Option ℕ
slen [] = none
slen (c ∷ s) = if c == 0 then some 0 else do n ← slen s; some (n + 1)

-- How far the loop goes, with at most `left` characters to go
unfoldable pub common : ℕ → List ℕ → List ℕ → Option ℕ
common left [] str2 = none
common left (a ∷ str1) str2 = if a == 0 then some 0 else do
  b ← get_elem? str2 0
  elim left [
    | zero ↦ some 0
    | suc left' ↦ if a == b then (do i ← common left' str1 (drop 1 str2); some (i + 1)) else some 0
  ]

unfoldable pub strcmp : List ℕ → List ℕ → ℕ → Option Bool
strcmp str1 str2 n = do i ← common n str1 str2; some (i == n)

-- `filename[i] == '.'` for some `i` below `left`
unfoldable pub has_point : ℕ → List ℕ → Option Bool
has_point zero s = some false
has_point (suc left) [] = none
has_point (suc left) (c ∷ s) = if c == b'.' then some true else has_point left s

unfoldable pub checxt : List ℕ → Option Bool
checxt filename = do n ← slen filename; has_point n filename

-- Whether one of the entries has the cluster
unfoldable pub any_cluster : List DirectoryEntry → ℕ → Bool
any_cluster [] cluster_number = false
any_cluster (e ∷ entries) cluster_number =
    if cluster_number == entry_cluster e then true else any_cluster entries cluster_number

-- The first entry, the directory's own, is left out.
unfoldable pub cluster_exist : List DirectoryEntry → ℕ → Bool
cluster_exist table cluster_number = any_cluster (drop 1 table) cluster_number

-- `rand_number` at the start
abbrev pub rand_seed : ℕ
rand_seed = 782439012

-- Whether the coin shows heads, and the next random number
unfoldable pub flipcoin : ℕ → Bool × ℕ
flipcoin rand_number =
    let next = (rand_number * 1103515245 + 12345) % 2 ^ 32 in (next % 2 == 0, next)
