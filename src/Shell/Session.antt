-- ===== src/Shell/Session.antt =====
-- src/user-shell.c: the shell's variables, its system calls, and the strings and requests that its commands
-- build. A directory table is its 2048 bytes, since the shell reads names across field borders.
use Prim.Native.Char.{code}
use Prim.Native.String.{String}
use if2230_2023_ntaraja.Prelude.{
  ℕ, zero, suc, ◌+◌, ◌*◌, ◌==◌, not, ◌||◌, Bool, List, [], ◌∷◌, ◌++◌, Option, none, some, set?,
  get_elem?, get_or, drop, replicate, byte_at, if◌then◌else◌,
}
use if2230_2023_ntaraja.Prelude.Opt.{◌>>=◌}
use if2230_2023_ntaraja.Disk.{BlockDevice}
use if2230_2023_ntaraja.Fat32.{State, Request, DirectoryEntry, entry_cluster, zero_entry}
use if2230_2023_ntaraja.Fat32.Layout.{decode_dir}
use if2230_2023_ntaraja.Fat32.Reading.{Reply, read, read_directory}
use if2230_2023_ntaraja.Shell.{readfname, slen}

-- The file-scope variables and `rand_number`, with the file system behind the system calls and what was
-- printed so far, each text with its colour
pub record Session (Disk : Type 0) : Type 0 where
  pub files : State Disk
  pub current_dir : ℕ
  pub cur_table : List ℕ
  pub cur_dir_name : List ℕ
  pub root_table : List ℕ
  pub rand_number : ℕ
  pub screen : List (List ℕ × ℕ)

abbrev pub codes : String → List ℕ
codes String.[] = []
codes (String.◌∷◌ c s) = code c ∷ codes s

-- A string literal, with its zero
abbrev pub literal : String → List ℕ
literal s = codes s ++ 0 ∷ []

abbrev pub white : ℕ
white = 0xF

-- An array of 300 characters, all zero
abbrev pub empty_path : List ℕ
empty_path = replicate 300 0

-- The characters that the terminal shows of a text: up to its zero, `len` at most
unfoldable pub printed : ℕ → List ℕ → Option (List ℕ)
printed zero text = some []
printed (suc len) [] = none
printed (suc len) (c ∷ text) =
    if c == 0 then some [] else do rest ← printed len text; some (c ∷ rest)

-- System call 5, which prints nothing for a length of 0
unfoldable pub print : {Disk : Type 0} → List ℕ → ℕ → ℕ → Session Disk → Option (Session Disk)
print text len color s =
    if len == 0
    then some s
    else do shown ← printed len text; some (record s { screen = s.screen ++ (shown, color) ∷ [] })

-- `dest[i] = src[i]` for `rounds` indices from `i` on
unfoldable pub copy_text : ℕ → List ℕ → ℕ → List ℕ → Option (List ℕ)
copy_text zero src i dest = some dest
copy_text (suc rounds) src i dest = do
  c ← get_elem? src i
  dest' ← set? dest i c
  copy_text rounds src (i + 1) dest'

-- The same for the whole of a string
unfoldable pub copy_string : List ℕ → List ℕ → Option (List ℕ)
copy_string src dest = do n ← slen src; copy_text n src 0 dest

-- `dest[slen(dest)] = c`
unfoldable pub append_char : List ℕ → ℕ → Option (List ℕ)
append_char dest c = do n ← slen dest; set? dest n c

-- `dest[slen(dest)] = src[i]` for the first `rounds` characters
unfoldable pub append_first : ℕ → List ℕ → List ℕ → Option (List ℕ)
append_first zero src dest = some dest
append_first (suc rounds) [] dest = none
append_first (suc rounds) (c ∷ src) dest = do
  dest' ← append_char dest c
  append_first rounds src dest'

-- The same up to the end of the string
unfoldable pub append_text : List ℕ → List ℕ → Option (List ℕ)
append_text src dest = do n ← slen src; append_first n src dest

-- `request.name` and `request.ext` for a typed file name
unfoldable pub name_fields : List ℕ → Option (List ℕ × List ℕ)
name_fields filename = do
  (name, ext) ← readfname filename (replicate 9 0) (replicate 4 0)
  name' ← copy_string name (replicate 8 0)
  ext' ← copy_string ext (replicate 3 0)
  some (name', ext')

abbrev pub request_for : List ℕ → List ℕ → List ℕ → ℕ → ℕ → Request
request_for buf name ext parent size = record {
  buf = byte_at buf;
  name = name;
  ext = ext;
  parent_cluster_number = parent;
  buffer_size = size;
}

-- The characters from an entry's name on, and from its extension on
abbrev pub name_text : List ℕ → ℕ → List ℕ
name_text table i = drop (32 * i) table

abbrev pub ext_text : List ℕ → ℕ → List ℕ
ext_text table i = drop (32 * i + 8) table

abbrev pub entry_at : List ℕ → ℕ → DirectoryEntry
entry_at table i = get_or (decode_dir 64 table) i zero_entry

-- `attribute || cluster_high || cluster_low`
abbrev pub is_used : DirectoryEntry → Bool
is_used e = not (e.attribute == 0) || not (e.cluster_high == 0) || not (e.cluster_low == 0)

abbrev pub table_cluster : List ℕ → ℕ
table_cluster table = entry_cluster (entry_at table 0)

-- The buffer after a call: what the call wrote there, or what stood there
abbrev pub received : Option (List ℕ) → List ℕ → List ℕ
received none buf = buf
received (some bytes) buf = bytes

module _ {Disk : Type 0} ⦃device : BlockDevice Disk⦄ where
  -- System calls 0 and 1
  unfoldable pub sys_read : List ℕ → Request → Session Disk → Option (Reply × Session Disk)
  sys_read stack r s = do
    (reply, files) ← read stack r s.files
    some (reply, record s { files = files })

  unfoldable pub sys_read_directory : Request → Session Disk → Option (Reply × Session Disk)
  sys_read_directory r s = do
    (reply, files) ← read_directory r s.files
    some (reply, record s { files = files })
