-- ===== src/Keyboard/Editor.antt =====
-- The text and the cursor that the buffer of src/keyboard.c stands for: two lists, the characters before the
-- cursor and those from it on.
pub mod Indices
pub mod Keys
pub mod Handler
use if2230_2023_ntaraja.Prelude.{
  ℕ, zero, suc, ◌+◌, ◌-◌, ◌≡◌, ◌==◌, List, [], ◌∷◌, ◌++◌, length, take, byte_at, if◌then◌else◌,
}
use if2230_2023_ntaraja.Keyboard.{Keyboard}
use if2230_2023_ntaraja.Keyboard.Line.{IsLine}
use if2230_2023_ntaraja.Keyboard.Isr.{backspace, tab}

pub record Editor : Type 0 where
  pub before : List ℕ
  pub after : List ℕ

unfoldable pub text : Editor → List ℕ
text e = e.before ++ e.after

unfoldable pub type_char : ℕ → Editor → Editor
type_char ch e = record e { before = e.before ++ ch ∷ [] }

unfoldable pub erase : Editor → Editor
erase e = record e { before = take (length e.before - 1) e.before }

unfoldable pub go_left : Editor → Editor
go_left e =
    let n = length e.before in
    if n == 0
    then e
    else record { before = take (n - 1) e.before; after = byte_at e.before (n - 1) ∷ e.after }

unfoldable pub go_right_over : List ℕ → List ℕ → Editor
go_right_over before [] = record { before = before; after = [] }
go_right_over before (c ∷ after) = record { before = before ++ c ∷ []; after = after }

unfoldable pub go_right : Editor → Editor
go_right e = go_right_over e.before e.after

unfoldable pub spaces : ℕ → Editor → Editor
spaces zero e = e
spaces (suc n) e = spaces n (type_char b' ' e)

-- What a key does, less the one that ends the line
unfoldable pub press : ℕ → ℕ → Editor → Editor
press scancode ch e =
    if ch == backspace
    then erase e
    else if ch == tab
    then spaces 4 e
    else if ch == 0
    then (if scancode == 0x4B then go_left e else if scancode == 0x4D then go_right e else e)
    else type_char ch e

-- The driver's line is the editor's text, with the cursor at the same place.
pub record Shows {Hw : Type 0} (e : Editor) (s : Keyboard Hw) : Type 0 where
  pub line : IsLine s
  pub index : s.buffer_index ≡ length e.before
  pub max : s.buffer_index_max ≡ length e.before + length e.after
  pub chars : take s.buffer_index_max s.buffer ≡ text e
