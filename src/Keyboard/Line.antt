-- ===== src/Keyboard/Line.antt =====
-- The buffer of src/keyboard.c as a line with a cursor in it, and what one shifted byte does to it.
use if2230_2023_ntaraja.Prelude.{
  if◌then◌else◌, ◌≤◌, ℕ_discrete, suc, set, refl, ne→==, ltb, length, leb, get_or-set_self,
  get_or-set_ne, eq→==, byte_at, arith, List, ◌==◌, ◌<◌, ◌-◌, ◌+◌, ◌&&◌, ℕ, ◌≡◌,
}
use if2230_2023_ntaraja.Keyboard.{Keyboard, keyboard_buffer_size}

-- The cursor is inside the line, and the line inside the buffer, with a byte to spare.
pub record IsLine {Hw : Type 0} (s : Keyboard Hw) : Type 0 where
  pub width : length s.buffer ≡ keyboard_buffer_size
  pub cursor : s.buffer_index ≤ s.buffer_index_max
  pub small : s.buffer_index_max < keyboard_buffer_size

pub byte_at-set :
    (xs : List ℕ) (i v j : ℕ)
    → i < length xs
    → byte_at (set xs i v) j ≡ (if i == j then v else byte_at xs j)
byte_at-set xs i v j lt = elim (ℕ_discrete i j) [
  | yes e ↦ rw (← e, eq→== i i refl) (get_or-set_self xs i v 0 lt)
  | no ne ↦ rw (ne→== i j ne) (get_or-set_ne xs i j v 0 ne)
]

pub shifted-suc :
    (xs : List ℕ) (i rounds j : ℕ)
    → i + suc rounds < length xs
    → (if ltb i j && leb j (i + rounds)
        then byte_at (set xs (i + suc rounds) (byte_at xs (i + rounds))) (j - 1)
        else byte_at (set xs (i + suc rounds) (byte_at xs (i + rounds))) j)
      ≡ (if ltb i j && leb j (i + suc rounds) then byte_at xs (j - 1) else byte_at xs j)
shifted-suc xs i rounds j lt =
    rw (byte_at-set xs (i + suc rounds) (byte_at xs (i + rounds)) (j - 1) lt)
      (rw (byte_at-set xs (i + suc rounds) (byte_at xs (i + rounds)) j lt) (ground arith))

pub moved_bytes :
    (xs : List ℕ) (ii max j : ℕ)
    → ii ≤ max
    → ii < length xs
    → (if leb (ii + 1) j && leb j max
        then byte_at (set xs ii (byte_at xs (ii + 1))) (j + 1)
        else byte_at (set xs ii (byte_at xs (ii + 1))) j)
      ≡ (if leb ii j && leb j max then byte_at xs (j + 1) else byte_at xs j)
moved_bytes xs ii max j le lt = rw (byte_at-set xs ii (byte_at xs (ii + 1)) (j + 1) lt) (
    rw (byte_at-set xs ii (byte_at xs (ii + 1)) j lt)
      (elim (ℕ_discrete ii j) [ yes e ↦ rw (← e) (ground arith) | no ne ↦ ground arith ]))
