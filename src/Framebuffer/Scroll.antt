-- ===== src/Framebuffer/Scroll.antt =====
-- What a scroll leaves on the screen.
use if2230_2023_ntaraja.Memory.Copy.{memcpy-eq-copied, memset_fills}
use if2230_2023_ntaraja.Memory.{memcpy, inside, Mem}
use if2230_2023_ntaraja.Prelude.{
  ◌∙◌, ltb, inl, if◌then◌else◌, ◌≡◌, ℕ, zero, suc, arith, ◌==◌, ◌-◌, ◌+◌, ◌*◌, ◌%◌,
}
use if2230_2023_ntaraja.Framebuffer.{scroll, scroll_rows, blank_cells}

blank_cells_lem :
    (rounds i : ℕ) (m : Mem) (a : ℕ)
    → blank_cells rounds i m a
      ≡ (if inside i (2 * rounds) a then (if (a - i) % 2 == 0 then 0x00 else 0x07) else m a)
unfolding blank_cells
blank_cells_lem zero i m a = ground arith
blank_cells_lem (suc rounds) i m a =
    rw (blank_cells_lem rounds (i + 2), memset_fills, memset_fills) (ground arith)

-- One round of the scroll copies one cell, of two bytes.
cell_copied :
    (i : ℕ) (m : Mem) (b : ℕ)
    → memcpy (i + 1) (i + 161) 1 (memcpy i (i + 160) 1 m) b
      ≡ (if b == i then m (i + 160) else if b == i + 1 then m (i + 161) else m b)
cell_copied i m b =
    let second =
      memcpy-eq-copied (i + 1) (i + 161) 1 (memcpy i (i + 160) 1 m) b (inl (omega arith)) in
    let far = memcpy-eq-copied i (i + 160) 1 m (i + 161 + (b - (i + 1))) (inl (omega arith)) in
    let near = memcpy-eq-copied i (i + 160) 1 m b (inl (omega arith)) in
    second ∙ rw (far, near) (ground arith)

scroll_rows_lem :
    (rounds i : ℕ) (m : Mem) (a : ℕ)
    → scroll_rows rounds i m a ≡ (if inside i (2 * rounds) a then m (a + 160) else m a)
unfolding scroll_rows
scroll_rows_lem zero i m a = ground arith
scroll_rows_lem (suc rounds) i m a =
    rw (scroll_rows_lem rounds (i + 2), cell_copied i m (a + 160), cell_copied i m a) (ground arith)

-- Scrolling moves each of the first 24 rows' bytes from the row below, fills the last row with
-- blank cells, and leaves the memory behind the screen alone.
pub scroll_lem :
    (m : Mem) (a : ℕ)
    → scroll m a ≡ (
        if ltb a 3840
        then m (a + 160)
        else if ltb a 4000
        then (if a % 2 == 0 then 0x00 else 0x07)
        else m a)
unfolding scroll
scroll_lem m a = rw (blank_cells_lem 80 3840, scroll_rows_lem 1920 0) (ground arith)
