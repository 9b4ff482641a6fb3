-- ===== src/Memory/Copy.antt =====
-- What the loops of memset, memcpy and memmove leave in memory.
use if2230_2023_ntaraja.Prelude.{
  ℕ, zero, suc, ◌+◌, ◌-◌, ◌%◌, ◌^◌, ◌≤◌, ◌≡◌, ◌⊎◌, inl, inr, arith, ltb, Bool-cases, if◌then◌else◌,
}
use if2230_2023_ntaraja.Memory.{Mem, inside, set_loop, memset, copy_up, memcpy, copy_down, memmove}

-- The memory after a simultaneous copy of `n` bytes from `src` to `dest`.
abbrev pub copied : ℕ → ℕ → ℕ → Mem → Mem
copied dest src n m a = if inside dest n a then m (src + (a - dest)) else m a

set_loop_lem :
    (k i s c : ℕ) (m : Mem) (a : ℕ)
    → set_loop k i s c m a ≡ (if inside (s + i) k a then c % 2 ^ 8 else m a)
unfolding set_loop
set_loop_lem zero i s c m a = ground arith
set_loop_lem (suc k) i s c m a = rw (set_loop_lem k (i + 1) s c) (ground arith)

-- memset writes the low byte of its value over the area and changes nothing else.
pub memset_fills :
    (s c n : ℕ) (m : Mem) (a : ℕ) → memset s c n m a ≡ (if inside s n a then c % 2 ^ 8 else m a)
unfolding memset
memset_fills s c n m a = rw (set_loop_lem n 0 s c) (ground arith)

copy_up_lem :
    (k i dest src : ℕ) (m : Mem) (a : ℕ)
    → (dest ≤ src) ⊎ (src + i + k ≤ dest + i)
    → copy_up k i dest src m a ≡ (if inside (dest + i) k a then m (src + (a - dest)) else m a)
unfolding copy_up
copy_up_lem zero i dest src m a h = ground arith
copy_up_lem (suc k) i dest src m a h =
    rw (copy_up_lem k (i + 1) dest src _ a (omega arith)) (ground arith)

copy_down_lem :
    (n dest src : ℕ) (m : Mem) (a : ℕ)
    → src ≤ dest
    → copy_down n dest src m a ≡ copied dest src n m a
unfolding copy_down
copy_down_lem zero dest src m a h = ground arith
copy_down_lem (suc n) dest src m a h = rw (copy_down_lem n dest src _ a h) (ground arith)

-- memcpy copies between areas that do not overlap, and changes nothing else.
pub memcpy-eq-copied :
    (dest src n : ℕ) (m : Mem) (a : ℕ)
    → (dest + n ≤ src) ⊎ (src + n ≤ dest)
    → memcpy dest src n m a ≡ copied dest src n m a
unfolding memcpy
memcpy-eq-copied dest src n m a h = rw (copy_up_lem n 0 dest src m a (ground arith)) (ground arith)

-- memmove copies as if through a third buffer, however the two areas overlap.
pub memmove-eq-copied :
    (dest src n : ℕ) (m : Mem) (a : ℕ) → memmove dest src n m a ≡ copied dest src n m a
unfolding memmove
memmove-eq-copied dest src n m a = elim (Bool-cases (ltb dest src)) [
  | inl up ↦ rw (up, copy_up_lem n 0 dest src m a (ground arith)) (ground arith)
  | inr down ↦ rw (down, copy_down_lem n dest src m a (ground arith))
]
