-- ===== src/Memory/Compare.antt =====
-- memcmp as an order on byte areas.
use if2230_2023_ntaraja.Prelude.{
  ℕ, ◌+◌, ◌≤◌, ◌<◌, ◌≡◌, inl, inr, arith, ltb, ℤ, pos, negsuc, Bool-cases, ℕ_discrete, sym, zero,
  suc,
}
use if2230_2023_ntaraja.Memory.{compare_loop, memcmp}

-- The first index from `i` on where the areas differ, and which of them is below there.
abbrev pub FirstDifference : (ℕ → ℕ) → (ℕ → ℕ) → ℕ → ℕ → Type 0
FirstDifference f g i n =
    (j : ℕ) × (i ≤ j) × (j < n) × (f j < g j) × ((k : ℕ) → i ≤ k → k < j → f k ≡ g k)

-- The areas agree from `i` up to `n`.
abbrev pub Agree : (ℕ → ℕ) → (ℕ → ℕ) → ℕ → ℕ → Type 0
Agree f g i n = (k : ℕ) → i ≤ k → k < n → f k ≡ g k

-- What each result of memcmp says of the two areas.
abbrev pub Verdict : (ℕ → ℕ) → (ℕ → ℕ) → ℕ → ℕ → ℤ → Type 0
Verdict f g i n (pos zero) = Agree f g i n
Verdict f g i n (pos (suc r)) = FirstDifference g f i n
Verdict f g i n (negsuc r) = FirstDifference f g i n

Agree-from : (f g : ℕ → ℕ) (i n : ℕ) → f i ≡ g i → Agree f g (i + 1) n → Agree f g i n
Agree-from f g i n e h k lo hi = elim (ℕ_discrete i k) [
  | yes p ↦ rw (← p) e
  | no p ↦ h k (omega arith) hi
]

-- An equal byte in front changes no verdict.
Verdict-from :
    (r : ℤ) (i n : ℕ) (f g : ℕ → ℕ) → f i ≡ g i → Verdict f g (i + 1) n r → Verdict f g i n r
Verdict-from (pos zero) i n f g e h = Agree-from f g i n e h
Verdict-from (pos (suc r)) i n f g e (j, lo, hi, lt, same) =
    (j, omega arith, hi, lt, Agree-from g f i j (sym e) same)
Verdict-from (negsuc r) i n f g e (j, lo, hi, lt, same) =
    (j, omega arith, hi, lt, Agree-from f g i j e same)

compare_loop-Verdict :
    (k i n : ℕ) (f g : ℕ → ℕ) → i + k ≡ n → Verdict f g i n (compare_loop k i f g)
unfolding compare_loop
compare_loop-Verdict zero i n f g e = λ j lo hi. absurd (omega arith)
compare_loop-Verdict (suc k) i n f g e = elim (Bool-cases (ltb (f i) (g i))) [
  | inl lt ↦ rw lt (i, omega arith, omega arith, ground arith, λ j lo hi. absurd (omega arith))
  | inr ge ↦ elim (Bool-cases (ltb (g i) (f i))) [
    | inl gt ↦
        rw (ge, gt) (i, omega arith, omega arith, ground arith, λ j lo hi. absurd (omega arith))
    | inr le ↦
        rw (ge, le)
          (Verdict-from _ i n f g (ground arith)
            (compare_loop-Verdict k (i + 1) n f g (omega arith)))
  ]
]

-- memcmp returns 0 if the areas agree, a negative number if at the first difference the first
-- area has the smaller byte, and a positive one if it has the larger.
pub memcmp-Verdict : (f g : ℕ → ℕ) (n : ℕ) → Verdict f g 0 n (memcmp f g n)
unfolding memcmp
memcmp-Verdict f g n = compare_loop-Verdict n 0 n f g (omega arith)
