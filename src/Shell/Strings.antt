-- ===== src/Shell/Strings.antt =====
-- src/user-shell.c: what the string helpers compute.
use if2230_2023_ntaraja.Prelude.{
  Bool-cases, ◌⊎◌, refl, ne→==, min, leb, inr, inl, eq→==, ap, ℕ, zero, suc, ◌≡◌, ◌≢◌, ◌==◌, List,
  [], ◌∷◌, ◌++◌, length, some, All, arith,
}
use if2230_2023_ntaraja.Shell.{slen, strcmp, common}

-- The length of a string is the number of characters before its zero, whatever is behind it.
pub slen-ended :
    (text rest : List ℕ) → All (λ c. c ≢ 0) text → slen (text ++ 0 ∷ rest) ≡ some (length text)
unfolding slen
slen-ended [] rest plain = refl
slen-ended (c ∷ text) rest (ne, plain) =
    rw (ne→== c 0 ne, slen-ended text rest plain) (ap some (omega arith))

common-split :
    (p rest₁ rest₂ : List ℕ) (x y n : ℕ)
    → All (λ c. c ≢ 0) p
    → (x ≡ 0) ⊎ (x ≢ y)
    → common n (p ++ x ∷ rest₁) (p ++ y ∷ rest₂) ≡ some (min n (length p))
unfolding common
common-split [] rest₁ rest₂ x y zero plain (inl e) = rw (e) refl
common-split [] rest₁ rest₂ x y (suc n) plain (inl e) = rw (e) (ap some (omega arith))
common-split [] rest₁ rest₂ x y zero plain (inr ne) = elim (Bool-cases (x == 0)) [
  | inl e ↦ rw (e) refl
  | inr e ↦ rw (e) refl
]
common-split [] rest₁ rest₂ x y (suc n) plain (inr ne) = elim (Bool-cases (x == 0)) [
  | inl e ↦ rw (e) (ap some (omega arith))
  | inr e ↦ rw (e, ne→== x y ne) (ap some (omega arith))
]
common-split (c ∷ p) rest₁ rest₂ x y zero (ne, plain) split =
    rw (ne→== c 0 ne) (ap some (omega arith))
common-split (c ∷ p) rest₁ rest₂ x y (suc n) (ne, plain) split =
    rw (ne→== c 0 ne, eq→== c c refl, common-split p rest₁ rest₂ x y n plain split)
      (ap some (omega arith))

-- Two strings share the characters of `p`, none of them zero, and then the first one ends or
-- they differ: `strcmp` of `n` characters says whether `n` is at most the number of shared
-- characters.
pub strcmp-leb :
    (p rest₁ rest₂ : List ℕ) (x y n : ℕ)
    → All (λ c. c ≢ 0) p
    → (x ≡ 0) ⊎ (x ≢ y)
    → strcmp (p ++ x ∷ rest₁) (p ++ y ∷ rest₂) n ≡ some (leb n (length p))
unfolding strcmp
strcmp-leb p rest₁ rest₂ x y n plain split =
    rw (common-split p rest₁ rest₂ x y n plain split) (ap some (ground arith))
