-- ===== src/Keyboard/Editor/Indices.antt =====
-- Lists of bytes by their indices.
use if2230_2023_ntaraja.Prelude.{
  ℕ_discrete, min, length-take, length-append, leb, eq→==, dec_lt, ◌==◌, ◌&&◌, refl, ap₂, ap, ℕ,
  zero, suc, ◌+◌, ◌-◌, ◌<◌, ◌≤◌, ◌≡◌, ltb, List, [], ◌∷◌, ◌++◌, length, take, byte_at,
  if◌then◌else◌, arith,
}

pub byte_at-append :
    (xs ys : List ℕ) (j : ℕ)
    → byte_at (xs ++ ys) j
      ≡ (if ltb j (length xs) then byte_at xs j else byte_at ys (j - length xs))
byte_at-append [] ys j = ground arith
byte_at-append (x ∷ xs) ys zero = ground arith
byte_at-append (x ∷ xs) ys (suc j) = rw (byte_at-append xs ys j) (ground arith)

pub byte_at-take : (n : ℕ) (xs : List ℕ) (j : ℕ) → j < n → byte_at (take n xs) j ≡ byte_at xs j
byte_at-take zero xs j lt = absurd (omega arith)
byte_at-take (suc n) [] j lt = refl
byte_at-take (suc n) (x ∷ xs) zero lt = refl
byte_at-take (suc n) (x ∷ xs) (suc j) lt = byte_at-take n xs j (omega arith)

-- A prefix is what its bytes say.
pub take-eq :
    (xs ys : List ℕ)
    → length ys ≤ length xs
    → ((j : ℕ) → j < length ys → byte_at xs j ≡ byte_at ys j)
    → take (length ys) xs ≡ ys
take-eq xs [] le h = refl
take-eq [] (y ∷ ys) le h = absurd (omega arith)
take-eq (x ∷ xs) (y ∷ ys) le h =
    ap₂ ◌∷◌ (h 0 (omega arith)) (take-eq xs ys (omega arith) (λ j lt. h (suc j) (omega arith)))

pub take-snoc :
    (n : ℕ) (xs ys : List ℕ) → suc n ≡ length xs → take n xs ++ byte_at xs n ∷ ys ≡ xs ++ ys
take-snoc n [] ys e = absurd (omega arith)
take-snoc zero (x ∷ []) ys e = refl
take-snoc zero (x ∷ z ∷ xs) ys e = absurd (omega arith)
take-snoc (suc n) (x ∷ xs) ys e = ap (λ t. x ∷ t) (take-snoc n xs ys (omega arith))

-- A character put between two lists, by indices
pub byte_at-inserted :
    (b a buf : List ℕ) (ch j : ℕ)
    → ((k : ℕ) → k < length b + length a → byte_at buf k ≡ byte_at (b ++ a) k)
    → j < length b + 1 + length a
    → (if length b == j
        then ch
        else if ltb (length b) j && leb j (length b + length a)
        then byte_at buf (j - 1)
        else byte_at buf j)
      ≡ byte_at ((b ++ ch ∷ []) ++ a) j
byte_at-inserted b a buf ch j h lt =
    rw (byte_at-append (b ++ ch ∷ []) a j, byte_at-append b (ch ∷ []) j, length-append b (ch ∷ []))
      (elim (ℕ_discrete (length b) j) [
        | yes e ↦
            let z : j - length b ≡ 0 = omega arith in rw (eq→== (length b) j e, z) (ground arith)
        | no ne ↦ elim (dec_lt j (length b)) [
          | yes before ↦ ground (arith, h j (omega arith), byte_at-append b a j)
          | no behind ↦
              let shift : j - 1 - length b ≡ j - (length b + 1) = omega arith in
              ground (arith, h (j - 1) (omega arith), byte_at-append b a (j - 1), shift)
        ]
      ])

-- The last character before the border of two lists taken out
pub byte_at-removed :
    (b a buf : List ℕ) (j : ℕ)
    → 0 < length b
    → ((k : ℕ) → k < length b + length a → byte_at buf k ≡ byte_at (b ++ a) k)
    → j + 1 < length b + length a
    → (if length b + length a == j
        then b' '
        else if leb (length b - 1) j && leb j (length b + length a)
        then byte_at buf (j + 1)
        else byte_at buf j)
      ≡ byte_at (take (length b - 1) b ++ a) j
byte_at-removed b a buf j some_left h lt =
    rw (byte_at-append (take (length b - 1) b) a j, length-take (length b - 1) b)
      (elim (dec_lt j (length b - 1)) [
        | yes before ↦
            ground (
              arith,
              h j (omega arith),
              byte_at-append b a j,
              byte_at-take (length b - 1) b j before,
            )
        | no behind ↦
            let shift : j + 1 - length b ≡ j - min (length b - 1) (length b) = omega arith in
            ground (arith, h (j + 1) (omega arith), byte_at-append b a (j + 1), shift)
      ])

pub take_all_short : (xs : List ℕ) → length xs ≡ 0 → take (length xs - 1) xs ≡ xs
take_all_short [] e = refl
take_all_short (x ∷ xs) e = absurd (omega arith)
