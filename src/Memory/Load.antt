-- ===== src/Memory/Load.antt =====
-- Runs of loads from memory.
use if2230_2023_ntaraja.Prelude.{
  ◌∙◌, byte_at, List, ◌-◌, ◌∷◌, ◌∷◌, zero, suc, refl, ap₂, ap, ◌^◌, ◌%◌, arith, ◌++◌, [], ◌<◌, ◌+◌,
  ◌≡◌, ◌≤◌, Bytes, length, ℕ,
}
use native.Mathlib.Nat.{mod-eq_of_lt}
use if2230_2023_ntaraja.Memory.{Mem, load_bytes}

pub length-load_bytes : (m : Mem) (a n : ℕ) → length (load_bytes m a n) ≡ n
unfolding load_bytes
length-load_bytes m a zero = refl
length-load_bytes m a (suc n) = ap suc (length-load_bytes m (a + 1) n)

pub load_bytes-Bytes : (m : Mem) (a n : ℕ) → Bytes (load_bytes m a n)
unfolding load_bytes
load_bytes-Bytes m a zero = tt
load_bytes-Bytes m a (suc n) = (omega arith, load_bytes-Bytes m (a + 1) n)

pub load_bytes-add :
    (m : Mem) (a n k : ℕ) → load_bytes m a (n + k) ≡ load_bytes m a n ++ load_bytes m (a + n) k
unfolding load_bytes
load_bytes-add m a zero k =
    let e : zero + k ≡ k = omega arith in let e' : a + zero ≡ a = omega arith in rw (e, e')
load_bytes-add m a (suc n) k =
    let e : suc n + k ≡ suc (n + k) = omega arith in
    let e' : a + suc n ≡ a + 1 + n = omega arith in
    rw (e, e') (ap (λ t. m a % 2 ^ 8 ∷ t) (load_bytes-add m (a + 1) n k))

-- Loads see only the bytes of their range.
pub load_bytes-congr :
    (m m' : Mem) (a n : ℕ)
    → ((j : ℕ) → a ≤ j → j < a + n → m j ≡ m' j)
    → load_bytes m a n ≡ load_bytes m' a n
unfolding load_bytes
load_bytes-congr m m' a zero h = refl
load_bytes-congr m m' a (suc n) h =
    ap₂ ◌∷◌ (ap (λ t. t % 2 ^ 8) (h a (omega arith) (omega arith)))
      (load_bytes-congr m m' (a + 1) n (λ j lo hi. h j (omega arith) (omega arith)))

pub no_bytes : (m : Mem) (a : ℕ) → load_bytes m a 0 ≡ []
unfolding load_bytes
no_bytes m a = refl

-- Memory that holds the bytes of a list reads as the list.
pub load_bytes-eq :
    (m : Mem) (buf : List ℕ) (a n : ℕ)
    → length buf ≡ n
    → Bytes buf
    → ((j : ℕ) → a ≤ j → j < a + n → m j ≡ byte_at buf (j - a))
    → load_bytes m a n ≡ buf
unfolding load_bytes
load_bytes-eq m [] a zero e b h = refl
load_bytes-eq m [] a (suc n) e b h = absurd (omega arith)
load_bytes-eq m (x ∷ buf) a zero e b h = absurd (omega arith)
load_bytes-eq m (x ∷ buf) a (suc n) e b h =
    let first : m a ≡ byte_at (x ∷ buf) (a - a) = h a (omega arith) (omega arith) in
    let zero_off : a - a ≡ 0 = omega arith in
    ap₂ ◌∷◌ (ap (λ t. t % 2 ^ 8) (first ∙ ap (byte_at (x ∷ buf)) zero_off) ∙ mod-eq_of_lt b.0)
      (load_bytes-eq m buf (a + 1) n (omega arith) b.1 (λ j lo hi. tail_at j lo hi))
  where
    tail_at : (j : ℕ) → a + 1 ≤ j → j < a + 1 + n → m j ≡ byte_at buf (j - (a + 1))
    tail_at j lo hi =
        let step : j - a ≡ suc (j - (a + 1)) = omega arith in
        h j (omega arith) (omega arith) ∙ rw step
