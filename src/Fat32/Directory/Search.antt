-- ===== src/Fat32/Directory/Search.antt =====
-- The searches of a directory table, and names compared by memcmp.
use if2230_2023_ntaraja.Prelude.{
  ℕ, zero, suc, ◌+◌, ◌-◌, ◌≤◌, ◌<◌, ◌≡◌, refl, ap₂, inl, inr, ◌↔◌, Bool, true, false, arith, List,
  [], ◌∷◌, length, get_or, byte_at, ℤ, pos, negsuc, is_zero, Bool-cases,
}
use if2230_2023_ntaraja.Memory.{memcmp}
use if2230_2023_ntaraja.Memory.Compare.{Verdict, Agree, memcmp-Verdict}
use if2230_2023_ntaraja.Fat32.{DirectoryEntry, zero_entry}
use if2230_2023_ntaraja.Fat32.Directory.{same_bytes, index_of}

is_zero-Agree : (f g : ℕ → ℕ) (n : ℕ) (v : ℤ) → Verdict f g 0 n v → is_zero v ≡ true → Agree f g 0 n
is_zero-Agree f g n (pos zero) h e = h
is_zero-Agree f g n (pos (suc k)) h e = cc
is_zero-Agree f g n (negsuc k) h e = cc

is_zero_self : (f : ℕ → ℕ) (n : ℕ) (v : ℤ) → Verdict f f 0 n v → is_zero v ≡ true
is_zero_self f n (pos zero) h = refl
is_zero_self f n (pos (suc k)) (j, lo, hi, lt, same) = absurd (omega arith)
is_zero_self f n (negsuc k) (j, lo, hi, lt, same) = absurd (omega arith)

eq_of_bytes :
    (n : ℕ) (a b : List ℕ)
    → length a ≡ n
    → length b ≡ n
    → ((k : ℕ) → k < n → byte_at a k ≡ byte_at b k)
    → a ≡ b
eq_of_bytes n [] [] ea eb h = refl
eq_of_bytes n [] (y ∷ b) ea eb h = absurd (omega arith)
eq_of_bytes n (x ∷ a) [] ea eb h = absurd (omega arith)
eq_of_bytes zero (x ∷ a) (y ∷ b) ea eb h = absurd (omega arith)
eq_of_bytes (suc n) (x ∷ a) (y ∷ b) ea eb h =
    ap₂ ◌∷◌ (h 0 (omega arith))
      (eq_of_bytes n a b (omega arith) (omega arith) (λ k lt. h (suc k) (omega arith)))

-- Two names of the compared length are equal as the code compares them just if they are equal.
pub same_bytes_iff :
    (a b : List ℕ) (n : ℕ) → length a ≡ n → length b ≡ n → (same_bytes a b n ≡ true) ↔ (a ≡ b)
unfolding same_bytes
same_bytes_iff a b n ea eb = (there, back)
  where
    there : is_zero (memcmp (byte_at a) (byte_at b) n) ≡ true → a ≡ b
    there e =
        let h = is_zero-Agree (byte_at a) (byte_at b) n _ (memcmp-Verdict _ _ n) e in
        eq_of_bytes n a b ea eb (λ k lt. h k (omega arith) lt)

    back : a ≡ b → is_zero (memcmp (byte_at a) (byte_at b) n) ≡ true
    back e = rw e (is_zero_self (byte_at b) n _ (memcmp-Verdict _ _ n))

pub same_bytes_self : (a : List ℕ) (n : ℕ) → same_bytes a a n ≡ true
unfolding same_bytes
same_bytes_self a n = is_zero_self (byte_at a) n _ (memcmp-Verdict _ _ n)

-- What an index says of the table: the first entry that passes the test, or none does.
abbrev pub FirstIndex : (DirectoryEntry → Bool) → ℕ → List DirectoryEntry → ℤ → Type 0
FirstIndex test i dir (pos j) =
    (i ≤ j)
    × (j < i + length dir)
    × (test (get_or dir (j - i) zero_entry) ≡ true)
    × ((k : ℕ) → k < j - i → test (get_or dir k zero_entry) ≡ false)
FirstIndex test i dir (negsuc r) =
    (r ≡ 0) × ((k : ℕ) → k < length dir → test (get_or dir k zero_entry) ≡ false)

FirstIndex-cons :
    (test : DirectoryEntry → Bool) (i : ℕ) (e : DirectoryEntry) (dir : List DirectoryEntry) (v : ℤ)
    → test e ≡ false
    → FirstIndex test (i + 1) dir v
    → FirstIndex test i (e ∷ dir) v
FirstIndex-cons test i e dir (pos j) fail (lo, hi, hit, before) =
    (omega arith, omega arith, rw step hit, earlier)
  where
    step : j - i ≡ suc (j - (i + 1))
    step = omega arith

    earlier : (k : ℕ) → k < j - i → test (get_or (e ∷ dir) k zero_entry) ≡ false
    earlier zero lt = fail
    earlier (suc k) lt = before k (omega arith)
FirstIndex-cons test i e dir (negsuc r) fail (z, none_passes) = (z, all)
  where
    all : (k : ℕ) → k < suc (length dir) → test (get_or (e ∷ dir) k zero_entry) ≡ false
    all zero lt = fail
    all (suc k) lt = none_passes k (omega arith)

-- The search through a directory returns the first entry that passes the test, and -1 just if
-- none does.
pub index_of-FirstIndex :
    (test : DirectoryEntry → Bool) (i : ℕ) (dir : List DirectoryEntry)
    → FirstIndex test i dir (index_of test i dir)
unfolding index_of
index_of-FirstIndex test i [] = (refl, λ k lt. absurd (omega arith))
index_of-FirstIndex test i (e ∷ dir) = elim (Bool-cases (test e)) [
  | inl hit ↦
      let z : i - i ≡ 0 = omega arith in
      rw hit (omega arith, omega arith, rw z hit, λ k lt. absurd (omega arith))
  | inr miss ↦ rw miss (FirstIndex-cons test i e dir _ miss (index_of-FirstIndex test (i + 1) dir))
]

-- An index with that property is what the search returns.
pub index_of-eq :
    (test : DirectoryEntry → Bool) (i j : ℕ) (dir : List DirectoryEntry)
    → j < length dir
    → test (get_or dir j zero_entry) ≡ true
    → ((k : ℕ) → k < j → test (get_or dir k zero_entry) ≡ false)
    → index_of test i dir ≡ pos (i + j)
unfolding index_of
index_of-eq test i j [] lt hit before = absurd (omega arith)
index_of-eq test i zero (e ∷ dir) lt hit before = let z : i + zero ≡ i = omega arith in rw (hit, z)
index_of-eq test i (suc j) (e ∷ dir) lt hit before =
    let s : i + suc j ≡ i + 1 + j = omega arith in
    rw (before 0 (omega arith), s)
      (index_of-eq test (i + 1) j dir (omega arith) hit (λ k p. before (suc k) (omega arith)))

-- Where no entry passes the test, the search returns -1.
pub index_of_none :
    (test : DirectoryEntry → Bool) (i : ℕ) (dir : List DirectoryEntry)
    → ((k : ℕ) → k < length dir → test (get_or dir k zero_entry) ≡ false)
    → index_of test i dir ≡ negsuc 0
unfolding index_of
index_of_none test i [] none_passes = refl
index_of_none test i (e ∷ dir) none_passes =
    rw (none_passes 0 (omega arith))
      (index_of_none test (i + 1) dir (λ k lt. none_passes (suc k) (omega arith)))
