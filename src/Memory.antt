-- ===== src/Memory.antt =====
-- src/stdmem.c: the byte loops of the freestanding library, over memory as a function from
-- addresses to bytes. A loop recurs on the rounds that are left.
pub mod Copy
pub mod Compare
pub mod Load
use if2230_2023_ntaraja.Prelude.{
  List, [], ◌∷◌, ℕ, zero, suc, ◌+◌, ◌-◌, ◌%◌, ◌^◌, Bool, ◌&&◌, ltb, leb, ◌==◌, if◌then◌else◌, ℤ,
  pos, negsuc,
}

abbrev pub Mem : Type 0
Mem = ℕ → ℕ

abbrev pub poke : Mem → ℕ → ℕ → Mem
poke m a v b = if a == b then v else m b

-- The address `a` is one of the `n` bytes from `p` on.
abbrev pub inside : ℕ → ℕ → ℕ → Bool
inside p n a = leb p a && ltb a (p + n)

-- `for (i = 0; i < n; i++) buf[i] = c`, from round `i` on
set_loop : ℕ → ℕ → ℕ → ℕ → Mem → Mem
set_loop zero i s c m = m
set_loop (suc k) i s c m = set_loop k (i + 1) s c (poke m (s + i) (c % 2 ^ 8))

pub memset : ℕ → ℕ → ℕ → Mem → Mem
unfolding set_loop
memset s c n m = set_loop n 0 s c m

-- `for (i = 0; i < n; i++) dstbuf[i] = srcbuf[i]`
copy_up : ℕ → ℕ → ℕ → ℕ → Mem → Mem
copy_up zero i dest src m = m
copy_up (suc k) i dest src m = copy_up k (i + 1) dest src (poke m (dest + i) (m (src + i)))

pub memcpy : ℕ → ℕ → ℕ → Mem → Mem
unfolding copy_up
memcpy dest src n m = copy_up n 0 dest src m

-- `for (i = n; i != 0; i--) dstbuf[i-1] = srcbuf[i-1]`
copy_down : ℕ → ℕ → ℕ → Mem → Mem
copy_down zero dest src m = m
copy_down (suc i) dest src m = copy_down i dest src (poke m (dest + i) (m (src + i)))

pub memmove : ℕ → ℕ → ℕ → Mem → Mem
unfolding copy_up copy_down
memmove dest src n m = if ltb dest src then copy_up n 0 dest src m else copy_down n dest src m

-- The two buffers are read through `buf1` and `buf2`.
compare_loop : ℕ → ℕ → (ℕ → ℕ) → (ℕ → ℕ) → ℤ
compare_loop zero i buf1 buf2 = pos 0
compare_loop (suc k) i buf1 buf2 =
    let rest = compare_loop k (i + 1) buf1 buf2 in
    if ltb (buf1 i) (buf2 i) then negsuc 0 else if ltb (buf2 i) (buf1 i) then pos 1 else rest

unfoldable pub memcmp : (ℕ → ℕ) → (ℕ → ℕ) → ℕ → ℤ
unfolding compare_loop
memcmp s1 s2 n = compare_loop n 0 s1 s2

-- The `n` bytes from `a` on, as loads of `uint8_t`
unfoldable pub load_bytes : Mem → ℕ → ℕ → List ℕ
load_bytes m a zero = []
load_bytes m a (suc n) = m a % 2 ^ 8 ∷ load_bytes m (a + 1) n
