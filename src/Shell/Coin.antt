-- ===== src/Shell/Coin.antt =====
-- src/user-shell.c: the coin's sides.
use if2230_2023_ntaraja.Prelude.{
  ◌∙◌, refl, ap₂, ap, ℕ, zero, suc, ◌%◌, ◌≡◌, Bool, not, arith, ◌==◌, List, [], ◌∷◌,
}
use if2230_2023_ntaraja.Shell.{flipcoin}

-- The sides of the next flips
unfoldable pub flips : ℕ → ℕ → List Bool
flips zero rand_number = []
flips (suc n) rand_number = (flipcoin rand_number).0 ∷ flips n (flipcoin rand_number).1

-- The sides in turn, from the given one on
unfoldable pub in_turn : ℕ → Bool → List Bool
in_turn zero side = []
in_turn (suc n) side = side ∷ in_turn n (not side)

flipcoin_side : (x : ℕ) → (flipcoin x).0 ≡ not (x % 2 == 0)
unfolding flipcoin
flipcoin_side x = ground arith

side_kept : (x : ℕ) → ((flipcoin x).1 % 2 == 0) ≡ not (x % 2 == 0)
unfolding flipcoin
side_kept x = ground arith

-- The coin shows heads and tails in turn, whatever the number it starts from.
pub flips-in_turn :
    (n rand_number : ℕ) → flips n rand_number ≡ in_turn n (not (rand_number % 2 == 0))
unfolding flips in_turn
flips-in_turn zero x = refl
flips-in_turn (suc n) x =
    ap₂ (λ a rest. a ∷ rest) (flipcoin_side x)
      (flips-in_turn n (flipcoin x).1 ∙ ap (λ b. in_turn n (not b)) (side_kept x))
