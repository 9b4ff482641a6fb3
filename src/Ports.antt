-- ===== src/Ports.antt =====
-- src/portio.c's in, out, in16 and out16, and the devices behind them: the hardware is a parameter. What the
-- program relies on is the text-mode cursor's register pair, an index port and a data port.
use if2230_2023_ntaraja.Prelude.{◌^◌, ◌%◌, ℕ, ◌==◌, ◌≡◌, ◌<◌, if◌then◌else◌}

-- `cursor h k` is the register `k` of the display controller. An `in` may change the device.
pub record Ports (Hw : Type 0) : Type 0 where
  pub out : Hw → ℕ → ℕ → Hw
  pub in_byte : Hw → ℕ → ℕ × Hw
  pub out16 : Hw → ℕ → ℕ → Hw
  pub in16 : Hw → ℕ → ℕ × Hw
  pub cursor : Hw → ℕ → ℕ
  pub in_byte-lt : (h : Hw) (port : ℕ) → (in_byte h port).0 < 256
  pub select : (h : Hw) (k j : ℕ) → cursor (out h 0x3D4 k) j ≡ cursor h j
  pub store :
      (h : Hw) (k v j : ℕ)
      → cursor (out (out h 0x3D4 k) 0x3D5 v) j ≡ (if k == j then v % 2 ^ 8 else cursor h j)
  pub fetch : (h : Hw) (k : ℕ) → (in_byte (out h 0x3D4 k) 0x3D5).0 ≡ cursor h k
  pub fetch_keeps : (h : Hw) (k j : ℕ) → cursor (in_byte (out h 0x3D4 k) 0x3D5).1 j ≡ cursor h j
