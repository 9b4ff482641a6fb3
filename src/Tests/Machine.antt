-- ===== src/Tests/Machine.antt =====
-- A display controller with its index and data ports, and the machine parts around it.
use if2230_2023_ntaraja.Prelude.{refl, ℕ, ◌%◌, ◌^◌, ◌==◌, if◌then◌else◌, arith}
use if2230_2023_ntaraja.Ports.{Ports}

-- The selected register, and the registers
abbrev pub Controller : Type 0
Controller = ℕ × (ℕ → ℕ)

abbrev pub controller_out : Controller → ℕ → ℕ → Controller
controller_out (k, registers) port v =
    if port == 0x3D4
    then (v, registers)
    else if port == 0x3D5
    then (k, λ j. if k == j then v % 2 ^ 8 else registers j)
    else (k, registers)

abbrev pub controller_in : Controller → ℕ → ℕ
controller_in (k, registers) port = if port == 0x1F7 then 0x40 else registers k % 2 ^ 8

-- The disk behind it is always ready.
instance abbrev pub controller : Ports Controller
controller = record {
  out = controller_out;
  in_byte = λ h port. (controller_in h port, h);
  out16 = λ h port v. h;
  in16 = λ h port. (0x4241, h);
  cursor = λ (k, registers) j. registers j % 2 ^ 8;
  in_byte-lt = λ h port. ground arith;
  select = λ h k j. refl;
  store = λ h k v j. ground arith;
  fetch = λ h k. refl;
  fetch_keeps = λ h k j. refl;
}
