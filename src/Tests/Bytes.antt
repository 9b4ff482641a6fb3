-- ===== src/Tests/Bytes.antt =====
-- The memory routines at concrete inputs.
use if2230_2023_ntaraja.Inserter.Device.{image_device}
use if2230_2023_ntaraja.Memory.Copy.{memmove-eq-copied, copied}
use if2230_2023_ntaraja.Memory.{memmove}
use if2230_2023_ntaraja.Prelude.{◌≡◌}

memmove-eq-copied_example : memmove 2 0 4 (λ a. a) 5 ≡ copied 2 0 4 (λ a. a) 5
memmove-eq-copied_example = memmove-eq-copied 2 0 4 (λ a. a) 5
