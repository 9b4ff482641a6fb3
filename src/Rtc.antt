-- ===== src/Rtc.antt =====
-- src/fat32.c: the clock, read over two ports. The wait for an update to end is on fuel, for how long
-- it takes is up to the clock.
use if2230_2023_ntaraja.Prelude.{ℕ, zero, suc, ◌==◌, bit_and, true, false, Option, none, some}
use if2230_2023_ntaraja.Prelude.Opt.{◌>>=◌}
use if2230_2023_ntaraja.Fat32.{DateTime}
use if2230_2023_ntaraja.Ports.{Ports}

module _ {Hw : Type 0} ⦃ports : Ports Hw⦄ where
  unfoldable pub rtc_updating : Hw → ℕ × Hw
  rtc_updating h = let (v, h') = ports.in_byte (ports.out h 0x70 0x0A) 0x71 in (bit_and v 0x80, h')

  unfoldable pub get_rtc_register : ℕ → Hw → ℕ × Hw
  get_rtc_register reg h = ports.in_byte (ports.out h 0x70 reg) 0x71

  pub rtc_wait : ℕ → Hw → Option Hw
  rtc_wait zero h = none
  rtc_wait (suc fuel) h =
      let (updating, h') = rtc_updating h in
      elim (updating == 0) [ true ↦ some h' | false ↦ rtc_wait fuel h' ]

  unfoldable pub init_rtc : ℕ → Hw → Option (DateTime × Hw)
  init_rtc fuel h = do
    h₀ ← rtc_wait fuel h
    let (second, h₁) = get_rtc_register 0x00 h₀
    let (minute, h₂) = get_rtc_register 0x02 h₁
    let (hour, h₃) = get_rtc_register 0x04 h₂
    let (day, h₄) = get_rtc_register 0x07 h₃
    let (month, h₅) = get_rtc_register 0x08 h₄
    let (year, h₆) = get_rtc_register 0x09 h₅
    some (
      record {
        year = year;
        month = month;
        day = day;
        hour = hour;
        minute = minute;
        second = second;
      },
      h₆,
    )
