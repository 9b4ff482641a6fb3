-- ===== src/Keyboard/Requests.antt =====
-- src/keyboard.c and the line request of src/interrupt.c: the order in which the driver's operations are
-- called, and what holds between them.
pub mod Progress
use if2230_2023_ntaraja.Keyboard.Sound.{
  IsSound, keyboard_isr-IsSound, keyboard_isr-IsQuiet, IsQuiet,
}
use if2230_2023_ntaraja.Keyboard.Erasing.{keyboard_delete-Deleted}
use if2230_2023_ntaraja.Keyboard.Typing.{keyboard_insert-Typed}
use if2230_2023_ntaraja.Prelude.{
  byte_at, sym, if_either, false≢true, set, length-set, eq→==, ==→ne, replicate, ltb, length, leb,
  inr, inl, get_elem?, dec_lt, arith, Option-cases, Bool-cases, ℕ, zero, suc, ◌+◌, ◌-◌, ◌^◌, ◌%◌,
  ◌≡◌, ◌∙◌, ◌<◌, ◌==◌, refl, Bool, true, false, List, Option, none, some,
}
use if2230_2023_ntaraja.Prelude.Opt.{Returns, Returns-some, Returns-bind}
use if2230_2023_ntaraja.Ports.{Ports}
use if2230_2023_ntaraja.Framebuffer.{framebuffer_get_cursor, Display}
use if2230_2023_ntaraja.Keyboard.{
  keyboard_buffer_size, clear_buffer, Keyboard, keyboard_insert, keyboard_delete, shift_left,
  keyboard_state_activate, get_keyboard_buffer,
}
use if2230_2023_ntaraja.Keyboard.Line.{IsLine}
use if2230_2023_ntaraja.Keyboard.Isr.{
  scancode_map, acknowledge, keyboard_isr, handle_key, tab_key, left_key, right_key, enter_key,
}

-- Whether a system call waits for a line
pub data Phase : Type 0 where
  idle waiting : Phase

-- The driver as it is in memory before anything is called
abbrev pub at_boot : {Hw : Type 0} → Display Hw → Keyboard Hw
at_boot d = record {
  input_on = false;
  buffer_index = 0;
  buffer_index_max = 0;
  buffer = replicate 256 0;
  display = d;
}

module _ {Hw : Type 0} ⦃ports : Ports Hw⦄ where
  -- The states that the kernel's calls lead to: a request starts the input, keys arrive at any time,
  -- others draw on the screen, and the line is fetched once the input has stopped.
  pub data Run : Phase → Keyboard Hw → Type 0 where
    booted : (d : Display Hw) → Run idle (at_boot d)
    requested : (s : Keyboard Hw) → Run idle s → Run waiting (keyboard_state_activate s)
    interrupted :
        (phase : Phase) (s s' : Keyboard Hw) → Run phase s → keyboard_isr s ≡ some s' → Run phase s'
    drawn :
        (phase : Phase) (s : Keyboard Hw) (d : Display Hw)
        → Run phase s
        → Run phase (record s { display = d })
    fetched :
        (s : Keyboard Hw) → Run waiting s → s.input_on ≡ false → Run idle (get_keyboard_buffer s).1

  Between : Phase → Keyboard Hw → Type 0
  Between idle s = IsQuiet s
  Between waiting s = IsSound s

  keyboard_isr-Between :
      (phase : Phase) (s : Keyboard Hw) → Between phase s → Returns (Between phase) (keyboard_isr s)
  unfolding Between
  keyboard_isr-Between idle s h = keyboard_isr-IsQuiet s h
  keyboard_isr-Between waiting s h = keyboard_isr-IsSound s h

  Between-drawn :
      (phase : Phase) (s : Keyboard Hw) (d : Display Hw)
      → Between phase s
      → Between phase (record s { display = d })
  unfolding Between
  Between-drawn idle s d h =
      let l = h.line in
      record { off = h.off; line = record { width = l.width; cursor = l.cursor; small = l.small } }
  Between-drawn waiting s d h = record {
    width = h.width;
    line =
        λ on. let l = h.line on in record { width = l.width; cursor = l.cursor; small = l.small };
  }

  Run-Between : (phase : Phase) (s : Keyboard Hw) → Run phase s → Between phase s
  unfolding Between keyboard_state_activate get_keyboard_buffer clear_buffer
  Run-Between _ _ (booted d) = record {
    off = refl;
    line = record { width = refl; cursor = omega arith; small = omega arith };
  }
  Run-Between _ _ (requested s run) =
      let l = (Run-Between idle s run).line in
      record {
        width = l.width;
        line = λ on. record { width = l.width; cursor = l.cursor; small = l.small };
      }
  Run-Between _ _ (interrupted phase s s' run step) =
      Returns-some (Between phase) (keyboard_isr s) s' step
        (keyboard_isr-Between phase s (Run-Between phase s run))
  Run-Between _ _ (drawn phase s d run) = Between-drawn phase s d (Run-Between phase s run)
  Run-Between _ _ (fetched s run stopped) = record {
    off = stopped;
    line = record { width = refl; cursor = omega arith; small = omega arith };
  }

  -- Whatever requests, keyboard interrupts, drawing on the screen and fetched lines follow one
  -- another from the start, the buffer has 256 bytes, and while keys are taken the cursor is
  -- inside the line and the line inside the buffer.
  pub Run-IsLine :
      (phase : Phase) (s : Keyboard Hw)
      → Run phase s
      → (length s.buffer ≡ keyboard_buffer_size) × (s.input_on ≡ true → IsLine s)
  unfolding Between
  Run-IsLine idle s run = let ready = Run-Between idle s run in (ready.line.width, λ on. ready.line)
  Run-IsLine waiting s run = let sound = Run-Between waiting s run in (sound.width, sound.line)
