-- ===== src/Mem/AllocHeader/Examples.antt =====
-- A header of 256 bytes that is mapped.
use fzkernel.Base.{refl, arith, true, false}
use fzkernel.Mem.AllocHeader.{red, get_size, is_allocated, left_allocated, get_color, is_mapped}
use fzkernel.Mem.AllocHeader.Refine.{Header, Shows, resize, run, meaning, run-Shows}

abbrev mapped : Header
mapped = record { size = 256; allocated = false; left = true; color = red; mapped = true }

shown : Shows 270 mapped
unfolding get_size is_allocated left_allocated get_color is_mapped
shown = record {
  word = omega arith;
  size = refl;
  allocated = refl;
  left = refl;
  color = refl;
  mapped = refl;
}

run-Shows_example : Shows (run (resize 4096) 270) (meaning (resize 4096) mapped)
run-Shows_example = run-Shows (resize 4096) shown (refl, omega arith)
