-- ===== src/Config/Tests.antt =====
-- Runs of src/fand/config.c on small files, with the library and the file of Config.Sample.
use amdgpu_fand.Base.{ℕ, ◌≤◌, ◌≡◌, refl, arith, [], ◌∷◌, false, replicate, some, negsuc, codes}
use amdgpu_fand.Fanctrl.{Fanctrl}
use amdgpu_fand.Fanctrl.Inv.{IsValid}
use amdgpu_fand.Serialize.Outcome.{Ensures}
use amdgpu_fand.Config.CLibrary.{regmatch_length}
use amdgpu_fand.Config.Matrix.{set_matrix}
use amdgpu_fand.Config.Append.{buffer_size, add_segment}
use amdgpu_fand.Config.File.{config_parse}
use amdgpu_fand.Config.Parsing.{IsTaken, configure-config_parse}
use amdgpu_fand.Config.Text.{TextRow, IsDigit, IsNumeral, matrix_text}
use amdgpu_fand.Config.Written.{IsOutcome, set_matrix-matrix_text}
use amdgpu_fand.Config.Overflow.{IsOverflow, add_segment-IsOverflow}
use amdgpu_fand.Config.Sample.{
  lib, lib-RejectsEmpty, file, cleared, cleared-IsSettings, row_at, row_at-FindsRow, read_number,
}

abbrev fresh : Fanctrl
fresh = record {
  matrix = record { rows = 0; temps = replicate 16 0; speeds = replicate 16 0 };
  hysteresis = 0;
  current_threshold = negsuc 0;
  throttle = false;
}

fresh-IsValid : IsValid fresh
fresh-IsValid = record {
  rows_max = omega arith;
  temps_room = refl;
  speeds_room = refl;
  threshold = refl;
}

configure-config_parse_example : Ensures (IsTaken fresh) (config_parse lib (some file) cleared)
configure-config_parse_example =
    configure-config_parse lib (some file) cleared fresh lib-RejectsEmpty cleared-IsSettings
      fresh-IsValid

abbrev cool : TextRow
cool = record { temp_text = codes "50"; speed_text = codes "20"; temp = 50; speed = 20 }

abbrev hot : TextRow
hot = record { temp_text = codes "70"; speed_text = codes "90"; temp = 70; speed = 90 }

two_digits :
    (c d : ℕ) (high v : ℕ)
    → IsDigit c
    → IsDigit d
    → read_number (c ∷ d ∷ []) ≡ (v, [])
    → v ≤ high
    → IsNumeral lib (c ∷ d ∷ []) high v
two_digits c d high v dc dd e h = record {
  digits = (dc, (dd, tt));
  some_digit = λ none_left. cc;
  short = omega arith;
  read = e;
  in_range = h;
}

set_matrix-matrix_text_example :
    Ensures
      (IsOutcome (cool ∷ hot ∷ []) cleared)
      (set_matrix lib cleared (matrix_text cool (hot ∷ [])))
set_matrix-matrix_text_example =
    set_matrix-matrix_text lib row_at cool (hot ∷ []) cleared refl row_at-FindsRow
      (
        (
          two_digits b'5' b'0' 255 50 (omega arith) (omega arith) refl (omega arith),
          two_digits b'2' b'0' 100 20 (omega arith) (omega arith) refl (omega arith),
        ),
        (
          (
            two_digits b'7' b'0' 255 70 (omega arith) (omega arith) refl (omega arith),
            two_digits b'9' b'0' 100 90 (omega arith) (omega arith) refl (omega arith),
          ),
          tt,
        ),
      )
      refl

-- Ten bytes are left, and the row takes twelve.
add_segment-IsOverflow_example :
    Ensures
      (IsOverflow 246)
      (add_segment (replicate buffer_size 0) 246 (codes "'100::100'  ") (0, 12))
add_segment-IsOverflow_example =
    add_segment-IsOverflow (replicate buffer_size 0) 246 (codes "'100::100'  ") (0, 12)
      (omega arith) refl (unfold regmatch_length in omega arith)
