-- ===== src/Tools/ComputerSamples.antt =====
-- The theorems on the computer tool at concrete inputs.
use native.Mathlib.Nat.{le-div_iff_mul-le, div-mul-le_self, le_trans, mul-div_cancel_left}
use computer_use_orchestrato.Prelude.{
  ℕ, zero, suc, ◌*◌, ◌/◌, ◌+◌, ◌-◌, ◌≤◌, ◌<◌, String, ◌≡◌, refl, ◌⊎◌, true, none, some, List, [],
  ◌∷◌, ◌++◌, arith, ltb, ok, err, show,
}
use computer_use_orchestrato.Tools.Edit.{pos, int}
use computer_use_orchestrato.Tools.Computer.{
  Resolution, Floats, api, refused, listed, scaling_targets, find_target, scale_to,
  scale_coordinates, validate_and_get_coordinates, Desktop,
}
use computer_use_orchestrato.Tools.Computer.Bounds.{RoundsWell, scale_coordinates_cases}
use computer_use_orchestrato.Tools.Computer.Calls.{ComputerInput}
use computer_use_orchestrato.Tools.Computer.Actions.{Machine}
use computer_use_orchestrato.Tools.Computer.Calls.Versions.{call_20251124}
use computer_use_orchestrato.Tools.Computer.Calls.Refusals.{call_20251124-refused}

abbrev distance : ℕ → ℕ → ℕ
distance a b = (a - b) + (b - a)

-- Quotients of natural numbers in place of floats.
abbrev floats : Floats
floats = record {
  is_near =
      λ d s. ltb (50 * distance (d.width * s.height) (s.width * d.height)) (d.height * s.height);
  scaled_up = λ target size x. (x * size) / target;
  scaled_down = λ target size x. (x * target) / size;
}

div_mono : (t a b : ℕ) → a ≤ b → a / t ≤ b / t
div_mono zero a b h = omega arith
div_mono (suc t) a b h =
    (le-div_iff_mul-le (omega arith)).1 (le_trans (div-mul-le_self a (suc t)) h)

floats-RoundsWell : RoundsWell floats
floats-RoundsWell = record {
  up_mono = λ target size x y h. div_mono target (x * size) (y * size) (grind arith);
  up_edge = λ target size pos filled small. mul-div_cancel_left size pos;
}

abbrev screen : Resolution
screen = record { width = 2048; height = 1536 }

abbrev target : Resolution
target = record { width = 1024; height = 768 }

is_found : find_target floats screen scaling_targets ≡ some target
unfolding find_target
is_found = refl

scale_coordinates_cases_example :
    ((1500 ≤ 1024)
      × (700 ≤ 768)
      × ((a : ℕ) × (b : ℕ) × (scale_coordinates floats screen api 1500 700 ≡ ok (a, b))
          × (a ≤ 2048)
          × (b ≤ 1536)))
    ⊎ (((2048 < 1500) ⊎ (1536 < 700))
        × ((message : String) × (scale_coordinates floats screen api 1500 700
              ≡ err (refused message))))
    ⊎ (((1024 < 1500) ⊎ (768 < 700))
        × (1500 ≤ 2048)
        × (700 ≤ 1536)
        × ((a : ℕ) × (b : ℕ) × (scale_coordinates floats screen api 1500 700 ≡ ok (a, b))
            × ((2048 ≤ a) ⊎ (1536 ≤ b))))
scale_coordinates_cases_example =
    scale_coordinates_cases floats screen target floats-RoundsWell is_found (omega arith)
      (omega arith) (omega arith) 1500 700

-- A desktop that notes the commands, and always has an image.
abbrev desktop : Desktop (List String)
desktop = record {
  communicate = λ command w. (w ++ command ∷ [], some ("", ""));
  has_gnome_screenshot = λ w. true;
  new_hex = λ w. (w, "0");
  image = λ path w. some "png";
  write_image = λ path image w. w;
  unlink = λ path w. w;
}

abbrev machine : Machine (List String)
machine = record {
  desktop = desktop;
  floats = floats;
  screen = screen;
  display_prefix = "";
  quote = λ text. text;
  repr = λ text. text;
  parse_int = λ text. none;
}

abbrev far_click : ComputerInput
far_click = record {
  action = "left_click";
  text = none;
  coordinate = some (listed (int (pos 3000) ∷ int (pos 10) ∷ []));
  start_coordinate = none;
  scroll_direction = none;
  scroll_amount = none;
  duration = none;
  key = none;
  region = none;
}

is_refused :
    (call_20251124 machine far_click []).1 ≡ err (refused "Coordinates 3000, 10 are out of bounds")
unfolding call_20251124 validate_and_get_coordinates scale_coordinates find_target scale_to show
is_refused = refl

call_20251124-refused_example : (call_20251124 machine far_click []).0 ≡ []
call_20251124-refused_example =
    call_20251124-refused machine (λ path w. ("png", refl, refl)) far_click []
      "Coordinates 3000, 10 are out of bounds" is_refused
