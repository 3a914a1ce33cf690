-- ===== src/Tools/Computer.antt =====
-- computer_use_demo/tools/computer.py: the screen's coordinates, and what the tool runs on the desktop.
-- `W` is the state of the desktop. Waits are left out. A screen's size is positive, the directory of
-- the images is there, and a text argument is a `str`.
pub mod Actions
pub mod Calls
pub mod Bounds
pub mod Typing
use Prim.Native.String.{count}
use computer_use_orchestrato.Prelude.{
  ℕ, zero, suc, String, ◌<>◌, Bool, ◌||◌, Option, none, some, List, [], ◌∷◌, ltb, show, prefix,
  if◌then◌else◌, Result, ok, err,
}
use computer_use_orchestrato.Tools.Edit.{pos, Item, int, show_items, show_range}

pub record Resolution : Type 0 where
  pub width : ℕ
  pub height : ℕ

-- `MAX_SCALING_TARGETS`
abbrev pub scaling_targets : List Resolution
scaling_targets =
    record { width = 1024; height = 768 }
    ∷ record { width = 1280; height = 800 }
    ∷ record { width = 1366; height = 768 }
    ∷ []

-- Python's floats: `abs(w / h - width / height) < 0.02`, `round(x / (target / size))` and
-- `round(x * (target / size))`.
pub record Floats : Type 0 where
  pub is_near : Resolution → Resolution → Bool
  pub scaled_up : (target size x : ℕ) → ℕ
  pub scaled_down : (target size x : ℕ) → ℕ

-- `ScalingSource`
pub data ScalingSource : Type 0 where
  computer api : ScalingSource

-- Why a call ends without a result: a `ToolError`, or another exception.
pub data Stop : Type 0 where
  refused crashed : String → Stop

-- A value given as a coordinate or a region: a list, or the text of another value.
pub data Coordinate : Type 0 where
  listed : List Item → Coordinate
  no_list : String → Coordinate

module _ (floats : Floats) (screen : Resolution) where
  -- The loop over the targets: the first whose ratio is near decides.
  unfoldable pub find_target : List Resolution → Option Resolution
  find_target [] = none
  find_target (d ∷ targets) =
      if floats.is_near d screen
      then (if ltb d.width screen.width then some d else none)
      else find_target targets

  unfoldable pub scale_to : ScalingSource → Resolution → ℕ → ℕ → Result Stop (ℕ × ℕ)
  scale_to api target x y =
      if ltb screen.width x || ltb screen.height y
      then err (refused ("Coordinates " <> (show x <> (", " <> (show y <> " are out of bounds")))))
      else ok (
        floats.scaled_up target.width screen.width x,
        floats.scaled_up target.height screen.height y,
      )
  scale_to computer target x y = ok (
    floats.scaled_down target.width screen.width x,
    floats.scaled_down target.height screen.height y,
  )

  -- `scale_coordinates`
  unfoldable pub scale_coordinates : ScalingSource → ℕ → ℕ → Result Stop (ℕ × ℕ)
  scale_coordinates source x y = elim (find_target scaling_targets) [
    | none ↦ ok (x, y)
    | some target ↦ scale_to source target x y
  ]

  -- `validate_and_get_coordinates`
  unfoldable pub validate_and_get_coordinates : Coordinate → Result Stop (ℕ × ℕ)
  validate_and_get_coordinates (listed (int (pos x) ∷ int (pos y) ∷ [])) = scale_coordinates api x y
  validate_and_get_coordinates (listed (a ∷ b ∷ [])) =
      err
        (refused (show_range (show_items (a ∷ b ∷ [])) <> " must be a tuple of non-negative ints"))
  validate_and_get_coordinates (listed items) =
      err (refused (show_range (show_items items) <> " must be a tuple of length 2"))
  validate_and_get_coordinates (no_list text) =
      err (refused (text <> " must be a tuple of length 2"))

-- `text[n:]`
unfoldable pub behind : ℕ → String → String
behind zero text = text
behind (suc n) String.[] = ""
behind (suc n) (String.◌∷◌ c text) = behind n text

chunks_from : ℕ → ℕ → String → List String
chunks_from zero size text = []
chunks_from (suc fuel) size String.[] = []
chunks_from (suc fuel) size (String.◌∷◌ c s) =
    let text = String.◌∷◌ c s in prefix size text ∷ chunks_from fuel size (behind size text)

-- `chunks`; each chunk takes a character at least, so this fuel is enough.
unfoldable pub chunks : String → ℕ → List String
unfolding chunks_from
chunks text size = chunks_from (count text) size text

-- What the tool asks of the machine: the output of a command, if it ends in time; whether
-- `gnome-screenshot` is there; the hexadecimal text of a new `uuid4`; the base64 text of a file, if it
-- is there; and the writing and removal of files.
pub record Desktop (W : Type 0) : Type 0 where
  pub communicate : String → W → W × Option (String × String)
  pub has_gnome_screenshot : W → Bool
  pub new_hex : W → W × String
  pub image : String → W → Option String
  pub write_image : String → String → W → W
  pub unlink : String → W → W

abbrev pub Act : Type 0 → Type 0 → Type 0
Act W A = W → W × Result Stop A

module _ {W : Type 0} where
  abbrev pub after : {A B : Type 0} → (A → Act W B) → W × Result Stop A → W × Result Stop B
  after f (w, ok a) = f a w
  after f (w, err e) = (w, err e)

  infixl 5 ◌>>=◌
  abbrev pub ◌>>=◌ : {A B : Type 0} → Act W A → (A → Act W B) → Act W B
  ◌>>=◌ m f w = after f (m w)

  abbrev pub pure : {A : Type 0} → A → Act W A
  pure a w = (w, ok a)

  abbrev pub stop : {A : Type 0} → Stop → Act W A
  stop e w = (w, err e)

  -- A computation that does not touch the desktop.
  abbrev pub lift : {A : Type 0} → Result Stop A → Act W A
  lift r w = (w, r)

abbrev pub output_dir : String
output_dir = "/tmp/outputs"
