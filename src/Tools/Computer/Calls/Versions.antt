-- ===== src/Tools/Computer/Calls/Versions.antt =====
-- computer_use_demo/tools/computer.py: the calls of `ComputerTool20250124` and `ComputerTool20251124`.
use computer_use_orchestrato.Prelude.{
  ℕ, ◌-◌, String, ◌<>◌, ◌==◌, Bool, Option, none, some, List, [], ◌∷◌, ◌++◌, ltb, show, truthy,
  contains, if◌then◌else◌, ok, err,
}
use computer_use_orchestrato.Tools.Base.{ToolResult, no_result, filled}
use computer_use_orchestrato.Tools.Edit.{
  pos, negsuc, Item, int, no_int, show_int, show_item, show_items, show_range,
}
use computer_use_orchestrato.Tools.Computer.{
  api, refused, Coordinate, listed, no_list, scale_coordinates, Act, ◌>>=◌, pure, lift, output_dir,
}
use computer_use_orchestrato.Tools.Computer.Calls.{
  Duration, no_number, seconds, ComputerInput, mousemove, click_button, valid, refuse, given,
  base_call,
}
use computer_use_orchestrato.Tools.Computer.Actions.{
  Machine, or_empty, shell_and_look, shell, screenshot, xdotool,
}

-- `f"{text=}"` for a text that may be `None`.
abbrev pub shown : (String → String) → Option String → String
shown repr none = "None"
shown repr (some s) = repr s

abbrev pub shown_item : Option Item → String
shown_item none = "None"
shown_item (some i) = show_item i

abbrev pub shown_coordinate : Option Coordinate → String
shown_coordinate none = "None"
shown_coordinate (some (listed items)) = show_range (show_items items)
shown_coordinate (some (no_list text)) = text

abbrev pub scroll_button : String → String
scroll_button direction =
    if direction == "up"
    then "4"
    else if direction == "down"
    then "5"
    else if direction == "left"
    then "6"
    else "7"

-- `["{command} {text}"]` for a text that is there and not empty
abbrev pub with_key : String → Option String → List String
with_key command none = []
with_key command (some text) = if truthy text then (command <> (" " <> text)) ∷ [] else []

-- `x1 - x0`, printed
abbrev pub difference : ℕ → ℕ → String
difference a b = if ltb a b then show_int (negsuc (b - a - 1)) else show (a - b)

-- A non-negative `int`.
abbrev pub natural : Item → Option ℕ
natural (int (pos n)) = some n
natural (int (negsuc n)) = none
natural (no_int text) = none

abbrev pub four : Option ℕ → Option ℕ → Option ℕ → Option ℕ → Option (ℕ × ℕ × ℕ × ℕ)
four (some a) (some b) (some c) (some d) = some (a, b, c, d)
four _ _ _ _ = none

abbrev pub is_button : String → Bool
is_button action = contains ("left_mouse_down" ∷ "left_mouse_up" ∷ []) action

abbrev pub takes_time : String → Bool
takes_time action = contains ("hold_key" ∷ "wait" ∷ []) action

abbrev pub clicks : String → Bool
clicks action =
    contains ("left_click" ∷ "right_click" ∷ "double_click" ∷ "triple_click" ∷ "middle_click" ∷ [])
      action

abbrev pub scroll_command : ComputerInput → String → ℕ → String → List String
scroll_command i direction n move =
    move
    ∷ (with_key "keydown" i.text
        ++ (("click --repeat " <> (show n <> (" " <> scroll_button direction)))
            ∷ with_key "keyup" i.text))

abbrev pub click_command : ComputerInput → String → List String
click_command i move =
    move
    ∷ (with_key "keydown" i.key ++ (("click " <> click_button i.action) ∷ with_key "keyup" i.key))

-- `get_args(ScrollDirection)`
abbrev pub scroll_directions : List String
scroll_directions = "up" ∷ "down" ∷ "left" ∷ "right" ∷ []

module _ {W : Type 0} (m : Machine W) where
  open m use {desktop, floats, screen, quote, repr}

  -- The part of a command that moves the mouse, if a coordinate is given.
  unfoldable pub mouse_move_part : Option Coordinate → Act W String
  unfolding valid
  mouse_move_part none = pure ""
  mouse_move_part (some c) = do p ← valid m c; pure (mousemove p)

  unfoldable pub mouse_button : ComputerInput → Act W ToolResult
  unfolding refuse shell_and_look
  mouse_button i =
      if given i.coordinate
      then refuse ("coordinate is not accepted for action=" <> (repr i.action <> "."))
      else xdotool m ((if i.action == "left_mouse_down" then "mousedown 1" else "mouseup 1") ∷ [])

  unfoldable pub scroll_by : ComputerInput → String → Option Item → Act W ToolResult
  unfolding refuse shell_and_look mouse_move_part
  scroll_by i direction (some (int (pos n))) = do
    move ← mouse_move_part i.coordinate
    xdotool m (scroll_command i direction n move)
  scroll_by i direction amount =
      refuse ("scroll_amount=" <> (shown_item amount <> " must be a non-negative int"))

  unfoldable pub scroll : ComputerInput → Option String → Act W ToolResult
  unfolding refuse scroll_by
  scroll i none = refuse "scroll_direction=None must be 'up', 'down', 'left', or 'right'"
  scroll i (some direction) =
      if contains scroll_directions direction
      then scroll_by i direction i.scroll_amount
      else refuse
          ("scroll_direction=" <> (repr direction <> " must be 'up', 'down', 'left', or 'right'"))

  unfoldable pub hold_key : ComputerInput → String → Option String → Act W ToolResult
  unfolding refuse shell_and_look
  hold_key i duration none = refuse ("text is required for " <> i.action)
  hold_key i duration (some text) =
      xdotool m
        (("keydown " <> quote text) ∷ ("sleep " <> duration) ∷ ("keyup " <> quote text) ∷ [])

  unfoldable pub hold_or_wait : ComputerInput → Option Duration → Act W ToolResult
  unfolding refuse hold_key screenshot
  hold_or_wait i none = refuse "duration=None must be a number"
  hold_or_wait i (some (no_number text)) = refuse ("duration=" <> (text <> " must be a number"))
  hold_or_wait i (some (seconds text (negsuc n))) =
      refuse ("duration=" <> (text <> " must be non-negative"))
  hold_or_wait i (some (seconds text (pos millionths))) =
      if ltb 100000000 millionths
      then refuse ("duration=" <> (text <> " is too long."))
      else if i.action == "hold_key"
      then hold_key i text i.text
      else screenshot m

  unfoldable pub click : ComputerInput → Act W ToolResult
  unfolding refuse shell_and_look mouse_move_part
  click i =
      if given i.text
      then refuse ("text is not accepted for " <> i.action)
      else (do move ← mouse_move_part i.coordinate; xdotool m (click_command i move))

  -- `ComputerTool20250124.__call__`
  unfoldable pub call_20250124 : ComputerInput → Act W ToolResult
  unfolding mouse_button scroll hold_or_wait click
  call_20250124 i =
      if is_button i.action
      then mouse_button i
      else if i.action == "scroll"
      then scroll i i.scroll_direction
      else if takes_time i.action
      then hold_or_wait i i.duration
      else if clicks i.action
      then click i
      else base_call m i

  abbrev pub to_screen : ℕ → ℕ → Act W (ℕ × ℕ)
  to_screen x y = lift (scale_coordinates floats screen api x y)

  -- What is left of `zoom` when the region was cropped.
  abbrev pub cropped : String → String → Act W ToolResult
  cropped temporary target w = elim (desktop.image target w) [
    | some image ↦ (
      desktop.unlink target (desktop.unlink temporary w),
      ok (record no_result { base64_image = some image }),
    )
    | none ↦ (w, err (refused "Failed to crop screenshot for zoom"))
  ]

  -- The cut of a region, on the screen, out of a screenshot.
  unfoldable pub crop : ℕ × ℕ → ℕ × ℕ → ToolResult → Act W ToolResult
  unfolding refuse shell
  crop (x0, y0) (x1, y1) shot w =
      let (w1, hex) = desktop.new_hex w in
      let (w2, other_hex) = desktop.new_hex w1 in
      let temporary = output_dir <> ("/screenshot_" <> (hex <> ".png")) in
      let target = output_dir <> ("/zoomed_" <> (other_hex <> ".png")) in
      let size = difference x1 x0 <> ("x" <> difference y1 y0) in
      let place = "+" <> (show x0 <> ("+" <> show y0)) in
      let command =
        "convert " <> (temporary <> (" -crop " <> (size <> (place <> (" +repage " <> target))))) in
      if filled shot.base64_image
      then (shell m command >>= λ (r : ToolResult). cropped temporary target)
          (desktop.write_image temporary (or_empty shot.base64_image) w2)
      else refuse "Failed to take screenshot for zoom" w

  unfoldable pub zoom_to : ℕ → ℕ → ℕ → ℕ → Act W ToolResult
  unfolding crop screenshot
  zoom_to x0 y0 x1 y1 = do
    start ← to_screen x0 y0
    end ← to_screen x1 y1
    shot ← screenshot m
    crop start end shot

  unfoldable pub zoom_region : String → Option (ℕ × ℕ × ℕ × ℕ) → Act W ToolResult
  unfolding refuse zoom_to
  zoom_region region (some (x0, y0, x1, y1)) = zoom_to x0 y0 x1 y1
  zoom_region region none = refuse ("region=" <> (region <> " must contain non-negative integers"))

  unfoldable pub zoom : Option Coordinate → Act W ToolResult
  unfolding refuse zoom_region
  zoom (some (listed (a ∷ b ∷ c ∷ d ∷ []))) =
      zoom_region (show_range (show_items (a ∷ b ∷ c ∷ d ∷ [])))
        (four (natural a) (natural b) (natural c) (natural d))
  zoom region = refuse (
      "region="
      <> (shown_coordinate region <> " must be a tuple of 4 coordinates (x0, y0, x1, y1)"))

  -- `ComputerTool20251124.__call__`
  unfoldable pub call_20251124 : ComputerInput → Act W ToolResult
  unfolding zoom call_20250124
  call_20251124 i = if i.action == "zoom" then zoom i.region else call_20250124 i
