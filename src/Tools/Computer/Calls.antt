-- ===== src/Tools/Computer/Calls.antt =====
-- computer_use_demo/tools/computer.py: the arguments of a call, and the call of the base version.
pub mod Versions
pub mod Runs
pub mod Refusals
use computer_use_orchestrato.Prelude.{
  ℕ, String, ◌<>◌, ◌==◌, Bool, true, false, not, Option, none, some, List, [], ◌∷◌, contains, show,
  if◌then◌else◌,
}
use computer_use_orchestrato.Tools.Base.{ToolResult}
use computer_use_orchestrato.Tools.Edit.{ℤ, Item}
use computer_use_orchestrato.Tools.Computer.{
  refused, Coordinate, validate_and_get_coordinates, Act, ◌>>=◌, pure, stop, lift,
}
use computer_use_orchestrato.Tools.Computer.Actions.{
  Machine, screenshot, shell_and_look, xdotool, type_text, cursor_position,
}

-- A duration: the text of a value that is no number, or of a number and its millionths.
pub data Duration : Type 0 where
  no_number : String → Duration
  seconds : String → ℤ → Duration

-- The arguments of a call.
pub record ComputerInput : Type 0 where
  pub action : String
  pub text : Option String
  pub coordinate : Option Coordinate
  pub start_coordinate : Option Coordinate
  pub scroll_direction : Option String
  pub scroll_amount : Option Item
  pub duration : Option Duration
  pub key : Option String
  pub region : Option Coordinate

-- `CLICK_BUTTONS[action]`
abbrev pub click_button : String → String
click_button action =
    if action == "left_click"
    then "1"
    else if action == "right_click"
    then "3"
    else if action == "middle_click"
    then "2"
    else if action == "double_click"
    then "--repeat 2 --delay 10 1"
    else "--repeat 3 --delay 10 1"

abbrev pub mousemove : ℕ × ℕ → String
mousemove (x, y) = "mousemove --sync " <> (show x <> (" " <> show y))

unfoldable pub refuse : {W A : Type 0} → String → Act W A
refuse message = stop (refused message)

abbrev pub given : {A : Type 0} → Option A → Bool
given none = false
given (some a) = true

abbrev pub moves : String → Bool
moves action = contains ("mouse_move" ∷ "left_click_drag" ∷ []) action

abbrev pub types : String → Bool
types action = contains ("key" ∷ "type" ∷ []) action

abbrev pub is_plain : String → Bool
is_plain action =
    contains
      ("left_click" ∷ "right_click" ∷ "double_click" ∷ "middle_click" ∷ "screenshot"
        ∷ "cursor_position" ∷ [])
      action

module _ {W : Type 0} (m : Machine W) where
  open m use {floats, screen}

  unfoldable pub valid : Coordinate → Act W (ℕ × ℕ)
  valid c = lift (validate_and_get_coordinates floats screen c)

  abbrev pub drag_command : ℕ × ℕ → ℕ × ℕ → List String
  drag_command start end =
      (mousemove start <> (" mousedown 1 " <> (mousemove end <> " mouseup 1"))) ∷ []

  unfoldable pub drag : Option Coordinate → Coordinate → Act W ToolResult
  unfolding valid refuse shell_and_look
  drag none c = refuse "start_coordinate is required for left_click_drag"
  drag (some s) c = do start ← valid s; end ← valid c; xdotool m (drag_command start end)

  unfoldable pub move : ComputerInput → Option Coordinate → Act W ToolResult
  unfolding drag valid refuse shell_and_look
  move i none = refuse ("coordinate is required for " <> i.action)
  move i (some c) =
      if given i.text
      then refuse ("text is not accepted for " <> i.action)
      else if i.action == "left_click_drag"
      then drag i.start_coordinate c
      else (do p ← valid c; xdotool m (mousemove p ∷ []))

  unfoldable pub key_or_type : ComputerInput → Option String → Act W ToolResult
  unfolding refuse shell_and_look type_text
  key_or_type i none = refuse ("text is required for " <> i.action)
  key_or_type i (some text) =
      if given i.coordinate
      then refuse ("coordinate is not accepted for " <> i.action)
      else if i.action == "key"
      then xdotool m (("key -- " <> text) ∷ [])
      else type_text m text

  unfoldable pub plain_action : ComputerInput → Act W ToolResult
  unfolding refuse shell_and_look screenshot cursor_position
  plain_action i =
      if given i.text
      then refuse ("text is not accepted for " <> i.action)
      else if given i.coordinate
      then refuse ("coordinate is not accepted for " <> i.action)
      else if i.action == "screenshot"
      then screenshot m
      else if i.action == "cursor_position"
      then cursor_position m
      else xdotool m (("click " <> click_button i.action) ∷ [])

  -- `BaseComputerTool.__call__`
  unfoldable pub base_call : ComputerInput → Act W ToolResult
  unfolding move key_or_type plain_action refuse
  base_call i =
      if moves i.action
      then move i i.coordinate
      else if types i.action
      then key_or_type i i.text
      else if is_plain i.action
      then plain_action i
      else refuse ("Invalid action: " <> i.action)
