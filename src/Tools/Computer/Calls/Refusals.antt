-- ===== src/Tools/Computer/Calls/Refusals.antt =====
-- The errors of computer_use_demo/tools/computer.py that are found before anything is run.
use computer_use_orchestrato.Prelude.{
  ℕ, String, ◌==◌, ◌≡◌, refl, true, Option, none, some, List, [], ◌∷◌, arith, truthy, contains, ltb,
  Result, ok, err,
}
use computer_use_orchestrato.Tools.Base.{ToolResult, filled}
use computer_use_orchestrato.Tools.Edit.{Item, pos, negsuc, int, no_int}
use computer_use_orchestrato.Tools.Computer.{
  api, Stop, refused, Coordinate, listed, scale_coordinates, validate_and_get_coordinates, Act,
  after, pure,
}
use computer_use_orchestrato.Tools.Computer.Calls.{
  Duration, no_number, seconds, ComputerInput, mousemove, valid, drag_command, drag, move,
  key_or_type, plain_action, base_call, given, moves, types, is_plain,
}
use computer_use_orchestrato.Tools.Computer.Actions.{Machine, shell, screenshot, xdotool}
use computer_use_orchestrato.Tools.Computer.Calls.Runs.{
  Never, Untouched, Never-Untouched, after-Never, after-Never_of, screenshot-Shows, lift-Untouched,
  refuse-Untouched, if-Untouched, shell-Never, screenshot-Never, look-Never, type_text-Never,
  cursor_position-Never,
}
use computer_use_orchestrato.Tools.Computer.Calls.Versions.{
  mouse_move_part, mouse_button, scroll_by, scroll, hold_key, hold_or_wait, click, call_20250124,
  crop, cropped, zoom_to, zoom_region, zoom, natural, four, call_20251124, is_button, takes_time,
  clicks, scroll_command, click_command, scroll_directions,
}

module _ {W : Type 0} (m : Machine W)
    (shows : (path : String) (w : W)
      → (image : String) × (m.desktop.image path w ≡ some image) × (truthy image ≡ true)) where
  runs : (parts : List String) (w : W) → Untouched w (xdotool m parts w)
  runs parts w = Never-Untouched w _ (look-Never m shows _ w)

  drag-Untouched :
      (start : Option Coordinate) (c : Coordinate) (w : W) → Untouched w (drag m start c w)
  unfolding drag valid
  drag-Untouched none c w = refuse-Untouched _ w
  drag-Untouched (some s) c w =
      let coordinates : Coordinate → Result Stop (ℕ × ℕ) =
        λ d. validate_and_get_coordinates m.floats m.screen d in
      lift-Untouched
        (λ (start : ℕ × ℕ).
          λ (w2 : W). after (λ end. xdotool m (drag_command m start end)) (w2, coordinates c))
        w (coordinates s)
        (λ start.
          lift-Untouched (λ end. xdotool m (drag_command m start end)) w (coordinates c)
            (λ end. runs (drag_command m start end) w))

  move-Untouched : (i : ComputerInput) (c : Option Coordinate) (w : W) → Untouched w (move m i c w)
  unfolding move valid
  move-Untouched i none w = refuse-Untouched _ w
  move-Untouched i (some c) w = if-Untouched (given i.text) _ _ w (refuse-Untouched _ w) (
      if-Untouched (i.action == "left_click_drag") _ _ w (drag-Untouched i.start_coordinate c w) (
        lift-Untouched (λ p. xdotool m (mousemove p ∷ [])) w
          (validate_and_get_coordinates m.floats m.screen c) (λ p. runs (mousemove p ∷ []) w)))

  key_or_type-Untouched :
      (i : ComputerInput) (text : Option String) (w : W) → Untouched w (key_or_type m i text w)
  unfolding key_or_type
  key_or_type-Untouched i none w = refuse-Untouched _ w
  key_or_type-Untouched i (some text) w =
      if-Untouched (given i.coordinate) _ _ w (refuse-Untouched _ w) (
        if-Untouched (i.action == "key") _ _ w (runs _ w)
          (Never-Untouched w _ (type_text-Never m shows text w)))

  plain_action-Untouched : (i : ComputerInput) (w : W) → Untouched w (plain_action m i w)
  unfolding plain_action
  plain_action-Untouched i w = if-Untouched (given i.text) _ _ w (refuse-Untouched _ w) (
      if-Untouched (given i.coordinate) _ _ w (refuse-Untouched _ w) (
        if-Untouched (i.action == "screenshot") _ _ w
          (Never-Untouched w _ (screenshot-Never m shows w))
          (if-Untouched (i.action == "cursor_position") _ _ w
            (Never-Untouched w _ (cursor_position-Never m shows w)) (runs _ w))))

  base_call-Untouched : (i : ComputerInput) (w : W) → Untouched w (base_call m i w)
  unfolding base_call
  base_call-Untouched i w = if-Untouched (moves i.action) _ _ w (move-Untouched i i.coordinate w) (
      if-Untouched (types i.action) _ _ w (key_or_type-Untouched i i.text w) (
        if-Untouched (is_plain i.action) _ _ w (plain_action-Untouched i w) (refuse-Untouched _ w)))

  -- What follows the part that moves the mouse.
  mouse_move_part-Untouched :
      (c : Option Coordinate) (f : String → Act W ToolResult) (w : W)
      → ((part : String) → Untouched w (f part w))
      → Untouched w (after f (mouse_move_part m c w))
  unfolding mouse_move_part valid
  mouse_move_part-Untouched none f w next = next ""
  mouse_move_part-Untouched (some c) f w next =
      parts (validate_and_get_coordinates m.floats m.screen c)
    where
      parts :
          (r : Result Stop (ℕ × ℕ)) → Untouched w (after f (after (λ p. pure (mousemove p)) (w, r)))
      parts (ok p) = next (mousemove p)
      parts (err e) = λ message h. refl

  mouse_button-Untouched : (i : ComputerInput) (w : W) → Untouched w (mouse_button m i w)
  unfolding mouse_button
  mouse_button-Untouched i w =
      if-Untouched (given i.coordinate) _ _ w (refuse-Untouched _ w) (runs _ w)

  scroll_by-Untouched :
      (i : ComputerInput) (direction : String) (amount : Option Item) (w : W)
      → Untouched w (scroll_by m i direction amount w)
  unfolding scroll_by
  scroll_by-Untouched i direction (some (int (pos n))) w =
      mouse_move_part-Untouched i.coordinate (λ move. xdotool m (scroll_command i direction n move))
        w (λ move. runs (scroll_command i direction n move) w)
  scroll_by-Untouched i direction (some (int (negsuc n))) w = refuse-Untouched _ w
  scroll_by-Untouched i direction (some (no_int text)) w = refuse-Untouched _ w
  scroll_by-Untouched i direction none w = refuse-Untouched _ w

  scroll-Untouched :
      (i : ComputerInput) (direction : Option String) (w : W) → Untouched w (scroll m i direction w)
  unfolding scroll
  scroll-Untouched i none w = refuse-Untouched _ w
  scroll-Untouched i (some direction) w =
      if-Untouched (contains scroll_directions direction) _ _ w
        (scroll_by-Untouched i direction i.scroll_amount w) (refuse-Untouched _ w)

  hold_key-Untouched :
      (i : ComputerInput) (duration : String) (text : Option String) (w : W)
      → Untouched w (hold_key m i duration text w)
  unfolding hold_key
  hold_key-Untouched i duration none w = refuse-Untouched _ w
  hold_key-Untouched i duration (some text) w = runs _ w

  hold_or_wait-Untouched :
      (i : ComputerInput) (duration : Option Duration) (w : W)
      → Untouched w (hold_or_wait m i duration w)
  unfolding hold_or_wait
  hold_or_wait-Untouched i none w = refuse-Untouched _ w
  hold_or_wait-Untouched i (some (no_number text)) w = refuse-Untouched _ w
  hold_or_wait-Untouched i (some (seconds text (negsuc n))) w = refuse-Untouched _ w
  hold_or_wait-Untouched i (some (seconds text (pos millionths))) w =
      if-Untouched (ltb 100000000 millionths) _ _ w (refuse-Untouched _ w) (
        if-Untouched (i.action == "hold_key") _ _ w (hold_key-Untouched i text i.text w)
          (Never-Untouched w _ (screenshot-Never m shows w)))

  click-Untouched : (i : ComputerInput) (w : W) → Untouched w (click m i w)
  unfolding click
  click-Untouched i w = if-Untouched (given i.text) _ _ w (refuse-Untouched _ w) (
      mouse_move_part-Untouched i.coordinate (λ move. xdotool m (click_command i move)) w
        (λ move. runs (click_command i move) w))

  call_20250124-Untouched : (i : ComputerInput) (w : W) → Untouched w (call_20250124 m i w)
  unfolding call_20250124
  call_20250124-Untouched i w =
      if-Untouched (is_button i.action) _ _ w (mouse_button-Untouched i w) (
        if-Untouched (i.action == "scroll") _ _ w (scroll-Untouched i i.scroll_direction w) (
          if-Untouched (takes_time i.action) _ _ w (hold_or_wait-Untouched i i.duration w)
            (if-Untouched (clicks i.action) _ _ w (click-Untouched i w) (base_call-Untouched i w))))

  cropped-Never : (temporary target : String) (w : W) → Never (cropped m temporary target w)
  cropped-Never temporary target w =
      let (image, found, is_filled) = shows target w in
      rw (found, cropped) (λ message h. ground arith)

  crop-Never :
      (start end : ℕ × ℕ) (shot : ToolResult) (w : W)
      → filled shot.base64_image ≡ true
      → Never (crop m start end shot w)
  unfolding crop
  crop-Never (x0, y0) (x1, y1) shot w h = rw h (
      after-Never (λ (r : ToolResult). cropped m _ _) (shell m _ _) (shell-Never m shows _ _)
        (λ r w2. cropped-Never _ _ w2))

  zoom_to-Untouched : (x0 y0 x1 y1 : ℕ) (w : W) → Untouched w (zoom_to m x0 y0 x1 y1 w)
  unfolding zoom_to
  zoom_to-Untouched x0 y0 x1 y1 w =
      let place : ℕ → ℕ → Result Stop (ℕ × ℕ) =
        λ x y. scale_coordinates m.floats m.screen api x y in
      let cut : ℕ × ℕ → ℕ × ℕ → Act W ToolResult =
        λ start end w2. after (crop m start end) (screenshot m w2) in
      lift-Untouched (λ (start : ℕ × ℕ). λ (w2 : W). after (cut start) (w2, place x1 y1)) w
        (place x0 y0)
        (λ start. lift-Untouched (cut start) w (place x1 y1) (λ end. Never-Untouched w _ (
          after-Never_of (crop m start end) (screenshot m w) (screenshot-Never m shows w)
            (λ shot w2 h. crop-Never start end shot w2 (screenshot-Shows m shows w shot h)))))

  zoom_region-Untouched :
      (region : String) (corners : Option (ℕ × ℕ × ℕ × ℕ)) (w : W)
      → Untouched w (zoom_region m region corners w)
  unfolding zoom_region
  zoom_region-Untouched region (some (x0, y0, x1, y1)) w = zoom_to-Untouched x0 y0 x1 y1 w
  zoom_region-Untouched region none w = refuse-Untouched _ w

  zoom-Untouched : (region : Option Coordinate) (w : W) → Untouched w (zoom m region w)
  unfolding zoom
  zoom-Untouched (some (listed (a ∷ b ∷ c ∷ d ∷ []))) w =
      zoom_region-Untouched _ (four (natural a) (natural b) (natural c) (natural d)) w
  zoom-Untouched region w = refuse-Untouched _ w

  -- If the image of every screenshot is there, a call of the tool that ends in a `ToolError` has not
  -- touched the desktop: what is wrong in the arguments is found before anything is run.
  pub call_20251124-refused :
      (i : ComputerInput) (w : W) (message : String)
      → (call_20251124 m i w).1 ≡ err (refused message)
      → (call_20251124 m i w).0 ≡ w
  unfolding call_20251124
  call_20251124-refused i w =
      if-Untouched (i.action == "zoom") _ _ w (zoom-Untouched i.region w)
        (call_20250124-Untouched i w)
