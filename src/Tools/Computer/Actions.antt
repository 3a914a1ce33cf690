-- ===== src/Tools/Computer/Actions.antt =====
-- computer_use_demo/tools/computer.py: the commands that an action runs on the machine. `quote` is
-- `shlex.quote`, `repr` the `repr` of a text, `parse_int` is `int` for the text of a natural number.
use computer_use_orchestrato.Prelude.{
  ℕ, String, ◌<>◌, Option, none, some, List, [], ◌∷◌, show, join, if◌then◌else◌, Result, ok, err,
}
use computer_use_orchestrato.Tools.Base.{ToolResult, no_result, maybe_truncate, max_response_len}
use computer_use_orchestrato.Tools.Text.{pieces}
use computer_use_orchestrato.Tools.Computer.{
  Resolution, Floats, computer, Stop, refused, crashed, scale_coordinates, chunks, Desktop, Act,
  ◌>>=◌, pure, lift, output_dir,
}

abbrev pub or_empty : Option String → String
or_empty none = ""
or_empty (some s) = s

abbrev pub outputs : List ToolResult → List String
outputs [] = []
outputs (r ∷ results) = or_empty r.output ∷ outputs results

abbrev pub errors : List ToolResult → List String
errors [] = []
errors (r ∷ results) = or_empty r.error ∷ errors results

abbrev pub second : List String → Option String
second (a ∷ b ∷ rest) = some b
second _ = none

abbrev pub first : List String → String
first [] = ""
first (a ∷ rest) = a

-- A machine with its screen, the `DISPLAY` part of its commands, and the functions of Python's library
-- that the calls use.
pub record Machine (W : Type 0) : Type 0 where
  pub desktop : Desktop W
  pub floats : Floats
  pub screen : Resolution
  pub display_prefix : String
  pub quote : String → String
  pub repr : String → String
  pub parse_int : String → Option ℕ

module _ {W : Type 0} (m : Machine W) where
  open m use {desktop, floats, screen, display_prefix, quote, repr, parse_int}

  -- `run` of tools/run.py, and `shell` with no screenshot.
  unfoldable pub shell : String → Act W ToolResult
  shell command w =
      let (w', out) = desktop.communicate command w in
      elim out [
        | none ↦ (w', err (crashed ("Command '" <> (command <> "' timed out after 120.0 seconds"))))
        | some (stdout, stderr) ↦ (
          w',
          ok (record no_result {
            output = some (maybe_truncate stdout max_response_len);
            error = some (maybe_truncate stderr max_response_len);
          }),
        )
      ]

  abbrev pub screenshot_command : String → W → String
  screenshot_command path w =
      display_prefix
      <> (if desktop.has_gnome_screenshot w
          then "gnome-screenshot -f " <> (path <> " -p")
          else "scrot -p " <> path)

  abbrev pub with_image : ToolResult → String → Act W ToolResult
  with_image r path w = elim (desktop.image path w) [
    | some image ↦ (w, ok (record r { base64_image = some image }))
    | none ↦ (w, err (refused ("Failed to take screenshot: " <> or_empty r.error)))
  ]

  -- The end of `screenshot`: the image at its path, scaled to a size.
  abbrev pub resized : ToolResult → String → ℕ × ℕ → Act W ToolResult
  resized result path (x, y) =
      shell
        ("convert " <> (path <> (" -resize " <> (show x <> ("x" <> (show y <> ("! " <> path)))))))
      >>= λ _. with_image result path

  -- `screenshot`
  unfoldable pub screenshot : Act W ToolResult
  unfolding shell
  screenshot w =
      let (w', hex) = desktop.new_hex w in
      let path = output_dir <> ("/screenshot_" <> (hex <> ".png")) in
      (do
        result ← shell (screenshot_command path w')
        size ← lift (scale_coordinates floats screen computer screen.width screen.height)
        resized result path size)
        w'

  -- A result with a screenshot.
  abbrev pub looked : ToolResult → Act W ToolResult
  looked result = screenshot >>= λ shot. pure (record result { base64_image = shot.base64_image })

  -- `shell` with a screenshot behind it
  unfoldable pub shell_and_look : String → Act W ToolResult
  unfolding screenshot
  shell_and_look command = do result ← shell command; looked result

  -- `self.shell(" ".join([self.xdotool, …]))`
  abbrev pub xdotool : List String → Act W ToolResult
  xdotool parts = shell_and_look (join " " ((display_prefix <> "xdotool") ∷ parts))

  abbrev pub type_command : String → String
  type_command chunk =
      join " " ((display_prefix <> "xdotool") ∷ ("type --delay 12 -- " <> quote chunk) ∷ [])

  -- The loop over the chunks of a text that is typed.
  unfoldable pub type_chunks : List String → Act W (List ToolResult)
  unfolding shell
  type_chunks [] = pure []
  type_chunks (chunk ∷ rest) = do
    result ← shell (type_command chunk)
    results ← type_chunks rest
    pure (result ∷ results)

  abbrev pub typed_result : List ToolResult → ToolResult → ToolResult
  typed_result results shot = record {
    output = some (join "" (outputs results));
    error = some (join "" (errors results));
    base64_image = shot.base64_image;
    system = none;
  }

  -- The result of typing a text, with a screenshot.
  abbrev pub typed : List ToolResult → Act W ToolResult
  typed results = screenshot >>= λ shot. pure (typed_result results shot)

  unfoldable pub type_text : String → Act W ToolResult
  unfolding type_chunks screenshot
  type_text text = do results ← type_chunks (chunks text 50); typed results

  -- `int(output.split(name)[1].split("\n")[0])`
  abbrev pub number_behind : String → String → Result Stop ℕ
  number_behind name output = elim (second (pieces name output)) [
    | none ↦ err (crashed "list index out of range")
    | some rest ↦
        let digits = first (pieces "\n" rest) in
        elim (parse_int digits) [
          | some n ↦ ok n
          | none ↦ err (crashed ("invalid literal for int() with base 10: " <> repr digits))
        ]
  ]

  -- The end of `cursor_position`: the numbers in a result, scaled.
  abbrev pub at_point : ToolResult → ℕ × ℕ → ToolResult
  at_point result (a, b) = record result { output = some ("X=" <> (show a <> (",Y=" <> show b))) }

  abbrev pub located : ToolResult → ℕ → ℕ → Act W ToolResult
  located result x y =
      lift (scale_coordinates floats screen computer x y) >>= λ p. pure (at_point result p)

  abbrev pub located_behind : ToolResult → ℕ → Act W ToolResult
  located_behind result x = lift (number_behind "Y=" (or_empty result.output)) >>= located result x

  abbrev pub read_location : ToolResult → Act W ToolResult
  read_location result =
      lift (number_behind "X=" (or_empty result.output)) >>= located_behind result

  unfoldable pub cursor_position : Act W ToolResult
  unfolding shell
  cursor_position = do
    result ← shell (join " " ((display_prefix <> "xdotool") ∷ "getmouselocation --shell" ∷ []))
    read_location result
