-- ===== src/Tools/Computer/Calls/Runs.antt =====
-- What computer_use_demo/tools/computer.py runs does not end in a `ToolError`, if the images of
-- screenshots are there.
use computer_use_orchestrato.Prelude.{
  ℕ, String, ◌<>◌, ◌≡◌, ◌≢◌, refl, sym, ap, ◌∙◌, Bool, true, false, some, List, [], ◌∷◌, arith,
  truthy, Option-cases, inl, inr, if◌then◌else◌, Result, ok, err,
}
use computer_use_orchestrato.Tools.Base.{ToolResult, filled}
use computer_use_orchestrato.Tools.Text.{pieces}
use computer_use_orchestrato.Tools.Computer.{
  computer, Stop, refused, crashed, find_target, scaling_targets, scale_to, scale_coordinates, Act,
  after, pure, output_dir, chunks,
}
use computer_use_orchestrato.Tools.Computer.Calls.{refuse}
use computer_use_orchestrato.Tools.Computer.Actions.{
  Machine, shell, screenshot, shell_and_look, type_chunks, type_text, cursor_position,
  number_behind, second, first, resized, looked, typed, typed_result, at_point, located,
  located_behind, read_location, with_image,
}

ok-refused : {A : Type 0} (a : A) (message : String) → ok a ≢ err (refused message)
ok-refused a message h = ground arith

module _ {W : Type 0} where
  -- The end is no `ToolError`.
  abbrev pub Never : {A : Type 0} → W × Result Stop A → Type 0
  Never r = (message : String) → r.1 ≢ err (refused message)

  -- If the end is a `ToolError`, the desktop is as it was.
  abbrev pub Untouched : {A : Type 0} → W → W × Result Stop A → Type 0
  Untouched w r = (message : String) → r.1 ≡ err (refused message) → r.0 ≡ w

  pub Never-Untouched : {A : Type 0} (w : W) (r : W × Result Stop A) → Never r → Untouched w r
  Never-Untouched w r never message h = absurd (never message h)

  pub after-Never :
      {A B : Type 0} (f : A → Act W B) (r : W × Result Stop A)
      → Never r
      → ((a : A) (w : W) → Never (f a w))
      → Never (after f r)
  after-Never f (w, ok a) never next = next a w
  after-Never f (w, err (refused message)) never next = absurd (never message refl)
  after-Never f (w, err (crashed message)) never next = λ other h. ground arith

  -- The same, where the first result tells what is to follow.
  pub after-Never_of :
      {A B : Type 0} (f : A → Act W B) (r : W × Result Stop A)
      → Never r
      → ((a : A) (w : W) → r.1 ≡ ok a → Never (f a w))
      → Never (after f r)
  after-Never_of f (w, ok a) never next = next a w refl
  after-Never_of f (w, err (refused message)) never next = absurd (never message refl)
  after-Never_of f (w, err (crashed message)) never next = λ other h. ground arith

  -- What it returns has an image.
  abbrev pub Shows : W × Result Stop ToolResult → Type 0
  Shows r = (shot : ToolResult) → r.1 ≡ ok shot → filled shot.base64_image ≡ true

  pub after-Shows :
      {A : Type 0} (f : A → Act W ToolResult) (r : W × Result Stop A)
      → ((a : A) (w : W) → Shows (f a w))
      → Shows (after f r)
  after-Shows f (w, ok a) next = next a w
  after-Shows f (w, err e) next = λ shot h. ground arith

  -- What is read from the arguments does not touch the desktop.
  pub lift-Untouched :
      {A B : Type 0} (f : A → Act W B) (w : W) (r : Result Stop A)
      → ((a : A) → Untouched w (f a w))
      → Untouched w (after f (w, r))
  lift-Untouched f w (ok a) next = next a
  lift-Untouched f w (err e) next = λ message h. refl

  pub refuse-Untouched :
      {A : Type 0} (message : String) (w : W) → Untouched w (refuse {W = W} {A = A} message w)
  unfolding refuse
  refuse-Untouched message w other h = refl

  pub if-Untouched :
      {A : Type 0} (b : Bool) (f g : Act W A) (w : W)
      → Untouched w (f w)
      → Untouched w (g w)
      → Untouched w ((if b then f else g) w)
  if-Untouched true f g w h k = h
  if-Untouched false f g w h k = k

  pub if-Never :
      {A : Type 0} (b : Bool) (f g : Act W A) (w : W)
      → Never (f w)
      → Never (g w)
      → Never ((if b then f else g) w)
  if-Never true f g w h k = h
  if-Never false f g w h k = k

-- Whether a result has an image.
abbrev shot_filled : ToolResult → Result Stop ToolResult → Bool
shot_filled r (ok shot) = filled shot.base64_image
shot_filled r (err e) = filled r.base64_image

module _ {W : Type 0} (m : Machine W)
    (shows : (path : String) (w : W)
      → (image : String) × (m.desktop.image path w ≡ some image) × (truthy image ≡ true)) where
  pub shell-Never : (command : String) (w : W) → Never (shell m command w)
  unfolding shell
  shell-Never command w = elim (Option-cases (m.desktop.communicate command w).1) [
    | inl late ↦ rw (late, shell) (λ message h. ground arith)
    | inr ((stdout, stderr), out) ↦ rw (out, shell) (λ message h. ground arith)
  ]

  pub with_image-Never : (r : ToolResult) (path : String) (w : W) → Never (with_image m r path w)
  with_image-Never r path w =
      let (image, found, is_filled) = shows path w in
      rw (found, with_image) (λ message h. ground arith)

  pub resized-Never :
      (r : ToolResult) (path : String) (p : ℕ × ℕ) (w : W) → Never (resized m r path p w)
  resized-Never r path p w =
      after-Never (λ _. with_image m r path) (shell m _ w) (shell-Never _ w)
        (λ _. with_image-Never r path)

  -- To scale down is never refused.
  pub down-Never :
      {A : Type 0} (x y : ℕ) (f : ℕ × ℕ → Act W A) (w : W)
      → ((p : ℕ × ℕ) → Never (f p w))
      → Never (after f (w, scale_coordinates m.floats m.screen computer x y))
  unfolding scale_coordinates scale_to
  down-Never x y f w next = elim (Option-cases (find_target m.floats m.screen scaling_targets)) [
    | inl none_found ↦ rw (none_found, scale_coordinates) (next (x, y))
    | inr (target, found) ↦
        rw (found, scale_coordinates)
          (next (
            m.floats.scaled_down target.width m.screen.width x,
            m.floats.scaled_down target.height m.screen.height y,
          ))
  ]

  pub screenshot-Never : (w : W) → Never (screenshot m w)
  unfolding screenshot
  screenshot-Never w =
      let (w1, hex) = m.desktop.new_hex w in
      let path = output_dir <> ("/screenshot_" <> (hex <> ".png")) in
      let size = scale_coordinates m.floats m.screen computer m.screen.width m.screen.height in
      after-Never (λ (r : ToolResult). λ (w2 : W). after (resized m r path) (w2, size))
        (shell m _ w1) (shell-Never _ w1)
        (λ r w2.
          down-Never m.screen.width m.screen.height (resized m r path) w2
            (λ p. resized-Never r path p w2))

  pub looked-Never : (r : ToolResult) (w : W) → Never (looked m r w)
  looked-Never r w =
      after-Never (λ (shot : ToolResult). pure (record r { base64_image = shot.base64_image }))
        (screenshot m w) (screenshot-Never w) (λ shot w2 message h. ok-refused _ message h)

  pub look-Never : (command : String) (w : W) → Never (shell_and_look m command w)
  unfolding shell_and_look
  look-Never command w =
      after-Never (looked m) (shell m command w) (shell-Never command w) looked-Never

  pub type_chunks-Never : (chunks : List String) (w : W) → Never (type_chunks m chunks w)
  unfolding type_chunks
  type_chunks-Never [] w = λ message h. ok-refused _ message h
  type_chunks-Never (chunk ∷ rest) w =
      let add : ToolResult → List ToolResult → Act W (List ToolResult) =
        λ r results. pure (r ∷ results) in
      after-Never (λ (r : ToolResult). λ (w2 : W). after (add r) (type_chunks m rest w2))
        (shell m _ w) (shell-Never _ w)
        (λ r w2.
          after-Never (add r) (type_chunks m rest w2) (type_chunks-Never rest w2)
            (λ results w3 message h. ok-refused _ message h))

  pub typed-Never : (results : List ToolResult) (w : W) → Never (typed m results w)
  typed-Never results w =
      after-Never (λ (shot : ToolResult). pure (typed_result m results shot)) (screenshot m w)
        (screenshot-Never w) (λ shot w2 message h. ok-refused _ message h)

  pub type_text-Never : (text : String) (w : W) → Never (type_text m text w)
  unfolding type_text
  type_text-Never text w =
      after-Never (typed m) (type_chunks m (chunks text 50) w)
        (type_chunks-Never (chunks text 50) w) typed-Never

  number_behind-refused :
      (name output message : String) → number_behind m name output ≢ err (refused message)
  number_behind-refused name output message h = elim (Option-cases (second (pieces name output))) [
    | inl missing ↦ let bad = rw (missing, number_behind) at h in ground arith
    | inr (rest, found) ↦
        let read = rw (found, number_behind) at h in
        elim (Option-cases (m.parse_int (first (pieces "\n" rest)))) [
          | inl bad_number ↦ let bad = rw bad_number at read in ground arith
          | inr (n, parsed) ↦ let bad = rw parsed at read in ground arith
        ]
  ]

  pub lift-Never :
      {A B : Type 0} (f : A → Act W B) (w : W) (r : Result Stop A)
      → ((message : String) → r ≢ err (refused message))
      → ((a : A) → Never (f a w))
      → Never (after f (w, r))
  lift-Never f w (ok a) never next = next a
  lift-Never f w (err (refused message)) never next = absurd (never message refl)
  lift-Never f w (err (crashed message)) never next = λ other h. ground arith

  pub located-Never : (r : ToolResult) (x y : ℕ) (w : W) → Never (located m r x y w)
  located-Never r x y w =
      down-Never x y (λ (p : ℕ × ℕ). pure (at_point m r p)) w
        (λ p message h. ok-refused _ message h)

  pub cursor_position-Never : (w : W) → Never (cursor_position m w)
  unfolding cursor_position
  cursor_position-Never w = after-Never (read_location m) (shell m _ w) (shell-Never _ w) (λ r w2.
      lift-Never (located_behind m r) w2 (number_behind m "X=" _) (number_behind-refused "X=" _)
        (λ x.
          lift-Never (located m r x) w2 (number_behind m "Y=" _) (number_behind-refused "Y=" _)
            (λ y. located-Never r x y w2)))

  with_image-Shows : (r : ToolResult) (path : String) (w : W) → Shows (with_image m r path w)
  with_image-Shows r path w =
      let (image, found, is_filled) = shows path w in
      rw (found, with_image) (λ shot h. ap (shot_filled r) (sym h) ∙ is_filled)

  pub screenshot-Shows : (w : W) → Shows (screenshot m w)
  unfolding screenshot
  screenshot-Shows w =
      let (w1, hex) = m.desktop.new_hex w in
      let path = output_dir <> ("/screenshot_" <> (hex <> ".png")) in
      let size = scale_coordinates m.floats m.screen computer m.screen.width m.screen.height in
      after-Shows (λ (r : ToolResult). λ (w2 : W). after (resized m r path) (w2, size))
        (shell m _ w1)
        (λ r w2.
          after-Shows (resized m r path) (w2, size)
            (λ p w3.
              after-Shows (λ _. with_image m r path) (shell m _ w3) (λ _. with_image-Shows r path)))
