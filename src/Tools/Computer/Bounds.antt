-- ===== src/Tools/Computer/Bounds.antt =====
-- The coordinates that computer_use_demo/tools/computer.py computes: `scale_coordinates`.
use computer_use_orchestrato.Prelude.{
  ℕ, ◌≤◌, ◌<◌, String, ◌≡◌, ap, ◌∙◌, ◌⊎◌, inl, inr, true, false, ◌||◌, Option, none, some, List, [],
  ◌∷◌, arith, ltb, leb, ltb→lt, leb→le, subst, ◌<>◌, show, Bool-cases, ok, err, if◌then◌else◌,
}
use computer_use_orchestrato.Tools.Computer.{
  Resolution, scaling_targets, Floats, api, refused, find_target, scale_to, scale_coordinates,
}

-- What Python's floats give at the sizes of screens: `round(x / (target / size))` does not fall when
-- `x` grows, and takes the target's edge to the screen's.
pub record RoundsWell (floats : Floats) : Type 0 where
  pub up_mono :
      (target size x y : ℕ)
      → x ≤ y
      → floats.scaled_up target size x ≤ floats.scaled_up target size y
  pub up_edge :
      (target size : ℕ)
      → 0 < target
      → 0 < size
      → size < 65536
      → floats.scaled_up target size target ≡ size

abbrev AllPositive : List Resolution → Type 0
AllPositive [] = Unit
AllPositive (d ∷ targets) = (0 < d.width) × (0 < d.height) × AllPositive targets

positive : AllPositive scaling_targets
positive = omega arith

abbrev value_or : Resolution → Option Resolution → Resolution
value_or d none = d
value_or d (some e) = e

module _ (floats : Floats) (screen target : Resolution) where
  find_target-some :
      (targets : List Resolution)
      → AllPositive targets
      → find_target floats screen targets ≡ some target
      → (0 < target.width) × (0 < target.height) × (target.width < screen.width)
  unfolding find_target
  find_target-some [] p h = unfold find_target in ground arith
  find_target-some (d ∷ targets) (pw, ph, rest) h = elim (Bool-cases (floats.is_near d screen)) [
    | inl near ↦
        let decides : (if ltb d.width screen.width then some d else none) ≡ some target =
          rw (near, find_target) at h in
        elim (Bool-cases (ltb d.width screen.width)) [
          | inl wider ↦
              let same : some d ≡ some target = rw wider at decides in
              let is_d : d ≡ target = ap (value_or d) same in
              subst (λ (t : Resolution). (0 < t.width) × (0 < t.height) × (t.width < screen.width))
                is_d (pw, ph, ltb→lt _ _ wider)
          | inr narrow ↦ let bad = rw narrow at decides in ground arith
        ]
    | inr far ↦ find_target-some targets rest (rw (far, find_target) at h)
  ]

  -- Where the screen is scaled, what is not refused is scaled up.
  scaled :
      find_target floats screen scaling_targets ≡ some target
      → (x y : ℕ) → scale_coordinates floats screen api x y ≡ scale_to floats screen api target x y
  unfolding scale_coordinates
  scaled found x y = rw (found, scale_coordinates)

  abbrev point : ℕ → ℕ → ℕ × ℕ
  point x y =
      (floats.scaled_up target.width screen.width x, floats.scaled_up target.height screen.height y)

  refuses :
      (x y : ℕ)
      → ltb screen.width x || ltb screen.height y ≡ true
      → (message : String) × (scale_to floats screen api target x y ≡ err (refused message))
  unfolding scale_to
  refuses x y h = ("Coordinates " <> (show x <> (", " <> (show y <> " are out of bounds"))), rw h)

  accepts :
      (x y : ℕ)
      → ltb screen.width x || ltb screen.height y ≡ false
      → scale_to floats screen api target x y ≡ ok (point x y)
  unfolding scale_to
  accepts x y h = rw h

  -- For a screen of less than 65536 pixels a side that is scaled to a target of no greater height,
  -- if the floats do not fall and take the target's edge to the screen's, one of three holds: the
  -- point is one of the target, and comes to a point of the screen; or it is past the screen's own
  -- size, and is refused; or it is past the target but not past the screen's size, is accepted,
  -- and comes to the screen's edge or past it.
  pub scale_coordinates_cases :
      RoundsWell floats
      → find_target floats screen scaling_targets ≡ some target
      → target.height ≤ screen.height
      → screen.width < 65536
      → screen.height < 65536
      → (x y : ℕ)
      → ((x ≤ target.width)
          × (y ≤ target.height)
          × ((a : ℕ) × (b : ℕ) × (scale_coordinates floats screen api x y ≡ ok (a, b))
              × (a ≤ screen.width)
              × (b ≤ screen.height)))
        ⊎ (((screen.width < x) ⊎ (screen.height < y))
            × ((message : String) × (scale_coordinates floats screen api x y
                  ≡ err (refused message))))
        ⊎ (((target.width < x) ⊎ (target.height < y))
            × (x ≤ screen.width)
            × (y ≤ screen.height)
            × ((a : ℕ) × (b : ℕ) × (scale_coordinates floats screen api x y ≡ ok (a, b))
                × ((screen.width ≤ a) ⊎ (screen.height ≤ b))))
  scale_coordinates_cases r found low small_w small_h x y =
      let same = scaled found x y in
      let (pw, ph, narrow) = find_target-some scaling_targets positive found in
      let edge_w = r.up_edge target.width screen.width pw (omega arith) small_w in
      let edge_h = r.up_edge target.height screen.height ph (omega arith) small_h in
      elim (Bool-cases (ltb screen.width x || ltb screen.height y)) [
        | inl past ↦
            let (message, fails) = refuses x y past in
            inr (inl (ground arith, (message, same ∙ fails)))
        | inr inside ↦
            let scaled_to = same ∙ accepts x y inside in
            let x_le : x ≤ screen.width = ground arith in
            let y_le : y ≤ screen.height = ground arith in
            elim (Bool-cases (leb x target.width)) [
              | inr wide ↦
                  let past_w : target.width < x = ground arith in
                  inr (
                    inr (
                      inl past_w,
                      x_le,
                      y_le,
                      (
                        _,
                        _,
                        scaled_to,
                        inl (
                            omega (
                              arith,
                              edge_w,
                              r.up_mono target.width screen.width target.width x (omega arith),
                            )),
                      ),
                    ))
              | inl in_w ↦ elim (Bool-cases (leb y target.height)) [
                | inr tall ↦
                    let past_h : target.height < y = ground arith in
                    inr (
                      inr (
                        inr past_h,
                        x_le,
                        y_le,
                        (
                          _,
                          _,
                          scaled_to,
                          inr (
                              omega (
                                arith,
                                edge_h,
                                r.up_mono target.height screen.height target.height y (omega arith),
                              )),
                        ),
                      ))
                | inl in_h ↦
                    let w_le = leb→le _ _ in_w in
                    let h_le = leb→le _ _ in_h in
                    inl (
                      w_le,
                      h_le,
                      (
                        _,
                        _,
                        scaled_to,
                        omega (
                          arith,
                          r.up_mono target.width screen.width x target.width w_le,
                          edge_w,
                        ),
                        omega (
                          arith,
                          r.up_mono target.height screen.height y target.height h_le,
                          edge_h,
                        ),
                      ),
                    )
              ]
            ]
      ]
