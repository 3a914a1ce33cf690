-- ===== src/Tools/Computer/Typing.antt =====
-- The chunks in which computer_use_demo/tools/computer.py types a text: `chunks`.
use Prim.Native.String.{count}
use text.Mathlib.TextLemmas.{nil-append, cons-append, append-nil, length-cons, length-append}
use computer_use_orchestrato.Prelude.{
  ℕ, zero, suc, ◌-◌, ◌≤◌, ◌<◌, String, ◌<>◌, ◌≡◌, refl, sym, ap, ◌∙◌, List, [], ◌∷◌, arith, join,
  prefix,
}
use computer_use_orchestrato.Tools.Computer.{behind, chunks, chunks_from}

prefix-behind : (n : ℕ) (text : String) → prefix n text <> behind n text ≡ text
unfolding prefix behind
prefix-behind zero text = nil-append text
prefix-behind (suc n) String.[] = nil-append ""
prefix-behind (suc n) (String.◌∷◌ c text) =
    cons-append c (prefix n text) (behind n text) ∙ ap (String.◌∷◌ c) (prefix-behind n text)

count-behind : (n : ℕ) (text : String) → count (behind n text) ≡ count text - n
unfolding behind
count-behind zero text = omega arith
count-behind (suc n) String.[] = omega arith
count-behind (suc n) (String.◌∷◌ c text) = omega (arith, count-behind n text, length-cons c text)

count-prefix-le : (n : ℕ) (text : String) → count (prefix n text) ≤ n
unfolding prefix
count-prefix-le zero text = omega arith
count-prefix-le (suc n) String.[] = omega arith
count-prefix-le (suc n) (String.◌∷◌ c text) =
    omega (arith, count-prefix-le n text, length-cons c (prefix n text))

-- The chunks are of this size, but for the last, which is not longer and not empty.
abbrev IsChunked : ℕ → List String → Type 0
IsChunked size [] = Unit
IsChunked size (x ∷ []) = (0 < count x) × (count x ≤ size)
IsChunked size (x ∷ y ∷ rest) = (count x ≡ size) × IsChunked size (y ∷ rest)

join-filled :
    (size : ℕ) (x : String) (more : List String)
    → 0 < size
    → IsChunked size (x ∷ more)
    → 0 < count (join "" (x ∷ more))
unfolding join
join-filled size x [] pos h = h.0
join-filled size x (y ∷ more) pos (whole, rest) =
    omega (arith, whole, length-append x ("" <> join "" (y ∷ more)))

-- One more chunk in front.
IsChunked-cons :
    (size : ℕ) (chunk rest : String) (more : List String)
    → 0 < size
    → join "" more ≡ rest
    → IsChunked size more
    → 0 < count chunk
    → count chunk ≤ size
    → (0 < count rest → count chunk ≡ size)
    → (join "" (chunk ∷ more) ≡ chunk <> rest) × IsChunked size (chunk ∷ more)
unfolding join
IsChunked-cons size chunk rest [] pos h ih filled short full =
    (sym (append-nil chunk) ∙ ap (λ s. chunk <> s) h, (filled, short))
IsChunked-cons size chunk rest (x ∷ more) pos h ih filled short full =
    let some_left = join-filled size x more pos ih in
    (
      ap (λ s. chunk <> s) (nil-append (join "" (x ∷ more)) ∙ h),
      (full (omega (arith, some_left, ap count h)), ih),
    )

chunks_from-IsChunked :
    (fuel size : ℕ) (text : String)
    → 0 < size
    → count text ≤ fuel
    → (join "" (chunks_from fuel size text) ≡ text) × IsChunked size (chunks_from fuel size text)
unfolding chunks_from join
chunks_from-IsChunked zero size String.[] pos h = (refl, tt)
chunks_from-IsChunked zero size (String.◌∷◌ c s) pos h = absurd (omega (arith, length-cons c s))
chunks_from-IsChunked (suc fuel) size String.[] pos h = (refl, tt)
chunks_from-IsChunked (suc fuel) size (String.◌∷◌ c s) pos h =
    let text = String.◌∷◌ c s in
    let left = count-behind size text in
    let parts = ap count (prefix-behind size text) in
    let sizes = length-append (prefix size text) (behind size text) in
    let (whole, ih) =
      chunks_from-IsChunked fuel size (behind size text) pos
        (omega (arith, left, length-cons c s)) in
    let (all, chunked) =
      IsChunked-cons size (prefix size text) (behind size text)
        (chunks_from fuel size (behind size text)) pos whole ih
        (omega (arith, left, parts, sizes, length-cons c s)) (count-prefix-le size text)
        (λ some_left. omega (arith, left, parts, sizes)) in
    (all ∙ prefix-behind size text, chunked)

-- For a size above 0 the chunks of a text are the text again when they are put together, and each is
-- of this size, but for the last, which may be shorter and is not empty.
join-chunks :
    (text : String) (size : ℕ)
    → 0 < size
    → (join "" (chunks text size) ≡ text) × IsChunked size (chunks text size)
unfolding chunks
join-chunks text size pos = chunks_from-IsChunked (count text) size text pos (omega arith)
