-- ===== src/Api/Server/Stream/Frames.antt =====
-- The frame of an event at the head of a buffer: worker_api.py `_sse_pack` and main.py `sse_events`.
use Prim.Native.Char.{Char, code}
use text.Mathlib.TextLemmas.{nil-append, cons-append, append-nil, append_assoc}
use computer_use_orchestrato.Prelude.{
  String, ◌<>◌, ◌≡◌, refl, sym, ap, ◌∙◌, true, false, Option, none, some, arith, truthy, strip,
  lstrip, rstrip, Lacks, is_break,
}
use computer_use_orchestrato.Api.Sse.Tokens.{cons-filled}
use computer_use_orchestrato.Api.Sse.RoundTrip.{
  block_of, id_line-Lacks, event_line-Lacks, data_line-Lacks,
}
use computer_use_orchestrato.Api.Server.Stream.{is_newline, push_char, cut_block}
use computer_use_orchestrato.Api.Server.Stream.Blocks.{cut_block-blank, cut_block-push}

-- The block with a text in front of it.
abbrev prepend : String → Option (String × String) → Option (String × String)
prepend line none = none
prepend line (some (block, rest)) = some (line <> block, rest)

prepend_nil : (o : Option (String × String)) → o ≡ prepend "" o
prepend_nil none = refl
prepend_nil (some (block, rest)) = ap (λ b. some (b, rest)) (sym (nil-append block))

push_char-prepend :
    (c : Char) (s : String) (o : Option (String × String))
    → push_char c (prepend s o) ≡ prepend (String.◌∷◌ c s) o
push_char-prepend c s none = refl
push_char-prepend c s (some (block, rest)) = ap (λ b. some (b, rest)) (sym (cons-append c s block))

cut_block-char :
    (c : Char) (s : String)
    → is_break (code c) ≡ false
    → cut_block (String.◌∷◌ c s) ≡ push_char c (cut_block s)
unfolding cut_block
cut_block-char c String.[] h = refl
cut_block-char c (String.◌∷◌ d s) h = let other : is_newline c ≡ false = ground arith in rw other

cut_block-line :
    (line s : String) → Lacks is_break line → cut_block (line <> s) ≡ prepend line (cut_block s)
cut_block-line String.[] s h = ap cut_block (nil-append s) ∙ prepend_nil (cut_block s)
cut_block-line (String.◌∷◌ c line) s (h, hs) =
    ap cut_block (cons-append c line s)
    ∙ cut_block-char c (line <> s) h
    ∙ ap (push_char c) (cut_block-line line s hs)
    ∙ push_char-prepend c line (cut_block s)

newline_cons : (s : String) → "\n" <> s ≡ String.◌∷◌ "\n" s
newline_cons s = cons-append "\n" "" s ∙ ap (String.◌∷◌ "\n") (nil-append s)

cut_block-newline :
    (d : Char) (s : String)
    → is_newline d ≡ false
    → cut_block ("\n" <> String.◌∷◌ d s) ≡ prepend "\n" (cut_block (String.◌∷◌ d s))
cut_block-newline d s h =
    let after_newline = cut_block (String.◌∷◌ d s) in
    ap cut_block (newline_cons (String.◌∷◌ d s))
    ∙ cut_block-push "\n" d s h
    ∙ ap (push_char "\n") (prepend_nil after_newline)
    ∙ push_char-prepend "\n" "" after_newline

cut_block-end : (rest : String) → cut_block ("\n\n" <> rest) ≡ some ("", rest)
cut_block-end rest =
    ap cut_block (cons-append "\n" "\n" rest ∙ ap (String.◌∷◌ "\n") (newline_cons rest))
    ∙ cut_block-blank "\n" "\n" rest refl

starts :
    (d : Char) (p text y : String) → (String.◌∷◌ d p <> text) <> y ≡ String.◌∷◌ d ((p <> text) <> y)
starts d p text y = ap (λ s. s <> y) (cons-append d p text) ∙ cons-append d (p <> text) y

-- A line, the newline behind it, and a text that does not start with a newline.
cut_block-lines :
    (line : String) (d : Char) (x s block rest : String)
    → Lacks is_break line
    → is_newline d ≡ false
    → x ≡ String.◌∷◌ d s
    → cut_block x ≡ some (block, rest)
    → cut_block (line <> ("\n" <> x)) ≡ some (line <> ("\n" <> block), rest)
cut_block-lines line d x s block rest h k starts_with cut =
    cut_block-line line ("\n" <> x) h
    ∙ ap (λ y. prepend line (cut_block ("\n" <> y))) starts_with
    ∙ ap (prepend line) (cut_block-newline d s k)
    ∙ ap (λ o. prepend line (prepend "\n" o)) (ap cut_block (sym starts_with) ∙ cut)

pub cut_block-block_of :
    (id event text rest : String)
    → Lacks is_break id
    → Lacks is_break event
    → Lacks is_break text
    → cut_block ((block_of id event text <> "\n\n") <> rest) ≡ some (block_of id event text, rest)
unfolding block_of
cut_block-block_of id event text rest hi he ht =
    let end : String = "\n\n" <> rest in
    let third : cut_block (("data: " <> text) <> end) ≡ some ("data: " <> text, rest) =
      cut_block-line ("data: " <> text) end (data_line-Lacks text ht)
      ∙ ap (prepend ("data: " <> text)) (cut_block-end rest)
      ∙ ap (λ b. some (b, rest)) (append-nil ("data: " <> text)) in
    let second =
      cut_block-lines ("event: " <> event) "d" (("data: " <> text) <> end) _ _ rest
        (event_line-Lacks event he) refl (starts "d" "ata: " text end) third in
    let e : String = "event: " <> event in
    let d : String = "data: " <> text in
    let first =
      cut_block-lines ("id: " <> id) "e" (e <> ("\n" <> (d <> end))) _ _ rest (id_line-Lacks id hi)
        refl (starts "e" "vent: " event ("\n" <> (d <> end))) second in
    let flat : ((("id: " <> id) <> ("\n" <> (e <> ("\n" <> d)))) <> "\n\n") <> rest
        ≡ ("id: " <> id) <> ("\n" <> (e <> ("\n" <> (d <> end)))) =
      simp append_assoc in
    ap cut_block flat ∙ first

-- A block that starts with "id" is not blank.
pub block_of-filled : (id event text : String) → truthy (strip (block_of id event text)) ≡ true
unfolding block_of strip lstrip rstrip
block_of-filled id event text =
    rw
      (
        cons-append "i" "d: " id,
        cons-append "i" ("d: " <> id)
            ("\n" <> (("event: " <> event) <> ("\n" <> ("data: " <> text)))),
      )
      (cons-filled "i" _)
