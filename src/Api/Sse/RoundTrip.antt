-- ===== src/Api/Sse/RoundTrip.antt =====
-- The orchestrator reads back the events that a worker packs: main.py with worker_api.py.
use Prim.Native.Char.{code}
use text.Mathlib.TextLemmas.{nil-append, cons-append, append_assoc, cons-ne-nil}
use computer_use_orchestrato.Prelude.{
  ℕ, String, ◌<>◌, ◌≡◌, refl, sym, ap, ap₂, ◌∙◌, Option, none, some, List, [], ◌∷◌, strip, lstrip,
  rstrip, join, ◌++◌, show, split_lines, lines_from, after_prefix, after_prefix-append,
  lines_from-newline, lines_from-last, Lacks, Lacks-append, is_break, is_space, Bool-cases, inl,
  inr,
}
use computer_use_orchestrato.Json.{Json, obj, Fields}
use computer_use_orchestrato.Worker.{sse_pack}
use computer_use_orchestrato.Api.Sse.Tokens.{IsToken, show-IsToken}
use computer_use_orchestrato.Api.Sse.{
  SseFields, no_fields, read_field, read_line, read_lines, SseEvent, named_event, read_data,
  parse_sse_block,
}

after-space : (p text : String) → after_prefix p ((p <> " ") <> text) ≡ some (" " <> text)
after-space p text = rw (append_assoc p " " text) (after_prefix-append p (" " <> text))

lstrip-space : (text : String) → lstrip (" " <> text) ≡ lstrip text
unfolding lstrip
lstrip-space text = rw (cons-append " " "" text, nil-append text)

strip-space : (text : String) → strip (" " <> text) ≡ strip text
unfolding strip
strip-space text = ap rstrip (lstrip-space text)

not_id : (text : String) → after_prefix "id:" ("event: " <> text) ≡ none
unfolding after_prefix
not_id text = rw (cons-append "e" "vent: " text)

not_id_data : (text : String) → after_prefix "id:" ("data: " <> text) ≡ none
unfolding after_prefix
not_id_data text = rw (cons-append "d" "ata: " text)

not_event : (text : String) → after_prefix "event:" ("data: " <> text) ≡ none
unfolding after_prefix
not_event text = rw (cons-append "d" "ata: " text)

read_id :
    (text : String) (f : SseFields)
    → read_line ("id: " <> text) f ≡ record f { event_id = some (strip text) }
unfolding read_line read_field
read_id text f =
    rw (after-space "id:" text) (ap (λ s. record f { event_id = some s }) (strip-space text))

read_event :
    (text : String) (f : SseFields)
    → read_line ("event: " <> text) f ≡ record f { event_name = some (strip text) }
unfolding read_line read_field
read_event text f =
    rw (not_id text, after-space "event:" text)
      (ap (λ s. record f { event_name = some s }) (strip-space text))

read_text :
    (text : String) (f : SseFields)
    → read_line ("data: " <> text) f ≡ record f { data_lines = f.data_lines ++ lstrip text ∷ [] }
unfolding read_line read_field
read_text text f =
    rw (not_id_data text, not_event text, after-space "data:" text)
      (ap (λ s. record f { data_lines = f.data_lines ++ s ∷ [] }) (lstrip-space text))

-- The lines of an event that `_sse_pack` writes, without the blank line behind them.
unfoldable pub block_of : (id event text : String) → String
block_of id event text =
    ("id: " <> id) <> ("\n" <> (("event: " <> event) <> ("\n" <> ("data: " <> text))))

pub id_line-Lacks : (s : String) → Lacks is_break s → Lacks is_break ("id: " <> s)
id_line-Lacks s h = Lacks-append is_break "id: " s ((refl, (refl, (refl, (refl, tt))))) h

pub event_line-Lacks : (s : String) → Lacks is_break s → Lacks is_break ("event: " <> s)
event_line-Lacks s h =
    Lacks-append is_break "event: " s ((refl, (refl, (refl, (refl, (refl, (refl, (refl, tt)))))))) h

pub data_line-Lacks : (s : String) → Lacks is_break s → Lacks is_break ("data: " <> s)
data_line-Lacks s h =
    Lacks-append is_break "data: " s ((refl, (refl, (refl, (refl, (refl, (refl, tt))))))) h

block_of-lines :
    (id event text : String)
    → Lacks is_break id
    → Lacks is_break event
    → Lacks is_break text
    → split_lines (block_of id event text)
      ≡ ("id: " <> id) ∷ ("event: " <> event) ∷ ("data: " <> text) ∷ []
unfolding block_of split_lines lines_from
block_of-lines id event text hi he ht = rw (
  lines_from-newline ("id: " <> id) (("event: " <> event) <> ("\n" <> ("data: " <> text)))
      (id_line-Lacks id hi),
  lines_from-newline ("event: " <> event) ("data: " <> text) (event_line-Lacks event he),
  lines_from-last ("data: " <> text) (data_line-Lacks text ht)
      (λ e. cons-ne-nil _ _ (sym (cons-append "d" "ata: " text) ∙ e)),
)

lstrip-lstrip : (text : String) → lstrip (lstrip text) ≡ lstrip text
unfolding lstrip
lstrip-lstrip String.[] = refl
lstrip-lstrip (String.◌∷◌ c s) = elim (Bool-cases (is_space (code c))) [
  | inl space ↦ rw space (lstrip-lstrip s)
  | inr other ↦ rw (other, other)
]

lstrip-token : (text : String) → IsToken text → strip (lstrip text) ≡ text
unfolding strip
lstrip-token text h = ap rstrip (lstrip-lstrip text) ∙ h.stripped

read_lines-block :
    (id event text : String)
    → IsToken id
    → IsToken event
    → read_lines (("id: " <> id) ∷ ("event: " <> event) ∷ ("data: " <> text) ∷ []) no_fields
      ≡ record { event_name = some event; data_lines = lstrip text ∷ []; event_id = some id }
unfolding read_lines
read_lines-block id event text hi he =
    let read : SseFields → SseFields = λ (f : SseFields). read_line ("data: " <> text) f in
    ap (λ f. read (read_line ("event: " <> event) f)) (read_id id no_fields)
    ∙ ap read (read_event event _)
    ∙ read_text text _
    ∙ ap₂ (λ i e. record { event_name = some e; data_lines = lstrip text ∷ []; event_id = some i })
        hi.stripped he.stripped

pack_lines :
    (id event text : String)
    → ("id: " <> (id <> "\n"))
        <> ("event: " <> (event <> ("\n" <> ("data: " <> (text <> ("\n" <> "\n"))))))
      ≡ block_of id event text <> "\n\n"
unfolding block_of
pack_lines id event text = simp append_assoc

module _ (dumps : Fields → String) (loads : String → Option Json) where
  -- What `_sse_pack` writes is the three lines and the blank line.
  pub sse_pack-block_of :
      (event : String) (d : Fields) (id : ℕ)
      → sse_pack dumps event d (some id) ≡ block_of (show id) event (dumps d) <> "\n\n"
  unfolding sse_pack
  sse_pack-block_of event d id = pack_lines (show id) event (dumps d)

  named_event-block :
      (id event : String) (d : Fields)
      → IsToken event
      → IsToken (dumps d)
      → loads (dumps d) ≡ some (obj d)
      → named_event loads (some event) (record {
        event_name = some event;
        data_lines = lstrip (dumps d) ∷ [];
        event_id = some id;
      })
        ≡ (some event, some d, some id)
  unfolding named_event read_data join
  named_event-block id event d he hd back =
      rw (he.filled, lstrip-token (dumps d) hd, hd.filled, back)

  -- `_parse_sse_block` reads the name, the data and the id back from what `_sse_pack` writes before
  -- the blank line, if the name and the JSON text of the data are texts of one line that are not
  -- empty and have no space at an end, and `json.loads` reads the text of the data back.
  pub parse_sse_block-sse_pack :
      (event : String) (d : Fields) (id : ℕ)
      → IsToken event
      → IsToken (dumps d)
      → loads (dumps d) ≡ some (obj d)
      → (sse_pack dumps event d (some id) ≡ block_of (show id) event (dumps d) <> "\n\n")
        × (parse_sse_block loads (block_of (show id) event (dumps d))
            ≡ (some event, some d, some (show id)))
  unfolding parse_sse_block
  parse_sse_block-sse_pack event d id he hd back =
      let hid = show-IsToken id in
      let i = show id in
      let t = dumps d in
      let read : List String → SseEvent = λ (lines : List String).
        let f = read_lines lines no_fields in named_event loads f.event_name f in
      (
        sse_pack-block_of event d id,
        ap read (block_of-lines i event t hid.one_line he.one_line hd.one_line)
            ∙ ap (λ f. named_event loads f.event_name f) (read_lines-block i event t hid he)
            ∙ named_event-block i event d he hd back,
      )
