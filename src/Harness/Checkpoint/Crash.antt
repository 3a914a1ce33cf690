-- ===== src/Harness/Checkpoint/Crash.antt =====
-- What `load_checkpoint` finds after a save, also one that was cut off.
use Prim.Native.String.{count}
use text.Mathlib.TextLemmas.{length-append as count-append}
use computer_use_orchestrato.Prelude.{
  ℕ, zero, suc, ◌<◌, String, ◌<>◌, ◌≡◌, refl, ap, false, Option, none, some, arith, ◌==◌, eq_iff,
  eq_refl, if◌then◌else◌, Bool-cases, inl, inr, ok, err, ltb,
}
use computer_use_orchestrato.Harness.Loop.{AgentLoopState}
use computer_use_orchestrato.Harness.Runner.{checkpoint_name}
use computer_use_orchestrato.Harness.Checkpoint.{
  Decoded, key_error, type_error, attribute_error, untyped, state_from_dict, Content, json,
  not_json, Files, temporary_name, save_interrupted, load_decoded, loaded, load_content,
  load_checkpoint,
}
use computer_use_orchestrato.Harness.Checkpoint.RoundTrip.{state_from_dict-checkpoint_payload}

count-temporary_name : (name : String) → count name < count (temporary_name name)
count-temporary_name name =
    omega (arith, count-append "." (name <> ".tmp"), count-append name ".tmp")

temporary_name-ne : (name : String) → (temporary_name name == name) ≡ false
temporary_name-ne name = elim (Bool-cases (temporary_name name == name)) [
  | inl same ↦ absurd (
      omega
        (arith, count-temporary_name name, ap count ((eq_iff (temporary_name name) name).0 same)))
  | inr other ↦ other
]

-- The result of a load depends on the content alone.
load_decoded-files :
    (name stamp : String) (d : Decoded AgentLoopState) (files others : Files)
    → (load_decoded name stamp d files).1 ≡ (load_decoded name stamp d others).1
unfolding load_decoded
load_decoded-files name stamp (ok s) files others = refl
load_decoded-files name stamp (err key_error) files others = refl
load_decoded-files name stamp (err type_error) files others = refl
load_decoded-files name stamp (err attribute_error) files others = refl
load_decoded-files name stamp (err untyped) files others = refl

load_content-files :
    (name stamp : String) (c : Option Content) (files others : Files)
    → (load_content name stamp c files).1 ≡ (load_content name stamp c others).1
unfolding load_content
load_content-files name stamp none files others = refl
load_content-files name stamp (some not_json) files others = refl
load_content-files name stamp (some (json payload)) files others =
    load_decoded-files name stamp (state_from_dict payload) files others

load_complete :
    (now stamp : String) (s : AgentLoopState) (files : Files)
    → (load_checkpoint s.goal.goal_id stamp (save_interrupted 2 now s files)).1 ≡ loaded s
unfolding load_checkpoint save_interrupted
load_complete now stamp s files =
    let name = checkpoint_name s.goal.goal_id in
    rw (eq_refl name) (
      rw (eq_refl (temporary_name name))
        (unfold load_content load_decoded in rw (state_from_dict-checkpoint_payload now s)))

-- A save that is cut off before its last effect leaves the last checkpoint as the one that is
-- loaded; a save that got through makes its own state the one.
pub load_checkpoint-save_interrupted :
    (effects : ℕ) (now stamp : String) (s : AgentLoopState) (files : Files)
    → (load_checkpoint s.goal.goal_id stamp (save_interrupted effects now s files)).1
      ≡ (if ltb effects 2 then (load_checkpoint s.goal.goal_id stamp files).1 else loaded s)
unfolding load_checkpoint save_interrupted
load_checkpoint-save_interrupted zero now stamp s files = refl
load_checkpoint-save_interrupted (suc zero) now stamp s files =
    let name = checkpoint_name s.goal.goal_id in
    rw (temporary_name-ne name) (load_content-files name stamp (files name) _ files)
load_checkpoint-save_interrupted (suc (suc n)) now stamp s files =
    let done : ltb (suc (suc n)) 2 ≡ false = ground arith in
    rw done (load_complete now stamp s files)
