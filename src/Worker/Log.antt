-- ===== src/Worker/Log.antt =====
-- The event log and its replay, against the list of all events that were emitted.
use mathlib.Core.List.{append_assoc, append-nil}
use computer_use_orchestrato.Prelude.{
  ℕ, zero, suc, ◌+◌, ◌-◌, ◌≤◌, ◌<◌, String, ◌≡◌, refl, sym, ap, subst, ◌∙◌, false, List, [], ◌∷◌,
  ◌++◌, arith, length, length-snoc, drop, last_of, drop_nil, drop-append, drop-drop, length-drop,
  ltb, if◌then◌else◌, Bool-cases, inl, inr,
}
use computer_use_orchestrato.Json.{Fields}
use computer_use_orchestrato.Worker.{
  WorkerEvent, WorkerState, new_worker, event_log_max, emit, is_last_event, replay,
}
use computer_use_orchestrato.Worker.Tasks.{emit_all}

-- The events under the ids from `n` on.
unfoldable pub number : ℕ → List (String × Fields) → List WorkerEvent
number n [] = []
number n ((event, payload) ∷ rest) =
    record { id = n; event = event; payload = payload } ∷ number (n + 1) rest

-- The events up to the first `done` or `error`.
unfoldable pub until_last : List WorkerEvent → List WorkerEvent
until_last [] = []
until_last (e ∷ rest) = let more = until_last rest in if is_last_event e then e ∷ [] else e ∷ more

pub length-number : (n : ℕ) (xs : List (String × Fields)) → length (number n xs) ≡ length xs
unfolding number
length-number n [] = refl
length-number n ((event, payload) ∷ xs) = omega (arith, length-number (n + 1) xs)

-- One more event behind a list that was cut to its end.
last_of-snoc {ℓ} :
    {A : Type ℓ} (n : ℕ) (xs : List A) (x : A)
    → 0 < n
    → last_of n (last_of n xs ++ x ∷ []) ≡ last_of n (xs ++ x ∷ [])
unfolding last_of
last_of-snoc n xs x pos =
    let k = length xs - n in
    let cut = drop-append k xs (x ∷ []) (omega arith) in
    let j = length (drop k xs ++ x ∷ []) - n in
    let lengths : k + j ≡ length (xs ++ x ∷ []) - n =
      omega (arith, length-drop k xs, length-snoc xs x, length-snoc (drop k xs) x) in
    ap (drop j) (sym cut) ∙ drop-drop j k _ (xs ++ x ∷ []) lengths

-- The log is the end of a list of all events, under the next id.
record Holds (all : List WorkerEvent) (s : WorkerState) : Type 0 where
  log : s.event_log ≡ last_of event_log_max all
  next : s.next_event_id ≡ length all + 1

-- The test of `_emit` only saves work.
last_of_short :
    (xs : List WorkerEvent) → ltb event_log_max (length xs) ≡ false → last_of event_log_max xs ≡ xs
unfolding last_of
last_of_short xs h = let none_over : length xs - event_log_max ≡ 0 = ground arith in rw none_over

cut_or_kept :
    (xs : List WorkerEvent)
    → (if ltb event_log_max (length xs) then last_of event_log_max xs else xs)
      ≡ last_of event_log_max xs
cut_or_kept xs = elim (Bool-cases (ltb event_log_max (length xs))) [
  | inl long ↦ rw long
  | inr short ↦ rw short (sym (last_of_short xs short))
]

emit-Holds :
    (all : List WorkerEvent) (event : String) (payload : Fields) (s : WorkerState)
    → Holds all s
    → Holds
        (all ++ record { id = s.next_event_id; event = event; payload = payload } ∷ [])
        (emit event payload s)
unfolding emit
emit-Holds all event payload s h =
    let e : WorkerEvent = record { id = s.next_event_id; event = event; payload = payload } in
    record {
      log =
          cut_or_kept (s.event_log ++ e ∷ [])
          ∙ ap (λ log. last_of event_log_max (log ++ e ∷ [])) h.log
          ∙ last_of-snoc event_log_max all e (omega arith);
      next = omega (arith, h.next, length-snoc all e);
    }

pub number-append :
    (n : ℕ) (xs : List (String × Fields)) (event : String) (payload : Fields)
    → number n (xs ++ (event, payload) ∷ [])
      ≡ number n xs ++ record { id = n + length xs; event = event; payload = payload } ∷ []
unfolding number
number-append n [] event payload =
    let same : n ≡ n + 0 = omega arith in
    ap (λ i. record { id = i; event = event; payload = payload } ∷ []) same
number-append n ((name, d) ∷ xs) event payload =
    let same : n + 1 + length xs ≡ n + suc (length xs) = omega arith in
    ap (λ rest. record { id = n; event = name; payload = d } ∷ rest)
      (number-append (n + 1) xs event payload
        ∙ ap (λ i. number (n + 1) xs ++ record { id = i; event = event; payload = payload } ∷ [])
            same)

emit_all-Holds :
    (events before : List (String × Fields)) (s : WorkerState)
    → Holds (number 1 before) s
    → Holds (number 1 (before ++ events)) (emit_all events s)
emit_all-Holds [] before s h = rw append-nil h
emit_all-Holds ((event, payload) ∷ events) before s h =
    let id_is : s.next_event_id ≡ 1 + length before =
      omega (arith, h.next, length-number 1 before) in
    let e : ℕ → WorkerEvent = λ i. record { id = i; event = event; payload = payload } in
    let grown : Holds (number 1 (before ++ (event, payload) ∷ [])) (emit event payload s) =
      subst (λ all. Holds all (emit event payload s))
        (ap (λ i. number 1 before ++ e i ∷ []) id_is ∙ sym (number-append 1 before event payload))
        (emit-Holds (number 1 before) event payload s h) in
    subst (λ all. Holds (number 1 all) (emit_all events (emit event payload s)))
      (append_assoc before ((event, payload) ∷ []) events)
      (emit_all-Holds events (before ++ (event, payload) ∷ []) (emit event payload s) grown)

drop-number :
    (j n : ℕ) (xs : List (String × Fields)) → drop j (number n xs) ≡ number (n + j) (drop j xs)
unfolding number
drop-number zero n xs = let same : n ≡ n + 0 = omega arith in ap (λ i. number i xs) same
drop-number (suc j) n [] = refl
drop-number (suc j) n ((event, payload) ∷ xs) =
    let same : n + 1 + j ≡ n + suc j = omega arith in
    drop-number j (n + 1) xs ∙ ap (λ i. number i (drop j xs)) same

-- A client that saw the events up to `last` misses what is numbered above.
replay-number :
    (last n : ℕ) (xs : List (String × Fields))
    → (replay last (number n xs)).0 ≡ until_last (drop (suc last - n) (number n xs))
unfolding replay number until_last
replay-number last n [] = rw (drop_nil (suc last - n))
replay-number last n ((event, payload) ∷ xs) = elim (Bool-cases (ltb last n)) [
  | inl new ↦
      let whole : suc last - n ≡ 0 = ground arith in
      let rest_whole : suc last - (n + 1) ≡ 0 = ground arith in
      let rest = rw rest_whole at (replay-number last (n + 1) xs) in
      rw (new, whole) (ground (arith, rest))
  | inr seen ↦
      let one_less : suc last - n ≡ suc (suc last - (n + 1)) = ground arith in
      rw (seen, one_less) (replay-number last (n + 1) xs)
]

new_worker-Holds : Holds (number 1 []) new_worker
unfolding last_of number
new_worker-Holds = record { log = refl; next = omega arith }

-- If at most 500 events were emitted after the one with the id `last`, a client that comes back
-- with this id is replayed exactly the events after it, each under its own id and in order, up to
-- the first `done` or `error` among them.
pub replay-emit_all :
    (events : List (String × Fields)) (last : ℕ)
    → length events ≤ last + event_log_max
    → (replay last (emit_all events new_worker).event_log).0
      ≡ until_last (drop last (number 1 events))
unfolding last_of
replay-emit_all events last short =
    let all = number 1 events in
    let j = length all - event_log_max in
    let held = emit_all-Holds events [] new_worker new_worker-Holds in
    let within : j ≤ last = omega (arith, length-number 1 events) in
    let sum : j + (suc last - (1 + j)) ≡ last = omega arith in
    ap (λ log. (replay last log).0) (held.log ∙ drop-number j 1 events)
    ∙ replay-number last (1 + j) (drop j events)
    ∙ ap (λ xs. until_last (drop (suc last - (1 + j)) xs)) (sym (drop-number j 1 events))
    ∙ ap until_last (drop-drop (suc last - (1 + j)) j last all sum)

-- The log holds the last 500 of all the events that were emitted, which are numbered from 1 on.
pub event_log-emit_all :
    (events : List (String × Fields))
    → (emit_all events new_worker).event_log ≡ last_of event_log_max (number 1 events)
unfolding last_of
event_log-emit_all events = (emit_all-Holds events [] new_worker new_worker-Holds).log
