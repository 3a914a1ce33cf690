-- ===== src/Harness/Runner/Remembering.antt =====
-- The memory of the harness behind the runner's interface: runner.py with memory.py.
use computer_use_orchestrato.Prelude.{
  ℕ, zero, suc, ◌≤◌, String, ◌≡◌, subst, true, Option, none, some, truthy, last?, Bool-cases, inl,
  inr,
}
use computer_use_orchestrato.Json.{Fields}
use computer_use_orchestrato.Harness.Loop.{
  Evidence, LoopPhase, goal, plan, action, observation, evaluation, next_step, escalation,
  AgentAction,
}
use computer_use_orchestrato.Harness.Memory.{
  HarnessMemory, Backend, mem0, file_backed, degrade_to_fallback, recall_with, recall_related,
  evidence_signature, remember_evidence,
}
use computer_use_orchestrato.Harness.Memory.Once.{stored, stored-remember_with}
use computer_use_orchestrato.Harness.Runner.{
  Port, Run, Limits, recall_memory, remember, advance_state, advance_many, is_recorded,
  observe_latest, advance_phase, advance_goal, advance_action, advance_observation,
}

module _ (dumps : Fields → String) (failure : Option String) (now : String) where
  -- The client raises `failure` whenever it is asked. The file-backed memory does not raise.
  abbrev pub harness_port : Port
  harness_port = record {
    Memory = HarnessMemory;
    signature = evidence_signature dumps;
    recall = λ text limit h. recall_related failure limit h;
    save = λ g e h. (remember_evidence dumps failure g e now h, true);
  }

  -- The memory, if there is one, has at most one record of the user with the signature.
  abbrev pub HasOnce : String → String → Option HarnessMemory → Type 0
  HasOnce user_id signature none = Unit
  HasOnce user_id signature (some h) = stored user_id signature h.file ≤ 1

  module _ (user_id signature : String) (t : truthy signature ≡ true) where
    recall_with-HasOnce :
        (b : Backend) (f : Option String) (h : HarnessMemory)
        → HasOnce user_id signature (some h)
        → HasOnce user_id signature (some (recall_with b f h))
    unfolding recall_with degrade_to_fallback
    recall_with-HasOnce mem0 (some reason) h le = le
    recall_with-HasOnce mem0 none h le = le
    recall_with-HasOnce file_backed f h le = le

    recall_related-HasOnce :
        (f : Option String) (n : ℕ) (h : HarnessMemory)
        → HasOnce user_id signature (some h)
        → HasOnce user_id signature (some (recall_related f n h))
    unfolding recall_related
    recall_related-HasOnce f zero h le = le
    recall_related-HasOnce f (suc n) h le = recall_with-HasOnce h.backend f h le

    recall_memory-HasOnce :
        (n : ℕ) (r : Run harness_port) (m : Option HarnessMemory)
        → HasOnce user_id signature m
        → HasOnce user_id signature (recall_memory n (record r { memory = m })).memory
    unfolding recall_memory
    recall_memory-HasOnce n r none le = tt
    recall_memory-HasOnce n r (some h) le = recall_related-HasOnce failure n h le

    remember-HasOnce :
        (e : Evidence) (r : Run harness_port) (m : Option HarnessMemory)
        → HasOnce user_id signature m
        → HasOnce user_id signature (remember e (record r { memory = m })).memory
    unfolding remember remember_evidence
    remember-HasOnce e r none le = tt
    remember-HasOnce e r (some h) le =
        elim (Bool-cases (is_recorded r.signatures (evidence_signature dumps r.state.goal e))) [
          | inl known ↦ rw known le
          | inr new ↦ rw new (
              stored-remember_with dumps user_id signature h.backend failure r.state.goal e now h t
                le)
        ]

    -- What a step leaves, if it does not raise.
    Keeps : Option (Run harness_port) → Type 0
    Keeps none = Unit
    Keeps (some r) = HasOnce user_id signature r.memory

    observe_latest-Keeps :
        (latest : Option AgentAction) (r : Run harness_port)
        → HasOnce user_id signature r.memory
        → Keeps (observe_latest latest r)
    unfolding Keeps observe_latest
    observe_latest-Keeps none r le = tt
    observe_latest-Keeps (some latest) r le = le

    advance_phase-Keeps :
        (limits : Limits) (p : LoopPhase) (r : Run harness_port)
        → HasOnce user_id signature r.memory
        → Keeps (advance_phase limits p r)
    unfolding Keeps advance_phase advance_goal advance_action advance_observation
    advance_phase-Keeps limits goal r le =
        recall_memory-HasOnce limits.memory_recall_limit (record r { state = _ }) r.memory le
    advance_phase-Keeps limits plan r le = le
    advance_phase-Keeps limits action r le = observe_latest-Keeps (last? r.state.actions) r le
    advance_phase-Keeps limits observation r le =
        remember-HasOnce _ (record r { state = _ }) r.memory le
    advance_phase-Keeps limits evaluation r le = le
    advance_phase-Keeps limits next_step r le = le
    advance_phase-Keeps limits escalation r le = le

    advance_rest-Keeps :
        (limits : Limits) (n : ℕ)
        → ((r : Run harness_port)
            → HasOnce user_id signature r.memory
            → Keeps (advance_many limits n r))
        → (x : Option (Run harness_port)) → Keeps x
        → Keeps (elim x [ none ↦ none | some r ↦ advance_many limits n r ])
    unfolding Keeps
    advance_rest-Keeps limits n rest none le = tt
    advance_rest-Keeps limits n rest (some r) le = rest r le

    advance_many-Keeps :
        (limits : Limits) (n : ℕ) (r : Run harness_port)
        → HasOnce user_id signature r.memory
        → Keeps (advance_many limits n r)
    unfolding Keeps advance_state
    advance_many-Keeps limits zero r le = le
    advance_many-Keeps limits (suc n) r le =
        advance_rest-Keeps limits n (advance_many-Keeps limits n) (advance_state limits r)
          (advance_phase-Keeps limits r.state.phase r le)

    -- If the memory holds at most one record of a user with a signature, which is not empty, then
    -- after any number of steps of the runner that do not raise it still does, whether or not the
    -- mem0 client raises when it is asked.
    pub advance_many-HasOnce :
        (limits : Limits) (n : ℕ) (r : Run harness_port) {r' : Run harness_port}
        → HasOnce user_id signature r.memory
        → advance_many limits n r ≡ some r'
        → HasOnce user_id signature r'.memory
    unfolding Keeps
    advance_many-HasOnce limits n r le h = subst Keeps h (advance_many-Keeps limits n r le)
