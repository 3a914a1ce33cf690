-- ===== src/Harness/RunLoop/Resume.antt =====
-- The restart of the loop of harness/runner.py from its checkpoint.
use computer_use_orchestrato.Prelude.{
  ℕ, zero, suc, ◌+◌, String, ◌≡◌, refl, sym, ap, ap₂, ◌∙◌, subst, Option, none, some, [], arith,
  Option-cases, inl, inr,
}
use computer_use_orchestrato.Harness.Loop.{Goal, new_state}
use computer_use_orchestrato.Harness.Runner.{
  Port, Run, Limits, create_state, advance_state, advance_many, fresh_run,
}
use computer_use_orchestrato.Harness.Runner.Alone.{IsAlone, StaysAlone, advance_state-StaysAlone}
use computer_use_orchestrato.Harness.Runner.Retries.{advance_many_bounded}
use computer_use_orchestrato.Harness.Checkpoint.{
  Files, Loaded, absent, loaded, save_checkpoint, load_checkpoint,
}
use computer_use_orchestrato.Harness.Checkpoint.Crash.{load_checkpoint-save_interrupted}
use computer_use_orchestrato.Harness.RunLoop.{iterate, first_state, started, run_loop}

module _ {port : Port} (limits : Limits) where
  advance_many-add :
      (m n : ℕ) (r : Run port) {mid : Run port}
      → advance_many limits m r ≡ some mid
      → advance_many limits (m + n) r ≡ advance_many limits n mid
  advance_many-add zero n r {mid} h =
      let same : r ≡ mid = ap (λ o. elim o [ none ↦ r | some x ↦ x ]) h in
      let left : zero + n ≡ n = omega arith in
      ap (λ k. advance_many limits k r) left ∙ ap (λ x. advance_many limits n x) same
  advance_many-add (suc m) n r {mid} h =
      let left : suc m + n ≡ suc (m + n) = omega arith in
      ap (λ k. advance_many limits k r) left ∙ (elim (Option-cases (advance_state limits r)) [
        | inl raises ↦ let bad = rw (raises, advance_many) at h in ground arith
        | inr (r', stepped) ↦
            rw (stepped, advance_many) (advance_many-add m n r' (rw (stepped, advance_many) at h))
      ])

module _ {port : Port} (limits : Limits) (now : ℕ → String) where
  -- A loop that ends returns the run that so many steps lead to, and its checkpoint holds the state.
  abbrev Leaves : Goal → String → Option (Run port) → Files × Option (Run port) → Type 0
  Leaves g stamp none left = Unit
  Leaves g stamp (some end) left =
      (left.1 ≡ some end)
      × IsAlone limits g end
      × ((load_checkpoint g.goal_id stamp left.0).1 ≡ loaded end.state)

  iterate-Leaves :
      (n i : ℕ) (r : Run port) (files : Files) (stamp : String) (g : Goal)
      → IsAlone limits g r
      → Leaves g stamp (advance_many limits n r) (iterate limits now n none i r files)
  unfolding iterate save_checkpoint
  iterate-Leaves zero i r files stamp g (m, k, h) = (
    refl,
    (m, k, h),
    ap (λ (x : Goal). (load_checkpoint x.goal_id stamp (save_checkpoint (now i) r.state files)).1)
          (sym h)
        ∙ load_checkpoint-save_interrupted 2 (now i) stamp r.state files,
  )
  iterate-Leaves (suc n) i r files stamp g alone = elim (Option-cases (advance_state limits r)) [
    | inl raises ↦ rw (raises, iterate, advance_many) tt
    | inr (r', stepped) ↦
        rw (stepped, iterate, advance_many)
          (iterate-Leaves n (i + 1) r' (save_checkpoint (now i) r'.state files) stamp g
            (subst (StaysAlone limits g) stepped (advance_state-StaysAlone limits g r alone)))
  ]

  -- What the loop starts with decides what it leaves.
  begins :
      (goal_id goal_text stamp : String) (n : ℕ) (files : Files) (found : Loaded)
      → (load_checkpoint goal_id stamp files).1 ≡ found
      → run_loop limits now goal_id goal_text none n none stamp files
        ≡ started {port = port} limits now none n none
            ((load_checkpoint goal_id stamp files).0, first_state goal_id goal_text found)
  unfolding run_loop
  begins goal_id goal_text stamp n files found h =
      ap
        (λ x.
          started {port = port} limits now none n none
            ((load_checkpoint goal_id stamp files).0, first_state goal_id goal_text x))
        h

  started-Leaves :
      (n : ℕ) (r : Run port) (files : Files) (stamp : String) (g : Goal) {end : Run port}
      → IsAlone limits g r
      → advance_many limits n r ≡ some end
      → Leaves g stamp
          (some end)
          (started {port = port} limits now none n none (files, some r.state))
  started-Leaves n r files stamp g {end} (m, k, h) e =
      let bare : Run port = record { state = r.state; memory = none; signatures = some [] } in
      let same : r ≡ bare =
        ap₂
          (λ memory signatures. record {
            state = r.state;
            memory = memory;
            signatures = signatures;
          })
          m k in
      let steps : advance_many limits n bare ≡ some end =
        ap (λ x. advance_many limits n x) (sym same) ∙ e in
      subst (λ o. Leaves g stamp o (iterate limits now n none 0 bare files)) steps
        (iterate-Leaves n 0 bare files stamp g (refl, refl, h))

  run_loop-Leaves :
      (goal_id goal_text stamp : String) (n : ℕ) (files : Files) (found : Loaded) (r : Run port)
      (g : Goal) {end : Run port}
      → (load_checkpoint goal_id stamp files).1 ≡ found
      → first_state goal_id goal_text found ≡ some r.state
      → IsAlone limits g r
      → advance_many limits n r ≡ some end
      → Leaves g stamp (some end) (run_loop limits now goal_id goal_text none n none stamp files)
  run_loop-Leaves goal_id goal_text stamp n files found r g {end} h first alone e =
      let files' = (load_checkpoint goal_id stamp files).0 in
      let whole =
        begins goal_id goal_text stamp n files found h
        ∙ ap (λ o. started {port = port} limits now none n none (files', o)) first in
      subst (Leaves g stamp (some end)) (sym whole) (started-Leaves n r files' stamp g alone e)

module _ {port : Port} (limits : Limits) (goal_id goal_text stamp : String) where
  abbrev loop : (ℕ → String) → ℕ → Files → Files × Option (Run port)
  loop now n files = run_loop limits now goal_id goal_text none n none stamp files

  -- Without a memory layer and with no checkpoint there: a loop that a signal stops after m iterations
  -- and one that is started again from what it left, and is stopped after n, end in the run that one
  -- loop of m + n iterations ends in. None of them raises, and the checkpoint that is left holds the
  -- state.
  pub run_loop-resume :
      (first second whole : ℕ → String) (m n : ℕ) (files : Files)
      → (load_checkpoint goal_id stamp files).1 ≡ absent
      → let stopped = loop first m files in
        let resumed = loop second n stopped.0 in
        let uncut = loop whole (m + n) files in
        (end : Run port) × (resumed.1 ≡ some end)
        × (uncut.1 ≡ some end)
        × ((load_checkpoint goal_id stamp resumed.0).1 ≡ loaded end.state)
        × ((load_checkpoint goal_id stamp uncut.0).1 ≡ loaded end.state)
  unfolding create_state new_state
  run_loop-resume first second whole m n files h =
      let fresh : Run port = fresh_run goal_id goal_text none in
      let g = fresh.state.goal in
      let (mid, to_mid, _) = advance_many_bounded {port = port} limits goal_id goal_text none m in
      let (end, to_end, _) =
        advance_many_bounded {port = port} limits goal_id goal_text none (m + n) in
      let (_, mid_alone, mid_loads) =
        run_loop-Leaves limits first goal_id goal_text stamp m files absent fresh g h refl
          (refl, refl, refl) to_mid in
      let (uncut_is, _, uncut_loads) =
        run_loop-Leaves limits whole goal_id goal_text stamp (m + n) files absent fresh g h refl
          (refl, refl, refl) to_end in
      let onward = sym (advance_many-add limits m n fresh to_mid) ∙ to_end in
      let (resumed_is, _, resumed_loads) =
        run_loop-Leaves limits second goal_id goal_text stamp n (loop first m files).0
          (loaded mid.state) mid g mid_loads refl mid_alone onward in
      (end, resumed_is, uncut_is, resumed_loads, uncut_loads)
