-- ===== src/Harness/Queue/Order.antt =====
-- The tasks that all agents together are handed, over any sequence of calls.
use computer_use_orchestrato.Prelude.{
  ℕ, suc, ◌+◌, ◌≤◌, ◌<◌, String, ◌≡◌, refl, Bool, true, false, Option, none, some, List, [], ◌∷◌,
  ◌++◌, nat_eq, arith, if◌then◌else◌, ok, all, any, ◌&&◌, leb, Bool-cases, inl, inr,
}
use computer_use_orchestrato.Harness.Queue.{
  Row, Table, empty_table, is_pending, first_pending, available, locked, failing, claim_row,
  claim_next_task, enqueue_task, complete_task, update_where, Call, enqueue, claim, complete,
  perform, handed_out, claimed_id,
}
use computer_use_orchestrato.Harness.Queue.Claims.{no_pending_below, IsFirst, first_pending-IsFirst}

abbrev ids_up_to : ℕ → List Row → Bool
ids_up_to n rows = all (λ r. leb r.id n) rows

-- Every id that was handed out is at most c, and every pending task is above it.
record Past (c : ℕ) (t : Table) : Type 0 where
  given : c ≤ t.last_id
  numbered : ids_up_to t.last_id t.rows ≡ true
  ahead : no_pending_below (suc c) t.rows ≡ true

-- The ids rise from one to the next, and from c.
abbrev pub Ascending : ℕ → List ℕ → Type 0
Ascending c [] = Unit
Ascending c (x ∷ xs) = (c < x) × Ascending x xs

ids_up_to-snoc :
    (n : ℕ) (rows : List Row) (row : Row)
    → ids_up_to n rows ≡ true
    → row.id ≡ n + 1
    → ids_up_to (n + 1) (rows ++ row ∷ []) ≡ true
ids_up_to-snoc n [] row h e = ground arith
ids_up_to-snoc n (r ∷ rs) row h e = ground (arith, ids_up_to-snoc n rs row)

no_pending_below-snoc :
    (n : ℕ) (rows : List Row) (row : Row)
    → no_pending_below n rows ≡ true
    → n ≤ row.id
    → no_pending_below n (rows ++ row ∷ []) ≡ true
no_pending_below-snoc n [] row h e = ground arith
no_pending_below-snoc n (r ∷ rs) row h e = ground (arith, no_pending_below-snoc n rs row)

module _ (test : Row → Bool) (change : Row → Row) (same_id : (r : Row) → (change r).id ≡ r.id)
    (settled : (r : Row) → is_pending (change r) ≡ false) where
  ids_up_to-update :
      (n : ℕ) (rows : List Row)
      → ids_up_to n rows ≡ true
      → ids_up_to n (update_where test change rows) ≡ true
  ids_up_to-update n [] h = refl
  ids_up_to-update n (r ∷ rs) h = ground (arith, ids_up_to-update n rs, same_id r)

  no_pending_below-update :
      (n : ℕ) (rows : List Row)
      → no_pending_below n rows ≡ true
      → no_pending_below n (update_where test change rows) ≡ true
  no_pending_below-update n [] h = refl
  no_pending_below-update n (r ∷ rs) h = elim (Bool-cases (test r)) [
    | inl yes_ ↦ rw (yes_, settled r) (ground (arith, no_pending_below-update n rs))
    | inr no_ ↦ rw no_ (ground (arith, no_pending_below-update n rs))
  ]

  claim_ahead :
      (x : ℕ) (rows : List Row)
      → ((r : Row) → nat_eq r.id x ≡ true → is_pending r ≡ true → test r ≡ true)
      → no_pending_below x rows ≡ true
      → no_pending_below (suc x) (update_where test change rows) ≡ true
  claim_ahead x [] hit h = refl
  claim_ahead x (r ∷ rs) hit h = elim (Bool-cases (test r)) [
    | inl yes_ ↦ rw (yes_, settled r) (ground (arith, claim_ahead x rs hit))
    | inr no_ ↦ rw no_ (ground (arith, claim_ahead x rs hit, hit r))
  ]

listed-lt :
    (c x : ℕ) (rows : List Row)
    → any (λ r. nat_eq r.id x && is_pending r) rows ≡ true
    → no_pending_below (suc c) rows ≡ true
    → c < x
listed-lt c x [] h p = cc
listed-lt c x (r ∷ rs) h p = ground (arith, listed-lt c x rs)

listed-le :
    (n x : ℕ) (rows : List Row)
    → any (λ r. nat_eq r.id x && is_pending r) rows ≡ true
    → ids_up_to n rows ≡ true
    → x ≤ n
listed-le n x [] h p = cc
listed-le n x (r ∷ rs) h p = ground (arith, listed-le n x rs)

-- What a call hands out lies above c, and the table is past it afterwards.
abbrev Advances : ℕ → Table × List ℕ → Type 0
Advances c (t, []) = Past c t
Advances c (t, x ∷ []) = (c < x) × Past x t
Advances c (t, x ∷ y ∷ ys) = ⊥

claim_row-Advances :
    (agent_id now : String) (c : ℕ) (t : Table) (found : Option Row)
    → Past c t
    → ((row : Row) → found ≡ some row → IsFirst t.rows row)
    → let (t', result) = claim_row agent_id now t found in Advances c (t', claimed_id (ok result))
unfolding claim_row
claim_row-Advances agent_id now c t none p first = p
claim_row-Advances agent_id now c t (some row) p first =
    let (pending, lowest, listed) = first row refl in
    let test : Row → Bool = λ r. if nat_eq r.id row.id then is_pending r else false in
    let change : Row → Row =
      λ r. record r { status = "claimed"; assigned_agent = some agent_id; updated_at = now } in
    (
      listed-lt c row.id t.rows listed p.ahead,
      record {
        given = listed-le t.last_id row.id t.rows listed p.numbered;
        numbered = ids_up_to-update test change (λ r. refl) (λ r. refl) t.last_id t.rows p.numbered;
        ahead =
            claim_ahead test change (λ r. refl) (λ r. refl) row.id t.rows
              (λ r same open_. rw same open_) lowest;
      },
    )

perform-Advances : (call : Call) (c : ℕ) (t : Table) → Past c t → Advances c (perform call t)
unfolding perform enqueue_task claim_next_task complete_task
perform-Advances (enqueue payload now) c t p = record {
  given = omega (arith, p.given);
  numbered = ids_up_to-snoc t.last_id t.rows _ p.numbered refl;
  ahead = no_pending_below-snoc (suc c) t.rows _ p.ahead (omega (arith, p.given));
}
perform-Advances (claim available agent_id now) c t p =
    claim_row-Advances agent_id now c t (first_pending t.rows) p (first_pending-IsFirst t.rows)
perform-Advances (claim locked agent_id now) c t p = p
perform-Advances (claim failing agent_id now) c t p = p
perform-Advances (complete task_id result now) c t p =
    let test : Row → Bool = λ r. nat_eq r.id task_id in
    let change : Row → Row =
      λ r. record r { status = "completed"; result = some result; updated_at = now } in
    record {
      given = p.given;
      numbered = ids_up_to-update test change (λ r. refl) (λ r. refl) t.last_id t.rows p.numbered;
      ahead = no_pending_below-update test change (λ r. refl) (λ r. refl) (suc c) t.rows p.ahead;
    }

handed_out-step :
    (rest : List Call) (c : ℕ) (after : Table × List ℕ)
    → ((d : ℕ) (t : Table) → Past d t → Ascending d (handed_out rest t))
    → Advances c after
    → Ascending c (after.1 ++ handed_out rest after.0)
handed_out-step rest c (t, []) ih p = ih c t p
handed_out-step rest c (t, x ∷ []) ih p = (p.0, ih x t p.1)
handed_out-step rest c (t, x ∷ y ∷ ys) ih p = absurd p

handed_out-Ascending :
    (calls : List Call) (c : ℕ) (t : Table) → Past c t → Ascending c (handed_out calls t)
unfolding handed_out
handed_out-Ascending [] c t p = tt
handed_out-Ascending (call ∷ rest) c t p =
    handed_out-step rest c (perform call t) (handed_out-Ascending rest)
      (perform-Advances call c t p)

-- Whatever the agents call and in whatever order, the tasks that they are handed have rising ids:
-- tasks go out in the order in which they were queued, and none goes out twice.
pub handed_out-empty_table : (calls : List Call) → Ascending 0 (handed_out calls empty_table)
handed_out-empty_table calls =
    handed_out-Ascending calls 0 empty_table
      (record { given = omega arith; numbered = refl; ahead = refl })
