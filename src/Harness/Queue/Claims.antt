-- ===== src/Harness/Queue/Claims.antt =====
-- What one claim hands out, and what it changes.
use mathlib.Core.List.{Memᴰ}
use computer_use_orchestrato.Prelude.{
  ℕ, map, sym, eq_iff, ◌≤◌, String, ◌≡◌, ◌⊎◌, refl, subst, Bool, true, false, Option, none, some,
  List, [], ◌∷◌, ltb, nat_eq, arith, if◌then◌else◌, ok, Bool-cases, inl, inr, all, any, ◌&&◌, leb,
  Option-cases,
}
use computer_use_orchestrato.Harness.Queue.{
  Row, Table, is_pending, first_pending, available, claim_row, claim_next_task, lower,
}

-- No pending row has an id below n.
abbrev pub no_pending_below : ℕ → List Row → Bool
no_pending_below n rows = all (λ r. if is_pending r then leb n r.id else true) rows

all-weaken :
    (m n : ℕ) (rows : List Row)
    → m ≤ n
    → no_pending_below n rows ≡ true
    → no_pending_below m rows ≡ true
all-weaken m n [] h p = refl
all-weaken m n (r ∷ rs) h p = ground (arith, all-weaken m n rs h)

pub first_pending-none : (rows : List Row) → first_pending rows ≡ none → any is_pending rows ≡ false
unfolding first_pending
first_pending-none [] h = refl
first_pending-none (r ∷ rs) h = ground (arith, first_pending-none rs)

no_pending-below :
    (n : ℕ) (rows : List Row) → any is_pending rows ≡ false → no_pending_below n rows ≡ true
no_pending-below n [] h = refl
no_pending-below n (r ∷ rs) h = ground (arith, no_pending-below n rs)

-- The row is pending, it stands in the list, and no pending row has a lower id.
abbrev pub IsFirst : List Row → Row → Type 0
IsFirst rows row =
    (is_pending row ≡ true)
    × (no_pending_below row.id rows ≡ true)
    × (any (λ r. nat_eq r.id row.id && is_pending r) rows ≡ true)

IsFirst-alone :
    (r : Row) (rs : List Row) → is_pending r ≡ true → any is_pending rs ≡ false → IsFirst (r ∷ rs) r
IsFirst-alone r rs p alone = ground (arith, no_pending-below r.id rs alone)

IsFirst-skip :
    (r other : Row) (rs : List Row)
    → is_pending r ≡ false
    → IsFirst rs other
    → IsFirst (r ∷ rs) other
IsFirst-skip r other rs p f = ground arith

IsFirst-later :
    (r other : Row) (rs : List Row)
    → ltb other.id r.id ≡ true
    → IsFirst rs other
    → IsFirst (r ∷ rs) other
IsFirst-later r other rs below f = ground arith

IsFirst-head :
    (r other : Row) (rs : List Row)
    → is_pending r ≡ true
    → ltb other.id r.id ≡ false
    → IsFirst rs other
    → IsFirst (r ∷ rs) r
IsFirst-head r other rs p above f = ground (arith, all-weaken r.id other.id rs)

IsFirst-cons :
    (r : Row) (rs : List Row) (later : Option Row) (row : Row)
    → (later ≡ none → any is_pending rs ≡ false)
    → ((other : Row) → later ≡ some other → IsFirst rs other)
    → (if is_pending r then some (lower r later) else later) ≡ some row
    → IsFirst (r ∷ rs) row
IsFirst-cons r rs none row alone found h = elim (Bool-cases (is_pending r)) [
  | inl p ↦
      let e : r ≡ row = ground arith in
      subst (IsFirst (r ∷ rs)) e (IsFirst-alone r rs p (alone refl))
  | inr p ↦ absurd (ground arith)
]
IsFirst-cons r rs (some other) row alone found h = elim (Bool-cases (is_pending r)) [
  | inl p ↦ elim (Bool-cases (ltb other.id r.id)) [
    | inl below ↦
        let e : other ≡ row = ground arith in
        subst (IsFirst (r ∷ rs)) e (IsFirst-later r other rs below (found other refl))
    | inr above ↦
        let e : r ≡ row = ground arith in
        subst (IsFirst (r ∷ rs)) e (IsFirst-head r other rs p above (found other refl))
  ]
  | inr p ↦
      let e : other ≡ row = ground arith in
      subst (IsFirst (r ∷ rs)) e (IsFirst-skip r other rs p (found other refl))
]

-- `first_pending` finds the pending row of the lowest id, if there is one.
pub first_pending-IsFirst :
    (rows : List Row) (row : Row) → first_pending rows ≡ some row → IsFirst rows row
unfolding first_pending
first_pending-IsFirst [] row h = cc
first_pending-IsFirst (r ∷ rs) row h =
    IsFirst-cons r rs (first_pending rs) row (first_pending-none rs) (first_pending-IsFirst rs) h

if_and : (a b : Bool) → (if a then b else false) ≡ a && b
if_and true b = refl
if_and false b = refl

some-inj : {a b : Row} → some a ≡ some b → a ≡ b
some-inj h = cc

-- The row that is found is the head, or is found in the tail.
found_in :
    (r row : Row) (later : Option Row)
    → (if is_pending r then some (lower r later) else later) ≡ some row
    → (row ≡ r) ⊎ (later ≡ some row)
found_in r row none h = elim (Bool-cases (is_pending r)) [
  | inl p ↦ inl (sym (some-inj (rw p at h)))
  | inr p ↦ inr (rw p at h)
]
found_in r row (some other) h = elim (Bool-cases (is_pending r)) [
  | inl p ↦ elim (Bool-cases (ltb other.id r.id)) [
    | inl below ↦ inr (rw (p, below) at h)
    | inr above ↦ inl (sym (some-inj (rw (p, above) at h)))
  ]
  | inr p ↦ inr (rw p at h)
]

first_pending-Mem : (rows : List Row) (row : Row) → first_pending rows ≡ some row → Memᴰ row rows
unfolding first_pending
first_pending-Mem [] row h = absurd (cc)
first_pending-Mem (r ∷ rs) row h = elim (found_in r row (first_pending rs) h) [
  | inl e ↦ Memᴰ.head e
  | inr e ↦ Memᴰ.tail (first_pending-Mem rs row e)
]

-- A claim that reaches the database hands out a task whose row is in the table, is pending, and
-- has the lowest id of the pending rows, with the id and the payload of that row; in the table the
-- pending row with this id is then claimed by the agent at that time, and nothing else is changed.
-- Without a pending row the claim hands out nothing and changes nothing.
pub claim_next_task_cases :
    (agent_id now : String) (t : Table)
    → (any is_pending t.rows ≡ false) × (claim_next_task available agent_id now t ≡ (t, ok none))
      ⊎ ((row : Row) × Memᴰ row t.rows
          × (row.status ≡ "pending")
          × (no_pending_below row.id t.rows ≡ true)
          × (claim_next_task available agent_id now t ≡ (
            record t {
              rows =
                  map
                    (λ r.
                      if nat_eq r.id row.id && is_pending r
                      then record r {
                        status = "claimed";
                        assigned_agent = some agent_id;
                        updated_at = now;
                      }
                      else r)
                    t.rows;
            },
            ok (
                some (record {
                  id = row.id;
                  status = "claimed";
                  assigned_agent = agent_id;
                  payload = row.payload;
                  updated_at = now;
                })),
          )))
unfolding claim_next_task claim_row
claim_next_task_cases agent_id now t = elim (Option-cases (first_pending t.rows)) [
  | inl e ↦ inl (first_pending-none t.rows e, rw (e, claim_row) refl)
  | inr (row, e) ↦
      let (pending, lowest, found) = first_pending-IsFirst t.rows row e in
      inr (
        row,
        first_pending-Mem t.rows row e,
        (eq_iff row.status "pending").0 pending,
        lowest,
        rw (e, claim_row) (simp if_and refl),
      )
]
