-- ===== src/Database/Requests/Steps.antt =====
-- crates/adapters/src/operation_journal.rs: the steps of one operation, as rows in the order of
-- insertion.
use compose_nest.Common.{
  ℕ, ◌+◌, ◌≡◌, refl, sym, ap, ◌∙◌, String, Bool, true, false, not, ◌&&◌, none, some, List, [], ◌∷◌,
  ◌++◌, arith, any, find, update, str_eq, ◌==◌, if◌then◌else◌, ◌≤◌, i64_max, ◌≤◌, i64_max,
}
use compose_nest.Journal.{StepOutcome}
use compose_nest.Database.{StepRow, steps_of, is_open, latest}
use compose_nest.Database.Operations.{next_sequence, is_pending, is_step, with_outcome}

abbrev pub no_rows : List StepRow → Bool
no_rows [] = true
no_rows (_ ∷ _) = false

-- The steps of an operation are numbered without a gap, and only the last may lack an outcome.
abbrev pub IsLog : ℕ → List StepRow → Type 0
IsLog n [] = Unit
IsLog n (r ∷ rs) =
    (r.sequence ≡ n) × (n ≤ i64_max) × (is_open r && not (no_rows rs) ≡ false) × IsLog (n + 1) rs

latest-bound :
    (n : ℕ) (r : StepRow) (rs : List StepRow)
    → IsLog n (r ∷ rs)
    → (l : StepRow) × (latest (r ∷ rs) ≡ some l) × (n ≤ l.sequence) × (l.sequence ≤ i64_max)
unfolding latest
latest-bound n r [] h = (r, refl, omega (arith, h.0), omega (arith, h.0, h.1))
latest-bound n r (q ∷ qs) h =
    let found = latest-bound (n + 1) q qs h.3 in
    (found.0, ground (arith, found.1, found.2, h.0), omega (arith, found.2), found.3)

latest-tail :
    (n : ℕ) (r q : StepRow) (qs : List StepRow)
    → IsLog n (r ∷ q ∷ qs)
    → latest (r ∷ q ∷ qs) ≡ latest (q ∷ qs)
unfolding latest
latest-tail n r q qs h =
    let found = latest-bound (n + 1) q qs h.3 in ground (arith, found.1, found.2, h.0)

-- The next step continues the log, since the largest number is not given twice.
append-more :
    (n : ℕ) (r : StepRow) (rs : List StepRow) (row : StepRow)
    → IsLog n (r ∷ rs)
    → row.sequence ≡ next_sequence (latest (r ∷ rs))
    → is_pending (latest (r ∷ rs)) ≡ false
    → find (λ (q : StepRow). q.sequence == row.sequence) (r ∷ rs) ≡ none
    → IsLog n (r ∷ rs ++ row ∷ [])
unfolding latest
append-more n r [] row h next idle fresh =
    (h.0, h.1, ground arith, (ground (arith, h.0, h.1), ground (arith, h.0, h.1), ground arith, tt))
append-more n r (q ∷ qs) row h next idle fresh =
    let same = latest-tail n r q qs h in
    (
      h.0,
      h.1,
      ground (arith, h.2),
      append-more (n + 1) q qs row h.3 (next ∙ ap next_sequence same)
          (sym (ap is_pending same) ∙ idle) (ground (arith, fresh)),
    )

pub IsLog-append :
    (rows : List StepRow) (row : StepRow)
    → IsLog 1 rows
    → row.sequence ≡ next_sequence (latest rows)
    → is_pending (latest rows) ≡ false
    → find (λ (q : StepRow). q.sequence == row.sequence) rows ≡ none
    → IsLog 1 (rows ++ row ∷ [])
unfolding latest
IsLog-append [] row h next idle fresh = (next, omega arith, ground arith, tt)
IsLog-append (r ∷ rs) row h next idle fresh = append-more 1 r rs row h next idle fresh

-- The steps of one operation, when a row is added or rows get an outcome.
pub steps_of-append :
    (id : String) (steps : List StepRow) (row : StepRow)
    → steps_of id (steps ++ row ∷ [])
      ≡ (if str_eq row.operation_id id then steps_of id steps ++ row ∷ [] else steps_of id steps)
steps_of-append id [] row = refl
steps_of-append id (r ∷ rs) row = ground (arith, steps_of-append id rs row)

pub find-steps_of :
    (id : String) (sequence : ℕ) (steps : List StepRow)
    → find (λ (q : StepRow). q.sequence == sequence) (steps_of id steps)
      ≡ find (is_step id sequence) steps
find-steps_of id sequence [] = refl
find-steps_of id sequence (r ∷ rs) = ground (arith, find-steps_of id sequence rs)

module _ (p : StepRow → Bool) (outcome : StepOutcome) (now : String) where
  abbrev pub finished : List StepRow → List StepRow
  finished steps = update p (with_outcome outcome now) steps

  pub steps_of-finished :
      (id : String) (steps : List StepRow)
      → steps_of id (finished steps) ≡ finished (steps_of id steps)
  steps_of-finished id [] = refl
  steps_of-finished id (r ∷ rs) = ground (arith, steps_of-finished id rs)

  empty-finished : (rows : List StepRow) → no_rows (finished rows) ≡ no_rows rows
  empty-finished [] = refl
  empty-finished (r ∷ rs) = refl

  pub open-finished :
      (rows : List StepRow) → any is_open rows ≡ false → any is_open (finished rows) ≡ false
  open-finished [] h = refl
  open-finished (r ∷ rs) h = ground (arith, open-finished rs)

  pub IsLog-finished : (n : ℕ) (rows : List StepRow) → IsLog n rows → IsLog n (finished rows)
  IsLog-finished n [] h = tt
  IsLog-finished n (r ∷ rs) h = (
    ground (arith, h.0),
    h.1,
    ground (arith, h.2, empty-finished rs),
    IsLog-finished (n + 1) rs h.3,
  )
