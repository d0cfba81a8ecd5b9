-- ===== src/Database/Requests/History.antt =====
-- crates/adapters/src/operation_journal.rs: what later requests keep of the tables.
use compose_nest.Common.{
  ℕ, ◌≡◌, refl, ap, ◌∙◌, String, Bool, true, false, ◌&&◌, none, some, List, [], ◌∷◌, ◌++◌, arith,
  any, find, eq_iff, if◌then◌else◌,
}
use compose_nest.Journal.{RequestReceipt, StepOutcome}
use compose_nest.Database.{StepRow, Tables, Engine, is_open}
use compose_nest.Database.Operations.{is_step, with_outcome}
use compose_nest.Database.Requests.{
  is_known, Request, serve, serve_all, serve, HasStepKeys, EnforcesKeys, Change, keeps, accepts,
  records, finishes, reconciles, moves, interrupts,
}
use compose_nest.Database.Requests.Refines.{serve-Change}
use compose_nest.Database.Requests.Steps.{finished}
use compose_nest.Database.Requests.Rows.{find-append-some}
use compose_nest.Database.Requests.Consistent.{Change-IsConsistent}
use compose_nest.Database.Requests.Preserved.{IsConsistent}

-- A step without its outcome.
abbrev pub intent_of : StepRow → StepRow
intent_of r = record r { outcome = none; observed_at = none }

-- What stays of a step: its intent, and its outcome once it is known.
pub record IsKept (r q : StepRow) : Type 0 where
  pub intent : intent_of q ≡ intent_of r
  pub outcome : is_known r.outcome ≡ true → q.outcome ≡ r.outcome

-- The rows of the first list are kept at the front of the second.
abbrev pub AllKept : List StepRow → List StepRow → Type 0
AllKept [] qs = Unit
AllKept (r ∷ rs) [] = true ≡ false
AllKept (r ∷ rs) (q ∷ qs) = IsKept r q × AllKept rs qs

abbrev itself : (r : StepRow) → IsKept r r
itself r = record { intent = refl; outcome = λ h. refl }

AllKept-self : (rows more : List StepRow) → AllKept rows (rows ++ more)
AllKept-self [] more = tt
AllKept-self (r ∷ rs) more = (itself r, AllKept-self rs more)

AllKept-refl : (rows : List StepRow) → AllKept rows rows
AllKept-refl [] = tt
AllKept-refl (r ∷ rs) = (itself r, AllKept-refl rs)

AllKept-trans : (rs qs ps : List StepRow) → AllKept rs qs → AllKept qs ps → AllKept rs ps
AllKept-trans [] qs ps h k = tt
AllKept-trans (r ∷ rs) [] ps h k = cc
AllKept-trans (r ∷ rs) (q ∷ qs) [] h k = cc
AllKept-trans (r ∷ rs) (q ∷ qs) (p ∷ ps) h k = (
  record {
    intent = k.0.intent ∙ h.0.intent;
    outcome = λ known. k.0.outcome (ap is_known (h.0.outcome known) ∙ known) ∙ h.0.outcome known;
  },
  AllKept-trans rs qs ps h.1 k.1,
)

-- The steps that get another outcome had none that was known.
abbrev loses : (StepRow → Bool) → StepRow → Bool
loses p r = p r && is_known r.outcome

module _ (p : StepRow → Bool) (outcome : StepOutcome) (now : String) where
  AllKept-finished :
      (rows : List StepRow)
      → any (loses p) rows ≡ false
      → AllKept rows (finished p outcome now rows)
  AllKept-finished [] h = tt
  AllKept-finished (r ∷ rs) h = (kept (p r) refl, AllKept-finished rs (ground arith))
    where
      kept : (b : Bool) → p r ≡ b → IsKept r (if b then with_outcome outcome now r else r)
      kept false e = itself r
      kept true e = record { intent = refl; outcome = λ known. ground (arith, h, known, e) }

open_loses_none :
    (id : String) (sequence : ℕ) (rows : List StepRow)
    → any (loses (λ r. is_step id sequence r && is_open r)) rows ≡ false
open_loses_none id sequence [] = refl
open_loses_none id sequence (r ∷ rs) = ground (arith, open_loses_none id sequence rs)

absent_loses-none :
    (id : String) (sequence : ℕ) (rows : List StepRow)
    → find (is_step id sequence) rows ≡ none
    → any (loses (is_step id sequence)) rows ≡ false
absent_loses-none id sequence [] h = refl
absent_loses-none id sequence (r ∷ rs) h = ground (arith, absent_loses-none id sequence rs)

found_loses_none :
    (id : String) (sequence : ℕ) (row : StepRow) (rows : List StepRow)
    → HasStepKeys rows
    → find (is_step id sequence) rows ≡ some row
    → is_known row.outcome ≡ false
    → any (loses (is_step id sequence)) rows ≡ false
found_loses_none id sequence row [] keys h again = refl
found_loses_none id sequence row (r ∷ rs) keys h again = ground (
  arith,
  found_loses_none id sequence row rs keys.1,
  absent_loses-none id sequence rs,
  keys.0,
  eq_iff r.operation_id id,
  ap (λ (i : String). find (is_step i sequence) rs),
  ap (λ (n : ℕ). find (is_step r.operation_id n) rs),
  again,
)

Change-AllKept : (s t : Tables) → IsConsistent s → Change s t → AllKept s.steps t.steps
Change-AllKept s t c (keeps e) = rw e (AllKept-refl s.steps)
Change-AllKept s t c (accepts row receipt instances new same fresh free request plan e) =
    rw e (AllKept-refl s.steps)
Change-AllKept s t c (records parent row looked running attempt unfinished next idle fresh e) =
    rw e (AllKept-self s.steps (row ∷ []))
Change-AllKept s t c (finishes id sequence outcome now e) =
    rw e (AllKept-finished _ outcome now s.steps (open_loses_none id sequence s.steps))
Change-AllKept s t c (reconciles id sequence outcome now row found again e) = rw e (
    AllKept-finished _ outcome now s.steps
      (found_loses_none id sequence row s.steps c.step_keys found again))
Change-AllKept s t c (moves id current status f looked live same ends e) =
    rw e (AllKept-refl s.steps)
Change-AllKept s t c (interrupts e) = rw e (AllKept-refl s.steps)

-- What is found among the receipts is found ever after.
Change-found :
    (s t : Tables) (p : RequestReceipt → Bool) (a : RequestReceipt)
    → Change s t
    → find p s.receipts ≡ some a
    → find p t.receipts ≡ some a
Change-found s t p a (keeps e) found = rw e found
Change-found s t p a (accepts row receipt instances new same fresh free request plan e) found =
    rw e (find-append-some p s.receipts receipt ∙ ground (arith, found))
Change-found s t p a (records parent row looked running attempt unfinished next idle fresh e)
      found =
    rw e found
Change-found s t p a (finishes id sequence outcome now e) found = rw e found
Change-found s t p a (reconciles id sequence outcome now row looked again e) found = rw e found
Change-found s t p a (moves id current status f looked live same ends e) found = rw e found
Change-found s t p a (interrupts e) found = rw e found

module _ (engine : Engine) (enforces : EnforcesKeys engine) where
  -- Whatever requests follow, every step of a consistent database stays at its place with its intent,
  -- and with its outcome once that is known.
  pub serve_all-AllKept :
      (qs : List Request) (s : Tables)
      → IsConsistent s
      → AllKept s.steps (serve_all engine qs s).steps
  serve_all-AllKept [] s c = AllKept-refl s.steps
  serve_all-AllKept (q ∷ qs) s c =
      let change = serve-Change engine enforces q s in
      AllKept-trans s.steps _ _ (Change-AllKept s _ c change)
        (serve_all-AllKept qs (serve engine q s) (Change-IsConsistent s _ c change))

  pub serve_all-found :
      (qs : List Request) (s : Tables) (p : RequestReceipt → Bool) (a : RequestReceipt)
      → find p s.receipts ≡ some a
      → find p (serve_all engine qs s).receipts ≡ some a
  serve_all-found [] s p a found = found
  serve_all-found (q ∷ qs) s p a found =
      serve_all-found qs (serve engine q s) p a
        (Change-found s _ p a (serve-Change engine enforces q s) found)
