-- ===== src/Runner.antt =====
-- crates/application/src/operation_runner.rs: the gate that limits changes to two at a time and to
-- one for each instance. A function here is one critical section of the mutex, on the state that it
-- guards; what runs between two of them is in Runner/Interleaving.
pub mod Step
pub mod Interleaving
pub mod Gate
use compose_nest.Common.{
  ℕ, ◌+◌, ◌-◌, String, Bool, true, false, not, ◌&&◌, ◌||◌, Option, none, some, List, [], ◌∷◌,
  Result, ok, err, ◌==◌, if◌then◌else◌, length, any, str_eq,
}
use compose_nest.Journal.{StoreConflict, invalid_input}

abbrev pub max_concurrent_changes : ℕ
max_concurrent_changes = 2

pub data RunnerError : Type 0 where
  shutting_down instance_busy capacity_reached : RunnerError
  prerequisite : String → RunnerError
  store : StoreConflict → RunnerError
  outcome_unknown failed : RunnerError

-- The `HashSet` of instances is a list; `insert` and `remove` below keep it free of duplicates.
pub record Active : Type 0 where
  pub closing : Bool
  pub reservations : ℕ
  pub instances : List String

unfoldable pub new_active : Active
new_active = record { closing = false; reservations = 0; instances = [] }

abbrev pub contains : List String → String → Bool
contains xs x = any (λ y. str_eq y x) xs

unfoldable pub insert : String → List String → List String
insert x xs = if contains xs x then xs else x ∷ xs

unfoldable pub remove : String → List String → List String
remove x [] = []
remove x (y ∷ ys) = let rest = remove x ys in if str_eq y x then rest else y ∷ rest

-- `enter`, which hands out an `ActiveGuard`.
unfoldable pub enter : String → Active → Result (Unit {0}) RunnerError × Active
unfolding insert
enter id active =
    if active.closing
    then (err shutting_down, active)
    else if contains active.instances id
    then (err instance_busy, active)
    else if length active.instances + active.reservations == max_concurrent_changes
    then (err capacity_reached, active)
    else (ok tt, record active { instances = insert id active.instances })

-- `reserve`, which hands out an `OperationReservation` that is not bound to an instance.
unfoldable pub reserve : Active → Result (Unit {0}) RunnerError × Active
reserve active =
    if active.closing
    then (err shutting_down, active)
    else if length active.instances + active.reservations == max_concurrent_changes
    then (err capacity_reached, active)
    else (ok tt, record active { reservations = active.reservations + 1 })

-- The first block of `run_reserved`, which binds the reservation.
unfoldable pub bind : String → Active → Result (Unit {0}) RunnerError × Active
unfolding insert
bind id active = if contains active.instances id then (err instance_busy, active) else (
  ok tt,
  record active { reservations = active.reservations - 1; instances = insert id active.instances },
)

-- What a task holds: a guard, or a reservation with the instance that it is bound to.
pub data Token : Type 0 where
  guard : String → Token
  reservation : Option String → Token

-- The two `Drop` implementations.
unfoldable pub release : Token → Active → Active
unfolding remove
release (guard id) active = record active { instances = remove id active.instances }
release (reservation (some id)) active = record active { instances = remove id active.instances }
release (reservation none) active = record active { reservations = active.reservations - 1 }

-- Go on with the work if the gate admitted it, and release what the task holds when it ends. The
-- work sees the gate, since other tasks go through it meanwhile.
unfoldable pub run_holding :
    {T : Type 0}
    → (Active → Active)
    → Token
    → (Active → T × Active)
    → Result (Unit {0}) RunnerError × Active
    → Result T RunnerError × Active
unfolding release
run_holding refused token work (err e, a) = (err e, refused a)
run_holding refused token work (ok _, a) = let (result, b) = work a in (ok result, release token b)

unfoldable pub run_exclusive :
    {T : Type 0} → String → (Active → T × Active) → Active → Result T RunnerError × Active
unfolding run_holding enter
run_exclusive id work active = run_holding (λ a. a) (guard id) work (enter id active)

-- A reservation of another runner is dropped there, and does not concern this gate.
unfoldable pub run_reserved :
    {T : Type 0} → Bool → String → (Active → T × Active) → Active → Result T RunnerError × Active
unfolding run_holding bind
run_reserved same_runner id work active =
    if not same_runner
    then (err (store invalid_input), active)
    else run_holding (release (reservation none)) (reservation (some id)) work (bind id active)

-- The first lines of `shutdown`, and its loop: each round has the test of the deadline and the
-- state found after the wait. `none` means that the waiting goes on.
unfoldable pub close : Active → Active
close active = record active { closing = true }

unfoldable pub is_idle : Active → Bool
is_idle active = length active.instances == 0 && active.reservations == 0

unfoldable pub wait_idle : List (Bool × Active) → Active → Option Bool
unfolding is_idle
wait_idle [] active = if is_idle active then some true else none
wait_idle ((expired, next) ∷ rounds) active =
    let later = wait_idle rounds next in
    if is_idle active then some true else if expired then some false else later
