-- ===== src/Runner/Interleaving.antt =====
-- crates/application/src/operation_runner.rs: tasks that share the gate. A state is what the mutex
-- guards together with the guards and reservations that the tasks hold; a step is one critical
-- section of any task, so a run is any interleaving of them.
pub mod Counting
pub mod Capacity
pub mod Shutdown
use compose_nest.Common.{ℕ, ◌≡◌, String, none, some, List, [], ◌∷◌, ok, err}
use compose_nest.Runner.{
  RunnerError, instance_busy, Active, new_active, Token, guard, reservation, enter, reserve, bind,
  release, close,
}

pub record System : Type 0 where
  pub active : Active
  pub tokens : List Token

abbrev pub start : System
start = record { active = new_active; tokens = [] }

-- `Take x xs ys`: `ys` is `xs` without one occurrence of `x`.
pub data Take (x : Token) : List Token → List Token → Type 0 where
  here : {xs : List Token} → Take x (x ∷ xs) xs
  there : {y : Token} {xs ys : List Token} → Take x xs ys → Take x (y ∷ xs) (y ∷ ys)

pub data Step (s t : System) : Type 0 where
  -- `run_exclusive` or `run_step` passes `enter`.
  enters :
      (id : String) (a : Active)
      → enter id s.active ≡ (ok tt, a)
      → t ≡ record { active = a; tokens = guard id ∷ s.tokens }
      → Step s t
  reserves :
      (a : Active)
      → reserve s.active ≡ (ok tt, a)
      → t ≡ record { active = a; tokens = reservation none ∷ s.tokens }
      → Step s t
  -- `run_reserved` binds an unbound reservation of this runner.
  binds :
      (id : String) (a : Active) (rest : List Token)
      → Take (reservation none) s.tokens rest
      → bind id s.active ≡ (ok tt, a)
      → t ≡ record { active = a; tokens = reservation (some id) ∷ rest }
      → Step s t
  -- A guard or a reservation is dropped: at the end of the work, or because binding was refused.
  drops :
      (token : Token) (rest : List Token)
      → Take token s.tokens rest
      → t ≡ record { active = release token s.active; tokens = rest }
      → Step s t
  -- `shutdown` begins.
  closes : t ≡ record s { active = close s.active } → Step s t

pub data Reach (s : System) : System → Type 0 where
  here : Reach s s
  next : {t u : System} → Reach s t → Step t u → Reach s u
