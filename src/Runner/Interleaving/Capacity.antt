-- ===== src/Runner/Interleaving/Capacity.antt =====
-- crates/application/src/operation_runner.rs: the gate's bookkeeping is exact in every interleaving.
use compose_nest.Common.{
  suc, ◌+◌, ◌-◌, ◌≤◌, ◌≡◌, ◌≢◌, refl, ◌∙◌, String, false, none, some, List, [], ◌∷◌, ok, arith,
  str_eq, eq_iff, if◌then◌else◌, length,
}
use compose_nest.Runner.{
  Active, contains, remove, Token, guard, reservation, enter, reserve, bind, release, close,
  new_active,
}
use compose_nest.Runner.Interleaving.{
  System, start, Take, Step, enters, reserves, binds, drops, closes, Reach,
}
use compose_nest.Runner.Interleaving.Counting.{
  count, is_free, is_bound, is_for, total, total-Take, contains-count, count-remove, length-remove,
}

-- The invariant: `instances` holds each instance as often as the tasks do, at most once, and the
-- capacity is respected.
pub record Inv (s : System) : Type 0 where
  pub free : s.active.reservations ≡ total is_free s.tokens
  pub bound : length s.active.instances ≡ total is_bound s.tokens
  pub held : (x : String) → count x s.active.instances ≡ total (is_for x) s.tokens
  pub once : (x : String) → count x s.active.instances ≤ 1
  pub capacity : length s.active.instances + s.active.reservations ≤ 2

pub start-Inv : Inv start
unfolding new_active
start-Inv = record {
  free = refl;
  bound = refl;
  held = λ x. refl;
  once = λ x. omega arith;
  capacity = omega arith;
}

pub enter-eq-ok :
    (id : String) (active a : Active)
    → enter id active ≡ (ok tt, a)
    → (active.closing ≡ false)
      × (contains active.instances id ≡ false)
      × (length active.instances + active.reservations ≢ 2)
      × (a ≡ record active { instances = id ∷ active.instances })
unfolding enter
enter-eq-ok id active a h = ground arith

pub reserve-eq-ok :
    (active a : Active)
    → reserve active ≡ (ok tt, a)
    → (active.closing ≡ false)
      × (length active.instances + active.reservations ≢ 2)
      × (a ≡ record active { reservations = active.reservations + 1 })
unfolding reserve
reserve-eq-ok active a h = ground arith

pub bind-eq-ok :
    (id : String) (active a : Active)
    → bind id active ≡ (ok tt, a)
    → (contains active.instances id ≡ false)
      × (a ≡ record active {
        reservations = active.reservations - 1;
        instances = id ∷ active.instances;
      })
unfolding bind
bind-eq-ok id active a h = ground arith

-- A new instance in the set.
module _ (id : String) (xs : List String) (fresh : contains xs id ≡ false) where
  once-cons : (x : String) → count x xs ≤ 1 → count x (id ∷ xs) ≤ 1
  once-cons x h = ground (arith, eq_iff id x, contains-count id xs fresh)

enter-Inv :
    (s : System) (id : String) (a : Active)
    → Inv s
    → enter id s.active ≡ (ok tt, a)
    → Inv (record { active = a; tokens = guard id ∷ s.tokens })
enter-Inv s id a v e =
    let (running, fresh, room, same) = enter-eq-ok id s.active a e in
    rw same (record {
      free = omega (arith, v.free);
      bound = omega (arith, v.bound);
      held = λ x. omega (arith, v.held x);
      once = λ x. once-cons id s.active.instances fresh x (v.once x);
      capacity = omega (arith, v.capacity);
    })

reserve-Inv :
    (s : System) (a : Active)
    → Inv s
    → reserve s.active ≡ (ok tt, a)
    → Inv (record { active = a; tokens = reservation none ∷ s.tokens })
reserve-Inv s a v e =
    let (running, room, same) = reserve-eq-ok s.active a e in
    rw same (record {
      free = omega (arith, v.free);
      bound = omega (arith, v.bound);
      held = λ x. omega (arith, v.held x);
      once = v.once;
      capacity = omega (arith, v.capacity);
    })

bind-Inv :
    (s : System) (id : String) (a : Active) (rest : List Token)
    → Inv s
    → Take (reservation none) s.tokens rest
    → bind id s.active ≡ (ok tt, a)
    → Inv (record { active = a; tokens = reservation (some id) ∷ rest })
bind-Inv s id a rest v t e =
    let (fresh, same) = bind-eq-ok id s.active a e in
    rw same (record {
      free = omega (arith, v.free, total-Take is_free t);
      bound = omega (arith, v.bound, total-Take is_bound t);
      held = λ x. omega (arith, v.held x, total-Take (is_for x) t);
      once = λ x. once-cons id s.active.instances fresh x (v.once x);
      capacity = omega (arith, v.capacity, v.free, total-Take is_free t);
    })

-- Dropping a token for `id`: the set loses exactly that instance.
module _ (s : System) (v : Inv s) (id : String) (rest : List Token)
    (free : total is_free s.tokens ≡ total is_free rest)
    (bound : total is_bound s.tokens ≡ suc (total is_bound rest))
    (held : (x : String)
      → total (is_for x) s.tokens ≡ (if str_eq id x then 1 else 0) + total (is_for x) rest) where
  remove-Inv : Inv (record {
    active = record s.active { instances = remove id s.active.instances };
    tokens = rest;
  })
  remove-Inv = record {
    free = v.free ∙ free;
    bound = ground (
      arith,
      v.bound,
      bound,
      length-remove id s.active.instances,
      v.held id,
      v.once id,
      held id,
      eq_iff id id,
    );
    held = λ x. ground (arith, count-remove id x s.active.instances, v.held x, v.once x, held x);
    once = λ x. ground (arith, count-remove id x s.active.instances, v.once x);
    capacity = omega (arith, v.capacity, length-remove id s.active.instances);
  }

release-Inv :
    (s : System) (token : Token) (rest : List Token)
    → Inv s
    → Take token s.tokens rest
    → Inv (record { active = release token s.active; tokens = rest })
unfolding release
release-Inv s (guard id) rest v t =
    remove-Inv s v id rest (omega (arith, total-Take is_free t))
      (omega (arith, total-Take is_bound t)) (λ x. total-Take (is_for x) t)
release-Inv s (reservation (some id)) rest v t =
    remove-Inv s v id rest (omega (arith, total-Take is_free t))
      (omega (arith, total-Take is_bound t)) (λ x. total-Take (is_for x) t)
release-Inv s (reservation none) rest v t = record {
  free = omega (arith, v.free, total-Take is_free t);
  bound = omega (arith, v.bound, total-Take is_bound t);
  held = λ x. omega (arith, v.held x, total-Take (is_for x) t);
  once = v.once;
  capacity = omega (arith, v.capacity);
}

close-Inv : (s : System) → Inv s → Inv (record s { active = close s.active })
unfolding close
close-Inv s v = record {
  free = v.free;
  bound = v.bound;
  held = v.held;
  once = v.once;
  capacity = v.capacity;
}

Step-Inv : {s t : System} → Step s t → Inv s → Inv t
Step-Inv {s} (enters id a e same) v = rw same (enter-Inv s id a v e)
Step-Inv {s} (reserves a e same) v = rw same (reserve-Inv s a v e)
Step-Inv {s} (binds id a rest taken e same) v = rw same (bind-Inv s id a rest v taken e)
Step-Inv {s} (drops token rest taken same) v = rw same (release-Inv s token rest v taken)
Step-Inv {s} (closes same) v = rw same (close-Inv s v)

pub Reach-Inv : {s t : System} → Inv s → Reach s t → Inv t
Reach-Inv v Reach.here = v
Reach-Inv v (Reach.next r st) = Step-Inv st (Reach-Inv v r)

pub bound-or-free : (ts : List Token) → total is_bound ts + total is_free ts ≡ length ts
bound-or-free [] = refl
bound-or-free (guard id ∷ ts) = omega (arith, bound-or-free ts)
bound-or-free (reservation none ∷ ts) = omega (arith, bound-or-free ts)
bound-or-free (reservation (some id) ∷ ts) = omega (arith, bound-or-free ts)

-- In every interleaving of tasks, at most two tokens are out, no instance is held by two of them,
-- and the gate's counter and set agree with the tokens, so that no drop can take the counter below
-- zero.
pub Reach-capacity :
    (t : System)
    → Reach start t
    → (length t.tokens ≤ 2)
      × ((x : String) → total (is_for x) t.tokens ≤ 1)
      × (t.active.reservations ≡ total is_free t.tokens)
      × ((x : String) → count x t.active.instances ≡ total (is_for x) t.tokens)
Reach-capacity t r =
    let v = Reach-Inv start-Inv r in
    (
      omega (arith, v.free, v.bound, v.capacity, bound-or-free t.tokens),
      λ x. omega (arith, v.held x, v.once x),
      v.free,
      v.held,
    )
