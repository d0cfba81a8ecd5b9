-- ===== src/Runner/Interleaving/Shutdown.antt =====
-- crates/application/src/operation_runner.rs: who is admitted, and what shutdown establishes.
use mathlib.Core.List.{Memᴰ}
use compose_nest.Common.{
  suc, ◌+◌, ◌≤◌, ◌<◌, ◌≡◌, ◌≢◌, ◌↔◌, refl, String, Bool, true, false, none, some, List, [], ◌∷◌, ok,
  arith, length, Bool-cases, inl, inr,
}
use compose_nest.Runner.{
  Active, contains, Token, guard, reservation, enter, release, close, is_idle, wait_idle,
}
use compose_nest.Runner.Interleaving.{
  System, start, Take, Take.here, Take.there, Step, enters, reserves, binds, drops, closes, Reach,
}
use compose_nest.Runner.Interleaving.Counting.{is_for, total, contains-count, count-contains}
use compose_nest.Runner.Interleaving.Capacity.{
  Inv, Reach-Inv, start-Inv, bound-or-free, enter-eq-ok, reserve-eq-ok, bind-eq-ok,
}

enter_of_room :
    (id : String) (active : Active)
    → active.closing ≡ false
    → contains active.instances id ≡ false
    → length active.instances + active.reservations ≢ 2
    → (enter id active).0 ≡ ok tt
unfolding enter
enter_of_room id active c f r = ground arith

enter-ok :
    (id : String) (active : Active)
    → (enter id active).0 ≡ ok tt
    → enter id active ≡ (ok tt, (enter id active).1)
unfolding enter
enter-ok id active h = ground arith

-- In every interleaving an instance is admitted exactly when the runner is not closing, no task
-- holds the instance, and fewer than two tokens are out.
pub enter_iff :
    (t : System) (id : String)
    → Reach start t
    → ((enter id t.active).0 ≡ ok tt)
      ↔ ((t.active.closing ≡ false) × (total (is_for id) t.tokens ≡ 0) × (length t.tokens < 2))
enter_iff t id r = (to, from)
  where
    v : Inv t
    v = Reach-Inv start-Inv r

    to :
        (enter id t.active).0 ≡ ok tt
        → (t.active.closing ≡ false) × (total (is_for id) t.tokens ≡ 0) × (length t.tokens < 2)
    to h =
        let (running, fresh, room, same) = enter-eq-ok id t.active _ (enter-ok id t.active h) in
        (
          running,
          omega (arith, v.held id, contains-count id t.active.instances fresh),
          omega (arith, v.capacity, room, v.free, v.bound, bound-or-free t.tokens),
        )

    from :
        (t.active.closing ≡ false) × (total (is_for id) t.tokens ≡ 0) × (length t.tokens < 2)
        → (enter id t.active).0 ≡ ok tt
    from (running, none_held, room) =
        enter_of_room id t.active running
          (count-contains id t.active.instances (omega (arith, v.held id)))
          (omega (arith, v.free, v.bound, bound-or-free t.tokens))

length-Take : {x : Token} {xs ys : List Token} → Take x xs ys → length xs ≡ suc (length ys)
length-Take here = refl
length-Take (there t) = omega (arith, length-Take t)

release-closing : (token : Token) (a : Active) → (release token a).closing ≡ a.closing
unfolding release
release-closing (guard id) a = refl
release-closing (reservation none) a = refl
release-closing (reservation (some id)) a = refl

-- While the runner is closing no step hands out a token, and it stays closing.
abbrev Shrinks : System → System → Type 0
Shrinks s t = (t.active.closing ≡ true) × (length t.tokens ≤ length s.tokens)

Step-Shrinks : {s t : System} → Step s t → s.active.closing ≡ true → Shrinks s t
unfolding close
Step-Shrinks {s} (enters id a e same) c = cc (c, (enter-eq-ok id s.active a e).0)
Step-Shrinks {s} (reserves a e same) c = cc (c, (reserve-eq-ok s.active a e).0)
Step-Shrinks {s} (binds id a rest taken e same) c =
    let (fresh, next) = bind-eq-ok id s.active a e in
    rw (same, next) (c, omega (arith, length-Take taken))
Step-Shrinks {s} (drops token rest taken same) c =
    rw same (rw (release-closing token s.active) c, omega (arith, length-Take taken))
Step-Shrinks {s} (closes same) c = rw same (refl, omega arith)

Reach-Shrinks : {s t : System} → s.active.closing ≡ true → Reach s t → Shrinks s t
Reach-Shrinks c Reach.here = (c, omega arith)
Reach-Shrinks c (Reach.next {t = m} r st) =
    let (still, fewer) = Reach-Shrinks c r in
    let (closed, less) = Step-Shrinks st still in (closed, omega arith)

is_idle-eq : (a : Active) → is_idle a ≡ true → (length a.instances ≡ 0) × (a.reservations ≡ 0)
unfolding is_idle
is_idle-eq a h = ground arith

no_tokens : (ts : List Token) → length ts ≤ 0 → ts ≡ []
no_tokens [] h = refl
no_tokens (t ∷ ts) h = absurd (omega arith)

-- When the loop of `shutdown` finds the runner idle after closing it, no task holds a token, and
-- none ever will.
pub idle_after_close :
    (s t : System)
    → Reach start s
    → s.active.closing ≡ true
    → is_idle s.active ≡ true
    → Reach s t
    → (s.tokens ≡ []) × (t.tokens ≡ [])
idle_after_close s t before c idle r =
    let v = Reach-Inv start-Inv before in
    let (no_instances, no_reservations) = is_idle-eq s.active idle in
    let none_left : length s.tokens ≤ 0 = omega (arith, v.free, v.bound, bound-or-free s.tokens) in
    (no_tokens s.tokens none_left, no_tokens t.tokens (omega (arith, (Reach-Shrinks c r).1)))

-- The states that the loop of `shutdown` looks at, in order.
abbrev pub seen : List (Bool × Active) → Active → List Active
seen [] active = active ∷ []
seen ((expired, next) ∷ rounds) active = active ∷ seen rounds next

wait_idle-true :
    (rounds : List (Bool × Active)) (active : Active)
    → wait_idle rounds active ≡ some true
    → (a : Active) × Memᴰ a (seen rounds active) × (is_idle a ≡ true)
unfolding wait_idle
wait_idle-true [] active h = (active, Memᴰ.head refl, ground arith)
wait_idle-true ((expired, next) ∷ rounds) active h = elim (Bool-cases (is_idle active)) [
  | inl idle ↦ (active, Memᴰ.head refl, idle)
  | inr busy ↦ let (a, m, e) = wait_idle-true rounds next (ground arith) in (a, Memᴰ.tail m, e)
]

wait_idle-false :
    (rounds : List (Bool × Active)) (active : Active)
    → wait_idle rounds active ≡ some false
    → (a : Active) × (next : Active) × Memᴰ a (seen rounds active)
      × (is_idle a ≡ false)
      × Memᴰ (true, next) rounds
unfolding wait_idle
wait_idle-false [] active h = absurd (ground arith)
wait_idle-false ((expired, next) ∷ rounds) active h = elim (Bool-cases expired) [
  | inl late ↦ (active, next, Memᴰ.head refl, ground arith, Memᴰ.head (cc))
  | inr early ↦
      let (a, n, m, e, l) = wait_idle-false rounds next (ground arith) in
      (a, n, Memᴰ.tail m, e, Memᴰ.tail l)
]

-- `shutdown` answers true only when it has seen the runner idle, and false only when it has seen
-- it busy and the deadline had passed in some round.
pub wait_idle_sound :
    (rounds : List (Bool × Active)) (active : Active)
    → (wait_idle rounds active ≡ some true
        → ((a : Active) × Memᴰ a (seen rounds active) × (is_idle a ≡ true)))
      × (wait_idle rounds active ≡ some false
          → ((a : Active) × (next : Active) × Memᴰ a (seen rounds active)
              × (is_idle a ≡ false)
              × Memᴰ (true, next) rounds))
wait_idle_sound rounds active = (wait_idle-true rounds active, wait_idle-false rounds active)
