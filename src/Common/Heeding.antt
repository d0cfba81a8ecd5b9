-- ===== src/Common/Heeding.antt =====
-- Blocks that stop at the first call that the world refuses. Which answers grant a call is a
-- parameter, a predicate on the call and the calls before it.
use mathlib.Core.Bool.{Bool, true, false}
use mathlib.Core.List.{List, [], ◌∷◌}
use mathlib.Core.Path.{◌≡◌, refl}
use compose_nest.Common.Tests.{if◌then◌else◌}
use compose_nest.Common.Effects.{
  Result, ok, err, map_err, is_ok, Exec, resume, ◌>>=◌, perform, pure, raise, attempt,
}

pub map_err-is_ok :
    {A E F : Type 0} (f : E → F) (r : Result A E) (a : A) → map_err f r ≡ ok a → is_ok r ≡ true
map_err-is_ok f (ok b) a e = refl
map_err-is_ok f (err c) a e = cc

module _ {C : Type 0} (Grants : C → List C → Type 0) where
  -- Every call of the history was granted.
  abbrev pub AllGranted : List C → Type 0
  AllGranted [] = Unit
  AllGranted (c ∷ h) = Grants c h × AllGranted h

  -- Every call but the newest was granted: nothing follows a refusal.
  abbrev pub Heeds : List C → Type 0
  Heeds [] = Unit
  Heeds (c ∷ h) = AllGranted h

  -- After a block that went well everything was granted, and any block stops at a refusal.
  abbrev pub Ends : {E A : Type 0} → Result A E × List C → Type 0
  Ends (ok a, h) = AllGranted h
  Ends (err e, h) = Heeds h

  pub record Stops {E A : Type 0} (m : Exec C E A) : Type 0 where
    pub from : (h : List C) → AllGranted h → Ends (m h)

  pub AllGranted-Heeds : (h : List C) → AllGranted h → Heeds h
  AllGranted-Heeds [] g = tt
  AllGranted-Heeds (c ∷ h) g = g.1

  Ends-Heeds : {E A : Type 0} (r : Result A E × List C) → Ends r → Heeds r.1
  Ends-Heeds (ok a, h) x = AllGranted-Heeds h x
  Ends-Heeds (err e, h) x = x

  pub Stops-Heeds : {E A : Type 0} (m : Exec C E A) → Stops m → Heeds (m []).1
  Stops-Heeds m s = Ends-Heeds (m []) (s.from [] tt)

  pub perform-Stops :
      {E A : Type 0} (c : C) (answer : List C → Result A E)
      → ((h : List C) (a : A) → answer (c ∷ h) ≡ ok a → Grants c h)
      → Stops (perform c answer)
  unfolding perform
  perform-Stops {E} {A} c answer grants = record { from = λ h g. go h g (answer (c ∷ h)) refl }
    where
      go : (h : List C) → AllGranted h → (r : Result A E) → answer (c ∷ h) ≡ r → Ends (r, c ∷ h)
      go h g (ok a) e = (grants h a e, g)
      go h g (err x) e = g

  pub bind-Stops :
      {E A B : Type 0} (m : Exec C E A) (k : A → Exec C E B)
      → Stops m
      → ((a : A) → Stops (k a))
      → Stops (m >>= k)
  unfolding ◌>>=◌
  bind-Stops {E} {A} m k s t = record { from = λ h g. go (m h) (s.from h g) }
    where
      go : (r : Result A E × List C) → Ends r → Ends (resume k r)
      go (ok a, h) x = (t a).from h x
      go (err e, h) x = x

  pub attempt-Stops :
      {E F A B : Type 0} (m : Exec C F A) (k : Result A F → Exec C E B)
      → ((h : List C) → AllGranted h → AllGranted (m h).1)
      → ((r : Result A F) → Stops (k r))
      → Stops (attempt m k)
  unfolding attempt
  attempt-Stops m k s t = record { from = λ h g. (t (m h).0).from (m h).1 (s h g) }

  pub pure-Stops : {E A : Type 0} (a : A) → Stops {E = E} (pure a)
  pure-Stops a = record { from = λ h g. g }

  pub raise-Stops : {E A : Type 0} (e : E) → Stops {A = A} (raise e)
  raise-Stops e = record { from = λ h g. AllGranted-Heeds h g }

  pub if-Stops :
      {E A : Type 0} (b : Bool) {m k : Exec C E A} → Stops m → Stops k → Stops (if b then m else k)
  if-Stops true s t = s
  if-Stops false s t = t
