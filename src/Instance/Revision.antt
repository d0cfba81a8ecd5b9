-- ===== src/Instance/Revision.antt =====
-- crates/domain/src/instance.rs: what any sequence of updates keeps, and optimistic locking.
use Prim.Native.String.{String}
use mathlib.Core.List.{Memᴰ}
use compose_nest.Common.{
  ℕ, ◌+◌, ◌≤◌, ◌<◌, ◌≡◌, refl, ◌≢◌, ◌⊎◌, inl, inr, Bool, true, List, [], ◌∷◌, arith, ok, err,
  u64_max, sym, ◌∙◌,
}
use compose_nest.Identity.{DisplayName, InstanceId}
use compose_nest.Instance.{
  Lifecycle, managed, retiring, retired, InstanceError, stale_revision, Instance, new_instance,
  rename, begin_retirement, finish_retirement, Update,
}

-- A call of one of the methods that change an instance.
pub data Change : Type 0 where
  name_it : DisplayName → ℕ → Change
  begin : ℕ → Change
  finish : Bool → Change

abbrev pub apply : Change → Update
apply (name_it name expected) = rename name expected
apply (begin expected) = begin_retirement expected
apply (finish verified) = finish_retirement verified

abbrev pub after : Instance → Change → Instance
after s c = (apply c s).1

abbrev pub run : Instance → List Change → Instance
run s [] = s
run s (c ∷ cs) = run (after s c) cs

abbrev pub rank : Lifecycle → ℕ
rank managed = 0
rank retiring = 1
rank retired = 2

-- What one change does: it never touches the identity, and it either leaves the instance as it
-- was or is accepted and raises the revision by one.
pub record Keeps (s t : Instance) : Type 0 where
  pub id : t.id ≡ s.id
  pub target : t.target_id ≡ s.target_id
  pub revision : s.revision ≤ t.revision
  pub rank : rank s.lifecycle ≤ rank t.lifecycle
  pub bounded : s.revision ≤ u64_max → t.revision ≤ u64_max

Keeps-refl : (s : Instance) → Keeps s s
Keeps-refl s = ground arith

Keeps-trans : (s t u : Instance) → Keeps s t → Keeps t u → Keeps s u
Keeps-trans s t u p q = ground arith

after-Keeps : (s : Instance) (c : Change) → Keeps s (after s c)
unfolding rename begin_retirement finish_retirement
after-Keeps s (name_it n e) = ground arith
after-Keeps s (begin e) = ground arith
after-Keeps s (finish b) = ground arith

-- A refused change leaves the instance as it was; an accepted one either leaves it as it was (a
-- rename to the name that it has) or raises the revision by exactly one.
pub change_effect :
    (s : Instance) (c : Change)
    → ((e : InstanceError) → (apply c s).0 ≡ err e → after s c ≡ s)
      × ((apply c s).0 ≡ ok tt → (after s c ≡ s) ⊎ ((after s c).revision ≡ s.revision + 1))
unfolding rename begin_retirement finish_retirement
change_effect s (name_it n e) = ground arith
change_effect s (begin e) = ground arith
change_effect s (finish b) = ground arith

run-Keeps : (s : Instance) (cs : List Change) → Keeps s (run s cs)
run-Keeps s [] = Keeps-refl s
run-Keeps s (c ∷ cs) = Keeps-trans s (after s c) _ (after-Keeps s c) (run-Keeps (after s c) cs)

-- Whatever is requested, a new instance keeps its ID and its target, its revision only grows and
-- stays within 64 bits, and its lifecycle never goes back.
pub run-new_instance :
    (id : InstanceId) (name : DisplayName) (target : String) (cs ds : List Change)
    → let s = run (new_instance id name target) cs in
      let t = run s ds in
      (t.id ≡ id)
      × (t.target_id ≡ target)
      × (s.revision ≤ t.revision)
      × (t.revision ≤ u64_max)
      × (rank s.lifecycle ≤ rank t.lifecycle)
unfolding new_instance
run-new_instance id name target cs ds =
    let k = run-Keeps (new_instance id name target) cs in
    let l = run-Keeps (run (new_instance id name target) cs) ds in
    (l.id ∙ k.id, l.target ∙ k.target, l.revision, l.bounded (k.bounded (omega arith)), l.rank)

stale_refused :
    (s : Instance) (e : ℕ) (name : DisplayName)
    → e < s.revision
    → (rename name e s ≡ (err stale_revision, s)) × (begin_retirement e s ≡ (err stale_revision, s))
unfolding rename begin_retirement
stale_refused s e name h = ground arith

-- Once a change has raised the revision, every rename and every retirement that was confirmed
-- against the earlier revision is refused as stale, whatever happened in between.
pub stale_after_change :
    (s : Instance) (c : Change) (cs : List Change) (name : DisplayName)
    → (after s c).revision ≢ s.revision
    → let t = run (after s c) cs in
      (rename name s.revision t ≡ (err stale_revision, t))
      × (begin_retirement s.revision t ≡ (err stale_revision, t))
stale_after_change s c cs name h =
    stale_refused (run (after s c) cs) s.revision name
      (omega (arith, after-Keeps s c, run-Keeps (after s c) cs))

retired_stays : (s : Instance) (c : Change) → s.lifecycle ≡ retired → after s c ≡ s
unfolding rename begin_retirement finish_retirement
retired_stays s (name_it n e) h = ground arith
retired_stays s (begin e) h = ground arith
retired_stays s (finish b) h = ground arith

-- Nothing changes a retired instance any more.
pub run_of_retired : (s : Instance) (cs : List Change) → s.lifecycle ≡ retired → run s cs ≡ s
run_of_retired s [] h = refl
run_of_retired s (c ∷ cs) h = rw (retired_stays s c h) (run_of_retired s cs h)

retired_or_not : (l : Lifecycle) → (l ≡ retired) ⊎ (l ≢ retired)
retired_or_not retired = inl refl
retired_or_not managed = inr (cc)
retired_or_not retiring = inr (cc)

retired_needs_finish :
    (s : Instance) (c : Change)
    → s.lifecycle ≢ retired
    → (after s c).lifecycle ≡ retired
    → (c ≡ finish true) × (s.lifecycle ≡ retiring)
unfolding rename begin_retirement finish_retirement
retired_needs_finish s (name_it n e) h k = ground arith
retired_needs_finish s (begin e) h k = ground arith
retired_needs_finish s (finish b) h k = ground arith

-- An instance that is retired after some changes and was not before them had its retirement
-- finished by one of them, with its absence from the runtime verified.
pub retired_needs_absence :
    (s : Instance) (cs : List Change)
    → s.lifecycle ≢ retired
    → (run s cs).lifecycle ≡ retired
    → Memᴰ (finish true) cs
retired_needs_absence s [] h k = absurd (h k)
retired_needs_absence s (c ∷ cs) h k = elim (retired_or_not (after s c).lifecycle) [
  | inl e ↦ Memᴰ.head (sym (retired_needs_finish s c h e).0)
  | inr f ↦ Memᴰ.tail (retired_needs_absence (after s c) cs f k)
]
