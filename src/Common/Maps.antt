-- ===== src/Common/Maps.antt =====
-- Maps from texts, as the entries in the order of their keys.
use Prim.Native.Nat.{Ordering}
use Prim.Native.String.{String, compare}
use mathlib.Core.Path.{◌≡◌, refl, sym}
use mathlib.Core.Logic.{◌⊎◌, inl, inr, ◌≢◌}
use mathlib.Core.Bool.{Bool, true, false, not}
use mathlib.Core.Option.{Option, none, some}
use mathlib.Core.List.{List, [], ◌∷◌}
use native.Mathlib.Omega.{arith}
use text.Mathlib.Text.{◌==◌ as str_eq}
use text.Mathlib.TextEquality.{eq_iff}
use compose_nest.Common.Tests.{if◌then◌else◌, is_some, Bool-cases}
use compose_nest.Common.Lists.{select}

-- The order of the keys, which is that of the code points.
abbrev pub before : String → String → Bool
before a b = elim (compare a b) [ Ordering.lt ↦ true | _ ↦ false ]

abbrev pub Map : Type 0 → Type 0
Map V = List (String × V)

module _ {V : Type 0} where
  abbrev pub lookup : String → Map V → Option V
  lookup k [] = none
  lookup k ((q, v) ∷ m) = let rest = lookup k m in if str_eq q k then some v else rest

  abbrev pub insert : String → V → Map V → Map V
  insert k v [] = (k, v) ∷ []
  insert k v ((q, w) ∷ m) =
      let rest = insert k v m in
      if str_eq q k then (k, v) ∷ m else if before k q then (k, v) ∷ (q, w) ∷ m else (q, w) ∷ rest

  abbrev pub remove : String → Map V → Map V
  remove k m = select (λ (e : String × V). not (str_eq e.0 k)) m

  abbrev pub has_key : String → Map V → Bool
  has_key k m = is_some (lookup k m)

  -- An entry of a map.
  abbrev pub IsEntry : String → V → Map V → Type 0
  IsEntry k v [] = ⊥
  IsEntry k v ((q, w) ∷ m) = ((q ≡ k) × (w ≡ v)) ⊎ IsEntry k v m

  pub lookup-insert :
      (j k : String) (v : V) (m : Map V)
      → lookup j (insert k v m) ≡ (if str_eq k j then some v else lookup j m)
  lookup-insert j k v [] = refl
  lookup-insert j k v ((q, w) ∷ m) =
      ground (arith, lookup-insert j k v m, eq_iff q k, eq_iff q j, eq_iff k j)

  pub lookup-IsEntry : (k : String) (v : V) (m : Map V) → lookup k m ≡ some v → IsEntry k v m
  lookup-IsEntry k v [] h = cc
  lookup-IsEntry k v ((q, w) ∷ m) h = elim (Bool-cases (str_eq q k)) [
    | inl e ↦ inl ((eq_iff q k).0 e, ground (arith, h, e))
    | inr e ↦ inr (lookup-IsEntry k v m (ground (arith, h, e)))
  ]

  pub lookup-remove :
      (j k : String) (m : Map V) → lookup j (remove k m) ≡ (if str_eq k j then none else lookup j m)
  lookup-remove j k [] = ground arith
  lookup-remove j k ((q, w) ∷ m) =
      ground (arith, lookup-remove j k m, eq_iff q k, eq_iff q j, eq_iff k j)

  -- An entry of the part of a map that passes a test.
  pub IsEntry-select :
      (p : String × V → Bool) (k : String) (v : V) (m : Map V)
      → IsEntry k v (select p m)
      → IsEntry k v m × (p (k, v) ≡ true)
  IsEntry-select p k v [] h = absurd h
  IsEntry-select p k v ((q, w) ∷ m) h = chosen (p (q, w)) (IsEntry-select p k v m) refl h
    where
      chosen :
          (b : Bool)
          → (IsEntry k v (select p m) → IsEntry k v m × (p (k, v) ≡ true))
          → p (q, w) ≡ b
          → IsEntry k v (if b then (q, w) ∷ select p m else select p m)
          → IsEntry k v ((q, w) ∷ m) × (p (k, v) ≡ true)
      chosen true rest e (inl (x, y)) = (inl (x, y), rw (← x, ← y) e)
      chosen true rest e (inr x) = let r = rest x in (inr r.0, r.1)
      chosen false rest e x = let r = rest x in (inr r.0, r.1)

  pub IsEntry-insert :
      (j k : String) (v w : V) (m : Map V)
      → IsEntry j v (insert k w m)
      → ((j ≡ k) × (v ≡ w)) ⊎ IsEntry j v m
  IsEntry-insert j k v w [] (inl (x, y)) = inl (sym x, sym y)
  IsEntry-insert j k v w [] (inr e) = absurd e
  IsEntry-insert j k v w ((q, u) ∷ m) e =
      placed (str_eq q k) (before k q) (IsEntry-insert j k v w m) e
    where
      placed :
          (b c : Bool)
          → (IsEntry j v (insert k w m) → ((j ≡ k) × (v ≡ w)) ⊎ IsEntry j v m)
          → IsEntry j v
              (if b then (k, w) ∷ m else if c then (k, w) ∷ (q, u) ∷ m else (q, u) ∷ insert k w m)
          → ((j ≡ k) × (v ≡ w)) ⊎ IsEntry j v ((q, u) ∷ m)
      placed true c rest (inl (x, y)) = inl (sym x, sym y)
      placed true c rest (inr x) = inr (inr x)
      placed false true rest (inl (x, y)) = inl (sym x, sym y)
      placed false true rest (inr x) = inr x
      placed false false rest (inl x) = inr (inl x)
      placed false false rest (inr x) = elim (rest x) [ inl y ↦ inl y | inr y ↦ inr (inr y) ]

  pub IsEntry-remove :
      (j k : String) (v : V) (m : Map V) → IsEntry j v (remove k m) → IsEntry j v m × (j ≢ k)
  IsEntry-remove j k v m e =
      let (at, other) = IsEntry-select (λ (e : String × V). not (str_eq e.0 k)) j v m e in
      (at, λ same. ground (arith, other, eq_iff j k, same))
