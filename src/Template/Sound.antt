-- ===== src/Template/Sound.antt =====
-- crates/domain/src/template/validation.rs: the checks refuse, and never panic, and what they
-- leave of a value.
use compose_nest.Common.{
  ℕ, ℤ, ◌≡◌, ◌≢◌, refl, inl, inr, String, Bool, true, Option, none, some, List, [], ◌∷◌, ok, err,
  arith, str_eq, all, All, Bool-cases,
}
use compose_nest.Template.{
  Value, Items, items_of, entries_in, entry, optional, field, expect, Stop, refused, panics,
  Checked, Ends, Ends-ok, Ends-err, Ends-then, Ends-unless, Ends-weaken,
}
use compose_nest.Template.Reading.{
  TemplateError, Checking, require, each, as_map, as_sequence, as_string, as_integer, as_boolean,
  has_entry, object, string_length, integer_range, choice,
}
use compose_nest.Template.Validation.{when_some, ignore, validate_entry, named_map}

-- An end that is an error and no panic.
abbrev pub Refuses : {E : Type 0} → Stop E → Type 0
Refuses (refused e) = Unit
Refuses panics = ⊥

-- A chain that returns something with a property, or refuses.
abbrev pub Sure : {E A : Type 0} → (A → Type 0) → Checked E A → Type 0
Sure P m = Ends Refuses P m

abbrev pub Safe : {E A : Type 0} → Checked E A → Type 0
Safe {A = A} m = Ends Refuses (λ (_ : A). Unit {0}) m

pub Sure-Safe : {E A : Type 0} (P : A → Type 0) (m : Checked E A) → Sure P m → Safe m
Sure-Safe P m s = Ends-weaken Refuses _ _ _ s λ _ _. tt

-- A chain that is sure of its end does not panic.
pub Sure-panics : {E A : Type 0} (P : A → Type 0) (m : Checked E A) → Sure P m → m ≢ err panics
unfolding Ends
Sure-panics P (ok a) s e = cc
Sure-panics P (err (refused t)) s e = cc
Sure-panics P (err panics) s e = absurd s

pub require-Sure : (b : Bool) → Sure (λ _. b ≡ true) (require b)
require-Sure b = Ends-unless Refuses b TemplateError.template_error tt

pub ignore-Safe : {A : Type 0} (m : Checking A) → Safe m → Safe (ignore m)
ignore-Safe m s = Ends-then Refuses _ _ _ _ s λ _ _. Ends-ok Refuses _ _ tt

pub as_map-Sure : (v : Value) → Sure (λ es. entries_in v ≡ es) (as_map v)
as_map-Sure (Value.mapping fs) = Ends-ok Refuses _ _ refl
as_map-Sure (Value.string _) = Ends-err Refuses _ _ tt
as_map-Sure (Value.integer _) = Ends-err Refuses _ _ tt
as_map-Sure (Value.boolean _) = Ends-err Refuses _ _ tt
as_map-Sure (Value.sequence _) = Ends-err Refuses _ _ tt

-- The items of a sequence.
pub as_sequence-Sure :
    (v : Value)
    → Sure
        (λ xs. (items : Items) × (v ≡ Value.sequence items) × (items_of items ≡ xs))
        (as_sequence v)
as_sequence-Sure (Value.sequence items) = Ends-ok Refuses _ _ (items, refl, refl)
as_sequence-Sure (Value.string _) = Ends-err Refuses _ _ tt
as_sequence-Sure (Value.integer _) = Ends-err Refuses _ _ tt
as_sequence-Sure (Value.boolean _) = Ends-err Refuses _ _ tt
as_sequence-Sure (Value.mapping _) = Ends-err Refuses _ _ tt

pub as_string-Sure : (v : Value) → Sure (λ s. v ≡ Value.string s) (as_string v)
as_string-Sure (Value.string s) = Ends-ok Refuses _ _ refl
as_string-Sure (Value.mapping _) = Ends-err Refuses _ _ tt
as_string-Sure (Value.integer _) = Ends-err Refuses _ _ tt
as_string-Sure (Value.boolean _) = Ends-err Refuses _ _ tt
as_string-Sure (Value.sequence _) = Ends-err Refuses _ _ tt

pub as_integer-Safe : (v : Value) → Safe (as_integer v)
as_integer-Safe (Value.integer s) = Ends-ok Refuses _ _ tt
as_integer-Safe (Value.mapping _) = Ends-err Refuses _ _ tt
as_integer-Safe (Value.string _) = Ends-err Refuses _ _ tt
as_integer-Safe (Value.boolean _) = Ends-err Refuses _ _ tt
as_integer-Safe (Value.sequence _) = Ends-err Refuses _ _ tt

pub as_boolean-Safe : (v : Value) → Safe (as_boolean v)
as_boolean-Safe (Value.boolean s) = Ends-ok Refuses _ _ tt
as_boolean-Safe (Value.mapping _) = Ends-err Refuses _ _ tt
as_boolean-Safe (Value.string _) = Ends-err Refuses _ _ tt
as_boolean-Safe (Value.integer _) = Ends-err Refuses _ _ tt
as_boolean-Safe (Value.sequence _) = Ends-err Refuses _ _ tt

pub object-Sure :
    (v : Value) (required optional_keys : List String)
    → Sure (λ _. all (has_entry (entries_in v)) required ≡ true) (object v required optional_keys)
unfolding object
object-Sure v required optional_keys = Ends-then Refuses _ _ _ _ (as_map-Sure v) λ entries same.
    Ends-then Refuses _ _ _ _ (require-Sure _) λ _ _.
      Ends-then Refuses _ _ _ _ (require-Sure _) λ _ there. Ends-ok Refuses _ _ (rw same there)

pub string_length-Sure :
    (v : Value) (low high : ℕ) → Sure (λ s. v ≡ Value.string s) (string_length v low high)
unfolding string_length
string_length-Sure v low high =
    Ends-then Refuses _ _ _ _ (as_string-Sure v)
      λ s same. Ends-then Refuses _ _ _ _ (require-Sure _) λ _ _. Ends-ok Refuses _ _ same

pub integer_range-Safe : (v : Value) (low high : ℤ) → Safe (integer_range v low high)
unfolding integer_range
integer_range-Safe v low high =
    Ends-then Refuses _ _ _ _ (as_integer-Safe v)
      λ n _. Ends-then Refuses _ _ _ _ (require-Sure _) λ _ _. Ends-ok Refuses _ _ tt

pub choice-Sure :
    (v : Value) (values : List String) → Sure (λ s. v ≡ Value.string s) (choice v values)
unfolding choice
choice-Sure v values =
    Ends-then Refuses _ _ _ _ (as_string-Sure v)
      λ s same. Ends-then Refuses _ _ _ _ (require-Sure _) λ _ _. Ends-ok Refuses _ _ same

-- A field that is known to be there.
has_entry-entry :
    (key : String) (es : List (String × Value))
    → has_entry es key ≡ true
    → (v : Value) × (entry key es ≡ some v)
has_entry-entry key [] e = cc
has_entry-entry key ((k, v) ∷ es) e = elim (Bool-cases (str_eq k key)) [
  | inl same ↦ (v, ground (arith, same))
  | inr other ↦
      let (w, found) = has_entry-entry key es (ground (arith, e, other)) in
      (w, ground (arith, found, other))
]

pub field-Sure :
    (E : Type 0) (node : Value) (name : String)
    → has_entry (entries_in node) name ≡ true
    → Sure {E = E} (λ v. optional node name ≡ some v) (field node name)
field-Sure E node name e = go (optional node name) (has_entry-entry name (entries_in node) e)
  where
    go : (o : Option Value) → (v : Value) × (o ≡ some v) → Sure {E = E} (λ v. o ≡ some v) (expect o)
    go none (v, x) = cc
    go (some v) x = Ends-ok Refuses _ v refl

pub when_some-Sure :
    (P : Value → Type 0) (o : Option Value) (check : Value → Checking (Unit {0}))
    → ((v : Value) → Sure (λ _. P v) (check v))
    → Sure (λ _. (v : Value) → o ≡ some v → P v) (when_some o check)
when_some-Sure P none check sure = Ends-ok Refuses _ _ λ v e. cc
when_some-Sure P (some w) check sure =
    Ends-weaken Refuses _ _ _ (sure w) λ _ p v e. let same : w ≡ v = cc in rw (← same) p

pub when_some-Safe :
    (o : Option Value) (check : Value → Checking (Unit {0}))
    → ((v : Value) → Safe (check v))
    → Safe (when_some o check)
when_some-Safe none check safe = Ends-ok Refuses _ _ tt
when_some-Safe (some w) check safe = safe w

pub each-Sure :
    {A : Type 0} (P : A → Type 0) (check : A → Checking (Unit {0})) (xs : List A)
    → ((x : A) → Sure (λ _. P x) (check x))
    → Sure (λ _. All P xs) (each check xs)
each-Sure P check [] sure = Ends-ok Refuses _ _ tt
each-Sure P check (x ∷ xs) sure =
    Ends-then Refuses _ _ _ _ (sure x)
      λ _ p. Ends-weaken Refuses _ _ _ (each-Sure P check xs sure) λ _ ps. (p, ps)

-- A property of the values of a mapping.
abbrev pub AllValues : (Value → Type 0) → List (String × Value) → Type 0
AllValues P es = All (λ (e : String × Value). P e.1) es

pub named_map-Sure :
    (P : Value → Type 0) (environment : Bool) (v : Value) (maximum : ℕ)
    (check : Value → Checking (Unit {0}))
    → ((v : Value) → Sure (λ _. P v) (check v))
    → Sure (λ _. AllValues P (entries_in v)) (named_map environment v maximum check)
unfolding named_map validate_entry
named_map-Sure P environment v maximum check sure =
    Ends-then Refuses _ _ _ _ (as_map-Sure v) λ entries same.
      Ends-then Refuses _ _ _ _ (require-Sure _) λ _ _. rw same (
        each-Sure (λ (e : String × Value). P e.1) _ entries
          λ e. Ends-then Refuses _ _ _ _ (require-Sure _) λ _ _. sure e.1)
