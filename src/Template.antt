-- ===== src/Template.antt =====
-- crates/domain/src/template/: the values of a template document, and the ways to read them. The
-- position of a value in its file, which only messages show, is left out.
pub mod Reading
pub mod Validation
pub mod Structure
pub mod Sound
pub mod Accepted
pub mod Semantics
pub mod Resolution
use compose_nest.Common.{
  ℤ, String, Bool, true, false, Option, none, some, List, [], ◌∷◌, Result, ok, err, str_eq,
  if◌then◌else◌, ◌≡◌, refl,
}

mutual
  pub data Value : Type 0 where
    string : String → Value
    integer : ℤ → Value
    boolean : Bool → Value
    mapping : Fields → Value
    sequence : Items → Value

  pub data Fields : Type 0 where
    no_fields : Fields
    field_of : String → Value → Fields → Fields

  pub data Items : Type 0 where
    no_items : Items
    item_of : Value → Items → Items

abbrev pub fields_of : Fields → List (String × Value)
fields_of no_fields = []
fields_of (field_of key value rest) = (key, value) ∷ fields_of rest

abbrev pub items_of : Items → List Value
items_of no_items = []
items_of (item_of value rest) = value ∷ items_of rest

abbrev pub entries_in : Value → List (String × Value)
entries_in (mapping fields) = fields_of fields
entries_in _ = []

abbrev pub entries : Option Value → List (String × Value)
entries none = []
entries (some value) = entries_in value

abbrev pub entry : String → List (String × Value) → Option Value
entry name [] = none
entry name ((key, value) ∷ rest) =
    let found = entry name rest in if str_eq key name then some value else found

abbrev pub optional : Value → String → Option Value
optional node name = entry name (entries_in node)

-- How a function ends that does not return: with its own error, or with a panic.
pub data Stop {ℓ} (E : Type ℓ) : Type ℓ where
  refused : E → Stop E
  panics : Stop E

abbrev pub Checked : Type 0 → Type 0 → Type 0
Checked E A = Result A (Stop E)

module _ {E : Type 0} where
  infixl 5 ◌>>=◌ ◌>>◌
  -- Shut, so that a `do` block can be walked through by `Ends-then`.
  unfoldable pub ◌>>=◌ : {A B : Type 0} → Checked E A → (A → Checked E B) → Checked E B
  ok a >>= f = f a
  err e >>= f = err e

  abbrev pub ◌>>◌ : {B : Type 0} → Checked E (Unit {0}) → Checked E B → Checked E B
  m >> k = m >>= λ _. k

  abbrev pub unless : Bool → E → Checked E (Unit {0})
  unless true e = ok tt
  unless false e = err (refused e)

  -- `optional(..).expect(..)`
  abbrev pub expect : {A : Type 0} → Option A → Checked E A
  expect none = err panics
  expect (some a) = ok a

  abbrev pub field : Value → String → Checked E Value
  field node name = expect (optional node name)

  pub bind_ok :
      {A B : Type 0} (m : Checked E A) (f : A → Checked E B) (a : A) (r : Checked E B)
      → m ≡ ok a
      → f a ≡ r
      → (m >>= f) ≡ r
  unfolding ◌>>=◌
  bind_ok (ok b) f a r e h = let same : b ≡ a = cc in rw same h
  bind_ok (err s) f a r e h = cc

  -- What holds of the value of a chain that returns, or of how it stops.
  module _ (Stops : Stop E → Type 0) where
    unfoldable pub Ends : {A : Type 0} → (A → Type 0) → Checked E A → Type 0
    Ends P (ok a) = P a
    Ends P (err s) = Stops s

    pub Ends-ok : {A : Type 0} (P : A → Type 0) (a : A) → P a → Ends P (ok a)
    unfolding Ends
    Ends-ok P a p = p

    pub Ends-err : {A : Type 0} (P : A → Type 0) (s : Stop E) → Stops s → Ends P (err s)
    unfolding Ends
    Ends-err P s stop = stop

    pub Ends-then :
        {A B : Type 0} (P : A → Type 0) (Q : B → Type 0) (m : Checked E A) (f : A → Checked E B)
        → Ends P m
        → ((a : A) → P a → Ends Q (f a))
        → Ends Q (m >>= f)
    unfolding Ends ◌>>=◌
    Ends-then P Q (ok a) f p next = next a p
    Ends-then P Q (err s) f p next = p

    pub Ends-unless : (b : Bool) (e : E) → Stops (refused e) → Ends (λ _. b ≡ true) (unless b e)
    unfolding Ends
    Ends-unless true e stop = refl
    Ends-unless false e stop = stop

    pub Ends-weaken :
        {A : Type 0} (P Q : A → Type 0) (m : Checked E A)
        → Ends P m
        → ((a : A) → P a → Q a)
        → Ends Q m
    unfolding Ends
    Ends-weaken P Q (ok a) p weaker = weaker a p
    Ends-weaken P Q (err s) p weaker = p

    pub returned :
        {A : Type 0} (P : A → Type 0) (m : Checked E A) (a : A) → Ends P m → m ≡ ok a → P a
    unfolding Ends
    returned P (ok b) a p e = let same : b ≡ a = cc in rw (← same) p
    returned P (err s) a p e = cc

  -- Any end will do, so that only what is returned matters.
  abbrev pub Anyhow : Stop E → Type 0
  Anyhow s = Unit

  abbrev pub Returns : {A : Type 0} → (A → Type 0) → Checked E A → Type 0
  Returns P m = Ends Anyhow P m

  pub Returns-itself : {A : Type 0} (m : Checked E A) → Returns (λ a. m ≡ ok a) m
  unfolding Ends
  Returns-itself (ok a) = refl
  Returns-itself (err s) = tt

pub field-Returns :
    (E : Type 0) (node : Value) (name : String)
    → Returns {E = E} (λ v. optional node name ≡ some v) (field node name)
field-Returns E node name = go (optional node name)
  where
    go : (o : Option Value) → Returns {E = E} (λ v. o ≡ some v) (expect o)
    go none = Ends-err Anyhow _ _ tt
    go (some v) = Ends-ok Anyhow _ v refl
