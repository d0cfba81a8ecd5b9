-- ===== src/Common/Effects.antt =====
-- Results, and computations that call on the world. What the world answers is a function of the
-- history of calls, the newest first, so an answer may depend on everything that came before it.
use mathlib.Core.Bool.{Bool, true, false}
use mathlib.Core.List.{List, [], ◌∷◌}
use mathlib.Core.Path.{◌≡◌, refl}

pub data Result {ℓ κ} (A : Type ℓ) (E : Type κ) : Type (ℓ ⊔ κ) where
  ok : A → Result A E
  err : E → Result A E

abbrev pub map_err {ℓ κ μ} :
    {A : Type ℓ} {E : Type κ} {F : Type μ} → (E → F) → Result A E → Result A F
map_err f (ok a) = ok a
map_err f (err e) = err (f e)

abbrev pub is_ok {ℓ κ} : {A : Type ℓ} {E : Type κ} → Result A E → Bool
is_ok (ok _) = true
is_ok (err _) = false

abbrev pub Exec : Type 0 → Type 0 → Type 0 → Type 0
Exec C E A = List C → Result A E × List C

module _ {C E : Type 0} where
  abbrev pub resume : {A B : Type 0} → (A → Exec C E B) → Result A E × List C → Result B E × List C
  resume k (ok a, h) = k a h
  resume k (err e, h) = (err e, h)

  infixl 5 ◌>>=◌ ◌>>◌
  unfoldable pub ◌>>=◌ : {A B : Type 0} → Exec C E A → (A → Exec C E B) → Exec C E B
  ◌>>=◌ m k h = resume k (m h)

  abbrev pub ◌>>◌ : {B : Type 0} → Exec C E (Unit {0}) → Exec C E B → Exec C E B
  ◌>>◌ m k = m >>= λ _. k

  abbrev pub pure : {A : Type 0} → A → Exec C E A
  pure a h = (ok a, h)

  abbrev pub raise : {A : Type 0} → E → Exec C E A
  raise e h = (err e, h)

  -- This and `>>=` stay shut, so that a `do` block can be walked through by `after_perform`.
  -- Record the call, then go by the answer of the world.
  unfoldable pub perform : {A : Type 0} → C → (List C → Result A E) → Exec C E A
  perform c answer h = (answer (c ∷ h), c ∷ h)

  -- What holds after a call and what follows it: a rule to walk through a `do` block by.
  pub after_perform :
      {A B : Type 0} (Q : Result B E × List C → Type 0) (c : C) (answer : List C → Result A E)
      (k : A → Exec C E B) (h : List C)
      → ((e : E) → answer (c ∷ h) ≡ err e → Q (err e, c ∷ h))
      → ((a : A) → answer (c ∷ h) ≡ ok a → Q (k a (c ∷ h)))
      → Q ((perform c answer >>= k) h)
  unfolding ◌>>=◌ perform
  after_perform {A} Q c answer k h refused granted = go (answer (c ∷ h)) refl
    where
      go : (r : Result A E) → answer (c ∷ h) ≡ r → Q (resume k (r, c ∷ h))
      go (ok a) same = granted a same
      go (err e) same = refused e same

  -- The same over a part that is itself a block, and after a value.
  pub after_block :
      {A B D : Type 0} (Q : Result D E × List C → Type 0) (m : Exec C E A) (f : A → Exec C E B)
      (g : B → Exec C E D) (h : List C)
      → Q ((m >>= λ a. f a >>= g) h)
      → Q (((m >>= f) >>= g) h)
  unfolding ◌>>=◌
  after_block {A} Q m f g h q = go (m h) q
    where
      go : (r : Result A E × List C) → Q (resume (λ a. f a >>= g) r) → Q (resume g (resume f r))
      go (ok a, h') x = x
      go (err e, h') x = x

  pub after_pure :
      {A B : Type 0} (Q : Result B E × List C → Type 0) (a : A) (k : A → Exec C E B) (h : List C)
      → Q (k a h)
      → Q ((pure a >>= k) h)
  unfolding ◌>>=◌
  after_pure Q a k h q = q

  pub after_raise :
      {A B : Type 0} (Q : Result B E × List C → Type 0) (e : E) (k : A → Exec C E B) (h : List C)
      → Q (err e, h)
      → Q ((raise e >>= k) h)
  unfolding ◌>>=◌
  after_raise Q e k h q = q

  -- Run a block that has errors of another kind, and go on with its result.
  unfoldable pub attempt : {F A B : Type 0} → Exec C F A → (Result A F → Exec C E B) → Exec C E B
  attempt m k h = let (r, h') = m h in k r h'

  pub after_attempt :
      {F A B : Type 0} (Q : Result B E × List C → Type 0) (m : Exec C F A)
      (k : Result A F → Exec C E B) (h : List C)
      → Q (k (m h).0 (m h).1)
      → Q (attempt m k h)
  unfolding attempt
  after_attempt Q m k h q = q

-- `IsSuffix xs ys`: `xs` is the history at some point of a run whose whole history is `ys`.
pub data IsSuffix {ℓ} {A : Type ℓ} : List A → List A → Type ℓ where
  whole : {xs : List A} → IsSuffix xs xs
  later : {x : A} {xs ys : List A} → IsSuffix xs ys → IsSuffix xs (x ∷ ys)

pub ruleset suffixes = (whole, later)

pub nil-IsSuffix {ℓ} : {A : Type ℓ} (xs : List A) → IsSuffix [] xs
nil-IsSuffix [] = whole
nil-IsSuffix (x ∷ xs) = later (nil-IsSuffix xs)

-- A suffix of a suffix.
pub later_all {ℓ} :
    {A : Type ℓ} {xs ys zs : List A} → IsSuffix xs ys → IsSuffix ys zs → IsSuffix xs zs
later_all s whole = s
later_all s (later t) = later (later_all s t)

-- A postcondition of a run: what holds of its value and history, or of the error it ends with.
module _ {C E : Type 0} (Stops : E → Type 0) where
  abbrev pub Ensures : {A : Type 0} → (A → List C → Type 0) → Result A E × List C → Type 0
  Ensures P (ok a, h) = P a h
  Ensures P (err e, h) = Stops e

  pub ensure_then :
      {A B : Type 0} (P : A → List C → Type 0) (Q : B → List C → Type 0) (m : Exec C E A)
      (k : A → Exec C E B) (h : List C)
      → Ensures P (m h)
      → ((a : A) (h' : List C) → P a h' → Ensures Q (k a h'))
      → Ensures Q ((m >>= k) h)
  unfolding ◌>>=◌
  ensure_then {A} P Q m k h = go (m h)
    where
      go :
          (r : Result A E × List C)
          → Ensures P r
          → ((a : A) (h' : List C) → P a h' → Ensures Q (k a h'))
          → Ensures Q (resume k r)
      go (ok a, h') p next = next a h' p
      go (err e, h') p next = p

  pub ensure_weaken :
      {A : Type 0} (P Q : A → List C → Type 0) (r : Result A E × List C)
      → Ensures P r
      → ((a : A) (h : List C) → P a h → Q a h)
      → Ensures Q r
  ensure_weaken P Q (ok a, h) p weaker = weaker a h p
  ensure_weaken P Q (err e, h) p weaker = p
