-- ===== src/Database/Requests/Rows.antt =====
-- crates/adapters/src/operation_journal.rs: the rows of `operations`, when rows are added or changed.
use compose_nest.Common.{
  suc, ℕ, ◌+◌, ◌≡◌, refl, sym, ap, ◌∙◌, ◌⊎◌, String, Bool, true, false, ◌&&◌, Option, none, some,
  List, [], ◌∷◌, ◌++◌, arith, find, update, str_eq, eq_iff, if◌then◌else◌, ◌≤◌, ◌≤◌,
}
use compose_nest.Instance.Operation.{is_unresolved}
use compose_nest.Database.{OperationRow, find_operation}
use compose_nest.Database.Operations.{has_unresolved, is_operation}
use compose_nest.Database.Resolution.{interrupt}
use compose_nest.Database.Requests.{HasKeys}

-- What an update makes of a row that was found.
abbrev pub changed {ℓ} : {A : Type ℓ} → (A → Bool) → (A → A) → Option A → Option A
changed p f none = none
changed p f (some x) = some (if p x then f x else x)

-- A search for rows by a test that the change keeps.
pub find-update {ℓ} :
    {A : Type ℓ} (p q : A → Bool) (f : A → A)
    → ((x : A) → q (f x) ≡ q x)
    → (xs : List A) → find q (update p f xs) ≡ changed p f (find q xs)
find-update p q f same [] = refl
find-update p q f same (x ∷ xs) = ground (arith, same x, find-update p q f same xs)

pub update-none {ℓ} :
    {A : Type ℓ} (p : A → Bool) (f : A → A) (xs : List A) → find p xs ≡ none → update p f xs ≡ xs
update-none p f [] h = refl
update-none p f (x ∷ xs) h = ground (arith, update-none p f xs)

pub find-append-some {ℓ} :
    {A : Type ℓ} (p : A → Bool) (xs : List A) (x : A)
    → find p (xs ++ x ∷ [])
      ≡ elim (find p xs) [ none ↦ if p x then some x else none | some y ↦ some y ]
find-append-some p [] x = refl
find-append-some p (y ∷ ys) x = ground (arith, find-append-some p ys x)

-- How many operations of an instance are not resolved.
abbrev pub unresolved : String → List OperationRow → ℕ
unresolved id [] = 0
unresolved id (r ∷ rs) =
    if str_eq r.instance_id id && is_unresolved r.status
    then suc (unresolved id rs)
    else unresolved id rs

pub unresolved-append :
    (id : String) (rows : List OperationRow) (row : OperationRow)
    → unresolved id (rows ++ row ∷ []) ≡ unresolved id rows + unresolved id (row ∷ [])
unresolved-append id [] row = ground arith
unresolved-append id (r ∷ rs) row = ground (arith, unresolved-append id rs row)

pub unresolved-none :
    (id : String) (rows : List OperationRow)
    → has_unresolved id rows ≡ false
    → unresolved id rows ≡ 0
unfolding has_unresolved
unresolved-none id [] h = refl
unresolved-none id (r ∷ rs) h = ground (arith, unresolved-none id rs)

pub unresolved-interrupt :
    (id : String) (rows : List OperationRow) → unresolved id (interrupt rows) ≡ unresolved id rows
unfolding interrupt is_unresolved
unresolved-interrupt id [] = refl
unresolved-interrupt id (r ∷ rs) = ground (arith, unresolved-interrupt id rs)

module _ (p : OperationRow → Bool) (f : OperationRow → OperationRow)
    (keeps_id : (r : OperationRow) → (f r).id ≡ r.id) where
  pub find_operation-update :
      (id : String) (rows : List OperationRow)
      → find_operation id (update p f rows) ≡ changed p f (find_operation id rows)
  find_operation-update id rows =
      find-update p (λ (r : OperationRow). str_eq r.id id) f
        (λ r. ap (λ (i : String). str_eq i id) (keeps_id r)) rows

  pub found-update :
      (id : String) (rows : List OperationRow) (r : OperationRow)
      → find_operation id (update p f rows) ≡ some r
      → (q : OperationRow) × (find_operation id rows ≡ some q)
        × (((p q ≡ true) × (r ≡ f q)) ⊎ ((p q ≡ false) × (r ≡ q)))
  found-update id rows r found = looked (find_operation id rows) refl
    where
      looked :
          (o : Option OperationRow)
          → find_operation id rows ≡ o
          → (q : OperationRow) × (find_operation id rows ≡ some q)
            × (((p q ≡ true) × (r ≡ f q)) ⊎ ((p q ≡ false) × (r ≡ q)))
      looked none h = ground (arith, find_operation-update id rows, found)
      looked (some q) h =
          let was : some r ≡ changed p f (some q) =
            sym found ∙ find_operation-update id rows ∙ ap (changed p f) h in
          (q, h, ground (arith, was))

  pub keys-update : (rows : List OperationRow) → HasKeys rows → HasKeys (update p f rows)
  keys-update [] h = tt
  keys-update (r ∷ rs) h = (
    ap (λ (i : String). find_operation i (update p f rs)) (kept r (p r))
        ∙ find_operation-update r.id rs
        ∙ ap (changed p f) h.0,
    keys-update rs h.1,
  )
    where
      kept : (r : OperationRow) (b : Bool) → (if b then f r else r).id ≡ r.id
      kept r true = keeps_id r
      kept r false = refl

-- The change of the one row of an unresolved operation.
pub unresolved-move :
    (id : String) (current : OperationRow) (f : OperationRow → OperationRow)
    → ((r : OperationRow) → (f r).instance_id ≡ r.instance_id)
    → is_unresolved current.status ≡ true
    → (instance_id : String) (rows : List OperationRow) → HasKeys rows
    → find_operation id rows ≡ some current
    → unresolved instance_id (update (is_operation id) f rows) ≤ unresolved instance_id rows
unresolved-move id current f same live instance_id [] keys found = omega arith
unresolved-move id current f same live instance_id (r ∷ rs) keys found = ground (
  arith,
  same r,
  update-none (is_operation id) f rs,
  eq_iff r.id id,
  ap (λ (i : String). find_operation i rs),
  unresolved-move id current f same live instance_id rs keys.1,
)
