-- ===== src/Database/Deletion/Retention.antt =====
-- crates/adapters/src/delete_state.rs: the storage and the ports that a deletion retains and releases.
use compose_nest.Common.{
  ◌≡◌, refl, arith, String, Bool, true, false, not, ◌&&◌, ◌||◌, some, List, [], ◌∷◌, any, all,
  length, select, update, str_eq, eq_iff, ◌==◌, if◌then◌else◌,
}
use compose_nest.Instance.{StorageOwnership}
use compose_nest.Delete.{StorageCheck}
use compose_nest.Database.{StorageRow, PortRow}
use compose_nest.Database.Deletion.{storage_of, retain_all, release_ports}

-- The storage and the ports of an instance, once it is retired.
abbrev pub is_retained : String → StorageRow → Bool
is_retained id r =
    not (str_eq r.instance_id id)
    || elim r.ownership [ StorageOwnership.retained ↦ true | _ ↦ false ]

abbrev pub is_released : String → PortRow → Bool
is_released id r = not (str_eq r.instance_id id) || str_eq r.status "released"

pub all-update {ℓ} :
    {A : Type ℓ} (p q : A → Bool) (f : A → A)
    → ((x : A) → p x ≡ true → q (f x) ≡ true)
    → ((x : A) → p x ≡ false → q x ≡ true)
    → (xs : List A) → all q (update p f xs) ≡ true
all-update p q f on off [] = refl
all-update p q f on off (x ∷ xs) = placed (p x) refl (all-update p q f on off xs)
  where
    placed :
        (b : Bool)
        → p x ≡ b
        → all q (update p f xs) ≡ true
        → (q (if b then f x else x) && all q (update p f xs)) ≡ true
    placed true e rest = ground (arith, on x e, rest)
    placed false e rest = ground (arith, off x e, rest)

pub release_ports-released :
    (id : String) (rows : List PortRow) → all (is_released id) (release_ports id rows) ≡ true
unfolding release_ports
release_ports-released id rows =
    all-update (λ (r : PortRow). str_eq r.instance_id id) (is_released id)
      (λ (r : PortRow). record r { status = "released" }) (λ r e. ground (arith, e))
      (λ r e. ground (arith, e)) rows

-- The rows that are retained or still have a check to come.
abbrev is_due : String → List StorageCheck → StorageRow → Bool
is_due id ks r = is_retained id r || any (λ (k : StorageCheck). str_eq k.slot r.slot) ks

retain_all-due :
    (id now : String) (k : StorageCheck) (ks : List StorageCheck) (rows : List StorageRow)
    → all (is_due id (k ∷ ks)) rows ≡ true
    → all (is_due id ks) (
        update
          (λ (r : StorageRow). str_eq r.instance_id id && str_eq r.slot k.slot)
          (λ (r : StorageRow). record r {
            ownership = StorageOwnership.retained;
            presence = k.presence;
            observed_at = some now;
          })
          rows)
      ≡ true
retain_all-due id now k ks [] h = refl
retain_all-due id now k ks (r ∷ rs) h =
    ground (arith, retain_all-due id now k ks rs, eq_iff k.slot r.slot, eq_iff r.slot k.slot)

due_none :
    (id : String) (rows : List StorageRow)
    → all (is_due id []) rows ≡ true
    → all (is_retained id) rows ≡ true
due_none id [] h = refl
due_none id (r ∷ rs) h = ground (arith, due_none id rs)

pub retain_all-retained :
    (id now : String) (ks : List StorageCheck) (rows : List StorageRow)
    → all (is_due id ks) rows ≡ true
    → all (is_retained id) (retain_all id now ks rows) ≡ true
unfolding retain_all
retain_all-retained id now [] rows h = due_none id rows h
retain_all-retained id now (k ∷ ks) rows h =
    retain_all-retained id now ks _ (retain_all-due id now k ks rows h)

any-one {ℓ} :
    {A : Type ℓ} (p : A → Bool) (xs : List A) → (length (select p xs) == 1) ≡ true → any p xs ≡ true
any-one p [] h = ground arith
any-one p (x ∷ xs) h = ground (arith, any-one p xs)

pub checked_due :
    (id : String) (storage : List StorageCheck) (rows : List StorageRow)
    → all
        (λ (a : StorageRow).
          length (select (λ (k : StorageCheck). str_eq k.slot a.slot) storage) == 1)
        (storage_of id rows)
      ≡ true
    → all (is_due id storage) rows ≡ true
checked_due id storage [] h = refl
checked_due id storage (r ∷ rs) h =
    ground (
      arith,
      checked_due id storage rs,
      any-one (λ (k : StorageCheck). str_eq k.slot r.slot) storage,
    )
