-- ===== src/Database/Requests/Repeated.antt =====
-- crates/adapters/src/operation_journal.rs: a request that is sent again.
use compose_nest.Common.{
  ◌≡◌, refl, sym, ap, ◌∙◌, String, Bool, true, false, not, Option, none, some, List, [], ◌∷◌, ◌++◌,
  Result, ok, err, arith, find, str_eq, eq_iff, if◌then◌else◌,
}
use compose_nest.Journal.{StoreConflict, OperationIntent, RequestReceipt}
use compose_nest.Database.{
  DatabaseError, InstanceRow, Tables, Engine, find_instance, Replied, land, conclude, begin,
  orm_write,
}
use compose_nest.Database.Operations.{
  has_request, has_plan, optional_eq, receipt_eq, by_plan, or_else, find_receipt, is_same_request,
  is_acceptable, insert_accepted, accept_delete, accept_on, accept_found, accept, accept_work, Work,
}
use compose_nest.Database.Requests.{Request, serve_all, EnforcesKeys}
use compose_nest.Database.Requests.Transactions.{accept_on-ok}
use compose_nest.Database.Requests.Rows.{find-append-some}
use compose_nest.Database.Requests.History.{serve_all-found}

-- What a transaction leaves, of the tables that it began with and those that it commits.
abbrev pub left : Tables → Option Tables → Tables
left s none = s
left s (some t) = t

-- A transaction that went through has done its work.
pub orm_write-ok :
    (engine : Engine) {A : Type 0} (work : Tables → Work A) (s : Tables) (a : A) (t : Tables)
    → orm_write engine work s ≡ (ok a, t)
    → (o : Option Tables) × (work s ≡ ok (a, o)) × (t ≡ left s o)
unfolding orm_write begin conclude land
orm_write-ok engine {A} work s a t = started (engine.read s)
  where
    landed :
        (b : A) (u : Tables) (w : Result (Unit {0}) DatabaseError)
        → land engine s b u w ≡ (ok a, t)
        → (b ≡ a) × (t ≡ u)
    landed b u (ok x) h = (cc, cc)
    landed b u (err e) h = cc

    worked :
        (r : Work A)
        → conclude engine s r ≡ (ok a, t)
        → (o : Option Tables) × (r ≡ ok (a, o)) × (t ≡ left s o)
    worked (ok (b, none)) h = (none, cc, cc)
    worked (ok (b, some u)) h =
        let done = landed b u (engine.write s u) h in (some u, cc (done.0), done.1)
    worked (err c) h = cc

    started :
        (r : Result (Unit {0}) DatabaseError)
        → begin engine work s r ≡ (ok a, t)
        → (o : Option Tables) × (work s ≡ ok (a, o)) × (t ≡ left s o)
    started (ok x) h = worked (work s) h
    started (err e) h = cc

-- A transaction that returns early.
orm_write-early :
    (engine : Engine) {A : Type 0} (work : Tables → Work A) (s : Tables) (a : A)
    → engine.read s ≡ ok tt
    → work s ≡ ok (a, none)
    → orm_write engine work s ≡ (ok a, s)
unfolding orm_write begin conclude
orm_write-early engine work s a readable h = rw (readable, h) refl

find-other {ℓ} :
    {A : Type ℓ} (p q : A → Bool) (x : A) (xs : List A)
    → find p xs ≡ some x
    → q x ≡ true
    → find q xs ≡ none
    → true ≡ false
find-other p q x [] h k m = cc
find-other p q x (y ∷ ys) h k m = ground (arith, find-other p q x ys)

pub str_eq_self : (s : String) → str_eq s s ≡ true
str_eq_self s = (eq_iff s s).1 refl

pub optional_eq_self : (o : Option String) → optional_eq o o ≡ true
optional_eq_self none = refl
optional_eq_self (some s) = str_eq_self s

is_own_request : (a : RequestReceipt) → has_request a.scope_id a.request_id a ≡ true
is_own_request a = ground (arith, str_eq_self a.scope_id, str_eq_self a.request_id)

is_same_request_self : (a : RequestReceipt) → is_same_request a a ≡ true
unfolding is_same_request receipt_eq
is_same_request_self a = ground (
  arith,
  str_eq_self a.scope_id,
  str_eq_self a.request_id,
  optional_eq_self a.plan_id,
  str_eq_self a.request_hash,
  str_eq_self a.instance_id,
  str_eq_self a.operation_id,
)

by_plan-other :
    (scope_id : String) (q : RequestReceipt → Bool) (x : RequestReceipt) (xs : List RequestReceipt)
    (plan_id : Option String)
    → by_plan scope_id plan_id xs ≡ some x
    → q x ≡ true
    → find q xs ≡ none
    → true ≡ false
by_plan-other scope_id q x xs none h k m = cc
by_plan-other scope_id q x xs (some plan_id) h k m =
    find-other (has_plan scope_id plan_id) q x xs h k m

-- A receipt that is found by its request or its plan is found by its request.
own_request_first :
    (a : RequestReceipt) (receipts : List RequestReceipt)
    → find_receipt a.scope_id a.request_id a.plan_id receipts ≡ some a
    → find (has_request a.scope_id a.request_id) receipts ≡ some a
unfolding find_receipt
own_request_first a receipts h = by (find (has_request a.scope_id a.request_id) receipts) refl
  where
    by :
        (o : Option RequestReceipt)
        → find (has_request a.scope_id a.request_id) receipts ≡ o
        → find (has_request a.scope_id a.request_id) receipts ≡ some a
    by none e = cc (
        by_plan-other a.scope_id (has_request a.scope_id a.request_id) a receipts a.plan_id
          (sym (ap (λ o. or_else o (by_plan a.scope_id a.plan_id receipts)) e) ∙ h)
          (is_own_request a) e)
    by (some b) e = e ∙ sym (ap (λ o. or_else o (by_plan a.scope_id a.plan_id receipts)) e) ∙ h

accept_on-commits :
    (intent : OperationIntent) (receipt : RequestReceipt) (now : String) (s : Tables)
    (o : Option InstanceRow) (a : RequestReceipt)
    → accept_on intent receipt now s o ≡ ok (a, none)
    → true ≡ false
unfolding accept_on accept_delete insert_accepted
accept_on-commits intent receipt now s none a h = cc
accept_on-commits intent receipt now s (some current) a h = ground (arith, h)

-- A receipt that was given back under its own request is found by that request.
accepted_is_found :
    (intent : OperationIntent) (receipt : RequestReceipt) (now : String) (s : Tables)
    (o : Option RequestReceipt) (c : Option Tables)
    → find_receipt receipt.scope_id receipt.request_id receipt.plan_id s.receipts ≡ o
    → accept_found intent receipt now s o ≡ ok (receipt, c)
    → find (has_request receipt.scope_id receipt.request_id) (left s c).receipts ≡ some receipt
unfolding find_receipt accept_found
accepted_is_found intent receipt now s none none looked h = cc (
    accept_on-commits intent receipt now s (find_instance intent.instance_id s.instances) receipt h)
accepted_is_found intent receipt now s none (some t) looked h =
    let after : t.receipts ≡ s.receipts ++ receipt ∷ [] =
      ap (λ (u : Tables). u.receipts)
        (accept_on-ok intent receipt now s (find_instance intent.instance_id s.instances) receipt t
          h).1 in
    rw after (
      find-append-some (has_request receipt.scope_id receipt.request_id) s.receipts receipt
      ∙ ground (arith, looked, is_own_request receipt))
accepted_is_found intent receipt now s (some existing) none looked h =
    let same : existing ≡ receipt = ground arith in
    own_request_first receipt s.receipts (looked ∙ ap some same)
accepted_is_found intent receipt now s (some existing) (some t) looked h = ground (arith, h)

-- The test before a transaction.
was_entered :
    {A : Type 0} (s : Tables) (b : Bool) (x : Replied A) (c : StoreConflict) (a : A) (t : Tables)
    → (if not b then (err c, s) else x) ≡ (ok a, t)
    → (b ≡ true) × (x ≡ (ok a, t))
was_entered s true x c a t h = (refl, h)
was_entered s false x c a t h = cc

entered :
    {A : Type 0} (s : Tables) (b : Bool) (x : Replied A) (c : StoreConflict)
    → b ≡ true
    → (if not b then (err c, s) else x) ≡ x
entered s true x c h = refl
entered s false x c h = cc

given_back :
    (engine : Engine) (intent : OperationIntent) (receipt : RequestReceipt) (u : Tables)
    → find (has_request receipt.scope_id receipt.request_id) u.receipts ≡ some receipt
    → accept_work engine intent receipt u ≡ ok (receipt, none)
unfolding find_receipt accept_found
given_back engine intent receipt u e =
    let found : find_receipt receipt.scope_id receipt.request_id receipt.plan_id u.receipts
        ≡ some receipt =
      ap (λ o. or_else o (by_plan receipt.scope_id receipt.plan_id u.receipts)) e in
    ap (accept_found intent receipt (engine.now u) u) found
    ∙ ap (λ b. if b then ok (receipt, none) else err StoreConflict.duplicate)
        (is_same_request_self receipt)

module _ (engine : Engine) (enforces : EnforcesKeys engine) where
  -- A request that was accepted under its receipt gives the same receipt when it is sent again, after
  -- any other requests, and changes nothing, provided that the database then answers.
  pub accept_again :
      (intent : OperationIntent) (receipt : RequestReceipt) (s t : Tables)
      → accept engine intent receipt s ≡ (ok receipt, t)
      → (qs : List Request) → engine.read (serve_all engine qs t) ≡ ok tt
      → accept engine intent receipt (serve_all engine qs t) ≡ (ok receipt, serve_all engine qs t)
  unfolding accept
  accept_again intent receipt s t h qs readable =
      let first =
        was_entered s (is_acceptable intent receipt)
          (orm_write engine (accept_work engine intent receipt) s) StoreConflict.invalid_input
          receipt t h in
      let done = orm_write-ok engine (accept_work engine intent receipt) s receipt t first.1 in
      let there : find (has_request receipt.scope_id receipt.request_id) t.receipts ≡ some receipt =
        ap (λ (v : Tables). find (has_request receipt.scope_id receipt.request_id) v.receipts)
          done.2
        ∙ accepted_is_found intent receipt (engine.now s) s _ done.0 refl done.1 in
      let u = serve_all engine qs t in
      entered u (is_acceptable intent receipt)
        (orm_write engine (accept_work engine intent receipt) u) StoreConflict.invalid_input first.0
      ∙ orm_write-early engine (accept_work engine intent receipt) u receipt readable (
          given_back engine intent receipt u (
            serve_all-found engine enforces qs t (has_request receipt.scope_id receipt.request_id)
              receipt there))
