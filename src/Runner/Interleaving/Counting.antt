-- ===== src/Runner/Interleaving/Counting.antt =====
-- crates/application/src/operation_runner.rs: how often the gate and the tasks hold an instance.
use compose_nest.Common.{
  ℕ, ◌+◌, ◌≡◌, refl, String, false, none, some, List, [], ◌∷◌, arith, str_eq, eq_iff, if◌then◌else◌,
  length,
}
use compose_nest.Runner.{contains, remove, Token, guard, reservation}
use compose_nest.Runner.Interleaving.{Take, Take.here, Take.there}

abbrev pub count : String → List String → ℕ
count x [] = 0
count x (y ∷ ys) = (if str_eq y x then 1 else 0) + count x ys

-- How many unbound reservations, how many tokens with an instance, and how many with this one.
abbrev pub is_free : Token → ℕ
is_free (reservation none) = 1
is_free _ = 0

abbrev pub is_bound : Token → ℕ
is_bound (reservation none) = 0
is_bound _ = 1

abbrev pub is_for : String → Token → ℕ
is_for x (guard id) = if str_eq id x then 1 else 0
is_for x (reservation (some id)) = if str_eq id x then 1 else 0
is_for x (reservation none) = 0

abbrev pub total : (Token → ℕ) → List Token → ℕ
total f [] = 0
total f (t ∷ ts) = f t + total f ts

pub total-Take :
    (f : Token → ℕ) {x : Token} {xs ys : List Token} → Take x xs ys → total f xs ≡ f x + total f ys
total-Take f here = refl
total-Take f (there {y} t) = omega (arith, total-Take f t)

pub contains-count : (x : String) (xs : List String) → contains xs x ≡ false → count x xs ≡ 0
contains-count x [] h = refl
contains-count x (y ∷ ys) h = ground (arith, contains-count x ys)

pub count-contains : (x : String) (xs : List String) → count x xs ≡ 0 → contains xs x ≡ false
count-contains x [] h = refl
count-contains x (y ∷ ys) h = ground (arith, count-contains x ys)

pub count-remove :
    (x z : String) (xs : List String)
    → count z (remove x xs) ≡ (if str_eq x z then 0 else count z xs)
unfolding remove
count-remove x z [] = ground arith
count-remove x z (y ∷ ys) = ground (arith, count-remove x z ys, eq_iff x z, eq_iff y x, eq_iff y z)

pub length-remove : (x : String) (xs : List String) → length (remove x xs) + count x xs ≡ length xs
unfolding remove
length-remove x [] = refl
length-remove x (y ∷ ys) = ground (arith, length-remove x ys)
