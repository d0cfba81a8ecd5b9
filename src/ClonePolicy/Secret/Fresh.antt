-- ===== src/ClonePolicy/Secret/Fresh.antt =====
-- crates/domain/src/clone_policy.rs: what a generated secret is.
use mathlib.Core.List.{Memᴰ}
use compose_nest.Common.{
  ℕ, zero, suc, ◌+◌, ◌%◌, ◌≤◌, ◌<◌, ◌≡◌, ◌≢◌, inl, inr, refl, ap, ◌∙◌, true, false, Option, none,
  some, List, [], ◌∷◌, map, Result, ok, err, map_err, arith, length, All, any, Text, text_eq,
  text_eq_iff, after_perform, Bool-cases,
}
use compose_nest.ClonePolicy.{RandomError, PolicyError, generation_failed}
use compose_nest.ClonePolicy.Secret.{
  Call, Outside, secret_alphabet, get_or, secret_char, is_usable, draw, secret_rounds,
  generate_secret,
}

-- What is relied on in a random source: it fills the entire buffer with bytes.
abbrev pub FillsBuffer : Outside → Type 0
FillsBuffer outside =
    (n : ℕ) (h : List Call) (bytes : List ℕ)
    → outside.fill_bytes n h ≡ ok bytes
    → (length bytes ≡ n) × All (λ b. b < 256) bytes

get_or-Memᴰ : (xs : Text) (i d : ℕ) → i < length xs → Memᴰ (get_or xs i d) xs
unfolding get_or
get_or-Memᴰ [] i d h = elim h [ ]
get_or-Memᴰ (x ∷ xs) zero d h = Memᴰ.head refl
get_or-Memᴰ (x ∷ xs) (suc i) d h = Memᴰ.tail (get_or-Memᴰ xs i d (omega arith))

secret_char-Memᴰ : (byte : ℕ) → Memᴰ (secret_char byte) secret_alphabet
unfolding secret_char
secret_char-Memᴰ byte = get_or-Memᴰ secret_alphabet (byte % 64) 0 (omega arith)

All-map-secret_char : (bytes : List ℕ) → All (λ c. Memᴰ c secret_alphabet) (map secret_char bytes)
All-map-secret_char [] = tt
All-map-secret_char (b ∷ bytes) = (secret_char-Memᴰ b, All-map-secret_char bytes)

length-map : (f : ℕ → ℕ) (xs : List ℕ) → length (map f xs) ≡ length xs
length-map f [] = refl
length-map f (x ∷ xs) = ap suc (length-map f xs)

none_equal :
    (others : List Text) (s : Text)
    → any (λ other. text_eq other s) others ≡ false
    → All (λ other. other ≢ s) others
none_equal [] s h = tt
none_equal (x ∷ xs) s h = (λ e. ground (arith, text_eq_iff x s), none_equal xs s (ground arith))

is_usable_iff :
    (source : Option Text) (others : List Text) (s : Text)
    → is_usable source others s ≡ true
    → (source ≢ some s) × All (λ other. other ≢ s) others
unfolding is_usable
is_usable_iff none others s h = (λ e. cc, none_equal others s (ground arith))
is_usable_iff (some t) others s h =
    (λ e. ground (arith, text_eq_iff t s), none_equal others s (ground arith))

module _ (outside : Outside) (fills : FillsBuffer outside) where
  -- What the generator gives: a secret of 32 characters of the alphabet that differs from the
  -- source and from the others, or the error `GenerationFailed`; `top` bounds the calls.
  pub record IsFresh (source : Option Text) (others : List Text) (top : ℕ)
      (r : Result Text PolicyError × List Call) : Type 0 where
    pub size : (s : Text) → r.0 ≡ ok s → length s ≡ 32
    pub letters : (s : Text) → r.0 ≡ ok s → All (λ c. Memᴰ c secret_alphabet) s
    pub differs : (s : Text) → r.0 ≡ ok s → (source ≢ some s) × All (λ other. other ≢ s) others
    pub only_failed : (e : PolicyError) → r.0 ≡ err e → e ≡ generation_failed
    pub bounded : length r.1 ≤ top

  pub drawn :
      (n : ℕ) (h : List Call) (bytes : List ℕ)
      → map_err {F = PolicyError} (λ _. generation_failed) (outside.fill_bytes n h) ≡ ok bytes
      → outside.fill_bytes n h ≡ ok bytes
  drawn n h bytes e = was_ok (outside.fill_bytes n h) e
    where
      was_ok :
          (r : Result (List ℕ) RandomError)
          → map_err {F = PolicyError} (λ _. generation_failed) r ≡ ok bytes
          → r ≡ ok bytes
      was_ok (ok a) x = cc
      was_ok (err a) x = cc

  pub not_drawn :
      (n : ℕ) (h : List Call) (e : PolicyError)
      → map_err {A = List ℕ} (λ _. generation_failed) (outside.fill_bytes n h) ≡ err e
      → e ≡ generation_failed
  not_drawn n h e x = was_err (outside.fill_bytes n h) x
    where
      was_err :
          (r : Result (List ℕ) RandomError)
          → map_err (λ _. generation_failed) r ≡ err e
          → e ≡ generation_failed
      was_err (ok a) x = cc
      was_err (err a) x = cc

  failed-IsFresh :
      (source : Option Text) (others : List Text) (top : ℕ) (e : PolicyError) (h : List Call)
      → e ≡ generation_failed
      → length h ≤ top
      → IsFresh source others top (err e, h)
  failed-IsFresh source others top e h x le = record {
    size = λ s y. cc;
    letters = λ s y. cc;
    differs = λ s y. cc;
    only_failed = λ e' y. cc;
    bounded = le;
  }

  ok_injective : (a b : Text) → ◌≡◌ {A = Result Text PolicyError} (ok a) (ok b) → a ≡ b
  ok_injective a b e = cc

  found-IsFresh :
      (source : Option Text) (others : List Text) (top : ℕ) (bytes : List ℕ) (h : List Call)
      → length bytes ≡ 32
      → is_usable source others (map secret_char bytes) ≡ true
      → length h ≤ top
      → IsFresh source others top (ok (map secret_char bytes), h)
  found-IsFresh source others top bytes h full good le = record {
    size = λ s y. rw (← ok_injective _ s y) (length-map secret_char bytes ∙ full);
    letters = λ s y. rw (← ok_injective _ s y) (All-map-secret_char bytes);
    differs = λ s y. rw (← ok_injective _ s y) (is_usable_iff source others _ good);
    only_failed = λ e y. cc;
    bounded = le;
  }

  secret_rounds-IsFresh :
      (n : ℕ) (source : Option Text) (others : List Text) (top : ℕ) (h : List Call)
      → length h + n ≤ top
      → IsFresh source others top (secret_rounds outside n source others h)
  unfolding secret_rounds draw
  secret_rounds-IsFresh zero source others top h le =
      failed-IsFresh source others top generation_failed h refl (omega arith)
  secret_rounds-IsFresh (suc n) source others top h le =
      after_perform (IsFresh source others top) _ _ _ h
        (λ e x. failed-IsFresh source others top e _ (not_drawn _ _ e x) (omega arith))
        λ bytes x. elim (Bool-cases (is_usable source others (map secret_char bytes))) [
          | inl good ↦ rw good (
              found-IsFresh source others top bytes _ (fills _ _ _ (drawn _ _ _ x)).0 good
                (omega arith))
          | inr bad ↦ rw bad (secret_rounds-IsFresh n source others top _ (omega arith))
        ]

  -- A generated secret has 32 characters, all of the alphabet, and differs from the source secret
  -- and from every other generated one; otherwise the error is `GenerationFailed`. At most eight
  -- draws are made.
  pub generate_secret-IsFresh :
      (source : Option Text) (others : List Text) (h : List Call)
      → IsFresh source others (length h + 8) (generate_secret outside source others h)
  unfolding generate_secret
  generate_secret-IsFresh source others h =
      secret_rounds-IsFresh 8 source others (length h + 8) h (omega arith)
