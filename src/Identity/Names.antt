-- ===== src/Identity/Names.antt =====
-- Canonical display names, and names derived from instance IDs.
use native.Mathlib.Nat.{pow-suc}
use compose_nest.Common.{
  ℕ, zero, suc, ◌*◌, ◌/◌, ◌%◌, ◌^◌, ◌≤◌, ◌<◌, ◌≡◌, refl, sym, ap, ◌∙◌, false, [], ◌∷◌, ◌++◌, arith,
  ok, length, length-append, any, Text,
}
use compose_nest.Identity.{
  DisplayName, is_control, is_whitespace, trim_start, trim_end, trim, parse_name, InstanceId,
  hex_digit, hex, compose_project_name,
}

-- What `str::nfc` is relied on for: NFC is a normal form, adds no control characters, and neither
-- adds nor removes white space at the ends.
pub record IsNormalization (nfc : Text → Text) : Type 0 where
  pub stable : (s : Text) → nfc (nfc s) ≡ nfc s
  pub keeps_control_free : (s : Text) → any is_control s ≡ false → any is_control (nfc s) ≡ false
  pub keeps_trimmed : (s : Text) → trim s ≡ s → trim (nfc s) ≡ nfc s

any-trim_start : (s : Text) → any is_control s ≡ false → any is_control (trim_start s) ≡ false
unfolding trim_start
any-trim_start [] h = refl
any-trim_start (c ∷ s) h = ground (arith, any-trim_start s)

any-trim_end : (s : Text) → any is_control s ≡ false → any is_control (trim_end s) ≡ false
unfolding trim_end
any-trim_end [] h = refl
any-trim_end (c ∷ s) h = ground (arith, any-trim_end s)

trim_end_idem : (s : Text) → trim_end (trim_end s) ≡ trim_end s
unfolding trim_end
trim_end_idem [] = refl
trim_end_idem (c ∷ s) = ground (arith, trim_end_idem s)

abbrev Starts : Text → Type 0
Starts [] = Unit {0}
Starts (c ∷ s) = is_whitespace c ≡ false

Starts-trim_start : (s : Text) → Starts (trim_start s)
unfolding trim_start
Starts-trim_start [] = tt
Starts-trim_start (c ∷ s) = ground (arith, Starts-trim_start s)

trim_start_of_Starts : (s : Text) → Starts s → trim_start s ≡ s
unfolding trim_start
trim_start_of_Starts [] h = refl
trim_start_of_Starts (c ∷ s) h = ground arith

Starts-trim_end : (s : Text) → Starts s → Starts (trim_end s)
unfolding trim_end
Starts-trim_end [] h = tt
Starts-trim_end (c ∷ s) h = ground arith

pub trim_idem : (s : Text) → trim (trim s) ≡ trim s
unfolding trim
trim_idem s =
    rw (trim_start_of_Starts _ (Starts-trim_end _ (Starts-trim_start s)))
      (trim_end_idem (trim_start s))

module _ {nfc : Text → Text} (N : IsNormalization nfc) where
  control_free : (s : Text) → any is_control s ≡ false → any is_control (nfc (trim s)) ≡ false
  unfolding trim
  control_free s h =
      N.keeps_control_free (trim s) (any-trim_end (trim_start s) (any-trim_start s h))

  parse_name-accepts :
      (s : Text) (n : DisplayName)
      → parse_name nfc s ≡ ok n
      → (n.text ≡ nfc (trim s))
        × (any is_control n.text ≡ false)
        × (1 ≤ length n.text)
        × (length n.text ≤ 100)
  unfolding parse_name
  parse_name-accepts s n h = ground (arith, control_free s)

  fixed_text : (s t : Text) → t ≡ nfc (trim s) → nfc (trim t) ≡ t
  fixed_text s t e = rw (e, N.keeps_trimmed (trim s) (trim_idem s)) (N.stable (trim s))

  parse_name_of_canonical :
      (n : DisplayName)
      → any is_control n.text ≡ false
      → nfc (trim n.text) ≡ n.text
      → 1 ≤ length n.text
      → length n.text ≤ 100
      → parse_name nfc n.text ≡ ok n
  unfolding parse_name
  parse_name_of_canonical n free same low high = rw (free, same) (ground arith)

  -- An accepted name is the normalized, trimmed input, with no control character and between 1
  -- and 100 characters, and parsing its spelling again gives the same name.
  pub parse_name-IsCanonical :
      (s : Text) (n : DisplayName)
      → parse_name nfc s ≡ ok n
      → (n.text ≡ nfc (trim s))
        × (any is_control n.text ≡ false)
        × (1 ≤ length n.text)
        × (length n.text ≤ 100)
        × (parse_name nfc n.text ≡ ok n)
  parse_name-IsCanonical s n h =
      let (same, free, low, high) = accepted in (same, free, low, high, again same free low high)
    where
      accepted :
          (n.text ≡ nfc (trim s))
          × (any is_control n.text ≡ false)
          × (1 ≤ length n.text)
          × (length n.text ≤ 100)
      accepted = parse_name-accepts s n h

      again :
          n.text ≡ nfc (trim s)
          → any is_control n.text ≡ false
          → 1 ≤ length n.text
          → length n.text ≤ 100
          → parse_name nfc n.text ≡ ok n
      again same free low high = parse_name_of_canonical n free (fixed_text s n.text same) low high

pub append_injective :
    (xs ys zs ws : Text) → length xs ≡ length ys → xs ++ zs ≡ ys ++ ws → (xs ≡ ys) × (zs ≡ ws)
append_injective [] [] zs ws e h = (refl, h)
append_injective [] (y ∷ ys) zs ws e h = absurd (omega arith)
append_injective (x ∷ xs) [] zs ws e h = absurd (omega arith)
append_injective (x ∷ xs) (y ∷ ys) zs ws e h =
    let (same, rest) = append_injective xs ys zs ws (omega arith) (cc) in (cc, rest)

length-hex : (n v : ℕ) → length (hex n v) ≡ n
unfolding hex
length-hex zero v = refl
length-hex (suc n) v =
    omega (arith, length-append (hex n (v / 16)) (hex_digit (v % 16) ∷ []), length-hex n (v / 16))

hex_digit_injective : (a b : ℕ) → a < 16 → b < 16 → hex_digit a ≡ hex_digit b → a ≡ b
unfolding hex_digit
hex_digit_injective a b p q h = ground arith

pow_step : (n : ℕ) → 16 ^ suc n ≡ 16 ^ n * 16
pow_step n = rw pow-suc

hex_injective : (n v w : ℕ) → v < 16 ^ n → w < 16 ^ n → hex n v ≡ hex n w → v ≡ w
unfolding hex
hex_injective zero v w p q h = omega arith
hex_injective (suc n) v w p q h =
    let (high, low) =
      append_injective (hex n (v / 16)) (hex n (w / 16)) _ _
        (length-hex n (v / 16) ∙ sym (length-hex n (w / 16))) h in
    let above : v / 16 ≡ w / 16 =
      hex_injective n (v / 16) (w / 16) (omega (arith, pow_step n)) (omega (arith, pow_step n))
        high in
    let below : v % 16 ≡ w % 16 =
      hex_digit_injective (v % 16) (w % 16) (omega arith) (omega arith) (cc) in
    omega arith

-- Different 128-bit instance IDs have different Compose project names.
pub compose_project_name_injective :
    (a b : InstanceId)
    → a.value < 16 ^ 32
    → b.value < 16 ^ 32
    → compose_project_name a ≡ compose_project_name b
    → a ≡ b
unfolding compose_project_name
compose_project_name_injective a b p q h =
    ap (λ v. record { value = v }) (hex_injective 32 a.value b.value p q (cc))

-- Every project name has the same length.
pub length-compose_project_name : (id : InstanceId) → length (compose_project_name id) ≡ 35
unfolding compose_project_name
length-compose_project_name id = omega (arith, length-hex 32 id.value)
