-- ===== src/ClonePolicy/Secret.antt =====
-- crates/domain/src/clone_policy.rs: the generators of secrets and of instance identities. The
-- random source and the check of availability answer from outside.
pub mod Fresh
pub mod Checked
use Prim.Native.Char.{code}
use Prim.Native.String.{String}
use compose_nest.Common.{
  ℕ, zero, suc, ◌+◌, ◌*◌, ◌%◌, Bool, true, false, not, ◌&&◌, ◌||◌, Option, none, some, List, [],
  ◌∷◌, map, Result, ok, err, map_err, Exec, perform, pure, raise, ◌>>=◌, if◌then◌else◌, any, Text,
  text_eq,
}
use compose_nest.Identity.{InstanceId}
use compose_nest.ClonePolicy.{RandomError, PolicyError, generation_failed, availability_unknown}

pub data Call : Type 0 where
  fill_bytes : ℕ → Call
  is_available : InstanceId → Call

-- `RandomSource`, and the closure that checks an identity.
pub record Outside : Type 0 where
  pub fill_bytes : ℕ → List Call → Result (List ℕ) RandomError
  pub is_available : InstanceId → List Call → Result Bool PolicyError

abbrev codes : String → Text
codes String.[] = []
codes (String.◌∷◌ c s) = code c ∷ codes s

abbrev pub secret_alphabet : Text
secret_alphabet = codes "ABCDEFGHIJKLMNOPQRSTUVWXYZabcdefghijklmnopqrstuvwxyz0123456789_-"

-- The element at an index; the last argument stands for an index out of range.
unfoldable pub get_or : Text → ℕ → ℕ → ℕ
get_or [] i d = d
get_or (x ∷ xs) zero d = x
get_or (x ∷ xs) (suc i) d = get_or xs i d

abbrev pub max_candidates : ℕ
max_candidates = 8

-- `SECRET_ALPHABET[(byte & 63) as usize]`: the mask is the remainder by 64.
unfoldable pub secret_char : ℕ → ℕ
unfolding get_or
secret_char byte = get_or secret_alphabet (byte % 64) 0

abbrev pub is_source : Option Text → Text → Bool
is_source none candidate = false
is_source (some source) candidate = text_eq source candidate

-- The two tests on a candidate.
unfoldable pub is_usable : Option Text → List Text → Text → Bool
is_usable source others candidate =
    not (is_source source candidate) && not (any (λ other. text_eq other candidate) others)

unfoldable pub from_be_bytes : ℕ → List ℕ → ℕ
from_be_bytes acc [] = acc
from_be_bytes acc (b ∷ bytes) = from_be_bytes (acc * 256 + b) bytes

module _ (outside : Outside) where
  -- `random.fill_bytes(&mut bytes).map_err(..)?` on a buffer of `n` bytes.
  unfoldable pub draw : ℕ → Exec Call PolicyError (List ℕ)
  draw n = perform (fill_bytes n) λ h. map_err (λ _. generation_failed) (outside.fill_bytes n h)

  -- The loop, with the number of rounds left.
  unfoldable pub secret_rounds : ℕ → Option Text → List Text → Exec Call PolicyError Text
  secret_rounds zero source others = raise generation_failed
  secret_rounds (suc n) source others = do
    bytes ← draw 32
    elim (is_usable source others (map secret_char bytes)) [
      | true ↦ pure (map secret_char bytes)
      | false ↦ secret_rounds n source others
    ]

  unfoldable pub generate_secret : Option Text → List Text → Exec Call PolicyError Text
  unfolding secret_rounds
  generate_secret source others = secret_rounds max_candidates source others

  unfoldable pub identity_rounds : ℕ → Exec Call PolicyError InstanceId
  identity_rounds zero = raise generation_failed
  identity_rounds (suc n) = do
    bytes ← draw 16
    let candidate : InstanceId = record { value = from_be_bytes 0 bytes }
    free ← perform (is_available candidate) (outside.is_available candidate)
    elim free [ true ↦ pure candidate | false ↦ identity_rounds n ]

  unfoldable pub generate_identity : Exec Call PolicyError InstanceId
  unfolding identity_rounds
  generate_identity = identity_rounds max_candidates
