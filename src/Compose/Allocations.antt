-- ===== src/Compose/Allocations.antt =====
-- crates/domain/src/compose.rs: the ports and the storage of `generate`.
use compose_nest.Common.{
  ℕ, ◌-◌, ◌%◌, ℤ, pos, negsuc, String, Bool, not, ◌&&◌, ◌||◌, Option, none, some, List, [], ◌∷◌,
  ◌++◌, ok, err, str_eq, ◌==◌, ltb, leb, if◌then◌else◌, Text, text_codes, text_eq, any, Map, lookup,
}
use compose_nest.Identity.{InstanceId, compose_project_name}
use compose_nest.Instance.{present}
use compose_nest.Template.{Value, field, Checked, refused, ◌>>=◌, ◌>>◌, unless}
use compose_nest.Compose.{Storage, bind, volume, ComposeError, invalid_allocation}
use compose_nest.Compose.Inputs.{string_in, integer_in}

-- What the platform's `Path` answers of a text.
pub record Paths : Type 0 where
  pub is_absolute : String → Bool
  pub has_parent : String → Bool

-- `as u16`
abbrev pub as_u16 : ℤ → ℕ
as_u16 (pos n) = n % 65536
as_u16 (negsuc n) = 65535 - n % 65536

abbrev pub allocated : {A : Type 0} → Option A → Checked ComposeError A
allocated none = err (refused invalid_allocation)
allocated (some a) = ok a

-- The loop over the port slots, with the ports seen so far.
unfoldable pub ports_of :
    List (String × Value) → Map ℕ → List ℕ → Checked ComposeError (List (ℕ × ℕ))
ports_of [] ports seen = ok []
ports_of ((slot, definition) ∷ rest) ports seen = do
  host ← allocated (lookup slot ports)
  unless (not (ltb host 1024) && not (any (λ p. p == host) seen)) invalid_allocation
  container ← field definition "container"
  others ← ports_of rest ports (host ∷ seen)
  ok ((host, as_u16 (integer_in (some container) (pos 0))) ∷ others)

-- `char::is_control`
abbrev pub is_control : ℕ → Bool
is_control c = ltb c 32 || leb 127 c && ltb c 160

abbrev pub volume_name : InstanceId → String → Text
volume_name id slot = compose_project_name id ++ (b'-' ∷ text_codes slot)

module _ (paths : Paths) (id : InstanceId) where
  unfoldable pub is_bindable : String → Bool
  is_bindable path =
      paths.is_absolute path
      && not (any is_control (text_codes path))
      && not (paths.has_parent path)

  -- The identity of an allocation, with the volume that it names.
  unfoldable pub identity_of : String → Storage → Checked ComposeError (String × List String)
  unfolding is_bindable
  identity_of slot (bind path) =
      if is_bindable path then ok (path, []) else err (refused invalid_allocation)
  identity_of slot (volume name present) =
      if text_eq (text_codes name) (volume_name id slot)
      then ok (name, name ∷ [])
      else err (refused invalid_allocation)
  identity_of slot (volume name _) = err (refused invalid_allocation)

  -- The loop over the storage slots, with the identities seen so far.
  unfoldable pub storage_of :
      List (String × Value)
      → Map Storage
      → List String
      → Checked ComposeError (List (Storage × String) × List String)
  unfolding identity_of
  storage_of [] storage seen = ok ([], [])
  storage_of ((slot, definition) ∷ rest) storage seen = do
    allocation ← allocated (lookup slot storage)
    (identity, named) ← identity_of slot allocation
    unless (not (any (λ s. str_eq s identity) seen)) invalid_allocation
    container ← field definition "container"
    target ← string_in container
    (mounts, volumes) ← storage_of rest storage (identity ∷ seen)
    ok ((allocation, target) ∷ mounts, named ++ volumes)
