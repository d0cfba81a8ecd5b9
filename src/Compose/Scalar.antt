-- ===== src/Compose/Scalar.antt =====
-- crates/domain/src/compose.rs: `scalar`, which keeps Compose from interpolating a text.
use compose_nest.Common.{[], ◌∷◌, ◌==◌, if◌then◌else◌, Text}

-- `value.replace('$', "$$")`
unfoldable pub scalar : Text → Text
scalar [] = []
scalar (c ∷ cs) = let rest = scalar cs in if c == b'$' then c ∷ c ∷ rest else c ∷ rest
