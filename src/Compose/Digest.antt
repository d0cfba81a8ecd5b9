-- ===== src/Compose/Digest.antt =====
-- crates/domain/src/compose.rs: the digest of the image that a model runs.
use compose_nest.Common.{
  ◌≡◌, refl, ap, inl, inr, true, Option, none, some, [], ◌∷◌, ◌++◌, arith, ◌==◌, ==_iff, Text,
  text_codes, all, length, Bool-cases,
}
use compose_nest.Compose.{
  ConfirmedCompose, split_once, strip_prefix, is_hex_digit, is_name_of, is_pinned, repository_of,
  valid_digest,
}

strip_prefix-join : (p s rest : Text) → strip_prefix p s ≡ some rest → s ≡ p ++ rest
strip_prefix-join [] s rest e = cc
strip_prefix-join (x ∷ p) [] rest e = cc
strip_prefix-join (x ∷ p) (y ∷ s) rest e = elim (Bool-cases (x == y)) [
  | inl same ↦
      let head : x ≡ y = (==_iff x y).0 same in
      let tail : s ≡ p ++ rest = strip_prefix-join p s rest (ground (arith, e, same)) in cc
  | inr other ↦ absurd (ground (arith, e, other))
]

split_once-join : (p s a b : Text) → split_once p s ≡ some (a, b) → s ≡ a ++ (p ++ b)
split_once-join p [] a b e = cc
split_once-join p (x ∷ s) a b e =
    go (strip_prefix p (x ∷ s)) (split_once p s) (strip_prefix-join p (x ∷ s) b)
      (split_once-join p s) e
  where
    go :
        (o : Option Text) (later : Option (Text × Text))
        → (o ≡ some b → x ∷ s ≡ p ++ b)
        → ((c d : Text) → later ≡ some (c, d) → s ≡ c ++ (p ++ d))
        → ◌≡◌ {A = Option (Text × Text)}
            (elim o [
              | some rest ↦ some ([], rest)
              | none ↦ elim later [ some (c, d) ↦ some (x ∷ c, d) | none ↦ none ]
            ])
            (some (a, b))
        → x ∷ s ≡ a ++ (p ++ b)
    go (some rest) later here there e =
        let start : a ≡ [] = cc in let same : rest ≡ b = cc in rw start (here (ap some same))
    go none (some (c, d)) here there e =
        let start : a ≡ x ∷ c = cc in
        let same : d ≡ b = cc in rw start (ap (λ r. x ∷ r) (there c b (ap (λ z. some (c, z)) same)))
    go none none here there e = cc

-- The digest that the image is pinned to.
abbrev pub IsPinned : Text → Text → Type 0
IsPinned image repository =
    (name : Text) × (digest : Text) × (image ≡ name ++ (text_codes "@sha256:" ++ digest))
    × (is_name_of repository name ≡ true)
    × (length digest ≡ 64)
    × (all is_hex_digit digest ≡ true)

is_pinned-IsPinned :
    (repository : Text) (image : Text) (o : Option (Text × Text))
    → split_once (text_codes "@sha256:") image ≡ o
    → is_pinned repository o ≡ true
    → IsPinned image repository
unfolding is_pinned
is_pinned-IsPinned repository image none same e = cc
is_pinned-IsPinned repository image (some (name, digest)) same e = (
  name,
  digest,
  split_once-join (text_codes "@sha256:") image name digest same,
  ground (arith, e),
  ground (arith, e),
  ground (arith, e),
)

pub valid_digest-IsPinned :
    (source : ConfirmedCompose)
    → valid_digest source ≡ true
    → IsPinned (text_codes source.execution_image) (repository_of (text_codes source.source_image))
unfolding valid_digest
valid_digest-IsPinned source e = is_pinned-IsPinned _ _ _ refl e
