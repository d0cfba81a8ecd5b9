-- ===== src/Compose/Resolved.antt =====
-- crates/domain/src/compose.rs on versions that semantics.rs resolved: which references resolve.
use compose_nest.Common.{
  ◌≡◌, refl, sym, ◌∙◌, ap, inl, inr, String, Bool, true, false, Option, none, some, List, [], ◌∷◌,
  ok, str_eq, eq_iff, All, arith, Text, Map, lookup, Bool-cases, is_some,
}
use compose_nest.Template.{
  Value, items_of, entries, entry, optional, field, Anyhow, Returns, field-Returns, Returns-itself,
  Ends-ok, Ends-err, Ends-then, Ends-unless, Ends-weaken, returned, bind_ok,
}
use compose_nest.Template.Sound.{AllValues, Refuses}
use compose_nest.Template.Reading.{TemplateError}
use compose_nest.Template.Semantics.{
  scalar_of, unwrap_or, is_required, check_reference, validate_reference, validate_references,
  command_items, Patterns, ResolvedVersion, validate_ports, validate_storage, validate_connections,
}
use compose_nest.Template.Resolution.{values_in, resolve_inputs, resolve_version}
use compose_nest.Template.Structure.{VersionDefinition, parse_version}
use compose_nest.Template.Accepted.{IsReferable, IsArgv, IsService, IsAccepted, parse_version-Sure}
use compose_nest.Compose.{InputValue, invalid_spec, input_text}
use compose_nest.Compose.Sure.{values_of}
use compose_nest.Compose.Inputs.{
  is_false, valid_input, check_definition, check_definitions, check_inputs, as_spec_error,
  string_in, referred, resolve, provided, resolve_items, resolve_argv, environment_of, put_some,
  command_of,
}

-- An input that was not given is optional.
abbrev pub MayMiss : Map InputValue → String × Value → Type 0
MayMiss given (key, definition) =
    lookup key given ≡ none → is_false (optional definition "required") ≡ true

missing_optional :
    (kind : String) (o : Option InputValue) (b : Bool)
    → valid_input kind o b ≡ true
    → o ≡ none
    → b ≡ true
missing_optional kind none b e h = e
missing_optional kind (some v) b e h = cc

check_definitions-Returns :
    (es : List (String × Value)) (given : Map InputValue)
    → Returns (λ _. All (MayMiss given) es) (check_definitions es given)
unfolding check_definitions check_definition
check_definitions-Returns [] given = Ends-ok Anyhow _ _ tt
check_definitions-Returns ((key, definition) ∷ es) given =
    Ends-then Anyhow _ _ _ _
      (Ends-then Anyhow _ (λ _. MayMiss given (key, definition)) _ _
        (Returns-itself (field definition "type"))
        λ type _. Ends-then Anyhow _ _ _ _ (Returns-itself (string_in type)) λ kind _.
          Ends-weaken Anyhow _ _ _ (Ends-unless Anyhow _ invalid_spec tt)
            λ _ valid. missing_optional kind (lookup key given) _ valid)
      λ _ here. Ends-weaken Anyhow _ _ _ (check_definitions-Returns es given) λ _ rest. (here, rest)

-- A reference of a resolved version: its input is defined, and may be left out only in the
-- environment and with `onMissing`.
abbrev pub Refers : List (String × Value) → Bool → Value → Type 0
Refers inputs environment (Value.mapping fs) =
    (reference : Value) × (optional (Value.mapping fs) "input" ≡ some reference)
    × ((input : Value) × (entry (unwrap_or (scalar_of (some reference)) "") inputs ≡ some input)
        × (is_required (optional input "required") ≡ false
            → (environment ≡ true) × (is_some (optional (Value.mapping fs) "onMissing") ≡ true)))
Refers inputs environment _ = Unit

check_reference-Returns :
    (environment omit : Bool) (o : Option Value) (name : String) (used : List String)
    → Returns
        (λ _.
          (input : Value) × (o ≡ some input)
          × (is_required (optional input "required") ≡ false
              → (environment ≡ true) × (omit ≡ true)))
        (check_reference environment omit o name used)
unfolding check_reference
check_reference-Returns environment omit none name used = Ends-err Anyhow _ _ tt
check_reference-Returns environment omit (some input) name used =
    Ends-then Anyhow _ _ _ _ (Ends-unless Anyhow _ TemplateError.template_error tt) λ _ _.
      Ends-then Anyhow _ _ _ _ (Ends-unless Anyhow _ TemplateError.template_error tt) λ _ fine.
        Ends-ok Anyhow _ _ (input, refl, λ h. (ground (arith, fine, h), ground (arith, fine, h)))

validate_reference-Returns :
    (v : Value) (inputs : List (String × Value)) (environment : Bool) (used : List String)
    → Returns (λ _. Refers inputs environment v) (validate_reference v inputs environment used)
unfolding validate_reference
validate_reference-Returns (Value.string _) inputs environment used = Ends-ok Anyhow _ _ tt
validate_reference-Returns (Value.integer _) inputs environment used = Ends-ok Anyhow _ _ tt
validate_reference-Returns (Value.boolean _) inputs environment used = Ends-ok Anyhow _ _ tt
validate_reference-Returns (Value.sequence _) inputs environment used = Ends-ok Anyhow _ _ tt
validate_reference-Returns (Value.mapping fs) inputs environment used =
    Ends-then Anyhow _ _ _ _ (field-Returns TemplateError (Value.mapping fs) "input")
      λ reference at.
        Ends-weaken Anyhow _ _ _ (check_reference-Returns environment _ _ _ used)
          λ _ found. (reference, at, found)

validate_references-Returns :
    (vs : List Value) (inputs : List (String × Value)) (environment : Bool) (used : List String)
    → Returns
        (λ _. All (Refers inputs environment) vs)
        (validate_references vs inputs environment used)
unfolding validate_references
validate_references-Returns [] inputs environment used = Ends-ok Anyhow _ _ tt
validate_references-Returns (v ∷ vs) inputs environment used =
    Ends-then Anyhow _ _ _ _ (validate_reference-Returns v inputs environment used) λ more here.
      Ends-weaken Anyhow _ _ _ (validate_references-Returns vs inputs environment more)
        λ _ rest. (here, rest)

entry-MayMiss :
    (name : String) (es : List (String × Value)) (given : Map InputValue) (v : Value)
    → All (MayMiss given) es
    → entry name es ≡ some v
    → lookup name given ≡ none
    → is_false (optional v "required") ≡ true
entry-MayMiss name [] given v misses e h = cc
entry-MayMiss name ((key, w) ∷ es) given v (here, rest) e h = elim (Bool-cases (str_eq key name)) [
  | inl same ↦
      let named : key ≡ name = (eq_iff key name).0 same in
      let found : w ≡ v = ground (arith, e, same) in rw (← found) (here (rw named h))
  | inr other ↦ entry-MayMiss name es given v rest (ground (arith, e, other)) h
]

not_required : (o : Option Value) → is_false o ≡ true → is_required o ≡ false
not_required (some (Value.boolean false)) e = refl
not_required (some (Value.boolean true)) e = cc
not_required none e = cc
not_required (some (Value.string _)) e = cc
not_required (some (Value.integer _)) e = cc
not_required (some (Value.mapping _)) e = cc
not_required (some (Value.sequence _)) e = cc

-- A value resolves, and to a text unless it lies in the environment.
abbrev pub Resolves : Map InputValue → Bool → Value → Type 0
Resolves given environment v =
    (t : Option Text) × (resolve v given ≡ ok t) × (environment ≡ false → is_some t ≡ true)

referred-ok :
    (environment omit : Bool) (o : Option InputValue)
    → (o ≡ none → (environment ≡ true) × (omit ≡ true))
    → (t : Option Text) × (referred o omit ≡ ok t) × (environment ≡ false → is_some t ≡ true)
referred-ok environment omit (some v) h = (some (input_text v), refl, λ _. refl)
referred-ok environment omit none h =
    let (inside, left_out) = h refl in (none, rw left_out refl, λ e. cc)

module _ (inputs : List (String × Value)) (given : Map InputValue)
    (misses : All (MayMiss given) inputs) where
  resolve-Resolves :
      (environment : Bool) (v : Value)
      → Refers inputs environment v
      → IsReferable v
      → Resolves given environment v
  unfolding resolve
  resolve-Resolves environment (Value.string s) r q = (some _, refl, λ _. refl)
  resolve-Resolves environment (Value.integer n) r q = (some _, refl, λ _. refl)
  resolve-Resolves environment (Value.boolean b) r q = (some _, refl, λ _. refl)
  resolve-Resolves environment (Value.sequence xs) r q = absurd q
  resolve-Resolves environment (Value.mapping fs) (reference, at, (input, found, must))
        (w, there, (name, is_text)) =
      let same : w ≡ reference = cc in
      let text : reference ≡ Value.string name = sym same ∙ is_text in
      let named : unwrap_or (scalar_of (some reference)) "" ≡ name = rw text refl in
      let (t, resolved, some_text) =
        referred-ok environment (is_some (optional (Value.mapping fs) "onMissing"))
          (lookup name given)
          λ missing. must (
            not_required (optional input "required") (
              entry-MayMiss name inputs given input misses
                (ap (λ n. entry n inputs) (sym named) ∙ found) missing)) in
      (
        t,
        bind_ok (field (Value.mapping fs) "input") _ reference (ok t) (rw at refl)
            (bind_ok (string_in reference) _ name (ok t) (rw text refl) resolved),
        some_text,
      )

  resolve_items-ok :
      (xs : List Value)
      → All (Refers inputs false) xs
      → All IsReferable xs
      → (ts : List Text) × (resolve_items xs given ≡ ok ts)
  unfolding resolve_items
  resolve_items-ok [] rs qs = ([], refl)
  resolve_items-ok (x ∷ xs) (r, rs) (q, qs) =
      let (t, resolved, given_text) = resolve-Resolves false x r q in
      let (text, there) = some_of t (given_text refl) in
      let (texts, rest) = resolve_items-ok xs rs qs in
      (
        text ∷ texts,
        bind_ok (resolve x given) _ t (ok (text ∷ texts)) resolved (
            bind_ok (provided t) _ text (ok (text ∷ texts)) (rw there refl)
              (bind_ok (resolve_items xs given) _ texts (ok (text ∷ texts)) rest refl)),
      )
    where
      some_of : (t : Option Text) → is_some t ≡ true → (text : Text) × (t ≡ some text)
      some_of none e = cc
      some_of (some text) e = (text, refl)

  resolve_argv-ok :
      (v : Value)
      → All (Refers inputs false) (command_items (some v))
      → IsArgv v
      → (ts : List Text) × (resolve_argv v given ≡ ok ts)
  unfolding resolve_argv
  resolve_argv-ok (Value.sequence items) rs (others, same, qs) =
      let listed : items ≡ others = cc in resolve_items-ok (items_of items) rs (rw listed qs)
  resolve_argv-ok (Value.string _) rs (others, same, qs) = cc
  resolve_argv-ok (Value.integer _) rs (others, same, qs) = cc
  resolve_argv-ok (Value.boolean _) rs (others, same, qs) = cc
  resolve_argv-ok (Value.mapping _) rs (others, same, qs) = cc

  command_of-ok :
      (o : Option Value)
      → All (Refers inputs false) (command_items o)
      → ((v : Value) → o ≡ some v → IsArgv v)
      → (c : Option (List Text)) × (command_of o given ≡ ok c)
  unfolding command_of
  command_of-ok none rs argv = (none, refl)
  command_of-ok (some v) rs argv =
      let (ts, e) = resolve_argv-ok v rs (argv v refl) in
      (some ts, bind_ok (resolve_argv v given) _ ts (ok (some ts)) e refl)

  environment_of-ok :
      (es : List (String × Value)) (m : Map Text)
      → All (Refers inputs true) (values_in es)
      → AllValues IsReferable es
      → (n : Map Text) × (environment_of es given m ≡ ok n)
  unfolding environment_of
  environment_of-ok [] m rs qs = (m, refl)
  environment_of-ok ((key, v) ∷ es) m (r, rs) (q, qs) =
      let (t, resolved, _) = resolve-Resolves true v r q in
      let (n, rest) = environment_of-ok es (put_some key t m) rs qs in
      (n, bind_ok (resolve v given) _ t (ok n) resolved rest)

-- The references of a service that was resolved.
abbrev pub AllRefer : List (String × Value) → Value → Type 0
AllRefer inputs service =
    All (Refers inputs true) (values_in (entries (optional service "environment")))
    × All (Refers inputs false) (command_items (optional service "command"))
    × ((health : Value) × (test : Value) × (optional service "healthcheck" ≡ some health)
        × (optional health "command" ≡ some test)
        × All (Refers inputs false) (command_items (some test)))

resolve_version-Returns :
    (patterns : Patterns) (key : String) (definition : VersionDefinition) (types : Map String)
    → Returns
        (λ _.
          (service : Value) × (optional definition.document "service" ≡ some service)
          × AllRefer (entries (optional definition.document "inputs")) service)
        (resolve_version patterns key definition types)
unfolding resolve_version
resolve_version-Returns patterns key definition types =
    Ends-then Anyhow _ _ _ _ (Returns-itself (resolve_inputs patterns _ types)) λ _ _.
      Ends-then Anyhow _ _ _ _ (field-Returns TemplateError definition.document "service")
        λ service at.
          Ends-then Anyhow _ _ _ _ (validate_references-Returns _ _ true []) λ used1 environment.
            Ends-then Anyhow _ _ _ _ (validate_references-Returns _ _ false used1) λ used2 command.
              Ends-then Anyhow _ _ _ _ (field-Returns TemplateError service "healthcheck")
                λ health checked.
                  Ends-then Anyhow _ _ _ _ (field-Returns TemplateError health "command")
                    λ test tested.
                      Ends-then Anyhow _ _ _ _ (validate_references-Returns _ _ false used2)
                        λ _ argv.
                          Ends-then Anyhow _ _ _ _ (Returns-itself (validate_ports _ [])) λ _ _.
                            Ends-then Anyhow _ _ _ _ (Returns-itself (validate_storage _ [])) λ _ _.
                              Ends-then Anyhow _ _ _ _ (Returns-itself (validate_connections _ _ _))
                                λ _ _. Ends-ok Anyhow _ _ (
                                  service,
                                  at,
                                  (environment, command, (health, test, checked, tested, argv)),
                                )

check_inputs-Returns :
    (es : List (String × Value)) (given : Map InputValue)
    → Returns (λ _. All (MayMiss given) es) (check_inputs es given)
unfolding check_inputs
check_inputs-Returns es given =
    Ends-then Anyhow _ _ _ _ (Returns-itself (as_spec_error _))
      λ _ _. check_definitions-Returns es given

-- On a version that was parsed and resolved, once the inputs pass the generator's check, every
-- reference of its service resolves: the environment, the command and the test of its health.
pub references_resolve :
    (patterns : Patterns) (key : String) (document : Value) (definition : VersionDefinition)
    (types last : Map String) (version : ResolvedVersion) (given : Map InputValue)
    → parse_version document ≡ ok definition
    → resolve_version patterns key definition types ≡ ok (version, last)
    → check_inputs (entries (optional definition.document "inputs")) given ≡ ok tt
    → (service : Value) × (optional definition.document "service" ≡ some service)
      × ((n : Map Text) × (environment_of (entries (optional service "environment")) given []
            ≡ ok n))
      × ((c : Option (List Text)) × (command_of (optional service "command") given ≡ ok c))
      × ((health : Value) × (test : Value) × (ts : List Text) × (optional service "healthcheck"
            ≡ some health)
          × (optional health "command" ≡ some test)
          × (resolve_argv test given ≡ ok ts))
references_resolve patterns key document definition types last version given parsed resolved
      checked =
    let (from, accepted) = returned Refuses _ _ _ (parse_version-Sure document) parsed in
    let (service, at, refer) =
      returned Anyhow _ _ _ (resolve_version-Returns patterns key definition types) resolved in
    let misses = returned Anyhow _ _ _ (check_inputs-Returns _ given) checked in
    let (environment, command, health) =
      all_resolve service misses refer (service_of service accepted from at) in
    (service, at, environment, command, health)
  where
    service_of :
        (service : Value)
        → IsAccepted document
        → definition.document ≡ document
        → optional definition.document "service" ≡ some service
        → IsService service
    service_of service accepted from at =
        let (w, found, has) = accepted.service in
        let here : optional document "service" ≡ some service = rw (← from) at in
        let same : w ≡ service = cc in rw (← same) has

    all_resolve :
        (service : Value)
        → All (MayMiss given) (entries (optional definition.document "inputs"))
        → AllRefer (entries (optional definition.document "inputs")) service
        → IsService service
        → ((n : Map Text) × (environment_of (entries (optional service "environment")) given []
              ≡ ok n))
          × ((c : Option (List Text)) × (command_of (optional service "command") given ≡ ok c))
          × ((health : Value) × (test : Value) × (ts : List Text) × (optional service "healthcheck"
                ≡ some health)
              × (optional health "command" ≡ some test)
              × (resolve_argv test given ≡ ok ts))
    all_resolve service misses (env, cmd, (health, test, checked, tested, argv)) has =
        let (h, found_health, (c, found_command, is_argv)) = has.health in
        let same : h ≡ health = cc in
        let also : optional health "command" ≡ some c = rw (← same) found_command in
        let test_same : c ≡ test = cc in
        let (ts, e) = resolve_argv-ok _ given misses test argv (rw (← test_same) is_argv) in
        (
          environment_of-ok _ given misses _ [] env
              (values_of IsReferable (optional service "environment") has.environment),
          command_of-ok _ given misses (optional service "command") cmd has.command,
          (health, test, ts, checked, tested, e),
        )
