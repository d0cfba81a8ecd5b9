-- ===== src/Template/Accepted.antt =====
-- crates/domain/src/template/: what a version definition that `parse_version` accepts is known to
-- have, and that the validation itself never panics.
use compose_nest.Common.{
  ℤ, pos, ◌≡◌, ◌≢◌, refl, String, Bool, true, false, Option, none, some, List, [], ◌∷◌, ok, err,
  arith, str_eq, All, if◌then◌else◌, length,
}
use compose_nest.Template.{
  Value, Items, items_of, entries_in, optional, expect, panics, Ends-ok, Ends-err, Ends-then,
  Ends-weaken,
}
use compose_nest.Template.Reading.{TemplateError, is_within, integer_range, choice}
use compose_nest.Template.Validation.{
  when_some, ignore, validate_default, validate_option, validate_options, validate_rule,
  validate_pattern, validate_rules, validate_initial, validate_input, validate_missing,
  validate_reference, validate_value, first_of, validate_command, validate_port, validate_storage,
  distinct_inputs, validate_connection_inputs, validate_connection, validate_health,
  validate_service, allowed_rules, rule_bounds, clone_values, input_kinds, restart_values, safe_min,
  safe_max,
}
use compose_nest.Template.Structure.{VersionDefinition, platforms_of, parse_version}
use compose_nest.Template.Sound.{
  Refuses, Sure, Safe, Sure-Safe, Sure-panics, require-Sure, ignore-Safe, as_map-Sure,
  as_sequence-Sure, as_string-Sure, as_boolean-Safe, object-Sure, string_length-Sure,
  integer_range-Safe, choice-Sure, field-Sure, when_some-Sure, when_some-Safe, each-Sure, AllValues,
  named_map-Sure,
}

-- A text, and a value with a field of some kind.
abbrev pub IsText : Value → Type 0
IsText v = (s : String) × (v ≡ Value.string s)

abbrev pub HasField : String → (Value → Type 0) → Value → Type 0
HasField name P node = (v : Value) × (optional node name ≡ some v) × P v

-- A value that stands for a text: a scalar, or a reference to an input.
abbrev pub IsReferable : Value → Type 0
IsReferable (Value.mapping fs) = HasField "input" IsText (Value.mapping fs)
IsReferable (Value.sequence _) = ⊥
IsReferable _ = Unit

abbrev pub IsArgv : Value → Type 0
IsArgv v = (items : Items) × (v ≡ Value.sequence items) × All IsReferable (items_of items)

default-Safe : (kind : String) (v : Value) → Safe (validate_default kind v)
unfolding validate_default
default-Safe kind v = Ends-then Refuses _ _ _ _ (require-Sure _) λ _ _. go (str_eq kind "integer")
  where
    go : (b : Bool) → Safe (if b then ignore (integer_range v safe_min safe_max) else ok tt)
    go true = ignore-Safe _ (integer_range-Safe v safe_min safe_max)
    go false = Ends-ok Refuses _ _ tt

option-Safe : (v : Value) → Safe (validate_option v)
unfolding validate_option
option-Safe v = Ends-then Refuses _ _ _ _ (object-Sure v ("value" ∷ "label" ∷ []) []) λ _ there.
    Ends-then Refuses _ _ _ _ (field-Sure TemplateError v "value" (ground (arith, there)))
      λ value _. Ends-then Refuses _ _ _ _ (string_length-Sure value 1 256) λ _ _.
        Ends-then Refuses _ _ _ _ (field-Sure TemplateError v "label" (ground (arith, there)))
          λ label _. ignore-Safe _ (Sure-Safe _ _ (string_length-Sure label 1 100))

options-Safe : (kind : String) (o : Option Value) → Safe (validate_options kind o)
unfolding validate_options
options-Safe kind none = Sure-Safe _ _ (require-Sure _)
options-Safe kind (some v) = Ends-then Refuses _ _ _ _ (require-Sure _) λ _ _.
    Ends-then Refuses _ _ _ _ (as_sequence-Sure v) λ items _.
      Ends-then Refuses _ _ _ _ (require-Sure _)
        λ _ _. Sure-Safe _ _ (each-Sure (λ _. Unit) validate_option items option-Safe)

rule-Safe : (e : String × Value) → Safe (validate_rule e)
unfolding validate_rule validate_pattern
rule-Safe (key, item) = go (str_eq key "pattern")
  where
    go :
        (b : Bool)
        → Safe (
            if b
            then validate_pattern item
            else ignore (integer_range item (rule_bounds key).0 (rule_bounds key).1))
    go true = Ends-then Refuses _ _ _ _ (as_string-Sure item) λ _ _. Sure-Safe _ _ (require-Sure _)
    go false = ignore-Safe _ (integer_range-Safe item _ _)

rules-Safe : (kind : String) (v : Value) → Safe (validate_rules kind v)
unfolding validate_rules
rules-Safe kind v = Ends-then Refuses _ _ _ _ (object-Sure v [] (allowed_rules kind)) λ _ _.
    Ends-then Refuses _ _ _ _ (as_map-Sure v)
      λ rules _. Sure-Safe _ _ (each-Sure (λ _. Unit) validate_rule rules rule-Safe)

initial-Safe : (kind : String) (v : Value) → Safe (validate_initial kind v)
unfolding validate_initial
initial-Safe kind v =
    Ends-then Refuses _ _ _ _ (require-Sure _)
      λ _ _. ignore-Safe _ (Sure-Safe _ _ (choice-Sure v _))

input-Sure : (v : Value) → Sure (λ _. HasField "type" IsText v) (validate_input v)
unfolding validate_input
input-Sure v = Ends-then Refuses _ _ _ _ (object-Sure v ("label" ∷ "type" ∷ []) _) λ _ there.
    Ends-then Refuses _ _ _ _ (field-Sure TemplateError v "label" (ground (arith, there)))
      λ label _. Ends-then Refuses _ _ _ _ (string_length-Sure label 1 100) λ _ _.
        Ends-then Refuses _ _ _ _ (field-Sure TemplateError v "type" (ground (arith, there)))
          λ type at. Ends-then Refuses _ _ _ _ (choice-Sure type input_kinds) λ kind is_text.
            Ends-then Refuses _ _ _ _
              (when_some-Safe (optional v "description") _
                λ w. ignore-Safe _ (Sure-Safe _ _ (as_string-Sure w)))
              λ _ _.
                Ends-then Refuses _ _ _ _
                  (when_some-Safe (optional v "required") _ λ w. ignore-Safe _ (as_boolean-Safe w))
                  λ _ _.
                    Ends-then Refuses _ _ _ _
                      (when_some-Safe (optional v "advanced") _
                        λ w. ignore-Safe _ (as_boolean-Safe w))
                      λ _ _.
                        Ends-then Refuses _ _ _ _
                          (when_some-Safe (optional v "default") _ (default-Safe kind))
                          λ _ _.
                            Ends-then Refuses _ _ _ _ (options-Safe kind (optional v "options"))
                              λ _ _.
                                Ends-then Refuses _ _ _ _
                                  (when_some-Safe (optional v "validation") _ (rules-Safe kind))
                                  λ _ _.
                                    Ends-then Refuses _ _ _ _
                                      (when_some-Safe (optional v "clone") _ λ w.
                                        ignore-Safe _
                                          (Sure-Safe _ _ (choice-Sure w (clone_values kind))))
                                      λ _ _.
                                        Ends-weaken Refuses _ _ _
                                          (when_some-Safe (optional v "initial") _
                                            (initial-Safe kind))
                                          λ _ _. (type, at, (kind, is_text))

value-Sure :
    (environment : Bool) (v : Value) → Sure (λ _. IsReferable v) (validate_value environment v)
unfolding validate_value validate_reference validate_missing
value-Sure environment (Value.string _) = Ends-ok Refuses _ _ tt
value-Sure environment (Value.integer _) = Ends-ok Refuses _ _ tt
value-Sure environment (Value.boolean _) = Ends-ok Refuses _ _ tt
value-Sure environment (Value.sequence _) = Ends-err Refuses _ _ tt
value-Sure environment (Value.mapping fs) =
    Ends-then Refuses _ _ _ _ (object-Sure (Value.mapping fs) ("input" ∷ []) ("onMissing" ∷ []))
      λ _ there.
        Ends-then Refuses _ _ _ _
          (field-Sure TemplateError (Value.mapping fs) "input" (ground (arith, there)))
          λ input at. Ends-then Refuses _ _ _ _ (as_string-Sure input) λ name is_text.
            Ends-weaken Refuses _ _ _
              (when_some-Safe (optional (Value.mapping fs) "onMissing") _ λ w.
                Ends-then Refuses _ _ _ _ (require-Sure _)
                  λ _ _. ignore-Safe _ (Sure-Safe _ _ (choice-Sure w ("omit" ∷ []))))
              λ _ _. (input, at, (name, is_text))

command-Sure : (v : Value) → Sure (λ _. IsArgv v) (validate_command v)
unfolding validate_command
command-Sure v = Ends-then Refuses _ _ _ _ (as_sequence-Sure v) λ xs (items, same, listed).
    Ends-then Refuses _ _ _ _ (require-Sure _) λ _ some_items.
      Ends-then Refuses _ _ _ _ (each-Sure IsReferable (validate_value false) xs (value-Sure false))
        λ _ all_referable. Ends-then Refuses _ _ _ _ (first xs some_items) λ program _.
          Ends-weaken Refuses _ _ _
            (ignore-Safe _ (Sure-Safe _ _ (string_length-Sure program 1 16384)))
            λ _ _. (items, same, rw listed all_referable)
  where
    first :
        (xs : List Value)
        → is_within 1 64 (length xs) ≡ true
        → Safe {E = TemplateError} (expect (first_of xs))
    first [] e = absurd (ground (arith, e))
    first (x ∷ xs) e = Ends-ok Refuses _ _ tt

port-Sure : (v : Value) → Sure (λ _. HasField "container" (λ _. Unit) v) (validate_port v)
unfolding validate_port
port-Sure v = Ends-then Refuses _ _ _ _ (object-Sure v ("label" ∷ "container" ∷ []) _) λ _ there.
    Ends-then Refuses _ _ _ _ (field-Sure TemplateError v "label" (ground (arith, there)))
      λ label _. Ends-then Refuses _ _ _ _ (string_length-Sure label 1 100) λ _ _.
        Ends-then Refuses _ _ _ _ (field-Sure TemplateError v "container" (ground (arith, there)))
          λ container at.
            Ends-then Refuses _ _ _ _ (integer_range-Safe container (pos 1) (pos 65535)) λ _ _.
              Ends-weaken Refuses _ _ _
                (when_some-Safe (optional v "defaultHost") _
                  λ w. ignore-Safe _ (integer_range-Safe w _ _))
                λ _ _. (container, at, tt)

storage-Sure : (v : Value) → Sure (λ _. HasField "container" IsText v) (validate_storage v)
unfolding validate_storage
storage-Sure v =
    Ends-then Refuses _ _ _ _ (object-Sure v ("label" ∷ "container" ∷ []) []) λ _ there.
      Ends-then Refuses _ _ _ _ (field-Sure TemplateError v "label" (ground (arith, there)))
        λ label _. Ends-then Refuses _ _ _ _ (string_length-Sure label 1 100) λ _ _.
          Ends-then Refuses _ _ _ _ (field-Sure TemplateError v "container" (ground (arith, there)))
            λ container at.
              Ends-then Refuses _ _ _ _ (as_string-Sure container)
                λ name is_text. Ends-ok Refuses _ _ (container, at, (name, is_text))

distinct_inputs-Safe : (xs : List Value) (seen : List String) → Safe (distinct_inputs xs seen)
unfolding distinct_inputs
distinct_inputs-Safe [] seen = Ends-ok Refuses _ _ tt
distinct_inputs-Safe (x ∷ xs) seen =
    Ends-then Refuses _ _ _ _ (as_string-Sure x) λ key _.
      Ends-then Refuses _ _ _ _ (require-Sure _) λ _ _. distinct_inputs-Safe xs (key ∷ seen)

connection-Safe : (v : Value) → Safe (validate_connection v)
unfolding validate_connection validate_connection_inputs
connection-Safe v =
    Ends-then Refuses _ _ _ _ (object-Sure v ("label" ∷ "port" ∷ []) ("inputs" ∷ [])) λ _ there.
      Ends-then Refuses _ _ _ _ (field-Sure TemplateError v "label" (ground (arith, there)))
        λ label _. Ends-then Refuses _ _ _ _ (string_length-Sure label 1 100) λ _ _.
          Ends-then Refuses _ _ _ _ (field-Sure TemplateError v "port" (ground (arith, there)))
            λ port _. Ends-then Refuses _ _ _ _ (as_string-Sure port) λ _ _.
              when_some-Safe (optional v "inputs") validate_connection_inputs λ w.
                Ends-then Refuses _ _ _ _ (as_sequence-Sure w)
                  λ items _. distinct_inputs-Safe items []

health-Sure : (v : Value) → Sure (λ _. HasField "command" IsArgv v) (validate_health v)
unfolding validate_health
health-Sure v = Ends-then Refuses _ _ _ _ (object-Sure v ("command" ∷ []) _) λ _ there.
    Ends-then Refuses _ _ _ _ (field-Sure TemplateError v "command" (ground (arith, there)))
      λ command at. Ends-then Refuses _ _ _ _ (command-Sure command) λ _ argv.
        Ends-then Refuses _ _ _ _ (range "intervalSeconds" _ _) λ _ _.
          Ends-then Refuses _ _ _ _ (range "timeoutSeconds" _ _) λ _ _.
            Ends-then Refuses _ _ _ _ (range "startPeriodSeconds" _ _)
              λ _ _. Ends-weaken Refuses _ _ _ (range "retries" _ _) λ _ _. (command, at, argv)
  where
    range :
        (key : String) (low high : ℤ)
        → Safe (when_some (optional v key) λ w. ignore (integer_range w low high))
    range key low high =
        when_some-Safe (optional v key) _ λ w. ignore-Safe _ (integer_range-Safe w _ _)

-- What an accepted service has.
pub record IsService (s : Value) : Type 0 where
  pub environment :
      (v : Value) → optional s "environment" ≡ some v → AllValues IsReferable (entries_in v)
  pub command : (v : Value) → optional s "command" ≡ some v → IsArgv v
  pub ports :
      (v : Value)
      → optional s "ports" ≡ some v
      → AllValues (HasField "container" (λ _. Unit)) (entries_in v)
  pub storage :
      (v : Value)
      → optional s "storage" ≡ some v
      → AllValues (HasField "container" IsText) (entries_in v)
  pub health : HasField "healthcheck" (HasField "command" IsArgv) s
  pub restart : (v : Value) → optional s "restart" ≡ some v → IsText v

service-Sure : (v : Value) → Sure (λ _. IsService v) (validate_service v)
unfolding validate_service
service-Sure v = Ends-then Refuses _ _ _ _ (object-Sure v ("healthcheck" ∷ []) _) λ _ there.
    Ends-then Refuses _ _ _ _
      (when_some-Sure _ (optional v "environment") _
        λ w. named_map-Sure IsReferable true w 128 _ (value-Sure true))
      λ _ environment.
        Ends-then Refuses _ _ _ _ (when_some-Sure _ (optional v "command") _ command-Sure)
          λ _ command.
            Ends-then Refuses _ _ _ _
              (when_some-Sure _ (optional v "ports") _ λ w. named_map-Sure _ false w 16 _ port-Sure)
              λ _ ports.
                Ends-then Refuses _ _ _ _
                  (when_some-Sure _ (optional v "storage") _
                    λ w. named_map-Sure _ false w 16 _ storage-Sure)
                  λ _ storage.
                    Ends-then Refuses _ _ _ _
                      (field-Sure TemplateError v "healthcheck" (ground (arith, there)))
                      λ health at. Ends-then Refuses _ _ _ _ (health-Sure health) λ _ checked.
                        Ends-then Refuses _ _ _ _
                          (when_some-Sure IsText (optional v "restart") _ λ w. restart_text w)
                          λ _ restart.
                            Ends-weaken Refuses _ _ _
                              (when_some-Safe (optional v "memoryLimitMiB") _
                                λ w. ignore-Safe _ (integer_range-Safe w _ _))
                              λ _ _. record {
                                environment = environment;
                                command = command;
                                ports = ports;
                                storage = storage;
                                health = (health, at, checked);
                                restart = restart;
                              }
  where
    restart_text : (w : Value) → Sure (λ _. IsText w) (ignore (choice w restart_values))
    restart_text w =
        Ends-then Refuses _ _ _ _ (choice-Sure w restart_values)
          λ s same. Ends-ok Refuses _ _ (s, same)

-- What an accepted document has.
pub record IsAccepted (doc : Value) : Type 0 where
  pub inputs :
      (v : Value)
      → optional doc "inputs" ≡ some v
      → AllValues (HasField "type" IsText) (entries_in v)
  pub service : HasField "service" IsService doc

platforms-Safe :
    (nodes : List Value) (platforms : List String) → Safe (platforms_of nodes platforms)
unfolding platforms_of
platforms-Safe [] platforms = Ends-ok Refuses _ _ tt
platforms-Safe (node ∷ rest) platforms =
    Ends-then Refuses _ _ _ _ (choice-Sure node _)
      λ value _. Ends-then Refuses _ _ _ _ (require-Sure _) λ _ _. platforms-Safe rest _

pub parse_version-Sure :
    (document : Value)
    → Sure
        (λ (d : VersionDefinition). (d.document ≡ document) × IsAccepted document)
        (parse_version document)
unfolding parse_version
parse_version-Sure doc =
    Ends-then Refuses _ _ _ _ (object-Sure doc ("image" ∷ "platforms" ∷ "service" ∷ []) _)
      λ _ there.
        Ends-then Refuses _ _ _ _ (field-Sure TemplateError doc "image" (ground (arith, there)))
          λ image _. Ends-then Refuses _ _ _ _ (as_string-Sure image) λ _ _.
            Ends-then Refuses _ _ _ _ (require-Sure _) λ _ _.
              Ends-then Refuses _ _ _ _
                (field-Sure TemplateError doc "platforms" (ground (arith, there)))
                λ platforms _. Ends-then Refuses _ _ _ _ (as_sequence-Sure platforms) λ nodes _.
                  Ends-then Refuses _ _ _ _ (require-Sure _) λ _ _.
                    Ends-then Refuses _ _ _ _ (platforms-Safe nodes []) λ _ _.
                      Ends-then Refuses _ _ _ _
                        (when_some-Sure _ (optional doc "inputs") _
                          λ w. named_map-Sure _ false w 64 _ input-Sure)
                        λ _ inputs.
                          Ends-then Refuses _ _ _ _
                            (field-Sure TemplateError doc "service" (ground (arith, there)))
                            λ service at.
                              Ends-then Refuses _ _ _ _ (service-Sure service) λ _ accepted.
                                Ends-then Refuses _ _ _ _
                                  (when_some-Safe (optional doc "connections") _ λ w.
                                    Sure-Safe _ _
                                      (named_map-Sure (λ _. Unit) false w 16 _ connection-Safe))
                                  λ _ _. Ends-ok Refuses _ _ (
                                    refl,
                                    record { inputs = inputs; service = (service, at, accepted) },
                                  )

-- The structural validation of a version document never panics: a key is looked up only once it is
-- known to be there.
pub parse_version_never_panics : (document : Value) → parse_version document ≢ err panics
parse_version_never_panics document =
    Sure-panics _ (parse_version document) (parse_version-Sure document)
