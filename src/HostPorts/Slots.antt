-- ===== src/HostPorts/Slots.antt =====
-- crates/application/src/host_ports.rs: the slots, the cursor and the outcomes of a plan, and the
-- first loop of `plan_with_budget`, which admits the explicit inputs without a call. A `BTreeMap`
-- is a map of Common/Maps, and a `PortCheck` is its result: the time of a check is not modelled.
use compose_nest.Common.{
  ℕ, ◌+◌, ◌-◌, ◌*◌, String, Bool, false, not, ◌&&◌, ◌||◌, Option, none, some, List, [], ◌∷◌, Result,
  ok, err, all, length, ◌==◌, ltb, leb, if◌then◌else◌, Text, text_codes, Map, before, insert,
  has_key,
}
use compose_nest.HostPorts.{PortReason}

pub record PortSlot : Type 0 where
  pub key : String
  pub source : Option ℕ
  pub recommended : Option ℕ
  pub explicit : Option String
  pub min : ℕ
  pub max : ℕ

pub record PortCursor : Type 0 where
  pub next : Map ℕ
  pub selected : Map ℕ
  pub checked_explicit : Map ℕ

abbrev pub PortCheck : Type 0
PortCheck = Result (Unit {0}) PortReason

pub data PortPlan : Type 0 where
  complete : Map ℕ → PortPlan
  incomplete : PortCursor → PortPlan
  needs_input : String → PortPlan
  rejected_slot : String → Option String → PortReason → Option PortCheck → PortPlan

abbrev pub rejected : String → PortReason → Option PortCheck → PortPlan
rejected slot reason check = rejected_slot slot none reason check

abbrev is_lowercase : ℕ → Bool
is_lowercase c = leb b'a' c && leb c b'z'

abbrev is_digit : ℕ → Bool
is_digit c = leb b'0' c && leb c b'9'

abbrev is_key_byte : ℕ → Bool
is_key_byte c = is_lowercase c || is_digit c || c == b'-'

-- The key of a slot, byte for byte; a text with other characters fails the tests of its bytes.
abbrev pub is_slot_key : Text → Bool
is_slot_key [] = false
is_slot_key (c ∷ cs) = leb (length cs) 31 && is_lowercase c && all is_key_byte cs

unfoldable pub valid_slot : PortSlot → Bool
valid_slot slot = is_slot_key (text_codes slot.key) && leb 1024 slot.min && leb slot.min slot.max

-- `str::parse::<u16>`: digits, perhaps after a plus sign, of a number that fits.
abbrev pub read_digits : ℕ → Text → Option ℕ
read_digits n [] = some n
read_digits n (c ∷ cs) =
    let rest = read_digits (n * 10 + (c - b'0')) cs in
    if is_digit c && leb (n * 10 + (c - b'0')) 65535 then rest else none

abbrev pub parse_digits : Text → Option ℕ
parse_digits [] = none
parse_digits (c ∷ cs) = read_digits 0 (c ∷ cs)

unfoldable pub parse_port : Text → Option ℕ
parse_port [] = none
parse_port (c ∷ cs) = if c == b'+' then parse_digits cs else parse_digits (c ∷ cs)

-- `sort_by` on the keys, which is stable.
abbrev pub insert_slot : PortSlot → List PortSlot → List PortSlot
insert_slot s [] = s ∷ []
insert_slot s (q ∷ qs) =
    let rest = insert_slot s qs in if before q.key s.key then q ∷ rest else s ∷ q ∷ qs

unfoldable pub ordered : List PortSlot → List PortSlot
ordered [] = []
ordered (s ∷ ss) = insert_slot s (ordered ss)

-- The ports of the explicit inputs so far, with the slots that asked for them.
abbrev pub Claims : Type 0
Claims = List (ℕ × String)

abbrev pub claimed_by : ℕ → Claims → Option String
claimed_by port [] = none
claimed_by port ((p, k) ∷ cs) = let rest = claimed_by port cs in if p == port then some k else rest

abbrev pub Planned : Type 0
Planned = Map (Option ℕ)

unfoldable pub admit_port :
    PortSlot → ℕ → Planned → Claims → Option String → Result (Planned × Claims) PortPlan
admit_port slot port planned claims (some other) =
    err (rejected_slot slot.key (some other) PortReason.duplicate_input none)
admit_port slot port planned claims none =
    ok (insert slot.key (some port) planned, (port, slot.key) ∷ claims)

unfoldable pub admit_parsed :
    PortSlot → Planned → Claims → Option ℕ → Result (Planned × Claims) PortPlan
unfolding admit_port
admit_parsed slot planned claims none = err (rejected slot.key PortReason.invalid_input none)
admit_parsed slot planned claims (some port) =
    if ltb port slot.min || ltb slot.max port
    then err (rejected slot.key PortReason.invalid_input none)
    else admit_port slot port planned claims (claimed_by port claims)

unfoldable pub admit_input :
    PortSlot → Planned → Claims → Option String → Result (Planned × Claims) PortPlan
unfolding admit_parsed parse_port
admit_input slot planned claims none = ok (planned, claims)
admit_input slot planned claims (some input) =
    admit_parsed slot planned claims (parse_port (text_codes input))

unfoldable pub admit : PortSlot → Planned → Claims → Result (Planned × Claims) PortPlan
unfolding admit_input valid_slot
admit slot planned claims =
    if not (valid_slot slot) || has_key slot.key planned
    then err (rejected slot.key PortReason.invalid_input none)
    else admit_input slot (insert slot.key none planned) claims slot.explicit

-- The first loop: the explicit inputs, without a call.
unfoldable pub admit_all : List PortSlot → Planned → Claims → Result (Planned × Claims) PortPlan
admit_all [] planned claims = ok (planned, claims)
admit_all (slot ∷ slots) planned claims = elim (admit slot planned claims) [
  | ok (p, c) ↦ admit_all slots p c
  | err plan ↦ err plan
]
