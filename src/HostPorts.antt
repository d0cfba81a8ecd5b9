-- ===== src/HostPorts.antt =====
-- crates/application/src/host_ports.rs: the scan for the port of one automatic slot, which is the
-- inner loop of `plan_with_budget`. The inspector and the clock answer from outside.
pub mod Scan
pub mod Slots
pub mod Plan
use compose_nest.Common.{
  ℕ, zero, suc, ◌+◌, ◌-◌, ◌==◌, Bool, true, false, ◌||◌, List, [], ◌∷◌, Result, ok, err, ltb, leb,
  any, if◌then◌else◌,
}

pub data PortReason : Type 0 where
  reserved planned docker host unavailable invalid_input duplicate_input : PortReason

pub data Call : Type 0 where
  elapsed : Call
  inspect : ℕ → Call

-- `PortInspector`, and the comparison of the elapsed time with the deadline.
pub record Outside : Type 0 where
  pub inspect : ℕ → List Call → Result (Unit {0}) PortReason
  pub is_late : List Call → Bool

-- How the scan ends: with a port, out of its budget, with a check that could not be made, or with
-- no port left.
pub data Ending : Type 0 where
  found : ℕ → Ending
  incomplete : Ending
  inconclusive : ℕ → Ending
  exhausted : Ending

-- What the scan leaves: its ending, the cursor's entry, the attempts made so far, and the calls.
pub record Scanned : Type 0 where
  pub ending : Ending
  pub next : ℕ
  pub attempts : ℕ
  pub calls : List Call

pub data Verdict : Type 0 where
  take pass stop : Verdict

abbrev pub verdict_of : Result (Unit {0}) PortReason → Verdict
verdict_of (ok _) = take
verdict_of (err unavailable) = stop
verdict_of (err _) = pass

module _ (outside : Outside) (min limit : ℕ) (used : List ℕ) where
  -- `attempts >= limit || started.elapsed() >= deadline`
  unfoldable pub pause : ℕ → List Call → Bool × List Call
  pause attempts h =
      if leb limit attempts then (true, h) else (outside.is_late (elapsed ∷ h), elapsed ∷ h)

  abbrev pub is_barred : ℕ → Bool
  is_barred port = ltb port min || any (λ p. p == port) used

  unfoldable pub try_port : ℕ → List Call → Verdict × List Call
  try_port port h =
      if is_barred port
      then (pass, h)
      else (verdict_of (outside.inspect port (inspect port ∷ h)), inspect port ∷ h)

  -- `match check.result`, with what goes on after a candidate that is passed over.
  unfoldable pub settle : ℕ → ℕ → (List Call → Scanned) → Verdict × List Call → Scanned
  settle candidate attempts rest (take, h) = record {
    ending = found candidate;
    next = candidate + 1;
    attempts = attempts + 1;
    calls = h;
  }
  settle candidate attempts rest (stop, h) = record {
    ending = inconclusive candidate;
    next = candidate + 1;
    attempts = attempts + 1;
    calls = h;
  }
  settle candidate attempts rest (pass, h) = rest h

  -- The body of the loop, once the budget was looked at.
  unfoldable pub proceed : ℕ → ℕ → (List Call → Scanned) → Bool × List Call → Scanned
  unfolding settle try_port
  proceed candidate attempts rest (true, h) = record {
    ending = incomplete;
    next = candidate;
    attempts = attempts;
    calls = h;
  }
  proceed candidate attempts rest (false, h) = settle candidate attempts rest (try_port candidate h)

  -- The loop, with the number of candidates left up to the slot's maximum.
  unfoldable pub scan : ℕ → ℕ → ℕ → ℕ → List Call → Scanned
  unfolding proceed pause
  scan zero candidate next attempts h = record {
    ending = exhausted;
    next = next;
    attempts = attempts;
    calls = h;
  }
  scan (suc n) candidate next attempts h =
      proceed candidate attempts (scan n (candidate + 1) (candidate + 1) (attempts + 1))
        (pause attempts h)

  -- The candidates from one up to the slot's maximum.
  unfoldable pub scan_from : ℕ → ℕ → ℕ → ℕ → List Call → Scanned
  unfolding scan
  scan_from max candidate next attempts h = scan (max + 1 - candidate) candidate next attempts h
