-- ===== src/HostPorts/Scan.antt =====
-- crates/application/src/host_ports.rs: what the scan of one slot finds, and what it passes over.
use compose_nest.Common.{
  ℕ, zero, suc, ◌+◌, ◌-◌, ◌≤◌, ◌<◌, ◌≡◌, ◌≢◌, ◌⊎◌, inl, inr, refl, Bool, true, false, List, ◌∷◌,
  Result, ok, err, arith, leb, IsSuffix, whole, later, later_all, Bool-cases,
}
use compose_nest.HostPorts.{
  PortReason, unavailable, Call, elapsed, inspect, Outside, Ending, found, incomplete, inconclusive,
  exhausted, Scanned, Verdict, take, pass, stop, verdict_of, pause, is_barred, try_port, settle,
  proceed, scan, scan_from,
}

module _ (outside : Outside) (min limit : ℕ) (used : List ℕ) where
  -- A port that is out of the question, or that the inspector refused at some point of the history.
  abbrev pub IsPassed : ℕ → List Call → Type 0
  IsPassed port h =
      (is_barred outside min limit used port ≡ true)
      ⊎ ((e : PortReason) × (t : List Call) × (e ≢ unavailable)
          × IsSuffix (inspect port ∷ t) h
          × (outside.inspect port (inspect port ∷ t) ≡ err e))

  -- The port before which every candidate was passed over.
  abbrev pub reached : ℕ → Ending → ℕ → ℕ
  reached top (found p) next = p
  reached top incomplete next = next
  reached top (inconclusive p) next = p
  reached top exhausted next = top

  -- What holds of a scan of the candidates from `bottom` up to, but not including, `top`, after the
  -- calls `h`.
  pub record IsScanned (bottom top : ℕ) (h : List Call) (r : Scanned) : Type 0 where
    pub taken :
        (p : ℕ)
        → r.ending ≡ found p
        → (bottom ≤ p)
          × (p < top)
          × (is_barred outside min limit used p ≡ false)
          × ((t : List Call) × (r.calls ≡ inspect p ∷ t)
              × (outside.inspect p (inspect p ∷ t) ≡ ok tt))
          × (r.next ≡ p + 1)
    pub passed : (q : ℕ) → bottom ≤ q → q < reached top r.ending r.next → IsPassed q r.calls
    pub paused :
        r.ending ≡ incomplete
        → (bottom ≤ r.next)
          × (r.next < top)
          × ((limit ≤ r.attempts)
              ⊎ ((t : List Call) × (r.calls ≡ elapsed ∷ t)
                  × (outside.is_late (elapsed ∷ t) ≡ true)))
    pub stopped :
        (p : ℕ)
        → r.ending ≡ inconclusive p
        → (t : List Call) × (r.calls ≡ inspect p ∷ t)
          × (outside.inspect p (inspect p ∷ t) ≡ err unavailable)
    pub bounded : r.attempts ≤ limit
    pub grows : IsSuffix h r.calls

  -- The three outcomes of a try.
  try_port-cases :
      (port : ℕ) (h : List Call)
      → (try_port outside min limit used port h ≡ (pass, h))
          × (is_barred outside min limit used port ≡ true)
        ⊎ (is_barred outside min limit used port ≡ false)
          × (try_port outside min limit used port h
              ≡ (verdict_of (outside.inspect port (inspect port ∷ h)), inspect port ∷ h))
  unfolding try_port
  try_port-cases port h = elim (Bool-cases (is_barred outside min limit used port)) [
    | inl barred ↦ inl (rw barred refl, barred)
    | inr free ↦ inr (free, rw free refl)
  ]

  pause-cases :
      (attempts : ℕ) (h : List Call)
      → ((pause outside min limit used attempts h ≡ (true, h)) × (limit ≤ attempts))
        ⊎ ((pause outside min limit used attempts h ≡ (outside.is_late (elapsed ∷ h), elapsed ∷ h))
            × (attempts < limit))
  unfolding pause
  pause-cases attempts h = elim (Bool-cases (leb limit attempts)) [
    | inl spent ↦ inl (rw spent refl, ground arith)
    | inr left ↦ inr (rw left refl, ground arith)
  ]

  weaken : (p : ℕ) (h h' : List Call) → IsPassed p h → IsSuffix h h' → IsPassed p h'
  weaken p h h' (inl barred) s = inl barred
  weaken p h h' (inr (e, t, u, i, x)) s = inr (e, t, u, later_all i s, x)

  -- A candidate is passed over, and the scan goes on after it.
  extend :
      (c top : ℕ) (h h' : List Call) (r : Scanned)
      → c < top
      → IsPassed c h'
      → IsSuffix h h'
      → IsScanned (c + 1) top h' r
      → IsScanned c top h r
  extend c top h h' r lt p s v = record {
    taken =
        λ q e. let (low, up, free, call, next) = v.taken q e in (omega arith, up, free, call, next);
    passed = λ q low up. elim (Bool-cases (leb q c)) [
      | inl small ↦ let same : c ≡ q = ground arith in rw (← same) (weaken c h' r.calls p v.grows)
      | inr large ↦ v.passed q (ground arith) up
    ];
    paused = λ e. let (low, up, why) = v.paused e in (omega arith, up, why);
    stopped = v.stopped;
    bounded = v.bounded;
    grows = later_all s v.grows;
  }

  not_unavailable : (e : PortReason) → verdict_of (err e) ≡ pass → e ≢ unavailable
  not_unavailable e j = ground arith

  verdict_of-take : (o : Result (Unit {0}) PortReason) → verdict_of o ≡ take → o ≡ ok tt
  verdict_of-take o j = ground arith

  verdict_of-stop : (o : Result (Unit {0}) PortReason) → verdict_of o ≡ stop → o ≡ err unavailable
  verdict_of-stop o j = ground arith

  not_pass :
      (p : ℕ) (h : List Call) (o : Result (Unit {0}) PortReason)
      → verdict_of o ≡ pass
      → outside.inspect p (inspect p ∷ h) ≡ o
      → IsPassed p (inspect p ∷ h)
  not_pass p h (ok a) j x = cc
  not_pass p h (err e) j x = inr (e, h, not_unavailable e j, whole, x)

  -- One round of the loop, given what holds of those after it.
  module _ (c attempts top : ℕ) (h : List Call) (after : List Call → Scanned)
      (rest : (h' : List Call) → attempts < limit → IsScanned (c + 1) top h' (after h'))
      (in_range : c < top) (le : attempts ≤ limit) where
    tried :
        (h' : List Call) (v : Verdict × List Call)
        → attempts < limit
        → IsSuffix h h'
        → ((v ≡ (pass, h')) × (is_barred outside min limit used c ≡ true)
            ⊎ (is_barred outside min limit used c ≡ false)
              × (v ≡ (verdict_of (outside.inspect c (inspect c ∷ h')), inspect c ∷ h')))
        → IsScanned c top h (settle outside min limit used c attempts after v)
    unfolding settle
    tried h' (pass, k) lt s (inl (x, barred)) =
        let same : h' ≡ k = cc in
        extend c top h k (after k) (omega arith) (inl barred) (rw (← same) s) (rest k lt)
    tried h' (take, k) lt s (inl (x, barred)) = cc
    tried h' (stop, k) lt s (inl (x, barred)) = cc
    tried h' (pass, k) lt s (inr (free, x)) =
        let same : inspect c ∷ h' ≡ k = cc in
        let passed : verdict_of (outside.inspect c (inspect c ∷ h')) ≡ pass = cc in
        rw (← same) (
          extend c top h (inspect c ∷ h') (after (inspect c ∷ h')) (omega arith)
            (not_pass c h' (outside.inspect c (inspect c ∷ h')) passed refl) (later s)
            (rest (inspect c ∷ h') lt))
    tried h' (take, k) lt s (inr (free, x)) =
        let same : inspect c ∷ h' ≡ k = cc in
        let granted : verdict_of (outside.inspect c (inspect c ∷ h')) ≡ take = cc in
        rw (← same) (record {
          taken = λ p y.
              let here : c ≡ p = cc in
              rw (← here)
                (omega arith, omega arith, free, (h', refl, verdict_of-take _ granted), refl);
          passed = λ q low up. absurd (omega arith);
          paused = λ y. cc;
          stopped = λ p y. cc;
          bounded = omega arith;
          grows = later s;
        })
    tried h' (stop, k) lt s (inr (free, x)) =
        let same : inspect c ∷ h' ≡ k = cc in
        let unclear : verdict_of (outside.inspect c (inspect c ∷ h')) ≡ stop = cc in
        rw (← same) (record {
          taken = λ p y. cc;
          passed = λ q low up. absurd (omega arith);
          paused = λ y. cc;
          stopped =
              λ p y. let here : c ≡ p = cc in rw (← here) (h', refl, verdict_of-stop _ unclear);
          bounded = omega arith;
          grows = later s;
        })

    proceed-IsScanned :
        (w : Bool × List Call)
        → (((w ≡ (true, h)) × (limit ≤ attempts))
            ⊎ ((w ≡ (outside.is_late (elapsed ∷ h), elapsed ∷ h)) × (attempts < limit)))
        → IsScanned c top h (proceed outside min limit used c attempts after w)
    unfolding proceed
    proceed-IsScanned (true, k) (inl (x, spent)) =
        let same : h ≡ k = cc in
        rw (← same) (record {
          taken = λ p y. cc;
          passed = λ q low up. absurd (omega arith);
          paused = λ y. (omega arith, omega arith, inl spent);
          stopped = λ p y. cc;
          bounded = le;
          grows = whole;
        })
    proceed-IsScanned (true, k) (inr (x, lt)) =
        let same : elapsed ∷ h ≡ k = cc in
        let late : outside.is_late (elapsed ∷ h) ≡ true = cc in
        rw (← same) (record {
          taken = λ p y. cc;
          passed = λ q low up. absurd (omega arith);
          paused = λ y. (omega arith, omega arith, inr (h, refl, late));
          stopped = λ p y. cc;
          bounded = le;
          grows = later whole;
        })
    proceed-IsScanned (false, k) (inl (x, spent)) = cc
    proceed-IsScanned (false, k) (inr (x, lt)) =
        let same : elapsed ∷ h ≡ k = cc in
        tried k (try_port outside min limit used c k) lt (rw (← same) (later whole))
          (try_port-cases c k)

  scan-IsScanned :
      (n c next attempts top : ℕ) (h : List Call)
      → c + n ≡ top
      → attempts ≤ limit
      → IsScanned c top h (scan outside min limit used n c next attempts h)
  unfolding scan
  scan-IsScanned zero c next attempts top h e le = record {
    taken = λ p x. cc;
    passed = λ q low up. absurd (omega arith);
    paused = λ x. cc;
    stopped = λ p x. cc;
    bounded = le;
    grows = whole;
  }
  scan-IsScanned (suc n) c next attempts top h e le =
      proceed-IsScanned c attempts top h
        (scan outside min limit used n (c + 1) (c + 1) (attempts + 1))
        (λ h' lt.
          scan-IsScanned n (c + 1) (c + 1) (attempts + 1) top h' (omega arith) (omega arith))
        (omega arith) le (pause outside min limit used attempts h) (pause-cases attempts h)

  -- A scan that starts within its budget of attempts keeps to it. It gives a port only within the
  -- slot's range, not used by another slot, and found free by the very last call, and then moves the
  -- cursor past it; it pauses only when the attempts are used up or the last call found the deadline
  -- passed; and it stops only at a check that could not be made. Whatever the ending, every candidate
  -- before the one that the scan came to was out of the slot's range, used, or refused by the
  -- inspector, so a scan that resumes at the cursor skips nothing.
  pub scan_from-IsScanned :
      (max candidate next attempts : ℕ) (h : List Call)
      → candidate ≤ max + 1
      → attempts ≤ limit
      → IsScanned candidate
          (max + 1)
          h
          (scan_from outside min limit used max candidate next attempts h)
  unfolding scan_from
  scan_from-IsScanned max candidate next attempts h within le =
      scan-IsScanned (max + 1 - candidate) candidate next attempts (max + 1) h (omega arith) le
