-- ===== src/Taker/Trips.antt =====
-- The circuit breaker opens after its number of failures in a row, and closes again.
use tradedrift.Base.{
  ℕ, ◌+◌, ◌-◌, ◌≤◌, ◌<◌, ◌≡◌, refl, true, false, Bool-cases, inl, inr, List, [], ◌∷◌, length, arith,
  Bool, not, leb, ltb, le→leb, lt→ltb, ap, sym, subst, if◌then◌else◌,
}
use tradedrift.Taker.Breaker.{
  BreakerState, circuit_closed, circuit_open, circuit_half_open, CircuitBreaker, allow, allow_in,
  reserve_probe, reserve_in, release_probe, release_in, record_success, record_failure, fail_in,
}

-- Failures in a row, at these times.
pub fail_all : List ℕ → CircuitBreaker → CircuitBreaker
fail_all [] b = b
fail_all (t ∷ ts) b = fail_all ts (record_failure t b)

-- A failure that reaches the maximum opens the breaker.
fail_opens :
    (s : BreakerState) (now : ℕ) (b : CircuitBreaker)
    → b.state ≡ s
    → b.max_failures ≤ b.failures + 1
    → (fail_in s now b).state ≡ circuit_open
unfolding fail_in
fail_opens circuit_half_open now b e h = refl
fail_opens circuit_open now b e h = e
fail_opens circuit_closed now b e h = rw (le→leb b.max_failures (b.failures + 1) h) refl

-- A failure is counted.
fail_counts :
    (s : BreakerState) (now : ℕ) (b : CircuitBreaker)
    → ((fail_in s now b).failures ≡ b.failures + 1)
      × ((fail_in s now b).max_failures ≡ b.max_failures)
unfolding fail_in
fail_counts circuit_half_open now b = (refl, refl)
fail_counts circuit_open now b = (refl, refl)
fail_counts circuit_closed now b = elim (Bool-cases (leb b.max_failures (b.failures + 1))) [
  | inl t ↦ rw t (refl, refl)
  | inr n ↦ rw n (refl, refl)
]

-- A non-empty run of failures, at any times and from any state, that brings the count of failures
-- to the maximum leaves the circuit breaker open.
pub failures_trip :
    (now : ℕ) (ts : List ℕ) (b : CircuitBreaker)
    → b.max_failures ≤ b.failures + length (now ∷ ts)
    → (fail_all (now ∷ ts) b).state ≡ circuit_open
unfolding fail_all record_failure
failures_trip now [] b h = fail_opens b.state now b refl (omega (arith, h))
failures_trip now (t ∷ ts) b h =
    let counted = fail_counts b.state now b in
    failures_trip t ts (fail_in b.state now b) (omega (arith, h, counted.0, counted.1))

-- What an order asks of the breaker.
pub data Request : Type 0 where
  allowing : (at : ℕ) → Request
  reserving : Request

abbrev pub answer : Request → CircuitBreaker → Bool × CircuitBreaker
answer (allowing at) b = allow at b
answer reserving b = reserve_probe b

-- Each request is refused and leaves the breaker as it is for the next.
abbrev pub AllRefused : List Request → CircuitBreaker → Type 0
AllRefused [] b = Unit
AllRefused (r ∷ rs) b =
    ((answer r b).0 ≡ false) × ((answer r b).1 ≡ b) × AllRefused rs (answer r b).1

refuse_allow :
    (s : BreakerState) (at : ℕ) (b : CircuitBreaker)
    → s ≡ circuit_half_open
    → b.probe_in_flight ≡ true
    → ((allow_in s at b).0 ≡ false) × ((allow_in s at b).1 ≡ b)
unfolding allow_in
refuse_allow circuit_half_open at b half flying = (ap not flying, refl)
refuse_allow circuit_closed at b half flying = cc
refuse_allow circuit_open at b half flying = cc

refuse_reserve :
    (s : BreakerState) (b : CircuitBreaker)
    → s ≡ circuit_half_open
    → b.probe_in_flight ≡ true
    → ((reserve_in s b).0 ≡ false) × ((reserve_in s b).1 ≡ b)
unfolding reserve_in
refuse_reserve circuit_half_open b half flying =
    subst
      (λ c.
        let out : Bool × CircuitBreaker =
          if c then (false, b) else (true, record b { probe_in_flight = true }) in
        (out.0 ≡ false) × (out.1 ≡ b))
      (sym flying) (refl, refl)
refuse_reserve circuit_closed b half flying = cc
refuse_reserve circuit_open b half flying = cc

waiting_refuses :
    (r : Request) (b : CircuitBreaker)
    → b.state ≡ circuit_half_open
    → b.probe_in_flight ≡ true
    → ((answer r b).0 ≡ false) × ((answer r b).1 ≡ b)
unfolding allow reserve_probe
waiting_refuses (allowing at) b half flying = refuse_allow b.state at b half flying
waiting_refuses reserving b half flying = refuse_reserve b.state b half flying

waiting-AllRefused :
    (rs : List Request) (b : CircuitBreaker)
    → b.state ≡ circuit_half_open
    → b.probe_in_flight ≡ true
    → AllRefused rs b
waiting-AllRefused [] b half flying = tt
waiting-AllRefused (r ∷ rs) b half flying =
    let (refused, same) = waiting_refuses r b half flying in
    (refused, same, subst (AllRefused rs) (sym same) (waiting-AllRefused rs b half flying))

abbrev yes_or_no : Bool → CircuitBreaker → CircuitBreaker → Bool × CircuitBreaker
yes_or_no c x y = if c then (true, x) else (false, y)

answered : (c : Bool) (x y : CircuitBreaker) → (yes_or_no c x y).0 ≡ c
answered true x y = refl
answered false x y = refl

-- Once the cooldown of an open breaker has passed, it allows an order and lets one probe be
-- reserved; while that is in flight it refuses every sequence of requests to allow an order, at
-- any times, or to reserve a probe, and does not change; a probe that is released can be reserved
-- again; the probe's success lets it allow orders at any time, with no failure counted, and its
-- failure lets it allow one exactly when the cooldown has passed since.
pub breaker_recovers :
    (now : ℕ) (b : CircuitBreaker) (rs : List Request) (at later : ℕ)
    → b.state ≡ circuit_open
    → b.cooldown < now - b.tripped_at
    → let (allowed, probing) = allow now b in
      let (reserved, waiting) = reserve_probe probing in
      (allowed ≡ true)
      × (reserved ≡ true)
      × AllRefused rs waiting
      × ((reserve_probe (release_probe waiting)).0 ≡ true)
      × ((allow later (record_success waiting)).0 ≡ true)
      × ((record_success waiting).failures ≡ 0)
      × ((allow later (record_failure at waiting)).0 ≡ ltb b.cooldown (later - at))
unfolding allow_in reserve_probe reserve_in release_probe release_in record_success record_failure
    fail_in allow
breaker_recovers now b rs at later e h =
    rw (e, lt→ltb b.cooldown (now - b.tripped_at) h)
      (refl, refl, waiting-AllRefused rs _ refl refl, refl, refl, refl, answered _ _ _)
