-- ===== src/Taker/Breaker.antt =====
-- circuit_breaker.go. Times are numbers of nanoseconds and `now` is the clock; the mutex makes each
-- method one step.
use tradedrift.Base.{ℕ, ◌+◌, ◌-◌, Bool, true, false, not, ltb, leb, if◌then◌else◌}

pub data BreakerState : Type 0 where
  circuit_closed circuit_open circuit_half_open : BreakerState

pub record CircuitBreaker : Type 0 where
  pub failures : ℕ
  pub max_failures : ℕ
  pub state : BreakerState
  pub tripped_at : ℕ
  pub cooldown : ℕ
  pub probe_in_flight : Bool

unfoldable pub new_circuit_breaker : ℕ → ℕ → CircuitBreaker
new_circuit_breaker max_failures cooldown = record {
  failures = 0;
  max_failures = max_failures;
  state = circuit_closed;
  tripped_at = 0;
  cooldown = cooldown;
  probe_in_flight = false;
}

abbrev pub is_circuit_open : BreakerState → Bool
is_circuit_open circuit_open = true
is_circuit_open _ = false

unfoldable pub allow_in : BreakerState → ℕ → CircuitBreaker → Bool × CircuitBreaker
allow_in circuit_closed now b = (true, b)
allow_in circuit_open now b =
    if ltb b.cooldown (now - b.tripped_at)
    then (true, record b { state = circuit_half_open; probe_in_flight = false })
    else (false, b)
allow_in circuit_half_open now b = (not b.probe_in_flight, b)

unfoldable pub allow : ℕ → CircuitBreaker → Bool × CircuitBreaker
allow now b = allow_in b.state now b

unfoldable pub reserve_in : BreakerState → CircuitBreaker → Bool × CircuitBreaker
reserve_in circuit_closed b = (true, b)
reserve_in circuit_half_open b =
    if b.probe_in_flight then (false, b) else (true, record b { probe_in_flight = true })
reserve_in circuit_open b = (false, b)

unfoldable pub reserve_probe : CircuitBreaker → Bool × CircuitBreaker
reserve_probe b = reserve_in b.state b

unfoldable pub release_in : BreakerState → CircuitBreaker → CircuitBreaker
release_in circuit_half_open b = record b { probe_in_flight = false }
release_in _ b = b

unfoldable pub release_probe : CircuitBreaker → CircuitBreaker
release_probe b = release_in b.state b

unfoldable pub record_success : CircuitBreaker → CircuitBreaker
record_success b = record b { failures = 0; state = circuit_closed; probe_in_flight = false }

-- `trip` at the time `now`, with one failure more.
abbrev pub trip : ℕ → CircuitBreaker → CircuitBreaker
trip now b = record b {
  failures = b.failures + 1;
  state = circuit_open;
  tripped_at = now;
  probe_in_flight = false;
}

unfoldable pub fail_in : BreakerState → ℕ → CircuitBreaker → CircuitBreaker
fail_in circuit_half_open now b = trip now b
fail_in circuit_closed now b =
    if leb b.max_failures (b.failures + 1)
    then trip now b
    else record b { failures = b.failures + 1 }
fail_in circuit_open now b = record b { failures = b.failures + 1 }

unfoldable pub record_failure : ℕ → CircuitBreaker → CircuitBreaker
record_failure now b = fail_in b.state now b
