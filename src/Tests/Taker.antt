-- ===== src/Tests/Taker.antt =====
-- The controlled taker at a small book.
use tradedrift.Base.{◌*◌, ◌/◌, ◌-◌, ltb, List, ◌≡◌, refl, true, false, [], ◌∷◌, arith}
use tradedrift.Base.Outcomes.{ok, ◌>>=◌, ◌>>◌, check, require}
use tradedrift.Taker.Breaker.{
  circuit_open, CircuitBreaker, new_circuit_breaker, allow, allow_in, reserve_probe, release_probe,
  record_success, record_failure,
}
use tradedrift.Taker.Safety.{
  Arithmetic, take_buy, BookDepth, SafetyManager, refresh_hour, refresh_day, eval_price,
  check_volume, check_book, depth_of_side, reachable_depth, validate_pre_order,
  record_order_resolved,
}
use tradedrift.Taker.Trips.{
  fail_all, failures_trip, Request, allowing, reserving, AllRefused, breaker_recovers,
}
use tradedrift.Taker.Limits.{Within, IsMonotone, limits_hold}
use native.Mathlib.Nat.{mul-le-mul}

three : CircuitBreaker
three = new_circuit_breaker 3 10

failures_trip_example : (fail_all (1 ∷ 2 ∷ 4 ∷ []) three).state ≡ circuit_open
unfolding three new_circuit_breaker
failures_trip_example = failures_trip 1 (2 ∷ 4 ∷ []) three (omega arith)

abbrev opened : CircuitBreaker
opened = record {
  failures = 3;
  max_failures = 3;
  state = circuit_open;
  tripped_at = 4;
  cooldown = 10;
  probe_in_flight = false;
}

abbrev requests : List Request
requests = allowing 21 ∷ reserving ∷ allowing 900 ∷ []

breaker_recovers_example :
    let (allowed, probing) = allow 20 opened in
    let (reserved, waiting) = reserve_probe probing in
    (allowed ≡ true)
    × (reserved ≡ true)
    × AllRefused requests waiting
    × ((reserve_probe (release_probe waiting)).0 ≡ true)
    × ((allow 40 (record_success waiting)).0 ≡ true)
    × ((record_success waiting).failures ≡ 0)
    × ((allow 40 (record_failure 25 waiting)).0 ≡ ltb 10 (40 - 25))
breaker_recovers_example = breaker_recovers 20 opened requests 25 40 refl (omega arith)

-- A unit of 1.
abbrev plain : Arithmetic
plain = record { times = λ x y. x * y; over = λ x y. x / y; one = 1 }

plain-IsMonotone : IsMonotone plain
plain-IsMonotone x x' y y' h k = mul-le-mul h k

abbrev depth : BookDepth
depth = record {
  bids = record { price = 99; quantity = 5 } ∷ [];
  asks = record { price = 101; quantity = 5 } ∷ [];
}

manager : SafetyManager
manager = record {
  circuit_breaker = three;
  max_hourly_notional = 1000;
  max_daily_notional = 1000;
  max_trades_per_hour = 5;
  max_spread_percent = 1;
  max_depth_consumption = 1;
  hourly_notional = 400;
  daily_notional = 400;
  hourly_trades = 2;
  hour_window_start = 0;
  day_window_start = 0;
}

manager-Within : Within manager
unfolding manager
manager-Within = record { hourly = omega arith; daily = omega arith; trades = omega arith }

passes : (validate_pre_order plain 7 take_buy depth 4 101 101 manager).0 ≡ ok tt
unfolding validate_pre_order manager three new_circuit_breaker allow allow_in refresh_hour
    refresh_day eval_price check_volume check_book depth_of_side reachable_depth check require ◌>>=◌
    ◌>>◌
passes = refl

limits_hold_example : Within (
    record_order_resolved plain 3 101
      (validate_pre_order plain 7 take_buy depth 4 101 101 manager).1)
limits_hold_example =
    limits_hold plain 7 take_buy depth 4 101 101 3 manager plain-IsMonotone manager-Within
      (omega arith) passes
