-- ===== src/Taker/Safety.antt =====
-- safety.go. Decimals that are not negative are naturals in one small unit; `Arithmetic` has the
-- products and quotients of the decimal library in that unit.
use tradedrift.Base.{
  ℕ, ◌+◌, ◌-◌, Option, none, some, Bool, not, ◌&&◌, List, [], ◌∷◌, ltb, leb, if◌then◌else◌,
}
use tradedrift.Base.Outcomes.{Outcome, failed, ◌>>=◌, ◌>>◌, check, require}
use tradedrift.Taker.Breaker.{CircuitBreaker, allow, record_success}

pub record Arithmetic : Type 0 where
  pub times : ℕ → ℕ → ℕ
  pub over : ℕ → ℕ → ℕ
  pub one : ℕ

pub data TakerSide : Type 0 where
  take_buy take_sell : TakerSide

pub record Level : Type 0 where
  pub price : ℕ
  pub quantity : ℕ

pub record BookDepth : Type 0 where
  pub bids : List Level
  pub asks : List Level

pub record SafetyManager : Type 0 where
  pub circuit_breaker : CircuitBreaker
  pub max_hourly_notional : ℕ
  pub max_daily_notional : ℕ
  pub max_trades_per_hour : ℕ
  pub max_spread_percent : ℕ
  pub max_depth_consumption : ℕ
  pub hourly_notional : ℕ
  pub daily_notional : ℕ
  pub hourly_trades : ℕ
  pub hour_window_start : ℕ
  pub day_window_start : ℕ

pub data SafetyError : Type 0 where
  circuit_breaker_tripped hourly_volume_exceeded daily_volume_exceeded : SafetyError
  trades_per_hour_exceeded spread_too_wide cumulative_depth_ratio : SafetyError
  incomplete_book crossed_book : SafetyError

abbrev pub an_hour : ℕ
an_hour = 3600000000000

abbrev pub a_day : ℕ
a_day = 86400000000000

unfoldable pub refresh_hour : ℕ → SafetyManager → SafetyManager
refresh_hour now m =
    if leb an_hour (now - m.hour_window_start)
    then record m { hourly_notional = 0; hourly_trades = 0; hour_window_start = now }
    else m

unfoldable pub refresh_day : ℕ → SafetyManager → SafetyManager
refresh_day now m =
    if leb a_day (now - m.day_window_start)
    then record m { daily_notional = 0; day_window_start = now }
    else m

-- The first price of a side that is better than `floor`, or else `floor`.
abbrev pub best_above : List Level → ℕ → ℕ
best_above [] floor = floor
best_above (l ∷ ls) floor = if ltb floor l.price then l.price else floor

abbrev pub fallback_price : TakerSide → BookDepth → ℕ → ℕ
fallback_price take_buy depth price_cap = price_cap
fallback_price take_sell depth price_cap = best_above depth.bids price_cap

unfoldable pub eval_price : TakerSide → BookDepth → ℕ → ℕ → ℕ
eval_price side depth price_cap conservative =
    if ltb 0 conservative then conservative else fallback_price side depth price_cap

abbrev pub first_level : List Level → Option Level
first_level [] = none
first_level (l ∷ ls) = some l

-- The quantity of the levels that the price cap reaches.
unfoldable pub reachable_depth : (ℕ → Bool) → List Level → ℕ
reachable_depth reached [] = 0
reachable_depth reached (l ∷ ls) =
    (if reached l.price then l.quantity else 0) + reachable_depth reached ls

unfoldable pub depth_of_side : TakerSide → BookDepth → ℕ → ℕ
depth_of_side take_buy depth price_cap = reachable_depth (λ price. leb price price_cap) depth.asks
depth_of_side take_sell depth price_cap = reachable_depth (λ price. leb price_cap price) depth.bids

unfoldable pub check_volume :
    Arithmetic → TakerSide → BookDepth → ℕ → ℕ → ℕ → SafetyManager → Outcome SafetyError (Unit {0})
check_volume a side depth target price_cap conservative m = do
  check (ltb m.hourly_trades m.max_trades_per_hour) trades_per_hour_exceeded
  let notional = a.times target (eval_price side depth price_cap conservative)
  check (leb (m.hourly_notional + notional) m.max_hourly_notional) hourly_volume_exceeded
  check (leb (m.daily_notional + notional) m.max_daily_notional) daily_volume_exceeded

unfoldable pub check_book :
    Arithmetic → TakerSide → BookDepth → ℕ → ℕ → SafetyManager → Outcome SafetyError (Unit {0})
check_book a side depth target price_cap m = do
  bid ← require (first_level depth.bids) incomplete_book
  ask ← require (first_level depth.asks) incomplete_book
  check (ltb bid.price ask.price) crossed_book
  let mid = a.over (bid.price + ask.price) (a.one + a.one)
  check (not (ltb 0 mid && ltb m.max_spread_percent (a.over (ask.price - bid.price) mid)))
      spread_too_wide
  check (leb target (a.times (depth_of_side side depth price_cap) m.max_depth_consumption))
      cumulative_depth_ratio

-- The windows and the breaker change also when the order is refused, so they come with the answer.
unfoldable pub validate_pre_order :
    Arithmetic
    → ℕ
    → TakerSide
    → BookDepth
    → ℕ
    → ℕ
    → ℕ
    → SafetyManager
    → Outcome SafetyError (Unit {0}) × SafetyManager
validate_pre_order a now side depth target price_cap conservative m =
    let (allowed, breaker) = allow now m.circuit_breaker in
    let probed : SafetyManager = record m { circuit_breaker = breaker } in
    let fresh = refresh_day now (refresh_hour now probed) in
    if allowed
    then (
      check_volume a side depth target price_cap conservative fresh
          >> check_book a side depth target price_cap fresh,
      fresh,
    )
    else (failed circuit_breaker_tripped, probed)

unfoldable pub record_order_execution : ℕ → SafetyManager → SafetyManager
record_order_execution notional m = record m {
  hourly_notional = m.hourly_notional + notional;
  daily_notional = m.daily_notional + notional;
  hourly_trades = m.hourly_trades + 1;
  circuit_breaker = record_success m.circuit_breaker;
}

unfoldable pub record_order_resolved : Arithmetic → ℕ → ℕ → SafetyManager → SafetyManager
record_order_resolved a filled conservative m =
    if ltb 0 filled
    then record_order_execution (a.times filled conservative) m
    else record m { circuit_breaker = record_success m.circuit_breaker }
