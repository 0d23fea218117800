-- ===== src/Taker/Limits.antt =====
-- The volumes and the number of trades stay within their limits.
use tradedrift.Base.{
  ℕ, ◌+◌, ◌-◌, ◌≤◌, ◌<◌, ◌≡◌, Bool, true, false, Bool-cases, inl, inr, arith, leb, leb→le, ltb,
  ltb→lt, if◌then◌else◌,
}
use tradedrift.Base.Outcomes.{Outcome, ok}
use tradedrift.Base.Post.{both_pass, check-true}
use tradedrift.Taker.Breaker.{allow}
use tradedrift.Taker.Safety.{
  Arithmetic, TakerSide, BookDepth, SafetyManager, refresh_hour, refresh_day, eval_price,
  check_volume, validate_pre_order, record_order_execution, record_order_resolved, SafetyError,
}

pub record Within (m : SafetyManager) : Type 0 where
  pub hourly : m.hourly_notional ≤ m.max_hourly_notional
  pub daily : m.daily_notional ≤ m.max_daily_notional
  pub trades : m.hourly_trades ≤ m.max_trades_per_hour

-- A larger quantity at a larger price has no smaller product.
abbrev pub IsMonotone : Arithmetic → Type 0
IsMonotone a = (x x' y y' : ℕ) → x ≤ x' → y ≤ y' → a.times x y ≤ a.times x' y'

refresh_hour-Within : (now : ℕ) (m : SafetyManager) → Within m → Within (refresh_hour now m)
unfolding refresh_hour
refresh_hour-Within now m w = elim (Bool-cases (leb 3600000000000 (now - m.hour_window_start))) [
  | inl t ↦ rw t (record { hourly = omega arith; daily = w.daily; trades = omega arith })
  | inr n ↦ rw n w
]

refresh_day-Within : (now : ℕ) (m : SafetyManager) → Within m → Within (refresh_day now m)
unfolding refresh_day
refresh_day-Within now m w = elim (Bool-cases (leb 86400000000000 (now - m.day_window_start))) [
  | inl t ↦ rw t (record { hourly = w.hourly; daily = omega arith; trades = w.trades })
  | inr n ↦ rw n w
]

not_above : (n : ℕ) → ltb 0 n ≡ false → n ≡ 0
not_above n h = ground arith

conservative_counts :
    (side : TakerSide) (depth : BookDepth) (cap conservative : ℕ)
    → conservative ≤ eval_price side depth cap conservative
unfolding eval_price
conservative_counts side depth cap conservative = elim (Bool-cases (ltb 0 conservative)) [
  | inl t ↦ rw t (omega arith)
  | inr n ↦ rw n (omega (arith, not_above conservative n))
]

record_order_execution-Within :
    (n : ℕ) (m : SafetyManager)
    → m.hourly_notional + n ≤ m.max_hourly_notional
    → m.daily_notional + n ≤ m.max_daily_notional
    → m.hourly_trades < m.max_trades_per_hour
    → Within (record_order_execution n m)
unfolding record_order_execution
record_order_execution-Within n m hourly daily trades = record {
  hourly = hourly;
  daily = daily;
  trades = omega (arith, trades);
}

-- An order that passed the checks of the volume can be recorded, with any part of it filled.
resolved-Within :
    (a : Arithmetic) (side : TakerSide) (depth : BookDepth) (target cap conservative filled : ℕ)
    (m : SafetyManager)
    → IsMonotone a
    → filled ≤ target
    → Within m
    → check_volume a side depth target cap conservative m ≡ ok tt
    → Within (record_order_resolved a filled conservative m)
unfolding check_volume record_order_resolved
resolved-Within a side depth target cap conservative filled m monotone part w passed =
    let (trades, rest) = both_pass _ _ passed in
    let (hourly, daily) = both_pass _ _ rest in
    let small =
      monotone filled target conservative (eval_price side depth cap conservative) part
        (conservative_counts side depth cap conservative) in
    elim (Bool-cases (ltb 0 filled)) [
      | inl t ↦ rw t (
          record_order_execution-Within (a.times filled conservative) m
            (omega (arith, small, leb→le _ m.max_hourly_notional (check-true _ _ hourly)))
            (omega (arith, small, leb→le _ m.max_daily_notional (check-true _ _ daily)))
            (ltb→lt m.hourly_trades m.max_trades_per_hour (check-true _ _ trades)))
      | inr n ↦ rw n (record { hourly = w.hourly; daily = w.daily; trades = w.trades })
    ]

abbrev Answer : Type 0
Answer = Outcome SafetyError (Unit {0}) × SafetyManager

-- What holds of both answers, if they are `ok`, holds of the one that the breaker chooses.
chosen :
    (Q : SafetyManager → Type 0) (allowed : Bool) (x y : Answer)
    → (x.0 ≡ ok tt → Q x.1)
    → (y.0 ≡ ok tt → Q y.1)
    → let r : Answer = if allowed then x else y in r.0 ≡ ok tt → Q r.1
chosen Q true x y f g h = f h
chosen Q false x y f g h = g h

-- If the product of decimals is monotone, an order that ValidatePreOrder accepts on a manager
-- whose hourly volume, daily volume and number of trades are within their limits, and of which no
-- more than the target is filled, leaves all three within the limits when it is recorded at its
-- conservative price.
pub limits_hold :
    (a : Arithmetic) (now : ℕ) (side : TakerSide) (depth : BookDepth)
    (target cap conservative filled : ℕ) (m : SafetyManager)
    → IsMonotone a
    → Within m
    → filled ≤ target
    → (validate_pre_order a now side depth target cap conservative m).0 ≡ ok tt
    → Within (
        record_order_resolved a filled conservative
          (validate_pre_order a now side depth target cap conservative m).1)
unfolding validate_pre_order
limits_hold a now side depth target cap conservative filled m monotone w part passed =
    let probed : SafetyManager = record m { circuit_breaker = (allow now m.circuit_breaker).1 } in
    let still : Within probed = record { hourly = w.hourly; daily = w.daily; trades = w.trades } in
    let fresh = refresh_day now (refresh_hour now probed) in
    let kept =
      refresh_day-Within now (refresh_hour now probed) (refresh_hour-Within now probed still) in
    chosen (λ v. Within (record_order_resolved a filled conservative v))
      (allow now m.circuit_breaker).0 _ _
      (λ volume_ok.
        resolved-Within a side depth target cap conservative filled fresh monotone part kept
          (both_pass _ _ volume_ok).0)
      (λ refused. cc) passed
