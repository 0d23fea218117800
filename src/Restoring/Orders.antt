-- ===== src/Restoring/Orders.antt =====
-- One order of a snapshot: what `Serialize` wrote, `Restore` reads.
use mathlib.Core.Option.{some}
use tradedrift.Base.{
  ℕ, zero, suc, ◌+◌, ◌<◌, ◌≤◌, ◌≡◌, refl, ◌≢◌, sym, true, false, leb, ◌==◌, pos, positive, arith,
}
use tradedrift.OrderBook.{SideType, buy, sell, limit, OrderNode}
use tradedrift.Snapshot.Serialize.{Codec, snapshot_order, side_string}
use tradedrift.Snapshot.Restore.{Rules, restored, read_order, aligned, one_day, parse_side}

-- The texts read back as what they were printed from.
pub record Reads (c : Codec) : Type 0 where
  pub uuid : (k : ℕ) → c.uuid_parse (c.uuid_string k) ≡ some k
  pub decimal : (n : ℕ) → c.decimal_parse (c.decimal_string n) ≡ some (pos n)
  pub time : (t : ℕ) → c.time_parse (c.time_format t) ≡ some t

-- An order that passes the checks of `Restore` on it alone.
pub record IsStorable (rules : Rules) (n : OrderNode) : Type 0 where
  pub of_market : n.market_id ≡ rules.market_id
  pub is_limit : n.order_type ≡ limit
  pub remaining_positive : 0 < n.remaining_qty
  pub remaining_le : n.remaining_qty ≤ n.original_qty
  pub on_tick : aligned rules.tick_size n.price ≡ true
  pub original_on_lot : aligned rules.lot_size n.original_qty ≡ true
  pub remaining_on_lot : aligned rules.lot_size n.remaining_qty ≡ true
  pub price_positive : 0 < n.price
  pub has_time : n.timestamp ≢ 0
  pub not_future : n.timestamp ≤ rules.now + one_day

positive_pos : (n : ℕ) → 0 < n → positive (pos n) ≡ some n
positive_pos zero h = absurd (omega (arith, h))
positive_pos (suc n) h = refl

parse_side_string : (st : SideType) → parse_side (side_string st) ≡ some st
parse_side_string buy = refl
parse_side_string sell = refl

pub read_order-snapshot_order :
    (c : Codec) (rules : Rules) (n : OrderNode)
    → Reads c
    → IsStorable rules n
    → read_order c rules (snapshot_order c n) ≡ restored n
unfolding read_order snapshot_order
read_order-snapshot_order c rules n r s =
    let l = s.remaining_le in
    let p = s.remaining_positive in
    let le : leb n.remaining_qty n.original_qty ≡ true = ground arith in
    let late = s.not_future in
    let soon : leb n.timestamp (rules.now + one_day) ≡ true = ground arith in
    let t = s.has_time in
    let timed : (n.timestamp == 0) ≡ false = ground arith in
    rw
      (
        r.uuid n.order_id,
        r.uuid n.user_id,
        r.time n.timestamp,
        r.decimal n.price,
        r.decimal n.original_qty,
        r.decimal n.remaining_qty,
        parse_side_string n.side,
      )
      (rw s.is_limit (
        rw
          (
            positive_pos n.original_qty (omega (arith, l, p)),
            positive_pos n.remaining_qty p,
            le,
            s.on_tick,
            s.original_on_lot,
            s.remaining_on_lot,
            positive_pos n.price s.price_positive,
            timed,
            soon,
          )
          (rw (sym s.of_market) refl)))
