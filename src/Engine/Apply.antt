-- ===== src/Engine/Apply.antt =====
-- event_loop.go: `applyEvent` and `validTickAndLot`. A panic is `none`, a returned error is an inner
-- `none`.
use tradedrift.Base.{
  ℕ, ◌+◌, ◌%◌, List, [], Option, none, some, Bool, true, false, ltb, ◌==◌, ◌&&◌, if◌then◌else◌,
  ◌>>=◌,
}
use tradedrift.OrderBook.{
  OrderType, limit, market, OrderNode, OrderBook, CancelStatus, unset, invalid_request,
  removed_from_book, user_mismatch, CancelOutcome, CancelledOrder, Reason, user_requested,
  ioc_expired, invalid_order_parameters, invalid_market_id, market_blocked, market_reconciling,
  mismatched_user, KafkaPosition, Fill, next_sequence,
}
use tradedrift.Matcher.Ops.{Env, cancel, get_depth}
use tradedrift.Matcher.Loop.{match_order}
use tradedrift.Matcher.Loop
use tradedrift.Engine.State.{
  Mode, mode_live, mode_blocked, mode_reconciling, MarketConfig, OrderCreatedPayload,
  OrderCancelPayload, EventBody, order_created, order_cancel, recovery_barrier, unknown, InputEvent,
  MatchResult, MarketEngine,
}

abbrev pub position : InputEvent → KafkaPosition
position event = record { topic = event.topic; partition = event.partition; offset = event.offset }

-- `decimal.Mod` by a size that is positive, and no test for one that is zero.
abbrev pub aligned : ℕ → ℕ → Bool
aligned size x = if ltb 0 size then x % size == 0 else true

unfoldable pub valid_tick_and_lot : OrderNode → MarketConfig → Bool
valid_tick_and_lot node config =
    price_aligned node.order_type && aligned config.lot_size node.remaining_qty
  where
    price_aligned : OrderType → Bool
    price_aligned limit = aligned config.tick_size node.price
    price_aligned market = if ltb 0 node.price then aligned config.tick_size node.price else true

-- Five minutes, in the unit of times.
abbrev pub five_minutes : ℕ
five_minutes = 300000000000

abbrev pub node_timestamp : ℕ → ℕ → ℕ
node_timestamp now t = if t == 0 then now else if ltb (now + five_minutes) t then now else t

abbrev pub node_of : Env → OrderCreatedPayload → OrderNode
node_of env p = record {
  order_id = p.order_id;
  user_id = p.user_id;
  market_id = p.market_id;
  side = p.side;
  order_type = p.order_type;
  price = p.price;
  original_qty = p.quantity;
  remaining_qty = p.quantity;
  timestamp = node_timestamp env.now p.occurred_at;
  client_order_id = p.client_order_id;
}

-- The result of an event that leaves `book`, with the depth of twenty levels that goes with it.
unfoldable pub reply :
    Env
    → MarketEngine
    → OrderBook
    → InputEvent
    → List Fill
    → Option CancelledOrder
    → Option (MarketEngine × Option MatchResult)
reply env m book event fills cancelled = do
  depth ← get_depth env book 20
  some (
    record m { book = book },
    some (record {
      fills = fills;
      cancel_result = cancelled;
      depth_snapshot = depth;
      source_position = position event;
      snapshot = none;
      barrier_reached = false;
      barrier_offset = 0;
    }),
  )

abbrev pub cancelled_order :
    Env → InputEvent → ℕ → ℕ → ℕ → ℕ → Reason → CancelStatus → CancelledOrder
cancelled_order env event order_id user_id market_id qty reason status = record {
  order_id = order_id;
  user_id = user_id;
  market_id = market_id;
  remaining_quantity = qty;
  reason = reason;
  cancel_status = status;
  cancelled_at = env.now;
  source_offset = event.offset;
}

abbrev pub refusal : Env → MarketEngine → InputEvent → Reason → EventBody → CancelledOrder
refusal env m event reason (order_created p) =
    cancelled_order env event p.order_id p.user_id m.market_id p.quantity reason invalid_request
refusal env m event reason (order_cancel p) =
    cancelled_order env event p.order_id p.user_id m.market_id 0 reason invalid_request
refusal env m event reason recovery_barrier =
    cancelled_order env event 0 0 m.market_id 0 reason invalid_request
refusal env m event reason unknown =
    cancelled_order env event 0 0 m.market_id 0 reason invalid_request

-- In the blocked and the reconciling mode every command is rejected.
unfoldable pub reject :
    Env → MarketEngine → InputEvent → Reason → Option (MarketEngine × Option MatchResult)
unfolding reply
reject env m event reason =
    reply env m m.book event [] (some (refusal env m event reason event.body))

-- In recovery and in blocked modes the matcher emits nothing.
abbrev pub matcher_mode : Mode → Loop.Mode
matcher_mode mode_live = Loop.mode_live
matcher_mode _ = Loop.mode_recovery

-- What is left of a MARKET order has expired.
abbrev pub expired : Env → InputEvent → OrderNode → OrderType → Option CancelledOrder
expired env event node limit = none
expired env event node market =
    if ltb 0 node.remaining_qty
    then some (
        cancelled_order env event node.order_id node.user_id node.market_id node.remaining_qty
          ioc_expired unset)
    else none

unfoldable pub apply_created :
    Env
    → MarketEngine
    → InputEvent
    → OrderCreatedPayload
    → Option (MarketEngine × Option MatchResult)
unfolding reply valid_tick_and_lot
apply_created env m event p =
    let node = node_of env p in
    if p.market_id == m.market_id
    then elim (m.book.order_index node.order_id) [
      | some duplicate ↦ reply env m m.book event [] none
      | none ↦
          if valid_tick_and_lot node m.config
          then (match_order env m.book node (matcher_mode m.mode) event.event_id
              >>= λ (book, node', fills).
                  reply env m book event fills (expired env event node' node'.order_type))
          else reply env m m.book event [] (
              some (
                cancelled_order env event node.order_id node.user_id node.market_id
                  node.original_qty invalid_order_parameters unset))
    ]
    else reply env m m.book event [] (
        some (
          cancelled_order env event p.order_id p.user_id p.market_id p.quantity invalid_market_id
            invalid_request))

-- The branch on the outcome: only a removal takes a sequence number.
unfoldable pub after_cancel :
    Env
    → MarketEngine
    → InputEvent
    → OrderCancelPayload
    → OrderBook
    → CancelOutcome
    → CancelStatus
    → Option (MarketEngine × Option MatchResult)
unfolding reply
after_cancel env m event p book o removed_from_book =
    reply env m (record book { sequence = next_sequence book.sequence }) event []
      (some (
        cancelled_order env event o.order_id o.user_id o.market_id o.remaining_quantity
          user_requested removed_from_book))
after_cancel env m event p book o user_mismatch = reply env m book event [] (
    some (
      cancelled_order env event o.order_id o.user_id o.market_id o.remaining_quantity
        mismatched_user user_mismatch))
after_cancel env m event p book o status = reply env m book event [] (
    some (
      cancelled_order env event o.order_id p.user_id p.market_id o.remaining_quantity user_requested
        status))

unfoldable pub apply_cancel :
    Env
    → MarketEngine
    → InputEvent
    → OrderCancelPayload
    → Option (MarketEngine × Option MatchResult)
unfolding reply after_cancel
apply_cancel env m event p =
    if p.market_id == m.market_id
    then (cancel m.book p.order_id p.user_id >>= λ (book, o).
        after_cancel env m event p book o o.status)
    else reply env m m.book event [] (
        some (
          cancelled_order env event p.order_id p.user_id p.market_id 0 invalid_market_id
            invalid_request))

unfoldable pub apply_body :
    Env → MarketEngine → InputEvent → EventBody → Option (MarketEngine × Option MatchResult)
unfolding apply_created apply_cancel
apply_body env m event (order_created p) = apply_created env m event p
apply_body env m event (order_cancel p) = apply_cancel env m event p
apply_body env m event recovery_barrier = some (m, none)
apply_body env m event unknown = some (m, none)

unfoldable pub apply_in :
    Mode → Env → MarketEngine → InputEvent → Option (MarketEngine × Option MatchResult)
unfolding reject apply_body
apply_in mode_blocked env m event = reject env m event market_blocked
apply_in mode_reconciling env m event = reject env m event market_reconciling
apply_in _ env m event = apply_body env m event event.body

unfoldable pub apply_event :
    Env → MarketEngine → InputEvent → Option (MarketEngine × Option MatchResult)
unfolding apply_in
apply_event env m event = apply_in m.mode env m event
