-- ===== src/Matching/Theorems.antt =====
-- What `Match` guarantees on every well-formed book that does not hold the incoming order's id. Each
-- theorem says that the call returns; the results are those of the pass over the opposite queue.
use tradedrift.Base.{
  ℕ, ◌+◌, ◌<◌, ◌≡◌, inl, inr, List, [], ◌∷◌, none, some, Bool, if◌then◌else◌, arith, Bool-cases,
}
use tradedrift.OrderBook.{OrderNode, OrderBook, Fill, next_sequence}
use tradedrift.Matcher.Search.{is_worse}
use tradedrift.Matcher.Ops.{Env, get_side, opposite}
use tradedrift.Matcher.Loop.{mode_live, match_order}
use tradedrift.Matching.Orders.{enqueue, total_remaining}
use tradedrift.Matching.Levels.{is_buy}
use tradedrift.Matching.Book.{IsBook, IsBook-at}
use tradedrift.Matching.Loop.{queue-All}
use tradedrift.Matching.Match.{opposite_queue, own_queue, swept, rests, match_order-Matched}
use tradedrift.Matching.Fills.{
  total_filled, Against, Numbered, advance, sweep_conserves, sweep-Against, sweep-Numbered,
}
use tradedrift.Matching.Uncrossed.{queue-InOrder}
use tradedrift.Matching.Priority.{NoneBetter, Rested, sweep-NoneBetter, enqueued-Rested}

-- A live `Match` that returned.
abbrev pub Returns : Env → OrderBook → OrderNode → ℕ → OrderBook → OrderNode → List Fill → Type 0
Returns env b incoming event_id b' taker fills =
    match_order env b incoming mode_live event_id ≡ some (b', taker, fills)

pub total-enqueue :
    (d : Bool) (node : OrderNode) (q : List OrderNode)
    → total_remaining (enqueue d node q) ≡ total_remaining q + node.remaining_qty
total-enqueue d node [] = omega arith
total-enqueue d node (n ∷ q) = elim (Bool-cases (is_worse d n.price node.price)) [
  | inl e ↦ rw e (omega arith)
  | inr e ↦ let ih = total-enqueue d node q in rw e (omega arith)
]

-- The quantity that the book gained on the own side.
abbrev pub rested_qty : OrderNode → ℕ
rested_qty taker = if rests taker then taker.remaining_qty else 0

module _ (env : Env) (b : OrderBook) (incoming : OrderNode) (event_id : ℕ) (h : IsBook b)
    (new : b.order_index incoming.order_id ≡ none) where
  -- On a well-formed book that does not hold the incoming order's id a live Match returns, and the
  -- filled quantity is exactly what the taker lost and what the opposite side lost; the own side
  -- gains exactly the resting remainder.
  pub match_conserves :
      (b' : OrderBook) × (taker : OrderNode) × (fills : List Fill) × Returns env b incoming event_id
        b' taker fills
      × (total_filled fills + taker.remaining_qty ≡ incoming.remaining_qty)
      × (total_filled fills + total_remaining (opposite_queue b' incoming)
          ≡ total_remaining (opposite_queue b incoming))
      × (total_remaining (own_queue b' incoming)
          ≡ total_remaining (own_queue b incoming) + rested_qty taker)
  match_conserves =
      let m = match_order-Matched env b incoming event_id h new in
      let r = swept env event_id b incoming in
      let c =
        sweep_conserves env event_id b.market_id (opposite_queue b incoming) incoming 0
          b.sequence in
      (
        m.book,
        r.taker,
        r.fills,
        m.returns mode_live,
        c.0,
        rw m.opposite_left c.1,
        rw m.own_left (elim (Bool-cases (rests r.taker)) [
          | inl go ↦ rw go (total-enqueue (is_buy incoming.side) r.taker (own_queue b incoming))
          | inr stop ↦ rw stop (omega arith)
        ]),
      )

  -- On a well-formed book that does not hold the incoming order's id a live Match returns; its
  -- fills go against the opposite queue from its front, one order after the other, at the makers'
  -- prices, none beyond the taker's limit, with buyer and seller the right way round; each uses up
  -- its maker, but the last may leave some of it if nothing of the taker is left; no order that is
  -- left on the opposite side has a better price than a fill; a remainder that rests stands in the
  -- own queue behind all orders of its price or a better one and before the worse ones, which keep
  -- their places, and if none rests that queue is the same.
  pub match_price_time_priority :
      (b' : OrderBook) × (taker : OrderNode) × (fills : List Fill) × Returns env b incoming event_id
        b' taker fills
      × Against incoming taker.remaining_qty fills (opposite_queue b incoming)
      × NoneBetter (is_buy (opposite incoming.side)) fills (opposite_queue b' incoming)
      × Rested
          (rests taker)
          (is_buy incoming.side)
          taker
          (own_queue b incoming)
          (own_queue b' incoming)
  match_price_time_priority =
      let m = match_order-Matched env b incoming event_id h new in
      let r = swept env event_id b incoming in
      let other = (IsBook-at (opposite incoming.side) b h).own_ok in
      let own = (IsBook-at incoming.side b h).own_ok in
      (
        m.book,
        r.taker,
        r.fills,
        m.returns mode_live,
        sweep-Against env event_id b.market_id (opposite_queue b incoming) incoming 0 b.sequence (
            queue-All (opposite incoming.side) (get_side b (opposite incoming.side))
              (λ n. 0 < n.remaining_qty) other (λ n q. q.positive)),
        rw m.opposite_left (
            sweep-NoneBetter env event_id b.market_id (is_buy (opposite incoming.side))
              (opposite_queue b incoming) incoming 0 b.sequence
              (queue-InOrder (opposite incoming.side) (get_side b (opposite incoming.side)) other)),
        rw m.own_left (
            enqueued-Rested (rests r.taker) (is_buy incoming.side) r.taker (own_queue b incoming)
              (queue-InOrder incoming.side (get_side b incoming.side) own)),
      )

  -- On a well-formed book that does not hold the incoming order's id a live Match returns, and its
  -- fills are numbered one after the other from the book's sequence (modulo 2^64), and the
  -- insertion of a remainder takes one number more.
  pub match_sequence :
      (b' : OrderBook) × (taker : OrderNode) × (fills : List Fill) × Returns env b incoming event_id
        b' taker fills
      × Numbered b.sequence fills
      × (b'.sequence ≡ (
          if rests taker
          then next_sequence (advance b.sequence fills)
          else advance b.sequence fills))
  match_sequence =
      let m = match_order-Matched env b incoming event_id h new in
      let r = swept env event_id b incoming in
      let (numbered, last) =
        sweep-Numbered env event_id b.market_id (opposite_queue b incoming) incoming 0 b.sequence in
      (m.book, r.taker, r.fills, m.returns mode_live, numbered, rw (← last) m.sequenced)
