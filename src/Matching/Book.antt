-- ===== src/Matching/Book.antt =====
-- A well-formed book: two queues without a common id, and an index of exactly their orders. Each
-- operation of the book keeps it well formed, never panics, and does to the queues what it should.
use tradedrift.Base.{ℕ, ◌<◌, ◌≡◌, refl, ap, ◌∙◌, ◌⊎◌, List, Option, none, some, arith, update}
use tradedrift.OrderBook.{SideType, buy, sell, OrderNode, Side, OrderBook}
use tradedrift.Matcher.Ops.{
  get_side, set_side, opposite, place, insert, take_out, full_fill, partial_fill, remove_order,
  replace_order,
}
use tradedrift.Matching.Orders.{
  find, find-remove, remove-IsDistinct, IsDistinct, or_else, enqueue, find-enqueue,
  enqueue-IsDistinct,
}
use tradedrift.Matching.Levels.{IsResting, IsSide, is_buy, queue}
use tradedrift.Matching.Place.{place_lem}
use tradedrift.Matching.TakeOut.{take_out_lem}
use tradedrift.Matching.Reduce.{reduce, reduce_lem, find-replace, replace-IsDistinct}

-- The well-formedness of a book as one of its sides sees it.
pub record IsBookAt (st : SideType) (b : OrderBook) (own other : Side) : Type 0 where
  pub own_ok : IsSide st own
  pub other_ok : IsSide (opposite st) other
  pub own_distinct : IsDistinct (queue own)
  pub other_distinct : IsDistinct (queue other)
  pub apart : (k : ℕ) → (find k (queue own) ≡ none) ⊎ (find k (queue other) ≡ none)
  pub indexed : (k : ℕ) → b.order_index k ≡ or_else (find k (queue own)) (find k (queue other))

abbrev pub IsBook : OrderBook → Type 0
IsBook b = IsBookAt buy b b.bids b.asks

or_else_swap : (x y : Option OrderNode) → (x ≡ none) ⊎ (y ≡ none) → or_else x y ≡ or_else y x
or_else_swap x y h = ground arith

pub IsBook-at :
    (st : SideType) (b : OrderBook)
    → IsBook b
    → IsBookAt st b (get_side b st) (get_side b (opposite st))
unfolding get_side
IsBook-at buy b h = h
IsBook-at sell b h = record {
  own_ok = h.other_ok;
  other_ok = h.own_ok;
  own_distinct = h.other_distinct;
  other_distinct = h.own_distinct;
  apart = λ k. ground (arith, h.apart k);
  indexed =
      λ k. h.indexed k ∙ or_else_swap (find k (queue b.bids)) (find k (queue b.asks)) (h.apart k);
}

-- A book after a write to one side and to the index.
abbrev pub write : OrderBook → SideType → Side → (ℕ → Option OrderNode) → OrderBook
write b st s idx = record (set_side b st s) { order_index = idx }

pub IsBook-write :
    (st : SideType) (b : OrderBook) (s : Side) (idx : ℕ → Option OrderNode)
    → IsBookAt st (record b { order_index = idx }) s (get_side b (opposite st))
    → IsBook (write b st s idx)
unfolding get_side set_side
IsBook-write buy b s idx h = record {
  own_ok = h.own_ok;
  other_ok = h.other_ok;
  own_distinct = h.own_distinct;
  other_distinct = h.other_distinct;
  apart = h.apart;
  indexed = h.indexed;
}
IsBook-write sell b s idx h = record {
  own_ok = h.other_ok;
  other_ok = h.own_ok;
  own_distinct = h.other_distinct;
  other_distinct = h.own_distinct;
  apart = λ k. ground (arith, h.apart k);
  indexed = λ k. h.indexed k ∙ or_else_swap (find k (queue s)) (find k (queue b.bids)) (h.apart k);
}

pub get-write :
    (st : SideType) (b : OrderBook) (s : Side) (idx : ℕ → Option OrderNode)
    → get_side (write b st s idx) st ≡ s
unfolding get_side set_side
get-write buy b s idx = refl
get-write sell b s idx = refl

pub get-write-opposite :
    (st : SideType) (b : OrderBook) (s : Side) (idx : ℕ → Option OrderNode)
    → get_side (write b st s idx) (opposite st) ≡ get_side b (opposite st)
unfolding get_side set_side
get-write-opposite buy b s idx = refl
get-write-opposite sell b s idx = refl

pub write_rest :
    (st : SideType) (b : OrderBook) (s : Side) (idx : ℕ → Option OrderNode)
    → ((write b st s idx).sequence ≡ b.sequence) × ((write b st s idx).market_id ≡ b.market_id)
unfolding set_side
write_rest buy b s idx = (refl, refl)
write_rest sell b s idx = (refl, refl)

-- What an operation that touches one side promises: that side has a new queue, the other side, the
-- market and the sequence are as before, and the book is well formed.
pub record Changed (st : SideType) (b b' : OrderBook) (q : List OrderNode) : Type 0 where
  pub well_formed : IsBook b'
  pub queued : queue (get_side b' st) ≡ q
  pub other_same : get_side b' (opposite st) ≡ get_side b (opposite st)
  pub sequence_same : b'.sequence ≡ b.sequence
  pub market_same : b'.market_id ≡ b.market_id

write-Changed :
    (st : SideType) (b : OrderBook) (s : Side) (idx : ℕ → Option OrderNode) (q : List OrderNode)
    → queue s ≡ q
    → IsBookAt st (record b { order_index = idx }) s (get_side b (opposite st))
    → Changed st b (write b st s idx) q
write-Changed st b s idx q e h = record {
  well_formed = IsBook-write st b s idx h;
  queued = ap queue (get-write st b s idx) ∙ e;
  other_same = get-write-opposite st b s idx;
  sequence_same = (write_rest st b s idx).0;
  market_same = (write_rest st b s idx).1;
}

module _ (st : SideType) (b : OrderBook) (h : IsBook b) where
  at : IsBookAt st b (get_side b st) (get_side b (opposite st))
  at = IsBook-at st b h

  -- An order of a queue is found by its id, and is the order that the index holds.
  pub index_of_queue :
      (k : ℕ) {n : OrderNode} → find k (queue (get_side b st)) ≡ some n → b.order_index k ≡ some n
  index_of_queue k f = at.indexed k ∙ rw f

  -- The order leaves the queue and the index.
  pub take_out-Changed :
      (node : OrderNode)
      → find node.order_id (queue (get_side b st)) ≡ some node
      → (s : Side) × (take_out (get_side b st) node ≡ some s)
        × Changed st b
            (write b st s (update b.order_index node.order_id none))
            (remove_order node.order_id (queue (get_side b st)))
  take_out-Changed node f =
      let t = take_out_lem st (get_side b st) node at.own_ok f in
      (
        t.side,
        t.done,
        write-Changed st b t.side (update b.order_index node.order_id none) _ t.queued (record {
          own_ok = t.well_formed;
          other_ok = at.other_ok;
          own_distinct =
              rw t.queued (remove-IsDistinct node.order_id (queue (get_side b st)) at.own_distinct);
          other_distinct = at.other_distinct;
          apart = λ k.
              rw (t.queued, find-remove node.order_id k (queue (get_side b st)) at.own_distinct)
                (ground (arith, at.apart k));
          indexed = λ k.
              rw (t.queued, find-remove node.order_id k (queue (get_side b st)) at.own_distinct)
                (ground (arith, at.indexed k, at.apart k));
        }),
      )

  pub full_fill-Changed :
      (node : OrderNode)
      → find node.order_id (queue (get_side b st)) ≡ some node
      → (b' : OrderBook) × (full_fill b st node ≡ some b')
        × Changed st b b' (remove_order node.order_id (queue (get_side b st)))
  unfolding full_fill
  full_fill-Changed node f =
      let (s, done, changed) = take_out-Changed node f in
      (write b st s (update b.order_index node.order_id none), rw done refl, changed)

  -- The order shrinks in its place, in the level's list and in the index.
  pub reduce-Changed :
      (node : OrderNode) (qty : ℕ)
      → find node.order_id (queue (get_side b st)) ≡ some node
      → IsResting st node.price node
      → qty < node.remaining_qty
      → (b' : OrderBook) × (partial_fill b st node qty ≡ some b')
        × Changed st b b' (replace_order (reduce node qty) (queue (get_side b st)))
  unfolding partial_fill
  reduce-Changed node qty f r lt =
      let t = reduce_lem st (get_side b st) node qty at.own_ok f r lt in
      let s' = record (get_side b st) {
        price_levels = update (get_side b st).price_levels node.price (some t.after);
      } in
      let idx = update b.order_index node.order_id (some (reduce node qty)) in
      (
        write b st s' idx,
        rw t.found (rw t.after_is refl),
        write-Changed st b s' idx _ t.queued (record {
          own_ok = t.well_formed;
          other_ok = at.other_ok;
          own_distinct =
              rw t.queued
                (replace-IsDistinct (reduce node qty) (queue (get_side b st)) at.own_distinct);
          other_distinct = at.other_distinct;
          apart = λ k.
              rw (t.queued, find-replace (reduce node qty) node k (queue (get_side b st)) f)
                (ground (arith, at.apart k));
          indexed = λ k.
              rw (t.queued, find-replace (reduce node qty) node k (queue (get_side b st)) f)
                (ground (arith, at.indexed k));
        }),
      )

pub insert_new :
    (b : OrderBook) (node : OrderNode)
    → b.order_index node.order_id ≡ none
    → insert b node
      ≡ write b node.side
          (place (get_side b node.side) node)
          (update b.order_index node.order_id (some node))
unfolding insert
insert_new b node new = rw (new, insert)

pub or_else-none : (x y z : Option OrderNode) → z ≡ or_else x y → z ≡ none → (x ≡ none) × (y ≡ none)
or_else-none x y z h n = ground arith

module _ (b : OrderBook) (h : IsBook b) (node : OrderNode) where
  -- A new order goes to its place in the queue and into the index.
  pub insert-Changed :
      b.order_index node.order_id ≡ none
      → IsResting node.side node.price node
      → Changed node.side b
          (insert b node)
          (enqueue (is_buy node.side) node (queue (get_side b node.side)))
  insert-Changed new r =
      let a = IsBook-at node.side b h in
      let t = place_lem node.side (get_side b node.side) node r a.own_ok in
      let (here, there) =
        or_else-none _ _ (b.order_index node.order_id) (a.indexed node.order_id) new in
      let seen =
        λ (k : ℕ). find-enqueue (is_buy node.side) node k (queue (get_side b node.side)) here in
      rw (insert_new b node new) (
        write-Changed node.side b (place (get_side b node.side) node)
          (update b.order_index node.order_id (some node)) _ t.queued
          (record {
            own_ok = t.well_formed;
            other_ok = a.other_ok;
            own_distinct = rw t.queued (
                enqueue-IsDistinct (is_buy node.side) node (queue (get_side b node.side)) here
                  a.own_distinct);
            other_distinct = a.other_distinct;
            apart = λ k. rw (t.queued, seen k) (ground (arith, a.apart k, there));
            indexed = λ k. rw (t.queued, seen k) (ground (arith, a.indexed k));
          }))
