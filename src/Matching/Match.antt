-- ===== src/Matching/Match.antt =====
-- `Match` on a well-formed book: what it returns and what it leaves.
use tradedrift.Base.{
  ℕ, suc, ◌≡◌, refl, ap, subst, inl, inr, ◌∙◌, List, [], ◌∷◌, none, some, Bool, true, false, ltb,
  leb, ◌&&◌, if◌then◌else◌, arith, Bool-cases, length,
}
use tradedrift.OrderBook.{OrderType, limit, market, OrderNode, OrderBook, next_sequence}
use tradedrift.Matcher.Ops.{Env, get_side, opposite, insert}
use tradedrift.Matcher.Loop.{Mode, match_order, rest_remainder, emitted, is_limit}
use tradedrift.Matching.Orders.{find, enqueue}
use tradedrift.Matching.Levels.{IsResting, is_buy, queue}
use tradedrift.Matching.Reduce.{reduce}
use tradedrift.Matching.Book.{IsBook, IsBook-at, insert-Changed, or_else-none}
use tradedrift.Matching.Sweep.{Swept, takes, sweep}
use tradedrift.Matching.Loop.{
  advanced, Ran, IsBook-sequence, get_side-advanced, get_opposite_side-get_side,
}
use tradedrift.Matching.Refine.{opposite-opposite, match_loop-sweep}

module _ (env : Env) (event_id m : ℕ) where
  -- The taker is the incoming order with less left.
  pub sweep-taker :
      (q : List OrderNode) (incoming : OrderNode) (idx seq : ℕ)
      → let r = sweep env event_id m q incoming idx seq in
        r.taker ≡ record incoming { remaining_qty = r.taker.remaining_qty }
  unfolding sweep
  sweep-taker [] incoming idx seq = refl
  sweep-taker (best ∷ q) incoming idx seq =
      let ih = sweep-taker q (reduce incoming best.remaining_qty) (suc idx) (next_sequence seq) in
      elim (Bool-cases (takes incoming best)) [
        | inr no_more ↦ rw no_more
        | inl more ↦ rw more (elim (Bool-cases (leb best.remaining_qty incoming.remaining_qty)) [
          | inl full ↦ rw full ih
          | inr partly ↦ rw partly
        ])
      ]

  -- An id that is not in the queue is not in what is left of it.
  pub sweep-find :
      (k : ℕ) (q : List OrderNode) (incoming : OrderNode) (idx seq : ℕ)
      → find k q ≡ none
      → find k (sweep env event_id m q incoming idx seq).left ≡ none
  unfolding sweep
  sweep-find k [] incoming idx seq h = refl
  sweep-find k (best ∷ q) incoming idx seq h = elim (Bool-cases (takes incoming best)) [
    | inr no_more ↦ rw no_more h
    | inl more ↦ rw more (elim (Bool-cases (leb best.remaining_qty incoming.remaining_qty)) [
      | inl full ↦ rw full (
          sweep-find k q (reduce incoming best.remaining_qty) (suc idx) (next_sequence seq)
            tail_none)
      | inr partly ↦ rw partly (ground arith)
    ])
  ]
    where
      tail_none : find k q ≡ none
      tail_none = ground arith

-- What is left of the taker goes to rest.
abbrev pub rests : OrderNode → Bool
rests taker = ltb 0 taker.remaining_qty && is_limit taker.order_type

abbrev pub opposite_queue : OrderBook → OrderNode → List OrderNode
opposite_queue b incoming = queue (get_side b (opposite incoming.side))

abbrev pub own_queue : OrderBook → OrderNode → List OrderNode
own_queue b incoming = queue (get_side b incoming.side)

abbrev pub swept : Env → ℕ → OrderBook → OrderNode → Swept
swept env event_id b incoming =
    sweep env event_id b.market_id (opposite_queue b incoming) incoming 0 b.sequence

-- `Match` returned, with the fills of the pass over the opposite queue; that queue is what the pass
-- left, the remainder of a LIMIT order stands in the own queue by price-time priority, and the
-- sequence counts the fills and the insertion.
pub record Matched (env : Env) (b : OrderBook) (incoming : OrderNode) (event_id : ℕ) : Type 0 where
  pub book : OrderBook
  pub returns :
      (mode : Mode)
      → match_order env b incoming mode event_id
        ≡ some (
          book,
          (swept env event_id b incoming).taker,
          emitted mode (swept env event_id b incoming).fills,
        )
  pub well_formed : IsBook book
  pub opposite_left : opposite_queue book incoming ≡ (swept env event_id b incoming).left
  pub own_left : own_queue book incoming ≡ (
      if rests (swept env event_id b incoming).taker
      then enqueue
          (is_buy incoming.side)
          (swept env event_id b incoming).taker
          (own_queue b incoming)
      else own_queue b incoming)
  pub sequenced : book.sequence ≡ (
      if rests (swept env event_id b incoming).taker
      then next_sequence (swept env event_id b incoming).sequence
      else (swept env event_id b incoming).sequence)
  pub market_same : book.market_id ≡ b.market_id

limit_of : (t : OrderType) → is_limit t ≡ true → t ≡ limit
limit_of limit h = refl
limit_of market h = cc

rest_remainder_stops :
    (b : OrderBook) (taker : OrderNode) → rests taker ≡ false → rest_remainder b taker ≡ b
unfolding rest_remainder
rest_remainder_stops b taker h = rw h

rest_remainder-rests :
    (b : OrderBook) (taker : OrderNode)
    → rests taker ≡ true
    → rest_remainder b taker ≡ insert (advanced b) taker
unfolding rest_remainder
rest_remainder-rests b taker h = rw h

-- What the last step does to the own side, in terms of the taker.
record Rested (b : OrderBook) (taker : OrderNode) : Type 0 where
  well_formed : IsBook (rest_remainder b taker)
  own : queue (get_side (rest_remainder b taker) taker.side) ≡ (
      if rests taker
      then enqueue (is_buy taker.side) taker (queue (get_side b taker.side))
      else queue (get_side b taker.side))
  other : get_side (rest_remainder b taker) (opposite taker.side) ≡ get_side b (opposite taker.side)
  sequenced :
      (rest_remainder b taker).sequence
      ≡ (if rests taker then next_sequence b.sequence else b.sequence)
  market_same : (rest_remainder b taker).market_id ≡ b.market_id

rest_remainder_lem :
    (b : OrderBook) (taker : OrderNode)
    → IsBook b
    → b.order_index taker.order_id ≡ none
    → Rested b taker
rest_remainder_lem b taker h new = elim (Bool-cases (rests taker)) [
  | inr stop ↦
      let e = rest_remainder_stops b taker stop in
      record {
        well_formed = rw e h;
        own = rw (e, stop);
        other = rw e;
        sequenced = rw (e, stop);
        market_same = rw e;
      }
  | inl go ↦
      let e = rest_remainder-rests b taker go in
      let c =
        insert-Changed (advanced b) (IsBook-sequence b (next_sequence b.sequence) h) taker new
          (resting go) in
      record {
        well_formed = rw e c.well_formed;
        own =
            rw (e, go)
              (c.queued
                ∙ ap (λ s. enqueue (is_buy taker.side) taker (queue s))
                    (get_side-advanced taker.side b));
        other = rw e (c.other_same ∙ get_side-advanced (opposite taker.side) b);
        sequenced = rw (e, go) c.sequence_same;
        market_same = rw e c.market_same;
      }
]
  where
    resting : rests taker ≡ true → IsResting taker.side taker.price taker
    resting go = record {
      at_price = refl;
      positive = ground arith;
      on_side = refl;
      is_limit =
          limit_of taker.order_type
            (second (ltb 0 taker.remaining_qty) (is_limit taker.order_type) go);
    }
      where
        second : (x y : Bool) → (x && y) ≡ true → y ≡ true
        second x y e = ground arith

-- An id that the index does not know is still unknown after the loop.
still_new :
    (env : Env) (event_id : ℕ) (b b' : OrderBook) (incoming : OrderNode)
    → IsBook b
    → b.order_index incoming.order_id ≡ none
    → Ran b b' incoming (swept env event_id b incoming)
    → b'.order_index incoming.order_id ≡ none
still_new env event_id b b' incoming h new ran =
    let k = incoming.order_id in
    let st = opposite incoming.side in
    let before = IsBook-at st b h in
    let (gone, gone') = or_else-none _ _ (b.order_index k) (before.indexed k) new in
    let left : find k (queue (get_side b' st)) ≡ none = rw ran.queued (
      sweep-find env event_id b.market_id k (opposite_queue b incoming) incoming 0 b.sequence
        gone) in
    let same : find k (queue (get_side b' (opposite st))) ≡ none = rw ran.own_same gone' in
    (IsBook-at st b' ran.well_formed).indexed k ∙ rw left same

-- On a well-formed book that does not hold the incoming order's id, Match returns in either mode;
-- the opposite queue becomes what one pass over it from the front leaves, a LIMIT remainder joins
-- the own queue in price-time order, the sequence counts fills and insertion, and the book stays
-- well formed.
pub match_order-Matched :
    (env : Env) (b : OrderBook) (incoming : OrderNode) (event_id : ℕ)
    → IsBook b
    → b.order_index incoming.order_id ≡ none
    → Matched env b incoming event_id
unfolding match_order queue
match_order-Matched env b incoming event_id h new =
    let q = opposite_queue b incoming in
    let r = swept env event_id b incoming in
    let l =
      match_loop-sweep env event_id b.market_id (suc (length q)) q b incoming 0 [] b.sequence h refl
        refl refl (omega arith) in
    let t = sweep-taker env event_id b.market_id q incoming 0 b.sequence in
    let side : r.taker.side ≡ incoming.side = ap (λ (n : OrderNode). n.side) t in
    let id : r.taker.order_id ≡ incoming.order_id = ap (λ (n : OrderNode). n.order_id) t in
    let rested =
      rest_remainder_lem l.book r.taker l.ran.well_formed
        (rw id (still_new env event_id b l.book incoming h new l.ran)) in
    let own_before : get_side l.book incoming.side ≡ get_side b incoming.side =
      subst (λ s. get_side l.book s ≡ get_side b s) (opposite-opposite incoming.side)
        l.ran.own_same in
    record {
      book = rest_remainder l.book r.taker;
      returns = λ mode. rw (get_opposite_side-get_side incoming.side b) (rw l.returns);
      well_formed = rested.well_formed;
      opposite_left =
          ap queue (
            subst
              (λ s.
                get_side (rest_remainder l.book r.taker) (opposite s)
                ≡ get_side l.book (opposite s))
              side rested.other)
          ∙ l.ran.queued;
      own_left =
          subst
            (λ s. queue (get_side (rest_remainder l.book r.taker) s) ≡ (
              if rests r.taker
              then enqueue (is_buy s) r.taker (queue (get_side l.book s))
              else queue (get_side l.book s)))
            side rested.own
          ∙ ap
              (λ s.
                if rests r.taker then enqueue (is_buy incoming.side) r.taker (queue s) else queue s)
              own_before;
      sequenced =
          rested.sequenced ∙ ap (λ n. if rests r.taker then next_sequence n else n) l.ran.sequenced;
      market_same = rested.market_same ∙ l.ran.market_same;
    }
