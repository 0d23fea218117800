-- ===== src/Matching/Loop.antt =====
-- The matching loop refines the pass over the opposite queue: with fuel for each resting order and
-- one more it ends, without a panic, with the fills, the queue and the sequence of `sweep`.
use Prim.Native.Nat.{min}
use tradedrift.Base.{
  ℕ, ◌≡◌, refl, ◌≢◌, ap, subst, inl, inr, ◌∙◌, List, [], ◌∷◌, ◌++◌, none, some, true, false, ◌==◌,
  ltb, leb, if◌then◌else◌, arith, Bool-cases, ==_self, ◌>>=◌, All,
}
use tradedrift.OrderBook.{SideType, buy, sell, OrderNode, Side, OrderBook, Fill, next_sequence}
use tradedrift.Matcher.Ops.{
  Env, get_side, get_opposite_side, opposite, collect, full_fill, partial_fill, execute_best, front,
}
use tradedrift.Matcher.Loop.{next_best, match_step, make_fill, crossable}
use tradedrift.Matching.Levels.{IsResting, Levels, IsSide, queue, collect-All}
use tradedrift.Matching.Reduce.{reduce}
use tradedrift.Matching.Book.{IsBook, IsBook-at, Changed, full_fill-Changed, reduce-Changed}
use tradedrift.Matching.Sweep.{Swept, takes}

-- The best order of a side is the head of its queue.
pub execute_best-front : (st : SideType) (s : Side) → IsSide st s → execute_best s ≡ front (queue s)
unfolding execute_best queue collect
execute_best-front st s h = go s.sorted_prices refl h.levels
  where
    front-append : (xs ys : List OrderNode) → xs ≢ [] → front xs ≡ front (xs ++ ys)
    front-append [] ys n = absurd (n refl)
    front-append (x ∷ xs) ys n = refl

    go :
        (ps : List ℕ)
        → s.sorted_prices ≡ ps
        → Levels st s.price_levels ps
        → execute_best s ≡ front (collect s.price_levels s.sorted_prices)
    go [] e k = rw (e, execute_best)
    go (p ∷ ps) e k =
        rw (e, execute_best)
          (rw k.0.1 (front-append k.0.0.orders (collect s.price_levels ps) k.0.2.nonempty))

pub queue-All :
    (st : SideType) (s : Side) (P : OrderNode → Type 0)
    → IsSide st s
    → ((n : OrderNode) → IsResting st n.price n → P n)
    → All P (queue s)
unfolding queue
queue-All st s P h f =
    collect-All st s.price_levels P s.sorted_prices h.levels (all s.sorted_prices)
  where
    all : (ps : List ℕ) → All (λ p. (n : OrderNode) → IsResting st p n → P n) ps
    all [] = tt
    all (p ∷ ps) = (
      λ n r. f n (record {
        at_price = refl;
        positive = r.positive;
        on_side = r.on_side;
        is_limit = r.is_limit;
      }),
      all ps,
    )

pub IsBook-sequence : (b : OrderBook) (n : ℕ) → IsBook b → IsBook (record b { sequence = n })
IsBook-sequence b n h = record {
  own_ok = h.own_ok;
  other_ok = h.other_ok;
  own_distinct = h.own_distinct;
  other_distinct = h.other_distinct;
  apart = h.apart;
  indexed = h.indexed;
}

abbrev pub advanced : OrderBook → OrderBook
advanced b = record b { sequence = next_sequence b.sequence }

pub get_side-advanced : (st : SideType) (b : OrderBook) → get_side (advanced b) st ≡ get_side b st
unfolding get_side
get_side-advanced buy b = refl
get_side-advanced sell b = refl

pub get_opposite_side-get_side :
    (st : SideType) (b : OrderBook) → get_opposite_side b st ≡ get_side b (opposite st)
unfolding get_side get_opposite_side
get_opposite_side-get_side buy b = refl
get_opposite_side-get_side sell b = refl

-- What the next round meets.
next_best_lem :
    (b : OrderBook) (incoming : OrderNode) (q : List OrderNode)
    → IsBook b
    → queue (get_side b (opposite incoming.side)) ≡ q
    → next_best b incoming ≡ (
        if ltb 0 incoming.remaining_qty
        then (front q >>= λ best. if crossable incoming best then some best else none)
        else none)
unfolding next_best
next_best_lem b incoming q h e = rw (
  get_opposite_side-get_side incoming.side b,
  execute_best-front (opposite incoming.side) (get_side b (opposite incoming.side))
      (IsBook-at (opposite incoming.side) b h).own_ok,
  e,
)

pub next_best_cons :
    (b : OrderBook) (incoming best : OrderNode) (q : List OrderNode)
    → IsBook b
    → queue (get_side b (opposite incoming.side)) ≡ best ∷ q
    → next_best b incoming ≡ (if takes incoming best then some best else none)
unfolding takes
next_best_cons b incoming best q h e =
    rw (next_best_lem b incoming (best ∷ q) h e)
      (elim (Bool-cases (ltb 0 incoming.remaining_qty)) [ inl more ↦ rw more | inr done ↦ rw done ])

pub next_best_nil :
    (b : OrderBook) (incoming : OrderNode)
    → IsBook b
    → queue (get_side b (opposite incoming.side)) ≡ []
    → next_best b incoming ≡ none
next_best_nil b incoming h e =
    rw (next_best_lem b incoming [] h e)
      (elim (Bool-cases (ltb 0 incoming.remaining_qty)) [ inl more ↦ rw more | inr done ↦ rw done ])

-- The state after a whole loop, as the pass over the queue has it.
pub record Ran (b b' : OrderBook) (incoming : OrderNode) (r : Swept) : Type 0 where
  pub well_formed : IsBook b'
  pub queued : queue (get_side b' (opposite incoming.side)) ≡ r.left
  pub own_same :
      get_side b' (opposite (opposite incoming.side))
      ≡ get_side b (opposite (opposite incoming.side))
  pub sequenced : b'.sequence ≡ r.sequence
  pub market_same : b'.market_id ≡ b.market_id

module _ (env : Env) (event_id : ℕ) where
  -- The fill of a round, by the book before it.
  unfoldable pub fill_of : OrderBook → OrderNode → OrderNode → ℕ → Fill
  fill_of b incoming best idx =
      make_fill env event_id b.market_id (next_sequence b.sequence) incoming best idx

  pub step_full :
      (b b' : OrderBook) (incoming best : OrderNode) (idx : ℕ)
      → leb best.remaining_qty incoming.remaining_qty ≡ true
      → full_fill (advanced b) (opposite incoming.side) best ≡ some b'
      → match_step env event_id b incoming best idx
        ≡ some (b', reduce incoming best.remaining_qty, fill_of b incoming best idx)
  unfolding match_step fill_of
  step_full b b' incoming best idx le e =
      let m : min incoming.remaining_qty best.remaining_qty ≡ best.remaining_qty = ground arith in
      rw (m, ==_self best.remaining_qty, e)

  pub step_partial :
      (b b' : OrderBook) (incoming best : OrderNode) (idx : ℕ)
      → leb best.remaining_qty incoming.remaining_qty ≡ false
      → partial_fill (advanced b) (opposite incoming.side) best incoming.remaining_qty ≡ some b'
      → match_step env event_id b incoming best idx
        ≡ some (b', reduce incoming incoming.remaining_qty, fill_of b incoming best idx)
  unfolding match_step fill_of
  step_partial b b' incoming best idx gt e =
      let m : min incoming.remaining_qty best.remaining_qty ≡ incoming.remaining_qty =
        ground arith in
      let ne : (incoming.remaining_qty == best.remaining_qty) ≡ false = ground arith in
      rw (m, ne, e)

  -- What a round does to the book when the head of the queue is used up.
  pub round_full :
      (b : OrderBook) (incoming best : OrderNode) (q : List OrderNode)
      → IsBook b
      → queue (get_side b (opposite incoming.side)) ≡ best ∷ q
      → (b' : OrderBook) × (full_fill (advanced b) (opposite incoming.side) best ≡ some b')
        × Changed (opposite incoming.side) (advanced b) b' q
  round_full b incoming best q h e =
      let st = opposite incoming.side in
      let e' = ap queue (get_side-advanced st b) ∙ e in
      let (b', done, c) =
        full_fill-Changed st (advanced b) (IsBook-sequence b _ h) best
          (rw e' (rw (==_self best.order_id))) in
      (b', done, subst (Changed st (advanced b) b') (rw e' (rw (==_self best.order_id))) c)

  pub round_partial :
      (b : OrderBook) (incoming best : OrderNode) (q : List OrderNode)
      → IsBook b
      → queue (get_side b (opposite incoming.side)) ≡ best ∷ q
      → leb best.remaining_qty incoming.remaining_qty ≡ false
      → (b' : OrderBook) × (partial_fill
            (advanced b)
            (opposite incoming.side)
            best
            incoming.remaining_qty
          ≡ some b')
        × Changed (opposite incoming.side) (advanced b) b' (reduce best incoming.remaining_qty ∷ q)
  round_partial b incoming best q h e gt =
      let st = opposite incoming.side in
      let e' = ap queue (get_side-advanced st b) ∙ e in
      let a = IsBook-at st b h in
      let resting =
        queue-All st (get_side b st) (λ n. IsResting st n.price n) a.own_ok (λ n r. r) in
      let r : IsResting st best.price best = (rw e at resting).0 in
      let (b', done, c) =
        reduce-Changed st (advanced b) (IsBook-sequence b _ h) best incoming.remaining_qty
          (rw e' (rw (==_self best.order_id))) r (ground arith) in
      (b', done, subst (Changed st (advanced b) b') (rw e' (rw (==_self best.order_id))) c)
