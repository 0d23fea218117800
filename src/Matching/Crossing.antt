-- ===== src/Matching/Crossing.antt =====
-- The book never crosses: `Match` and a removal keep every bid below every ask.
use tradedrift.Base.{
  ℕ, ◌<◌, ◌≡◌, refl, sym, ap, subst, inl, inr, List, [], ◌∷◌, none, Bool, true, false, ltb, ◌&&◌,
  arith, Bool-cases, All, All-map,
}
use tradedrift.OrderBook.{SideType, buy, sell, OrderType, limit, market, OrderNode, OrderBook, Fill}
use tradedrift.Matcher.Ops.{Env, get_side, opposite, remove_order}
use tradedrift.Matcher.Loop.{mode_live, is_limit}
use tradedrift.Matching.Orders.{remove-All}
use tradedrift.Matching.Levels.{is_buy, queue}
use tradedrift.Matching.Book.{IsBook, IsBook-at}
use tradedrift.Matching.Sweep.{Swept}
use tradedrift.Matching.Refine.{opposite-opposite}
use tradedrift.Matching.Match.{
  opposite_queue, own_queue, swept, rests, Matched, match_order-Matched, sweep-taker,
}
use tradedrift.Matching.Fills.{sweep_exhausts, sweep-All}
use tradedrift.Matching.Uncrossed.{
  Clear, ClearAt, InOrder, queue-InOrder, All-enqueue, not_crossing,
}
use tradedrift.Matching.Theorems.{Returns}

abbrev pub UncrossedAt : SideType → List OrderNode → List OrderNode → Type 0
UncrossedAt st own other = All (λ n. All (Clear st n.price) other) own

-- Every bid is below every ask.
abbrev pub IsUncrossed : OrderBook → Type 0
IsUncrossed b = UncrossedAt buy (queue b.bids) (queue b.asks)

UncrossedAt-nil : (st : SideType) (xs : List OrderNode) → UncrossedAt st xs []
UncrossedAt-nil st [] = tt
UncrossedAt-nil st (x ∷ xs) = (tt, UncrossedAt-nil st xs)

UncrossedAt-cons :
    (st : SideType) (n : OrderNode) (xs ys : List OrderNode)
    → All (λ x. Clear st x.price n) xs
    → UncrossedAt st xs ys
    → UncrossedAt st xs (n ∷ ys)
UncrossedAt-cons st n [] ys a u = tt
UncrossedAt-cons st n (x ∷ xs) ys a u = ((a.0, u.0), UncrossedAt-cons st n xs ys a.1 u.1)

-- The relation reads the same from the other side.
UncrossedAt-swap :
    (st : SideType) (xs ys : List OrderNode)
    → UncrossedAt st xs ys
    → UncrossedAt (opposite st) ys xs
UncrossedAt-swap st [] ys u = UncrossedAt-nil (opposite st) ys
UncrossedAt-swap st (x ∷ xs) ys u =
    UncrossedAt-cons (opposite st) x ys xs
      (All-map (Clear st x.price) (λ y. Clear (opposite st) y.price x) ys
        (λ y c. turn st x.price y.price c) u.0)
      (UncrossedAt-swap st xs ys u.1)
  where
    turn : (s : SideType) (p q : ℕ) → ClearAt s p q → ClearAt (opposite s) q p
    turn buy p q c = c
    turn sell p q c = c

uncrossed_at :
    (st : SideType) (b : OrderBook)
    → IsUncrossed b
    → UncrossedAt st (queue (get_side b st)) (queue (get_side b (opposite st)))
unfolding get_side
uncrossed_at buy b u = u
uncrossed_at sell b u = UncrossedAt-swap buy (queue b.bids) (queue b.asks) u

at-IsUncrossed :
    (st : SideType) (b : OrderBook)
    → UncrossedAt st (queue (get_side b st)) (queue (get_side b (opposite st)))
    → IsUncrossed b
unfolding get_side
at-IsUncrossed buy b u = u
at-IsUncrossed sell b u = UncrossedAt-swap sell (queue b.asks) (queue b.bids) u

limit_rests :
    (taker : OrderNode)
    → rests taker ≡ true
    → (0 < taker.remaining_qty) × (taker.order_type ≡ limit)
limit_rests taker h = go (ltb 0 taker.remaining_qty) taker.order_type refl h
  where
    go :
        (x : Bool) (t : OrderType)
        → ltb 0 taker.remaining_qty ≡ x
        → (x && is_limit t) ≡ true
        → (0 < taker.remaining_qty) × (t ≡ limit)
    go true limit e f = (ground arith, refl)
    go true market e f = cc
    go false t e f = cc

module _ (env : Env) (b : OrderBook) (incoming : OrderNode) (event_id : ℕ) (h : IsBook b)
    (new : b.order_index incoming.order_id ≡ none) where
  pass : Swept
  pass = swept env event_id b incoming

  -- What is left of the opposite queue is out of the reach of the own orders, as before.
  left_clear : IsUncrossed b → UncrossedAt incoming.side (own_queue b incoming) pass.left
  unfolding pass
  left_clear u =
      let st = incoming.side in
      subst (λ s. UncrossedAt s (own_queue b incoming) pass.left) (opposite-opposite st)
        (UncrossedAt-swap (opposite st) pass.left (own_queue b incoming) (
          sweep-All env event_id b.market_id
            (λ n. All (Clear (opposite st) n.price) (own_queue b incoming))
            (opposite_queue b incoming) incoming 0 b.sequence (λ n k a. a)
            (UncrossedAt-swap st (own_queue b incoming) (opposite_queue b incoming)
              (uncrossed_at st b u))))

  -- What rests is out of the reach of what is left.
  taker-Clear :
      (book : OrderBook)
      → IsBook book
      → opposite_queue book incoming ≡ pass.left
      → rests pass.taker ≡ true
      → All (Clear incoming.side pass.taker.price) pass.left
  unfolding pass
  taker-Clear book ok e go =
      let t =
        sweep-taker env event_id b.market_id (opposite_queue b incoming) incoming 0 b.sequence in
      let side : pass.taker.side ≡ incoming.side = ap (λ (n : OrderNode). n.side) t in
      let (pos, lim) = limit_rests pass.taker go in
      let sorted : InOrder (is_buy (opposite incoming.side)) pass.left = rw e at (
        queue-InOrder (opposite incoming.side) (get_side book (opposite incoming.side))
          (IsBook-at (opposite incoming.side) book ok).own_ok) in
      subst (λ s. All (Clear s pass.taker.price) pass.left) side
        (not_crossing pass.taker pass.left pos lim
          (subst (λ s. InOrder (is_buy (opposite s)) pass.left) (sym side) sorted)
          (λ n.
            sweep_exhausts env event_id b.market_id (opposite_queue b incoming) incoming 0
              b.sequence n))

  -- Any book that satisfies the description of the result is uncrossed.
  pub Matched-IsUncrossed :
      IsUncrossed b → (m : Matched env b incoming event_id) → IsUncrossed m.book
  unfolding pass
  Matched-IsUncrossed u m =
      let own : UncrossedAt incoming.side (own_queue m.book incoming) pass.left =
        rw m.own_left (elim (Bool-cases (rests pass.taker)) [
          | inr stop ↦ rw stop (left_clear u)
          | inl go ↦ rw go (
              All-enqueue (λ n. All (Clear incoming.side n.price) pass.left) (is_buy incoming.side)
                pass.taker (own_queue b incoming)
                (taker-Clear m.book m.well_formed m.opposite_left go) (left_clear u))
        ]) in
      at-IsUncrossed incoming.side m.book (rw m.opposite_left own)

  -- On a well-formed book that does not hold the incoming order's id, and in which every bid is
  -- below every ask, a live Match returns a well-formed book in which every bid is again below
  -- every ask.
  pub match_order-IsUncrossed :
      IsUncrossed b
      → (b' : OrderBook) × (taker : OrderNode) × (fills : List Fill) × Returns env b incoming
          event_id b' taker fills
        × IsBook b'
        × IsUncrossed b'
  unfolding pass
  match_order-IsUncrossed u =
      let m = match_order-Matched env b incoming event_id h new in
      (m.book, pass.taker, pass.fills, m.returns mode_live, m.well_formed, Matched-IsUncrossed u m)

remove-UncrossedAt :
    (st : SideType) (k : ℕ) (xs ys : List OrderNode)
    → UncrossedAt st xs ys
    → UncrossedAt st (remove_order k xs) ys
remove-UncrossedAt st k xs ys u = remove-All (λ n. All (Clear st n.price) ys) k xs u

-- Taking an order out of a side keeps the book uncrossed.
pub remove-IsUncrossed :
    (st : SideType) (b b' : OrderBook) (k : ℕ)
    → queue (get_side b' st) ≡ remove_order k (queue (get_side b st))
    → get_side b' (opposite st) ≡ get_side b (opposite st)
    → IsUncrossed b
    → IsUncrossed b'
remove-IsUncrossed st b b' k own other u = at-IsUncrossed st b' (
    rw (own, other)
      (remove-UncrossedAt st k (queue (get_side b st)) (queue (get_side b (opposite st)))
        (uncrossed_at st b u)))
