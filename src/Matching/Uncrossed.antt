-- ===== src/Matching/Uncrossed.antt =====
-- A queue is in price order, and no bid of a book meets an ask.
use tradedrift.Base.{
  ℕ, ◌≤◌, ◌<◌, ◌≡◌, refl, sym, inl, inr, ◌∙◌, List, [], ◌∷◌, ◌++◌, Option, some, Bool, true, false,
  ltb, ◌&&◌, arith, Bool-cases, All, All-map, All-append,
}
use tradedrift.OrderBook.{
  SideType, buy, sell, OrderType, limit, market, OrderNode, Side, PriceLevel,
}
use tradedrift.Matcher.Search.{is_worse}
use tradedrift.Matcher.Ops.{opposite, front, collect, level_orders}
use tradedrift.Matcher.Loop.{crossable, crossable_for}
use tradedrift.Matching.Prices.{Worse, IsSorted}
use tradedrift.Matching.Orders.{enqueue}
use tradedrift.Matching.Levels.{IsResting, Levels, IsSide, is_buy, queue, collect-All}
use tradedrift.Matching.Sweep.{takes}

-- `p` is as good as `q` or better.
abbrev pub NotWorse : Bool → ℕ → ℕ → Type 0
NotWorse true p q = q ≤ p
NotWorse false p q = p ≤ q

-- No order stands in front of one with a better price.
abbrev pub InOrder : Bool → List OrderNode → Type 0
InOrder b [] = Unit
InOrder b (n ∷ ns) = All (λ k. NotWorse b n.price k.price) ns × InOrder b ns

InOrder-append :
    (b : Bool) (p : ℕ) (xs ys : List OrderNode)
    → All (λ n. n.price ≡ p) xs
    → All (λ n. NotWorse b p n.price) ys
    → InOrder b ys
    → InOrder b (xs ++ ys)
InOrder-append b p [] ys hx hy o = o
InOrder-append b p (x ∷ xs) ys hx hy o = (
  All-append (λ k. NotWorse b x.price k.price) xs ys
      (All-map (λ n. n.price ≡ p) (λ k. NotWorse b x.price k.price) xs
        (λ k e. same b x.price k.price (hx.0 ∙ sym e)) hx.1)
      (rw hx.0 hy),
  InOrder-append b p xs ys hx.1 hy o,
)
  where
    same : (b' : Bool) (p' q : ℕ) → p' ≡ q → NotWorse b' p' q
    same true p' q e = omega arith
    same false p' q e = omega arith

Worse→NotWorse : (b : Bool) (p q : ℕ) → Worse b q p → NotWorse b p q
Worse→NotWorse true p q h = omega arith
Worse→NotWorse false p q h = omega arith

collect-InOrder :
    (st : SideType) (lv : ℕ → Option PriceLevel) (ps : List ℕ)
    → IsSorted (is_buy st) ps
    → Levels st lv ps
    → InOrder (is_buy st) (collect lv ps)
unfolding collect
collect-InOrder st lv [] s k = tt
collect-InOrder st lv (p ∷ ps) s k =
    InOrder-append (is_buy st) p (level_orders (lv p)) (collect lv ps)
      (rw k.0.1 (
        All-map (IsResting st p) (λ n. n.price ≡ p) k.0.0.orders (λ n r. r.at_price) k.0.2.resting))
      (collect-All st lv (λ n. NotWorse (is_buy st) p n.price) ps k.1
        (All-map (λ q. Worse (is_buy st) q p)
          (λ q. (n : OrderNode) → IsResting st q n → NotWorse (is_buy st) p n.price) ps
          (λ q w n r. rw r.at_price (Worse→NotWorse (is_buy st) p q w)) s.0))
      (collect-InOrder st lv ps s.1 k.1)

pub queue-InOrder : (st : SideType) (s : Side) → IsSide st s → InOrder (is_buy st) (queue s)
unfolding queue
queue-InOrder st s h = collect-InOrder st s.price_levels s.sorted_prices h.sorted h.levels

-- A bid at the price `p` is below every ask of the list, or an ask above every bid.
abbrev pub ClearAt : SideType → ℕ → ℕ → Type 0
ClearAt buy p q = p < q
ClearAt sell p q = q < p

abbrev pub Clear : SideType → ℕ → OrderNode → Type 0
Clear s p n = ClearAt s p n.price

pub All-enqueue :
    (P : OrderNode → Type 0) (b : Bool) (node : OrderNode) (ns : List OrderNode)
    → P node
    → All P ns
    → All P (enqueue b node ns)
All-enqueue P b node [] h a = (h, tt)
All-enqueue P b node (n ∷ ns) h a = elim (Bool-cases (is_worse b n.price node.price)) [
  | inl e ↦ rw e (h, a)
  | inr e ↦ rw e (a.0, All-enqueue P b node ns h a.1)
]

-- Where the head of the opposite queue does not cross with a LIMIT order, no order of it does.
pub not_crossing :
    (taker : OrderNode) (q : List OrderNode)
    → 0 < taker.remaining_qty
    → taker.order_type ≡ limit
    → InOrder (is_buy (opposite taker.side)) q
    → ((n : OrderNode) → front q ≡ some n → takes taker n ≡ false)
    → All (Clear taker.side taker.price) q
unfolding takes crossable
not_crossing taker [] pos lim o h = tt
not_crossing taker (n ∷ q) pos lim o h =
    let head =
      clear taker.order_type taker.side taker.price n.price lim
        (rest (ltb 0 taker.remaining_qty) _ (ground arith) (h n refl)) in
    (
      head,
      All-map (λ k. NotWorse (is_buy (opposite taker.side)) n.price k.price)
          (Clear taker.side taker.price) q (λ k w. further taker.side taker.price n k head w) o.0,
    )
  where
    rest : (x y : Bool) → x ≡ true → (x && y) ≡ false → y ≡ false
    rest x y e f = ground arith

    clear :
        (t : OrderType) (s : SideType) (p q' : ℕ)
        → t ≡ limit
        → crossable_for t s p q' ≡ false
        → ClearAt s p q'
    clear limit buy p q' l e = ground arith
    clear limit sell p q' l e = ground arith
    clear market s p q' l e = absurd (differ l)
      where
        differ : market ≡ limit → ⊥
        differ e' = cc

    further :
        (s : SideType) (p : ℕ) (x y : OrderNode)
        → Clear s p x
        → NotWorse (is_buy (opposite s)) x.price y.price
        → Clear s p y
    further buy p x y c w = omega arith
    further sell p x y c w = omega arith
