-- ===== src/Matching/Depth.antt =====
-- `GetDepth` on a well-formed book: the pre-aggregated totals are what the orders add up to.
use tradedrift.Base.{
  ℕ, zero, suc, ◌+◌, ◌≡◌, refl, ◌≢◌, sym, ap, subst, inl, inr, ◌∙◌, List, [], ◌∷◌, ◌++◌, Option,
  some, true, ◌==◌, if◌then◌else◌, arith, Bool-cases, All, All-map, take, map,
}
use tradedrift.OrderBook.{
  SideType, buy, sell, OrderNode, PriceLevel, Side, OrderBook, DepthLevel, DepthSnapshot,
}
use tradedrift.Matcher.Ops.{Env, get_depth, depth_levels, collect}
use tradedrift.Matching.Prices.{IsSorted}
use tradedrift.Matching.Slice.{has}
use tradedrift.Matching.Orders.{total_remaining}
use tradedrift.Matching.Levels.{
  IsResting, IsLevel, Levels, IsSide, is_buy, queue, collect-All, tail_fresh, Levels-has,
}
use tradedrift.Matching.Book.{IsBook}

-- What the orders at a price add up to.
abbrev pub total_at : ℕ → List OrderNode → ℕ
total_at p [] = 0
total_at p (n ∷ ns) = (if n.price == p then n.remaining_qty else 0) + total_at p ns

total_at-append :
    (p : ℕ) (xs ys : List OrderNode) → total_at p (xs ++ ys) ≡ total_at p xs + total_at p ys
total_at-append p [] ys = omega arith
total_at-append p (x ∷ xs) ys = let ih = total_at-append p xs ys in omega arith

total_at_same :
    (p : ℕ) (xs : List OrderNode) → All (λ n. n.price ≡ p) xs → total_at p xs ≡ total_remaining xs
total_at_same p [] h = refl
total_at_same p (x ∷ xs) h = let ih = total_at_same p xs h.1 in let e = h.0 in ground arith

total_at_other : (p : ℕ) (xs : List OrderNode) → All (λ n. n.price ≢ p) xs → total_at p xs ≡ 0
total_at_other p [] h = refl
total_at_other p (x ∷ xs) h =
    let ih = total_at_other p xs h.1 in
    elim (Bool-cases (x.price == p)) [
      | inl e ↦ absurd (h.0 (ground arith))
      | inr e ↦ rw e (omega arith)
    ]

total_at-collect :
    (st : SideType) (lv : ℕ → Option PriceLevel) (p : ℕ) (l : PriceLevel) (ps : List ℕ)
    → lv p ≡ some l
    → IsSorted (is_buy st) ps
    → Levels st lv ps
    → has p ps ≡ true
    → total_at p (collect lv ps) ≡ total_remaining l.orders
unfolding collect
total_at-collect st lv p l [] e s k h = cc
total_at-collect st lv p l (q ∷ qs) e s k h = elim (Bool-cases (q == p)) [
  | inl same ↦
      let q_eq : q ≡ p = ground arith in
      let level : IsLevel st p k.0.0 = rw q_eq at k.0.2 in
      let same_level : k.0.0 ≡ l =
        (let found : lv p ≡ some k.0.0 = rw q_eq at k.0.1 in ground arith) in
      let level' = subst (IsLevel st p) same_level level in
      let here =
        total_at_same p l.orders (
          All-map (IsResting st p) (λ n. n.price ≡ p) l.orders (λ n r. r.at_price)
            level'.resting) in
      let fresh : All (λ x. x ≢ p) qs = rw q_eq at (tail_fresh (is_buy st) q qs s.0) in
      let there = total_at_other p (collect lv qs) (
        collect-All st lv (λ n. n.price ≢ p) qs k.1
          (All-map (λ x. x ≢ p) (λ x. (n : OrderNode) → IsResting st x n → n.price ≢ p) qs
            (λ x ne n r. rw r.at_price ne) fresh)) in
      rw (q_eq, e) (total_at-append p l.orders (collect lv qs) ∙ omega arith)
  | inr other ↦
      let rest : has p qs ≡ true = rw other at h in
      let differs : q ≢ p = ground arith in
      let here = total_at_other p k.0.0.orders (
        All-map (IsResting st q) (λ n. n.price ≢ p) k.0.0.orders (λ n r. rw r.at_price differs)
          k.0.2.resting) in
      let ih = total_at-collect st lv p l qs e s.1 k.1 rest in
      rw k.0.1 (total_at-append p k.0.0.orders (collect lv qs) ∙ omega arith)
]

-- One side of a depth snapshot: the best prices in order, each with the total of its orders.
pub record ShowsSide (s : Side) (depth : ℕ) (ls : List DepthLevel) : Type 0 where
  pub prices : map (λ (l : DepthLevel). l.price) ls ≡ take depth s.sorted_prices
  pub totals : All (λ (l : DepthLevel). l.quantity ≡ total_at l.price (queue s)) ls

module _ (st : SideType) (s : Side) (h : IsSide st s) where
  level_total :
      (p : ℕ) (l : PriceLevel) → s.price_levels p ≡ some l → l.total_qty ≡ total_at p (queue s)
  unfolding queue
  level_total p l e =
      let there = h.keys p l e in
      let found = Levels-has st s.price_levels p s.sorted_prices h.levels there in
      let same : found.0 ≡ l = (let e' = found.1 in ground arith) in
      (subst (IsLevel st p) same found.2).total_kept
      ∙ sym (total_at-collect st s.price_levels p l s.sorted_prices e h.sorted h.levels there)

  depth_levels_lem :
      (ps : List ℕ) (depth : ℕ)
      → Levels st s.price_levels ps
      → (ls : List DepthLevel) × (depth_levels s ps depth ≡ some ls)
        × (map (λ (l : DepthLevel). l.price) ls ≡ take depth ps)
        × All (λ (l : DepthLevel). l.quantity ≡ total_at l.price (queue s)) ls
  unfolding depth_levels
  depth_levels_lem [] zero k = ([], refl, refl, tt)
  depth_levels_lem [] (suc depth) k = ([], refl, refl, tt)
  depth_levels_lem (p ∷ ps) zero k = ([], refl, refl, tt)
  depth_levels_lem (p ∷ ps) (suc depth) k =
      let (ls, e, prices, totals) = depth_levels_lem ps depth k.1 in
      (
        record { price = p; quantity = k.0.0.total_qty } ∷ ls,
        rw k.0.1 (rw e refl),
        ap (λ l. p ∷ l) prices,
        (level_total p k.0.0 k.0.1, totals),
      )

-- On a well-formed book GetDepth never panics and shows the best prices of both sides, each once
-- and with the exact total that rests there, under the book's sequence.
pub get_depth_exact :
    (env : Env) (b : OrderBook) (depth : ℕ)
    → IsBook b
    → (snap : DepthSnapshot) × (get_depth env b depth ≡ some snap)
      × (snap.sequence ≡ b.sequence)
      × (snap.market_id ≡ b.market_id)
      × ShowsSide b.bids depth snap.bids
      × ShowsSide b.asks depth snap.asks
unfolding get_depth
get_depth_exact env b depth h =
    let (bids, e, bp, bt) =
      depth_levels_lem buy b.bids h.own_ok b.bids.sorted_prices depth h.own_ok.levels in
    let (asks, f, ap', at') =
      depth_levels_lem sell b.asks h.other_ok b.asks.sorted_prices depth h.other_ok.levels in
    (
      record {
        market_id = b.market_id;
        sequence = b.sequence;
        bids = bids;
        asks = asks;
        snapshot_at = env.now;
      },
      rw e (rw f refl),
      refl,
      refl,
      record { prices = bp; totals = bt },
      record { prices = ap'; totals = at' },
    )
