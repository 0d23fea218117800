-- ===== src/Matching/TakeOut.antt =====
-- What `Cancel` and `FullFill` do to one side, and the write of a partial fill: the order leaves the
-- queue or changes in its place, and nothing else moves.
use tradedrift.Base.{
  ℕ, ◌-◌, ◌≡◌, refl, ◌≢◌, sym, subst, inl, inr, ◌∙◌, List, [], ◌∷◌, ◌++◌, Option, none, some, true,
  ◌==◌, arith, All, Bool-cases, Option-cases, update, update_self, update_ne,
}
use tradedrift.OrderBook.{SideType, OrderNode, PriceLevel, Side}
use tradedrift.Matcher.Ops.{collect, take_out, drop_level, remove_order}
use tradedrift.Matching.Prices.{Worse, IsSorted}
use tradedrift.Matching.Slice.{
  has, remove_price, remove_at_sorted, remove_price-IsSorted, has-remove_price,
}
use tradedrift.Matching.Orders.{
  find, find-append, find-All, total-remove, remove-All, IsEdit, remove-IsEdit,
}
use tradedrift.Matching.Levels.{
  IsResting, IsLevel, Levels, IsSide, is_buy, queue, Levels-has, collect-update_fresh,
  Levels-update, Levels-update_fresh, tail_fresh, find-collect,
}

module _ (st : SideType) (lv : ℕ → Option PriceLevel) (price : ℕ) where
  -- An order at another price is not in a level.
  absent_elsewhere :
      (k p : ℕ) (l : PriceLevel) (node : OrderNode) (rest : List OrderNode)
      → IsLevel st p l
      → p ≢ price
      → node.price ≡ price
      → find k (l.orders ++ rest) ≡ some node
      → find k l.orders ≡ none
  absent_elsewhere k p l node rest h ne e f = elim (Option-cases (find k l.orders)) [
    | inl gone ↦ gone
    | inr (m, here) ↦
        let same : m ≡ node =
          (let f' : some m ≡ some node = rw (find-append, here) at f in ground arith) in
        let priced : m.price ≡ p = (find-All (IsResting st p) k l.orders h.resting here).at_price in
        let priced' : node.price ≡ p = subst (λ x. x.price ≡ p) same priced in
        absurd (ne (sym priced' ∙ e))
  ]

  -- An edit of the level that holds the order is an edit of the queue.
  pub collect-edit :
      (g : List OrderNode → List OrderNode) (k : ℕ) (l l' : PriceLevel) (node : OrderNode)
      → IsEdit k g
      → lv price ≡ some l
      → l'.orders ≡ g l.orders
      → node.price ≡ price
      → find k l.orders ≡ some node
      → (ps : List ℕ) → IsSorted (is_buy st) ps
      → Levels st lv ps
      → has price ps ≡ true
      → find k (collect lv ps) ≡ some node
      → collect (update lv price (some l')) ps ≡ g (collect lv ps)
  unfolding collect
  collect-edit g k l l' node ed e el ep fl [] s h i f = cc
  collect-edit g k l l' node ed e el ep fl (p ∷ ps) s h i f = elim (Bool-cases (p == price)) [
    | inl same ↦
        let p_eq : p ≡ price = ground arith in
        let worse : All (λ q. Worse (is_buy st) q price) ps = rw p_eq at s.0 in
        rw
          (
            p_eq,
            update_self lv price,
            e,
            el,
            collect-update_fresh st lv price (some l') ps (tail_fresh (is_buy st) price ps worse),
          )
          (sym (ed.stays l.orders (collect lv ps) node fl))
    | inr other ↦
        let differs : p ≢ price = ground arith in
        let f' : find k (k_level h).orders ≡ none =
          absent_elsewhere k p (k_level h) node (collect lv ps) h.0.2 differs ep (rw h.0.1 at f) in
        let rest : find k (collect lv ps) ≡ some node = rw (h.0.1, find-append, f') at f in
        rw
          (
            update_ne lv price (some l') p differs,
            collect-edit g k l l' node ed e el ep fl ps s.1 h.1 (rw other at i) rest,
            h.0.1,
          )
          (sym (ed.skips (k_level h).orders (collect lv ps) f'))
  ]
    where
      k_level : Levels st lv (p ∷ ps) → PriceLevel
      k_level h' = h'.0.0

  -- When the level is left empty it goes, with its price.
  collect-drop :
      (g : List OrderNode → List OrderNode) (k : ℕ) (l : PriceLevel) (node : OrderNode)
      → IsEdit k g
      → lv price ≡ some l
      → g l.orders ≡ []
      → node.price ≡ price
      → find k l.orders ≡ some node
      → (ps : List ℕ) → IsSorted (is_buy st) ps
      → Levels st lv ps
      → has price ps ≡ true
      → find k (collect lv ps) ≡ some node
      → collect (update lv price none) (remove_price price ps) ≡ g (collect lv ps)
  unfolding collect
  collect-drop g k l node ed e el ep fl [] s h i f = cc
  collect-drop g k l node ed e el ep fl (p ∷ ps) s h i f = elim (Bool-cases (p == price)) [
    | inl same ↦
        let p_eq : p ≡ price = ground arith in
        let worse : All (λ q. Worse (is_buy st) q price) ps = rw p_eq at s.0 in
        rw same (
          rw (p_eq, e, ed.stays l.orders (collect lv ps) node fl, el)
            (collect-update_fresh st lv price none ps (tail_fresh (is_buy st) price ps worse)))
    | inr other ↦
        let differs : p ≢ price = ground arith in
        let f' : find k h.0.0.orders ≡ none =
          absent_elsewhere k p h.0.0 node (collect lv ps) h.0.2 differs ep (rw h.0.1 at f) in
        let rest : find k (collect lv ps) ≡ some node = rw (h.0.1, find-append, f') at f in
        rw other (
          rw
            (
              update_ne lv price none p differs,
              collect-drop g k l node ed e el ep fl ps s.1 h.1 (rw other at i) rest,
              h.0.1,
            )
            (sym (ed.skips h.0.0.orders (collect lv ps) f')))
  ]

Levels-drop :
    (st : SideType) (lv : ℕ → Option PriceLevel) (price : ℕ) (ps : List ℕ)
    → IsSorted (is_buy st) ps
    → Levels st lv ps
    → Levels st (update lv price none) (remove_price price ps)
Levels-drop st lv price [] s k = tt
Levels-drop st lv price (p ∷ ps) s k = elim (Bool-cases (p == price)) [
  | inl same ↦
      let p_eq : p ≡ price = ground arith in
      rw same (
        Levels-update_fresh st lv price none ps (tail_fresh (is_buy st) price ps (rw p_eq at s.0))
          k.1)
  | inr other ↦
      let differs : p ≢ price = ground arith in
      rw other (
        (k.0.0, rw (update_ne lv price none p differs) k.0.1, k.0.2),
        Levels-drop st lv price ps s.1 k.1,
      )
]

-- The level of an order that a well-formed side holds.
pub record Held (st : SideType) (s : Side) (k : ℕ) (node : OrderNode) : Type 0 where
  pub level : PriceLevel
  pub found : s.price_levels node.price ≡ some level
  pub ok : IsLevel st node.price level
  pub listed : has node.price s.sorted_prices ≡ true
  pub here : find k level.orders ≡ some node

pub held :
    (st : SideType) (s : Side) (k : ℕ) (node : OrderNode)
    → IsSide st s
    → find k (queue s) ≡ some node
    → Held st s k node
unfolding queue
held st s k node h f =
    let (there, seen) = find-collect st s.price_levels k s.sorted_prices node h.levels f in
    let (l, e, ok) = Levels-has st s.price_levels node.price s.sorted_prices h.levels there in
    record { level = l; found = e; ok = ok; listed = there; here = rw e at seen }

drop_level_kept :
    (s : Side) (price : ℕ) (l : PriceLevel) (os : List OrderNode)
    → os ≢ []
    → drop_level s price l os
      ≡ some (record s { price_levels = update s.price_levels price (some l) })
unfolding drop_level
drop_level_kept s price l [] h = absurd (h refl)
drop_level_kept s price l (o ∷ os) h = refl

-- What the removal of an order promises of the side.
pub record TakenOut (st : SideType) (s : Side) (node : OrderNode) : Type 0 where
  pub side : Side
  pub done : take_out s node ≡ some side
  pub well_formed : IsSide st side
  pub queued : queue side ≡ remove_order node.order_id (queue s)

module _ (st : SideType) (s : Side) (node : OrderNode) (h : IsSide st s)
    (f : find node.order_id (queue s) ≡ some node) where
  d : Held st s node.order_id node
  d = held st s node.order_id node h f

  after : PriceLevel
  unfolding d
  after = record d.level {
    total_qty = d.level.total_qty - node.remaining_qty;
    orders = remove_order node.order_id d.level.orders;
  }

  after-IsLevel : after.orders ≢ [] → IsLevel st node.price after
  unfolding after d
  after-IsLevel ne = record {
    price_kept = d.ok.price_kept;
    total_kept =
        let t = total-remove node.order_id d.level.orders d.here in
        let t' = d.ok.total_kept in omega arith;
    resting = remove-All (IsResting st node.price) node.order_id d.level.orders d.ok.resting;
    nonempty = ne;
  }

  -- The removal succeeds and takes just this order out of the queue.
  pub take_out_lem : TakenOut st s node
  unfolding take_out drop_level queue after d
  take_out_lem = go (remove_order node.order_id d.level.orders) refl
    where
      sorted : IsSorted s.is_bid s.sorted_prices
      sorted = rw h.bid h.sorted

      go :
          (os : List OrderNode)
          → remove_order node.order_id d.level.orders ≡ os
          → TakenOut st s node
      go [] e = record {
        side = record s {
          price_levels = update s.price_levels node.price none;
          sorted_prices = remove_price node.price s.sorted_prices;
        };
        done = rw (d.found, e) (rw (remove_at_sorted s node.price sorted d.listed));
        well_formed = record {
          bid = h.bid;
          sorted = remove_price-IsSorted (is_buy st) node.price s.sorted_prices h.sorted;
          levels = Levels-drop st s.price_levels node.price s.sorted_prices h.sorted h.levels;
          keys = λ p m found.
              ground (arith, h.keys p m, has-remove_price (is_buy st) node.price p s.sorted_prices);
        };
        queued =
            collect-drop st s.price_levels node.price (remove_order node.order_id) node.order_id
              d.level node (remove-IsEdit node.order_id) d.found e refl d.here s.sorted_prices
              h.sorted h.levels d.listed f;
      }
      go (o ∷ os) e = record {
        side = record s { price_levels = update s.price_levels node.price (some after) };
        done = rw d.found (
            drop_level_kept s node.price after (remove_order node.order_id d.level.orders)
              (λ n. cc));
        well_formed = record {
          bid = h.bid;
          sorted = h.sorted;
          levels =
              Levels-update st s.price_levels node.price after (after-IsLevel (λ n. cc))
                s.sorted_prices h.levels;
          keys = λ p m found. ground (arith, h.keys p m, d.listed);
        };
        queued =
            collect-edit st s.price_levels node.price (remove_order node.order_id) node.order_id
              d.level after node (remove-IsEdit node.order_id) d.found refl refl d.here
              s.sorted_prices h.sorted h.levels d.listed f;
      }
