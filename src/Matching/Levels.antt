-- ===== src/Matching/Levels.antt =====
-- A side as one queue: its levels' lists, best price first. What makes a side well formed, and what
-- a write to one level does to the queue.
use tradedrift.Base.{
  ℕ, ◌<◌, ◌≡◌, refl, ◌≢◌, sym, ap, subst, inl, inr, List, [], ◌∷◌, ◌++◌, Option, none, some, Bool,
  true, false, ◌==◌, arith, All, All-append, All-map, Bool-cases, Option-cases, update, update_self,
  update_ne,
}
use tradedrift.OrderBook.{SideType, buy, sell, limit, OrderNode, PriceLevel, Side}
use tradedrift.Matcher.Ops.{level_orders, collect}
use tradedrift.Matching.Prices.{Worse, IsSorted, Worse-ne}
use tradedrift.Matching.Slice.{has}
use tradedrift.Matching.Orders.{find, find-append, find-All, total_remaining}

unfoldable pub queue : Side → List OrderNode
unfolding collect
queue s = collect s.price_levels s.sorted_prices

abbrev pub is_buy : SideType → Bool
is_buy buy = true
is_buy sell = false

-- An order that may rest on a side at a price.
pub record IsResting (st : SideType) (p : ℕ) (n : OrderNode) : Type 0 where
  pub at_price : n.price ≡ p
  pub positive : 0 < n.remaining_qty
  pub on_side : n.side ≡ st
  pub is_limit : n.order_type ≡ limit

pub record IsLevel (st : SideType) (p : ℕ) (l : PriceLevel) : Type 0 where
  pub price_kept : l.price ≡ p
  pub total_kept : l.total_qty ≡ total_remaining l.orders
  pub resting : All (IsResting st p) l.orders
  pub nonempty : l.orders ≢ []

abbrev pub Levels : SideType → (ℕ → Option PriceLevel) → List ℕ → Type 0
Levels st lv [] = Unit
Levels st lv (p ∷ ps) = ((l : PriceLevel) × (lv p ≡ some l) × IsLevel st p l) × Levels st lv ps

-- The slice is sorted and holds exactly the prices that have a level.
pub record IsSide (st : SideType) (s : Side) : Type 0 where
  pub bid : s.is_bid ≡ is_buy st
  pub sorted : IsSorted (is_buy st) s.sorted_prices
  pub levels : Levels st s.price_levels s.sorted_prices
  pub keys : (p : ℕ) (l : PriceLevel) → s.price_levels p ≡ some l → has p s.sorted_prices ≡ true

module _ (st : SideType) (lv : ℕ → Option PriceLevel) where
  -- A price in the slice has a level.
  pub Levels-has :
      (p : ℕ) (ps : List ℕ)
      → Levels st lv ps
      → has p ps ≡ true
      → (l : PriceLevel) × (lv p ≡ some l) × IsLevel st p l
  Levels-has p [] h e = absurd (clash e)
    where
      clash : false ≡ true → ⊥
      clash e' = cc
  Levels-has p (q ∷ qs) h e = elim (Bool-cases (q == p)) [
    | inl s ↦
        let s' : q ≡ p = ground arith in
        subst (λ x. (l : PriceLevel) × (lv x ≡ some l) × IsLevel st x l) s' h.0
    | inr s ↦ Levels-has p qs h.1 (rw s at e)
  ]

  -- A write at a price that is not in the slice is not seen.
  pub collect-update_fresh :
      (p : ℕ) (v : Option PriceLevel) (ps : List ℕ)
      → All (λ q. q ≢ p) ps
      → collect (update lv p v) ps ≡ collect lv ps
  unfolding collect
  collect-update_fresh p v [] h = refl
  collect-update_fresh p v (q ∷ qs) h =
      rw (update_ne lv p v q h.0)
        (ap (λ l. level_orders (lv q) ++ l) (collect-update_fresh p v qs h.1))

  pub Levels-update_fresh :
      (p : ℕ) (v : Option PriceLevel) (ps : List ℕ)
      → All (λ q. q ≢ p) ps
      → Levels st lv ps
      → Levels st (update lv p v) ps
  Levels-update_fresh p v [] h k = tt
  Levels-update_fresh p v (q ∷ qs) h k =
      ((k.0.0, rw (update_ne lv p v q h.0) k.0.1, k.0.2), Levels-update_fresh p v qs h.1 k.1)

  -- A well-formed level may replace another.
  pub Levels-update :
      (price : ℕ) (l : PriceLevel)
      → IsLevel st price l
      → (ps : List ℕ) → Levels st lv ps
      → Levels st (update lv price (some l)) ps
  Levels-update price l h [] k = tt
  Levels-update price l h (p ∷ ps) k = elim (Bool-cases (p == price)) [
    | inl same ↦
        let p_eq : p ≡ price = ground arith in
        ((l, rw p_eq (update_self lv price (some l)), rw p_eq h), Levels-update price l h ps k.1)
    | inr other ↦
        let differs : p ≢ price = ground arith in
        (
          (k.0.0, rw (update_ne lv price (some l) p differs) k.0.1, k.0.2),
          Levels-update price l h ps k.1,
        )
  ]

  -- What holds of every resting order at a price of the slice holds of the whole queue.
  pub collect-All :
      (P : OrderNode → Type 0) (ps : List ℕ)
      → Levels st lv ps
      → All (λ p. (n : OrderNode) → IsResting st p n → P n) ps
      → All P (collect lv ps)
  unfolding collect
  collect-All P [] k h = tt
  collect-All P (p ∷ ps) k h =
      All-append P (level_orders (lv p)) (collect lv ps)
        (rw k.0.1 (All-map (IsResting st p) P k.0.0.orders h.0 k.0.2.resting))
        (collect-All P ps k.1 h.1)

  -- A price without a level is not in the slice.
  pub Levels-fresh : (p : ℕ) (ps : List ℕ) → lv p ≡ none → Levels st lv ps → All (λ q. q ≢ p) ps
  Levels-fresh p [] e k = tt
  Levels-fresh p (q ∷ qs) e k = (differs, Levels-fresh p qs e k.1)
    where
      differs : q ≢ p
      differs same = let found = k.0.1 in cc

-- In a sorted slice the first price does not come again.
pub tail_fresh : (b : Bool) (p : ℕ) (ps : List ℕ) → All (λ q. Worse b q p) ps → All (λ q. q ≢ p) ps
tail_fresh b p ps h = All-map (λ q. Worse b q p) (λ q. q ≢ p) ps (λ q w. Worse-ne b q p w) h

module _ (st : SideType) (lv : ℕ → Option PriceLevel) where
  -- An order that the queue shows stands in the level of its price.
  pub find-collect :
      (k : ℕ) (ps : List ℕ) (n : OrderNode)
      → Levels st lv ps
      → find k (collect lv ps) ≡ some n
      → (has n.price ps ≡ true) × (find k (level_orders (lv n.price)) ≡ some n)
  unfolding collect
  find-collect k [] n h e = absurd (clash e)
    where
      clash : none ≡ some n → ⊥
      clash e' = cc
  find-collect k (p ∷ ps) n h e = elim (Option-cases (find k (level_orders (lv p)))) [
    | inl absent ↦
        let (there, seen) = find-collect k ps n h.1 (rw (find-append, absent) at e) in
        (ground arith, seen)
    | inr (m, here) ↦
        let same : m ≡ n =
          (let e' : some m ≡ some n = rw (find-append, here) at e in ground arith) in
        let level : m.price ≡ p = priced m here in
        let level' : n.price ≡ p = rw (← same) level in
        (
          rw level' (ground arith),
          subst (λ x. find k (level_orders (lv x)) ≡ some n) (sym level') (rw same at here),
        )
  ]
    where
      priced : (m : OrderNode) → find k (level_orders (lv p)) ≡ some m → m.price ≡ p
      priced m here =
          (find-All (IsResting st p) k h.0.0.orders h.0.2.resting (rw h.0.1 at here)).at_price
