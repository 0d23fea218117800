-- ===== src/Matching/Reduce.antt =====
-- The write of a partial fill: the order keeps its place in the queue and shrinks there.
use tradedrift.Base.{
  ℕ, ◌+◌, ◌-◌, ◌<◌, ◌≡◌, refl, ◌≢◌, ap, subst, inl, inr, List, [], ◌∷◌, ◌++◌, none, some, ◌==◌,
  if◌then◌else◌, arith, All, Bool-cases, update,
}
use tradedrift.OrderBook.{SideType, OrderNode, PriceLevel, Side}
use tradedrift.Matcher.Ops.{replace_order}
use tradedrift.Matching.Orders.{find, IsDistinct, total_remaining, IsEdit}
use tradedrift.Matching.Levels.{IsResting, IsSide, queue, Levels-update}
use tradedrift.Matching.TakeOut.{held, collect-edit}

replace_skips :
    (m : OrderNode) (xs ys : List OrderNode)
    → find m.order_id xs ≡ none
    → replace_order m (xs ++ ys) ≡ xs ++ replace_order m ys
replace_skips m [] ys h = refl
replace_skips m (x ∷ xs) ys h = elim (Bool-cases (x.order_id == m.order_id)) [
  | inl e ↦ absurd (clash (rw e at h))
  | inr e ↦ rw e (ap (λ l. x ∷ l) (replace_skips m xs ys (rw e at h)))
]
  where
    clash : some x ≡ none → ⊥
    clash e = cc

replace_stays :
    (m : OrderNode) (xs ys : List OrderNode) (n : OrderNode)
    → find m.order_id xs ≡ some n
    → replace_order m (xs ++ ys) ≡ replace_order m xs ++ ys
replace_stays m [] ys n h = cc
replace_stays m (x ∷ xs) ys n h = elim (Bool-cases (x.order_id == m.order_id)) [
  | inl e ↦ rw e
  | inr e ↦ rw e (ap (λ l. x ∷ l) (replace_stays m xs ys n (rw e at h)))
]

replace-IsEdit : (m : OrderNode) → IsEdit m.order_id (replace_order m)
replace-IsEdit m = record { skips = replace_skips m; stays = replace_stays m }

replace-All :
    (P : OrderNode → Type 0) (m : OrderNode) (ns : List OrderNode)
    → P m
    → All P ns
    → All P (replace_order m ns)
replace-All P m [] pm a = a
replace-All P m (n ∷ ns) pm a = elim (Bool-cases (n.order_id == m.order_id)) [
  | inl e ↦ rw e (pm, a.1)
  | inr e ↦ rw e (a.0, replace-All P m ns pm a.1)
]

pub total-replace :
    (m n : OrderNode) (ns : List OrderNode)
    → find m.order_id ns ≡ some n
    → total_remaining (replace_order m ns) + n.remaining_qty ≡ total_remaining ns + m.remaining_qty
total-replace m n [] h = cc
total-replace m n (x ∷ xs) h = elim (Bool-cases (x.order_id == m.order_id)) [
  | inl e ↦ ground arith
  | inr e ↦ let ih = total-replace m n xs (rw e at h) in rw e (omega (arith, ih))
]

pub find-replace :
    (m n : OrderNode) (j : ℕ) (ns : List OrderNode)
    → find m.order_id ns ≡ some n
    → find j (replace_order m ns) ≡ (if m.order_id == j then some m else find j ns)
find-replace m n j [] h = cc
find-replace m n j (x ∷ xs) h = elim (Bool-cases (x.order_id == m.order_id)) [
  | inl e ↦ rw e (ground arith)
  | inr e ↦ rw e (ground (arith, find-replace m n j xs))
]

-- An order that is not there is still not there.
find-replace_none :
    (m : OrderNode) (j : ℕ) (ns : List OrderNode)
    → find j ns ≡ none
    → find j (replace_order m ns) ≡ none
find-replace_none m j [] h = refl
find-replace_none m j (x ∷ xs) h = ground (arith, find-replace_none m j xs)

pub replace-IsDistinct :
    (m : OrderNode) (ns : List OrderNode) → IsDistinct ns → IsDistinct (replace_order m ns)
replace-IsDistinct m [] d = d
replace-IsDistinct m (n ∷ ns) d = elim (Bool-cases (n.order_id == m.order_id)) [
  | inl e ↦
      let e' : n.order_id ≡ m.order_id = ground arith in
      rw e (subst (λ k. find k ns ≡ none) e' d.0, d.1)
  | inr e ↦ rw e (find-replace_none m n.order_id ns d.0, replace-IsDistinct m ns d.1)
]

replace-ne : (m : OrderNode) (ns : List OrderNode) → ns ≢ [] → replace_order m ns ≢ []
replace-ne m [] h = h
replace-ne m (n ∷ ns) h = ground arith

abbrev pub reduce : OrderNode → ℕ → OrderNode
reduce node qty = record node { remaining_qty = node.remaining_qty - qty }

-- What the reduction of an order promises of the side.
pub record Reduced (st : SideType) (s : Side) (node : OrderNode) (qty : ℕ) : Type 0 where
  pub level : PriceLevel
  pub found : s.price_levels node.price ≡ some level
  pub after : PriceLevel
  pub after_is : after ≡ record level {
    orders = replace_order (reduce node qty) level.orders;
    total_qty = level.total_qty - qty;
  }
  pub well_formed :
      IsSide st (record s { price_levels = update s.price_levels node.price (some after) })
  pub queued :
      queue (record s { price_levels = update s.price_levels node.price (some after) })
      ≡ replace_order (reduce node qty) (queue s)

module _ (st : SideType) (s : Side) (node : OrderNode) (qty : ℕ) where
  pub reduce_lem :
      IsSide st s
      → find node.order_id (queue s) ≡ some node
      → IsResting st node.price node
      → qty < node.remaining_qty
      → Reduced st s node qty
  unfolding queue
  reduce_lem h f r lt =
      let d = held st s node.order_id node h f in
      let m = reduce node qty in
      let l' : PriceLevel = record {
        price = d.level.price;
        orders = replace_order m d.level.orders;
        total_qty = d.level.total_qty - qty;
      } in
      let t = total-replace m node d.level.orders d.here in
      record {
        level = d.level;
        found = d.found;
        after = l';
        after_is = refl;
        well_formed = record {
          bid = h.bid;
          sorted = h.sorted;
          levels =
              Levels-update st s.price_levels node.price l'
                (record {
                  price_kept = d.ok.price_kept;
                  total_kept = (let t' = d.ok.total_kept in omega arith);
                  resting =
                      replace-All (IsResting st node.price) m d.level.orders
                        (record {
                          at_price = refl;
                          positive = omega arith;
                          on_side = r.on_side;
                          is_limit = r.is_limit;
                        })
                        d.ok.resting;
                  nonempty = replace-ne m d.level.orders d.ok.nonempty;
                })
                s.sorted_prices h.levels;
          keys = λ p x found. ground (arith, h.keys p x, d.listed);
        };
        queued =
            collect-edit st s.price_levels node.price (replace_order m) node.order_id d.level l'
              node (replace-IsEdit m) d.found refl refl d.here s.sorted_prices h.sorted h.levels
              d.listed f;
      }
