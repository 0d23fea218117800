-- ===== src/Orders/Fills.antt =====
-- A trade's fill of its two orders keeps the tables good.
use Prim.Native.String.{String}
use text.Mathlib.Text.{◌==◌ as same_text}
use text.Mathlib.TextEquality.{eq_iff}
use tradedrift.Base.{
  and_left, negated, ℕ, ◌≤◌, ◌≡◌, refl, sym, subst, Option, none, some, true, false, List, [], ◌∷◌,
  ◌++◌, All, leb, leb→le, if◌then◌else◌, any_row, update_rows, Bool-cases, inl, inr,
}
use tradedrift.Base.Outcomes.{ok}
use tradedrift.Base.Post.{
  Post, Post-require, Post-check, Post-then, Post-step, Post-if, Post-map, check-true, both_pass,
}
use tradedrift.Base.Swaps.{
  Swaps, Swaps-All, Swaps-All_old, update_rows-Swaps, first_row-Only, first_row-true,
}
use tradedrift.Orders.Table.{
  OrderSide, side_buy, side_sell, OrderStatus, open_order, partially_filled, filled, cancelling,
  cancelled, Order, OrderTables, is_unsettled, is_fillable, same_side,
}
use tradedrift.Orders.Repository.{
  order_of, enqueue_release, fill_row, fill_status, lock_order, validate_fill, fill_order,
  apply_new_fill, apply_trade_fill, same_order,
}
use tradedrift.Orders.Lifecycle.{
  order_key, GoodOrders, Good, enqueue_holds, enqueue_keeps, swapped-GoodOrders,
  fill_row-IsConsistent,
}

-- The rows of the order's id are the order.
abbrev Only : Order → List Order → Type 0
Only o orders = All (λ y. same_text y.id o.id ≡ true → y ≡ o) orders

-- A locked order of a trade that can take the fill.
abbrev Fillable : ℕ → Option Order → List Order → Type 0
Fillable quantity none orders = Unit
Fillable quantity (some o) orders =
    Only o orders × (is_fillable o.status ≡ true) × (quantity ≤ o.remaining_quantity)

abbrev Apart : Option Order → Option Order → Type 0
Apart (some a) (some b) = same_text a.id b.id ≡ false
Apart _ _ = Unit

fill_status_settled :
    (s : OrderStatus) → is_unsettled (fill_status s) ≡ false → is_unsettled s ≡ false
fill_status_settled open_order h = cc
fill_status_settled partially_filled h = cc
fill_status_settled filled h = cc
fill_status_settled cancelling h = cc
fill_status_settled cancelled h = refl

module _ {P : Type 0} (quantity : ℕ) (o : Order) (db : OrderTables P) (good : Good db)
    (fillable : Fillable quantity (some o) db.orders) where
  filled-Good :
      {orders : List Order}
      → Swaps o (fill_row quantity o) db.orders orders
      → GoodOrders orders (
          if leb o.remaining_quantity quantity
          then enqueue_release o.id db.wallet_releases
          else db.wallet_releases)
  unfolding fill_row
  filled-Good s =
      let fits = fill_row-IsConsistent quantity o fillable.2 (Swaps-All_old _ s good.consistent) in
      elim (Bool-cases (leb o.remaining_quantity quantity)) [
        | inl t ↦ rw t (
            swapped-GoodOrders db.wallet_releases (enqueue_release o.id db.wallet_releases) refl s
              fits (λ u. enqueue_holds o.id db.wallet_releases)
              (λ other h. enqueue_keeps o.id other db.wallet_releases h) good)
        | inr n ↦ rw n (
            swapped-GoodOrders db.wallet_releases db.wallet_releases refl s fits
              (λ u. Swaps-All_old _ s good.queued (
                fill_status_settled o.status (
                  subst (λ b. is_unsettled (if b then filled else fill_status o.status) ≡ false) n
                    u)))
              (λ other h. h) good)
      ]

  fill_locked-Good :
      (side : OrderSide)
      → Post
          (λ (d : OrderTables P).
            Good d
            × ((p : Order) → same_text o.id p.id ≡ false → Only p db.orders → Only p d.orders))
          (fill_order (some o) side quantity db)
  unfolding fill_order fill_row
  fill_locked-Good side = Post-require _ (update_rows _ _ db.orders) _ _ λ orders found.
      let (x, s, t) =
        update_rows-Swaps order_key _ (fill_row quantity) o.id
          (λ a h. and_left (same_text a.id o.id) (same_side a.side side) h) db.orders orders
          good.ids found in
      let same = Swaps-All_old _ s fillable.0 (and_left _ (same_side x.side side) t) in
      let s' = subst (λ v. Swaps v (fill_row quantity v) db.orders orders) same s in
      (filled-Good s', λ p away only. Swaps-All _ s' (λ e. cc (away, e)) only)

-- The half of a trade's second order is not touched by the first.
fill_order-Good :
    {P : Type 0} (quantity : ℕ) (res other : Option Order) (side : OrderSide) (db : OrderTables P)
    → Good db
    → Fillable quantity res db.orders
    → Apart res other
    → Fillable quantity other db.orders
    → Post
        (λ (d : OrderTables P). Good d × Fillable quantity other d.orders)
        (fill_order res side quantity db)
unfolding fill_order
fill_order-Good quantity none other side db good h apart next = (good, next)
fill_order-Good {P = P} quantity (some o) none side db good h apart next =
    Post-map (λ (d : OrderTables P). Good d × Unit) _ (fill_order (some o) side quantity db)
      (λ d g. (g.0, tt)) (fill_locked-Good quantity o db good h side)
fill_order-Good {P = P} quantity (some o) (some p) side db good h apart next =
    Post-map (λ (d : OrderTables P). Good d × Fillable quantity (some p) d.orders) _
      (fill_order (some o) side quantity db) (λ d g. (g.0, (g.1 p apart next.0, next.1, next.2)))
      (fill_locked-Good quantity o db good h side)

none-Apart : (x : Option Order) → Apart x none
none-Apart none = tt
none-Apart (some x) = tt

-- The order that a lock returns.
abbrev IsLocked : {P : Type 0} → Option String → OrderTables P → Option Order → Type 0
IsLocked none db none = Unit
IsLocked (some id) db (some o) = (o.id ≡ id) × Only o db.orders
IsLocked _ db _ = true ≡ false

lock_order-IsLocked :
    {P : Type 0} (id : Option String) (db : OrderTables P)
    → Good db
    → Post (IsLocked id db) (lock_order id db)
unfolding lock_order order_of
lock_order-IsLocked none db good = tt
lock_order-IsLocked (some id) db good = Post-require _ (order_of id db.orders) _ _ λ o found. (
  (eq_iff o.id id).0 (first_row-true (λ (x : Order). same_text x.id id) db.orders found),
  first_row-Only order_key (λ y. y ≡ o) _ db.orders good.ids found refl,
)

validated-Fillable :
    {P : Type 0} (id : Option String) (res : Option Order) (side : OrderSide) (quantity : ℕ)
    (db : OrderTables P)
    → IsLocked id db res
    → validate_fill res side quantity ≡ ok tt
    → Fillable quantity res db.orders
unfolding validate_fill
validated-Fillable none none side quantity db locked v = tt
validated-Fillable none (some o) side quantity db locked v = cc
validated-Fillable (some id) none side quantity db locked v = cc
validated-Fillable (some id) (some o) side quantity db locked v =
    let (side_ok, rest) = both_pass _ _ v in
    let (fillable, enough) = both_pass _ _ rest in
    (
      locked.1,
      check-true _ _ fillable,
      leb→le quantity o.remaining_quantity (check-true _ _ enough),
    )

locked-Apart :
    {P : Type 0} (a b : Option String) (x y : Option Order) (db : OrderTables P)
    → IsLocked a db x
    → IsLocked b db y
    → same_order a b ≡ false
    → Apart x y
unfolding same_order
locked-Apart none b none y db h k e = tt
locked-Apart none b (some x) y db h k e = cc
locked-Apart (some a) none x none db h k e = none-Apart x
locked-Apart (some a) none x (some y) db h k e = cc
locked-Apart (some a) (some b) none y db h k e = cc
locked-Apart (some a) (some b) (some x) none db h k e = cc
locked-Apart (some a) (some b) (some x) (some y) db h k e =
    subst (λ i. same_text i y.id ≡ false) (sym h.0) (subst (λ i. same_text a i ≡ false) (sym k.0) e)

apply_new_fill-Good :
    {P : Type 0} (trade : String) (buy_id sell_id : Option String) (quantity : ℕ)
    (db : OrderTables P)
    → Good db
    → same_order buy_id sell_id ≡ false
    → Post Good (apply_new_fill trade buy_id sell_id quantity db)
unfolding apply_new_fill
apply_new_fill-Good {P = P} trade buy_id sell_id quantity db good differ =
    let recorded : OrderTables P = record db {
      processed_trades = db.processed_trades ++ (trade ∷ []);
    } in
    Post-step _ _ _ _ (lock_order-IsLocked buy_id db good) λ buy buy_locked.
      Post-step _ _ _ _ (lock_order-IsLocked sell_id db good) λ sell sell_locked.
        Post-then _ _ _ λ buy_ok. Post-then _ _ _ λ sell_ok. Post-check _ _ _ _ λ _.
          Post-step _ _ _ _
            (fill_order-Good quantity buy sell side_buy recorded good
              (validated-Fillable buy_id buy side_buy quantity db buy_locked buy_ok)
              (locked-Apart buy_id sell_id buy sell db buy_locked sell_locked differ)
              (validated-Fillable sell_id sell side_sell quantity db sell_locked sell_ok))
            λ bought (still, sell_fillable).
              Post-map Good _ _ (λ d g. g.0)
                (fill_order-Good quantity sell none side_sell bought still sell_fillable
                  (none-Apart sell) tt)

pub apply_trade_fill-Good :
    {P : Type 0} (trade : String) (buy_id sell_id : Option String) (quantity : Option ℕ)
    (db : OrderTables P)
    → Good db
    → Post Good (apply_trade_fill trade buy_id sell_id quantity db)
unfolding apply_trade_fill
apply_trade_fill-Good trade buy_id sell_id quantity db good = Post-require _ quantity _ _ λ n _.
    Post-check _ _ _ _ λ _. Post-check _ _ _ _ λ differ.
      Post-if Good (any_row (same_text trade) db.processed_trades) _ _ good
        (apply_new_fill-Good trade buy_id sell_id n db good (negated _ differ))
