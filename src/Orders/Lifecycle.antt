-- ===== src/Orders/Lifecycle.antt =====
-- The calls of the order service as steps on its tables, and the invariant of the tables.
use Prim.Native.String.{String}
use text.Mathlib.Text.{◌==◌ as same_text}
use text.Mathlib.TextPositions.{eq_refl}
use tradedrift.Base.{
  ℕ, ◌+◌, ◌≤◌, ◌<◌, ◌≡◌, refl, sym, subst, Option, none, some, true, false, List, [], ◌∷◌, ◌++◌,
  All, All-append, All-map, arith, leb, leb→le, leb_false→lt, if◌then◌else◌, any_row, Bool-cases,
  inl, inr,
}
use tradedrift.Base.Outcomes.{Outcome, ok, failed}
use tradedrift.Base.Swaps.{
  Unique, Unique-append, Unique-Swaps, Swaps, Swaps-All, any_row-append, any_row-append_left,
}
use tradedrift.Orders.Table.{
  OrderStatus, open_order, partially_filled, filled, cancelling, cancelled, Order, OrderTables,
  OrderError, is_cancellable, is_unsettled,
}
use tradedrift.Orders.Repository.{
  create_order, update_status_to_cancelling, start_cancel, enqueue_release, fill_row, fill_status,
  apply_trade_fill, cancel_row, mark_order_cancelled, absent_row, reconcile_absent_order,
}

-- A call on the orders; `P` is the type of the payloads.
pub data OrderCall (P : Type 0) : Type 0 where
  create_call : Order → Option P → OrderCall P
  cancel_call : Order → P → OrderCall P
  fill_call : String → Option String → Option String → Option ℕ → OrderCall P
  cancelled_call : String → OrderCall P
  absent_call : String → OrderCall P

abbrev pub committed :
    {P : Type 0} → Outcome OrderError (OrderTables P) → OrderTables P → OrderTables P
committed (ok db) before = db
committed (failed e) before = before

abbrev pub written : {P : Type 0} → Option (OrderTables P) → OrderTables P → OrderTables P
written (some db) before = db
written none before = before

unfoldable pub perform : {P : Type 0} → OrderCall P → OrderTables P → OrderTables P
perform (create_call o payload) db = committed (create_order o payload db) db
perform (cancel_call o payload) db = committed (update_status_to_cancelling o payload db) db
perform (fill_call trade buy sell quantity) db =
    committed (apply_trade_fill trade buy sell quantity db) db
perform (cancelled_call id) db = written (mark_order_cancelled id db) db
perform (absent_call id) db = written (reconcile_absent_order id db) db

unfoldable pub perform_all : {P : Type 0} → List (OrderCall P) → OrderTables P → OrderTables P
perform_all [] db = db
perform_all (c ∷ cs) db = perform_all cs (perform c db)

-- A status against the filled and the remaining quantity.
abbrev pub Fits : OrderStatus → ℕ → ℕ → Type 0
Fits open_order done left = done ≡ 0
Fits filled done left = left ≡ 0
Fits _ done left = 0 < left

-- A row: its quantity is its filled and its remaining part, and its status fits them.
abbrev pub IsConsistent : Order → Type 0
IsConsistent o =
    (o.quantity ≡ o.filled_quantity + o.remaining_quantity)
    × (0 < o.quantity)
    × Fits o.status o.filled_quantity o.remaining_quantity

-- The order waits for its release, if it is filled or cancelled.
abbrev pub IsQueued : List String → Order → Type 0
IsQueued releases o = is_unsettled o.status ≡ false → any_row (same_text o.id) releases ≡ true

abbrev pub order_key : Order → String
order_key o = o.id

pub record GoodOrders (orders : List Order) (releases : List String) : Type 0 where
  pub ids : Unique order_key orders
  pub consistent : All IsConsistent orders
  pub queued : All (IsQueued releases) orders

abbrev pub Good : {P : Type 0} → OrderTables P → Type 0
Good db = GoodOrders db.orders db.wallet_releases

-- The row of an order as PlaceOrder makes it.
pub record IsNew (o : Order) : Type 0 where
  pub unfilled : o.filled_quantity ≡ 0
  pub whole : o.remaining_quantity ≡ o.quantity
  pub positive : 0 < o.quantity
  pub opened : o.status ≡ open_order

abbrev pub IsAllowed : {P : Type 0} → OrderCall P → Type 0
IsAllowed (create_call o payload) = IsNew o
IsAllowed _ = Unit

pub enqueue_holds :
    (id : String) (releases : List String)
    → any_row (same_text id) (enqueue_release id releases) ≡ true
unfolding enqueue_release
enqueue_holds id releases = elim (Bool-cases (any_row (same_text id) releases)) [
  | inl t ↦ rw t t
  | inr n ↦ rw n (any_row-append (same_text id) releases id (eq_refl id))
]

pub enqueue_keeps :
    (id other : String) (releases : List String)
    → any_row (same_text other) releases ≡ true
    → any_row (same_text other) (enqueue_release id releases) ≡ true
unfolding enqueue_release
enqueue_keeps id other releases h = elim (Bool-cases (any_row (same_text id) releases)) [
  | inl t ↦ rw t h
  | inr n ↦ rw n (any_row-append_left (same_text other) releases id h)
]

-- One order is replaced by a row of its id.
pub swapped-GoodOrders :
    {x y : Order} {orders orders' : List Order} (releases releases' : List String)
    → y.id ≡ x.id
    → Swaps x y orders orders'
    → IsConsistent y
    → IsQueued releases' y
    → ((id : String)
        → any_row (same_text id) releases ≡ true
        → any_row (same_text id) releases' ≡ true)
    → GoodOrders orders releases
    → GoodOrders orders' releases'
swapped-GoodOrders {orders = orders} releases releases' same s fits queued more good = record {
  ids = Unique-Swaps order_key same s good.ids;
  consistent = Swaps-All IsConsistent s fits good.consistent;
  queued = Swaps-All (IsQueued releases') s queued (
      All-map (IsQueued releases) (IsQueued releases') orders (λ o h u. more o.id (h u))
        good.queued);
}

-- A new order at the end.
pub created-GoodOrders :
    (o : Order) (orders : List Order) (releases : List String)
    → IsNew o
    → All (λ x. same_text x.id o.id ≡ false) orders
    → GoodOrders orders releases
    → GoodOrders (orders ++ (o ∷ [])) releases
created-GoodOrders o orders releases new fresh good = record {
  ids = Unique-append order_key o orders good.ids fresh;
  consistent = All-append IsConsistent orders (o ∷ []) good.consistent (
    (
      omega (arith, new.unfilled, new.whole),
      new.positive,
      subst (λ s. Fits s o.filled_quantity o.remaining_quantity) (sym new.opened) new.unfilled,
    ),
    tt,
  );
  queued =
      All-append (IsQueued releases) orders (o ∷ []) good.queued ((λ u. cc (new.opened, u)), tt);
}

-- An order that is not settled has something left.
left_over :
    (s : OrderStatus) (quantity done left : ℕ)
    → is_unsettled s ≡ true
    → quantity ≡ done + left
    → 0 < quantity
    → Fits s done left
    → 0 < left
left_over open_order quantity done left u e p f = omega (arith, e, p, f)
left_over partially_filled quantity done left u e p f = f
left_over filled quantity done left u e p f = cc
left_over cancelling quantity done left u e p f = f
left_over cancelled quantity done left u e p f = cc

pub cancellable_unsettled : (s : OrderStatus) → is_cancellable s ≡ true → is_unsettled s ≡ true
cancellable_unsettled open_order h = refl
cancellable_unsettled partially_filled h = refl
cancellable_unsettled filled h = cc
cancellable_unsettled cancelling h = cc
cancellable_unsettled cancelled h = cc

pub cancel_row-IsConsistent :
    (o : Order) → is_unsettled o.status ≡ true → IsConsistent o → IsConsistent (cancel_row o)
cancel_row-IsConsistent o u h = (h.0, h.1, left_over o.status o.quantity _ _ u h.0 h.1 h.2)

pub start_cancel-IsConsistent :
    (o : Order) → is_cancellable o.status ≡ true → IsConsistent o → IsConsistent (start_cancel o)
start_cancel-IsConsistent o u h =
    (h.0, h.1, left_over o.status o.quantity _ _ (cancellable_unsettled o.status u) h.0 h.1 h.2)

pub absent_row-IsConsistent :
    (o : Order) → is_unsettled o.status ≡ true → IsConsistent o → IsConsistent (absent_row o)
absent_row-IsConsistent o u h = elim (Bool-cases (leb o.quantity o.filled_quantity)) [
  | inl t ↦ rw t (omega (arith, h.0, leb→le o.quantity o.filled_quantity t), h.1, refl)
  | inr n ↦ rw n (h.0, h.1, left_over o.status o.quantity _ _ u h.0 h.1 h.2)
]

capped : (most n : ℕ) → n ≤ most → (if leb most n then most else n) ≡ n
capped most n h = ground arith

fill_status-Fits : (s : OrderStatus) (done left : ℕ) → 0 < left → Fits (fill_status s) done left
fill_status-Fits open_order done left h = h
fill_status-Fits partially_filled done left h = h
fill_status-Fits filled done left h = h
fill_status-Fits cancelling done left h = h
fill_status-Fits cancelled done left h = h

pub fill_row-IsConsistent :
    (quantity : ℕ) (o : Order)
    → quantity ≤ o.remaining_quantity
    → IsConsistent o
    → IsConsistent (fill_row quantity o)
unfolding fill_row
fill_row-IsConsistent quantity o enough h =
    rw (capped o.quantity (o.filled_quantity + quantity) (omega (arith, h.0, enough))) (
      omega (arith, h.0, enough),
      h.1,
      elim (Bool-cases (leb o.remaining_quantity quantity)) [
        | inl t ↦ rw t (omega (arith, leb→le o.remaining_quantity quantity t))
        | inr n ↦ rw n (
            fill_status-Fits o.status _ _
              (omega (arith, leb_false→lt o.remaining_quantity quantity n)))
      ],
    )
