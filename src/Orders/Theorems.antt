-- ===== src/Orders/Theorems.antt =====
-- The theorems about the order service: the invariant of its tables under every sequence of calls, and
-- the repetition of a trade's fill.
use Prim.Native.String.{String}
use text.Mathlib.Text.{◌==◌ as same_text}
use text.Mathlib.TextPositions.{eq_refl}
use tradedrift.Base.{
  ℕ, ◌≡◌, ◌∙◌, refl, sym, subst, Option, none, some, true, not, List, [], ◌∷◌, All, ltb, any_row,
  update_rows,
}
use tradedrift.Base.Outcomes.{Outcome, ok, failed, require, check, ◌>>=◌, ◌>>◌}
use tradedrift.Base.Post.{
  Post, Post-require, Post-check, Post-then, Post-bind, Post-step, Post-map, Post-get, Post-choose,
}
use tradedrift.Base.Swaps.{any_row-append}
use tradedrift.Orders.Table.{OrderSide, side_buy, side_sell, Order, OrderTables, OrderError}
use tradedrift.Orders.Repository.{
  fill_order, apply_new_fill, apply_trade_fill, cancel_row, mark_order_cancelled, absent_row,
  reconcile_absent_order, same_order,
}
use tradedrift.Orders.Steps.{create_order-Good, update_status_to_cancelling-Good, settle_order-Good}
use tradedrift.Orders.Fills.{apply_trade_fill-Good}
use tradedrift.Orders.Lifecycle.{
  OrderCall, create_call, cancel_call, fill_call, cancelled_call, absent_call, committed, perform,
  perform_all, Good, IsAllowed, cancel_row-IsConsistent, absent_row-IsConsistent,
}

committed-Good :
    {P : Type 0} (m : Outcome OrderError (OrderTables P)) (db : OrderTables P)
    → Good db
    → Post Good m
    → Good (committed m db)
committed-Good (ok d) db good h = h
committed-Good (failed e) db good h = good

perform-Good :
    {P : Type 0} (c : OrderCall P) (db : OrderTables P)
    → IsAllowed c
    → Good db
    → Good (perform c db)
unfolding perform mark_order_cancelled reconcile_absent_order
perform-Good (create_call o payload) db allowed good =
    committed-Good _ db good (create_order-Good db good o payload allowed)
perform-Good (cancel_call o payload) db allowed good =
    committed-Good _ db good (update_status_to_cancelling-Good db good o payload)
perform-Good (fill_call trade buy sell quantity) db allowed good =
    committed-Good _ db good (apply_trade_fill-Good trade buy sell quantity db good)
perform-Good (cancelled_call id) db allowed good =
    settle_order-Good db good cancel_row id (λ o. refl) cancel_row-IsConsistent
perform-Good (absent_call id) db allowed good =
    settle_order-Good db good absent_row id (λ o. refl) absent_row-IsConsistent

-- Every sequence of creations of new orders, cancellations, fills and reconciliations keeps the
-- order tables good: ids are unique, an order's quantity is above zero and is its filled and
-- remaining part, its status fits them (an open order has no fill, a filled one has nothing left,
-- every other has something left), and every filled or cancelled order is queued for the release
-- of its reservation.
pub perform_all-Good :
    {P : Type 0} (cs : List (OrderCall P)) (db : OrderTables P)
    → All IsAllowed cs
    → Good db
    → Good (perform_all cs db)
unfolding perform_all
perform_all-Good [] db allowed good = good
perform_all-Good (c ∷ cs) db allowed good =
    perform_all-Good cs (perform c db) allowed.1 (perform-Good c db allowed.0 good)

fill_order-processed :
    {P : Type 0} (res : Option Order) (side : OrderSide) (quantity : ℕ) (db : OrderTables P)
    → Post
        (λ (d : OrderTables P). d.processed_trades ≡ db.processed_trades)
        (fill_order res side quantity db)
unfolding fill_order
fill_order-processed none side quantity db = refl
fill_order-processed (some o) side quantity db =
    Post-require _ (update_rows _ _ db.orders) _ _ λ orders _. refl

apply_new_fill-processed :
    {P : Type 0} (trade : String) (buy_id sell_id : Option String) (quantity : ℕ)
    (db : OrderTables P)
    → Post
        (λ (d : OrderTables P). any_row (same_text trade) d.processed_trades ≡ true)
        (apply_new_fill trade buy_id sell_id quantity db)
unfolding apply_new_fill
apply_new_fill-processed {P = P} trade buy_id sell_id quantity db = Post-bind _ _ _ λ buy _.
    Post-bind _ _ _ λ sell _. Post-then _ _ _ λ _. Post-then _ _ _ λ _. Post-check _ _ _ _ λ _.
      Post-step _ _ _ _ (fill_order-processed buy side_buy quantity _) λ bought same.
        Post-map (λ (d : OrderTables P). any_row (same_text trade) d.processed_trades ≡ true)
          (λ d. d.processed_trades ≡ bought.processed_trades)
          (fill_order sell side_sell quantity bought)
          (λ d also.
            subst (λ ts. any_row (same_text trade) ts ≡ true) (sym (also ∙ same))
              (any_row-append (same_text trade) db.processed_trades trade (eq_refl trade)))
          (fill_order-processed sell side_sell quantity bought)

processed_again :
    {P : Type 0} (trade : String) (buy_id sell_id : Option String) (quantity : Option ℕ) (n : ℕ)
    (db : OrderTables P)
    → quantity ≡ some n
    → ltb 0 n ≡ true
    → not (same_order buy_id sell_id) ≡ true
    → any_row (same_text trade) db.processed_trades ≡ true
    → apply_trade_fill trade buy_id sell_id quantity db ≡ ok db
unfolding apply_trade_fill require check ◌>>=◌ ◌>>◌
processed_again trade buy_id sell_id quantity n db e positive differ done =
    rw (e, positive, differ, done) refl

apply_trade_fill-processed :
    {P : Type 0} (trade : String) (buy_id sell_id : Option String) (quantity : Option ℕ)
    (db : OrderTables P)
    → Post
        (λ d. apply_trade_fill trade buy_id sell_id quantity d ≡ ok d)
        (apply_trade_fill trade buy_id sell_id quantity db)
unfolding apply_trade_fill
apply_trade_fill-processed {P = P} trade buy_id sell_id quantity db =
    Post-require _ quantity _ _ λ n e. Post-check _ _ _ _ λ positive. Post-check _ _ _ _ λ differ.
      Post-choose _ (any_row (same_text trade) db.processed_trades) _ _
        (λ done. processed_again trade buy_id sell_id quantity n db e positive differ done)
        (λ new.
          Post-map (λ (d : OrderTables P). apply_trade_fill trade buy_id sell_id quantity d ≡ ok d)
            (λ d. any_row (same_text trade) d.processed_trades ≡ true)
            (apply_new_fill trade buy_id sell_id n db)
            (λ d done. processed_again trade buy_id sell_id quantity n d e positive differ done)
            (apply_new_fill-processed trade buy_id sell_id n db))

-- A trade's fill that returned no error returns none when it is applied again to the tables that
-- it left, and then changes nothing.
pub apply_trade_fill_twice :
    {P : Type 0} (trade : String) (buy_id sell_id : Option String) (quantity : Option ℕ)
    (db db' : OrderTables P)
    → apply_trade_fill trade buy_id sell_id quantity db ≡ ok db'
    → apply_trade_fill trade buy_id sell_id quantity db' ≡ ok db'
apply_trade_fill_twice trade buy_id sell_id quantity db db' e =
    Post-get (λ d. apply_trade_fill trade buy_id sell_id quantity d ≡ ok d) _
      (apply_trade_fill-processed trade buy_id sell_id quantity db) e
