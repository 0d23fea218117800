-- ===== src/Orders/Steps.antt =====
-- The creation and the cancellation of an order keep the tables good.
use Prim.Native.String.{String}
use text.Mathlib.Text.{◌==◌ as same_text}
use text.Mathlib.TextEquality.{eq_iff}
use tradedrift.Base.{
  and_left, and_right, negated, ◌≡◌, ◌∙◌, refl, sym, subst, Option, Option-cases, true, ◌&&◌,
  any_row, update_rows, inl, inr,
}
use tradedrift.Base.Post.{Post, Post-require, Post-check}
use tradedrift.Base.Swaps.{Swaps-All_old, update_rows-Swaps, any_row_none}
use tradedrift.Orders.Table.{Order, OrderTables, is_cancellable, is_unsettled}
use tradedrift.Orders.Repository.{
  create_order, update_status_to_cancelling, enqueue_release, settled_rows, settle_order,
}
use tradedrift.Orders.Lifecycle.{
  written, IsConsistent, order_key, Good, IsNew, enqueue_holds, enqueue_keeps, swapped-GoodOrders,
  created-GoodOrders, start_cancel-IsConsistent,
}

module _ {P : Type 0} (db : OrderTables P) (good : Good db) where
  pub create_order-Good :
      (o : Order) (payload : Option P) → IsNew o → Post Good (create_order o payload db)
  unfolding create_order
  create_order-Good o payload new = Post-check _ _ _ _ λ free. Post-check _ _ _ _ λ _.
      created-GoodOrders o db.orders db.wallet_releases new
        (any_row_none (λ (x : Order). same_text x.id o.id) db.orders (negated _ free)) good

  pub update_status_to_cancelling-Good :
      (o : Order) (payload : P) → Post Good (update_status_to_cancelling o payload db)
  unfolding update_status_to_cancelling
  update_status_to_cancelling-Good o payload =
      Post-require _ (update_rows _ _ db.orders) _ _ λ orders found.
        let (x, s, t) =
          update_rows-Swaps order_key _ _ o.id
            (λ a h.
              and_left (same_text a.id o.id)
                (same_text a.user_id o.user_id && is_cancellable a.status) h)
            db.orders orders good.ids found in
        let cancellable =
          and_right (same_text x.user_id o.user_id) _ (and_right (same_text x.id o.id) _ t) in
        swapped-GoodOrders db.wallet_releases db.wallet_releases refl s
          (start_cancel-IsConsistent x cancellable (Swaps-All_old _ s good.consistent)) (λ u. cc)
          (λ id h. h) good

  -- An unsettled order becomes filled or cancelled, and its release is queued.
  pub settle_order-Good :
      (f : Order → Order) (id : String)
      → ((o : Order) → (f o).id ≡ o.id)
      → ((o : Order) → is_unsettled o.status ≡ true → IsConsistent o → IsConsistent (f o))
      → Good (written (settle_order f id db) db)
  unfolding settle_order settled_rows
  settle_order-Good f id same fits =
      elim (Option-cases
        (update_rows (λ o. same_text o.id id && is_unsettled o.status) f db.orders)) [
          | inl e ↦ rw e good
          | inr (orders, e) ↦
              let (x, s, t) =
                update_rows-Swaps order_key _ f id
                  (λ a h. and_left (same_text a.id id) (is_unsettled a.status) h) db.orders orders
                  good.ids e in
              let x_id = (eq_iff x.id id).0 (and_left _ (is_unsettled x.status) t) in
              rw e (
                swapped-GoodOrders db.wallet_releases (enqueue_release id db.wallet_releases)
                  (same x) s
                  (fits x (and_right (same_text x.id id) _ t) (Swaps-All_old _ s good.consistent))
                  (λ u.
                    subst
                      (λ i. any_row (same_text i) (enqueue_release id db.wallet_releases) ≡ true)
                      (sym (same x ∙ x_id)) (enqueue_holds id db.wallet_releases))
                  (λ other h. enqueue_keeps id other db.wallet_releases h) good)
        ]
