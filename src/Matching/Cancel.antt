-- ===== src/Matching/Cancel.antt =====
-- `Cancel` on a well-formed book: the three outcomes, and that it undoes `Insert`.
use tradedrift.Base.{
  ℕ, ◌≡◌, refl, ◌≢◌, sym, ap, subst, inl, inr, ◌∙◌, ◌⊎◌, List, [], ◌∷◌, Option, none, some, Bool,
  true, ◌==◌, arith, Bool-cases, Option-cases, ==_self, update, update_self,
}
use tradedrift.OrderBook.{
  buy, sell, OrderNode, OrderBook, CancelStatus, CancelOutcome, removed_from_book, already_absent,
  user_mismatch,
}
use tradedrift.Matcher.Search.{is_worse}
use tradedrift.Matcher.Ops.{get_side, opposite, insert, cancel, cancel_node, remove_order}
use tradedrift.Matching.Orders.{find, find-order_id, find-All, or_else, enqueue}
use tradedrift.Matching.Levels.{IsResting, is_buy, queue}
use tradedrift.Matching.Book.{
  IsBook, IsBook-at, Changed, write, take_out-Changed, insert-Changed, insert_new, or_else-none,
}
use tradedrift.Matching.Loop.{queue-All}

or_else-some :
    (x y : Option OrderNode) (n : OrderNode) → or_else x y ≡ some n → (x ≡ some n) ⊎ (y ≡ some n)
or_else-some none y n h = inr h
or_else-some (some a) y n h = inl h

-- The index holds an order that stands in the queue of its own side.
pub locate :
    (b : OrderBook) (k : ℕ) (n : OrderNode)
    → IsBook b
    → b.order_index k ≡ some n
    → (find k (queue (get_side b n.side)) ≡ some n) × (n.order_id ≡ k)
unfolding get_side
locate b k n h e =
    elim (or_else-some (find k (queue b.bids)) (find k (queue b.asks)) n (sym (h.indexed k) ∙ e)) [
      | inl here ↦
          let s : n.side ≡ buy =
            find-All (λ m. m.side ≡ buy) k (queue b.bids)
              (queue-All buy b.bids (λ m. m.side ≡ buy) h.own_ok (λ m r. r.on_side)) here in
          (
            subst (λ t. find k (queue (get_side b t)) ≡ some n) (sym s) here,
            find-order_id k (queue b.bids) here,
          )
      | inr here ↦
          let s : n.side ≡ sell =
            find-All (λ m. m.side ≡ sell) k (queue b.asks)
              (queue-All sell b.asks (λ m. m.side ≡ sell) h.other_ok (λ m r. r.on_side)) here in
          (
            subst (λ t. find k (queue (get_side b t)) ≡ some n) (sym s) here,
            find-order_id k (queue b.asks) here,
          )
    ]

-- The order that was in the book left its queue and the index, and was reported as it stood.
pub record Removed (b b' : OrderBook) (k : ℕ) (n : OrderNode) (out : CancelOutcome) : Type 0 where
  pub reported : out ≡ record {
    status = removed_from_book;
    order_id = n.order_id;
    user_id = n.user_id;
    market_id = n.market_id;
    remaining_quantity = n.remaining_qty;
  }
  pub gone : b'.order_index k ≡ none
  pub changed : Changed n.side b b' (remove_order k (queue (get_side b n.side)))

-- How a cancellation may end.
pub data Outcome (b : OrderBook) (k user : ℕ) (b' : OrderBook) (out : CancelOutcome) : Type 0 where
  absent : b.order_index k ≡ none → b' ≡ b → out.status ≡ already_absent → Outcome b k user b' out
  refused :
      (n : OrderNode)
      → b.order_index k ≡ some n
      → n.user_id ≢ user
      → b' ≡ b
      → out.status ≡ user_mismatch
      → Outcome b k user b' out
  removed :
      (n : OrderNode)
      → b.order_index k ≡ some n
      → n.user_id ≡ user
      → Removed b b' k n out
      → Outcome b k user b' out

abbrev outcome_of : CancelStatus → OrderNode → CancelOutcome
outcome_of st n = record {
  status = st;
  order_id = n.order_id;
  user_id = n.user_id;
  market_id = n.market_id;
  remaining_quantity = n.remaining_qty;
}

abbrev absent_outcome : ℕ → CancelOutcome
absent_outcome k = record {
  status = already_absent;
  order_id = k;
  user_id = 0;
  market_id = 0;
  remaining_quantity = 0;
}

-- On a well-formed book Cancel never panics and leaves a well-formed book; the order is removed
-- exactly when it is in the book and belongs to the user, and otherwise the book is as it was.
pub cancel_outcome :
    (b : OrderBook) (k user : ℕ)
    → IsBook b
    → (b' : OrderBook) × (out : CancelOutcome) × (cancel b k user ≡ some (b', out))
      × IsBook b'
      × Outcome b k user b' out
unfolding cancel cancel_node
cancel_outcome b k user h = elim (Option-cases (b.order_index k)) [
  | inl e ↦ (b, absent_outcome k, rw (e, cancel) refl, h, absent e refl refl)
  | inr (n, e) ↦ elim (Bool-cases (n.user_id == user)) [
    | inr other ↦ (
      b,
      outcome_of user_mismatch n,
      rw (e, cancel) (rw other refl),
      h,
      refused n e (λ s. (let t : (n.user_id == user) ≡ true = ground arith in cc (sym t ∙ other)))
          refl refl,
    )
    | inl mine ↦
        let (f, id) = locate b k n h e in
        let f' : find n.order_id (queue (get_side b n.side)) ≡ some n =
          subst (λ j. find j (queue (get_side b n.side)) ≡ some n) (sym id) f in
        let (s, done, c) = take_out-Changed n.side b h n f' in
        let c' =
          subst
            (λ j.
              Changed n.side b (write b n.side s (update b.order_index j none))
                (remove_order j (queue (get_side b n.side))))
            id c in
        (
          write b n.side s (update b.order_index k none),
          outcome_of removed_from_book n,
          rw (e, cancel) (rw mine (rw done refl)),
          c'.well_formed,
          removed n e (ground arith)
              (record { reported = refl; gone = update_self b.order_index k none; changed = c' }),
        )
  ]
]

remove-enqueue :
    (d : Bool) (node : OrderNode) (q : List OrderNode)
    → find node.order_id q ≡ none
    → remove_order node.order_id (enqueue d node q) ≡ q
remove-enqueue d node [] h = rw (==_self node.order_id)
remove-enqueue d node (n ∷ q) h = elim (Bool-cases (is_worse d n.price node.price)) [
  | inl e ↦ rw e (rw (==_self node.order_id))
  | inr e ↦ rw e (elim (Bool-cases (n.order_id == node.order_id)) [
    | inl s ↦ absurd (clash (rw s at h))
    | inr s ↦ rw s (ap (λ l. n ∷ l) (remove-enqueue d node q (rw s at h)))
  ])
]
  where
    clash : some n ≡ none → ⊥
    clash e = cc

-- On a well-formed book without the order's id, cancelling an order that was just inserted by its
-- user gives back both queues and the whole quantity.
pub cancel-insert :
    (b : OrderBook) (node : OrderNode)
    → IsBook b
    → b.order_index node.order_id ≡ none
    → IsResting node.side node.price node
    → (b' : OrderBook) × (out : CancelOutcome) × (cancel (insert b node) node.order_id node.user_id
        ≡ some (b', out))
      × (out.status ≡ removed_from_book)
      × (out.remaining_quantity ≡ node.remaining_qty)
      × (queue (get_side b' node.side) ≡ queue (get_side b node.side))
      × (get_side b' (opposite node.side) ≡ get_side b (opposite node.side))
cancel-insert b node h new r =
    let c = insert-Changed b h node new r in
    let k = node.order_id in
    let (gone, _) = or_else-none _ _ (b.order_index k) ((IsBook-at node.side b h).indexed k) new in
    let (b', out, e, ok, o) = cancel_outcome (insert b node) k node.user_id c.well_formed in
    let x = finish b' out c gone o in (b', out, e, x.0, x.1, x.2, x.3)
  where
    indexed : (insert b node).order_index node.order_id ≡ some node
    indexed = rw (insert_new b node new) (update_self b.order_index node.order_id (some node))

    finish :
        (b' : OrderBook) (out : CancelOutcome)
        → Changed node.side b
            (insert b node)
            (enqueue (is_buy node.side) node (queue (get_side b node.side)))
        → find node.order_id (queue (get_side b node.side)) ≡ none
        → Outcome (insert b node) node.order_id node.user_id b' out
        → (out.status ≡ removed_from_book)
          × (out.remaining_quantity ≡ node.remaining_qty)
          × (queue (get_side b' node.side) ≡ queue (get_side b node.side))
          × (get_side b' (opposite node.side) ≡ get_side b (opposite node.side))
    finish b' out c gone (absent e _ _) = absurd (clash (sym e ∙ indexed))
      where
        clash : none ≡ some node → ⊥
        clash x = cc
    finish b' out c gone (refused n e ne _ _) = absurd (
        ne (
          let same : n ≡ node = (let i = indexed in ground arith) in
          ap (λ (m : OrderNode). m.user_id) same))
    finish b' out c gone (removed n e u rem) =
        let same : n ≡ node = (let i = indexed in ground arith) in
        let rem' = subst (λ m. Removed (insert b node) b' node.order_id m out) same rem in
        (
          ap (λ (x : CancelOutcome). x.status) rem'.reported,
          ap (λ (x : CancelOutcome). x.remaining_quantity) rem'.reported,
          rem'.changed.queued
              ∙ ap (remove_order node.order_id) c.queued
              ∙ remove-enqueue (is_buy node.side) node (queue (get_side b node.side)) gone,
          rem'.changed.other_same ∙ c.other_same,
        )
