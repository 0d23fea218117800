-- ===== src/Restoring/Run.antt =====
-- The loop of `Restore` over the orders of one side.
use tradedrift.Base.{
  ℕ, ◌≡◌, refl, sym, ap, subst, inl, inr, ◌∙◌, ◌⊎◌, List, [], ◌∷◌, ◌++◌, append_assoc, append-nil,
  map, Option, none, some, Bool, true, false, ◌&&◌, ◌||◌, not, All, update, arith, ◌==◌, Bool-cases,
}
use tradedrift.OrderBook.{SideType, buy, sell, OrderNode, OrderBook}
use tradedrift.Matcher.Search.{is_worse}
use tradedrift.Matcher.Ops.{get_side, opposite, insert}
use tradedrift.Snapshot.Serialize.{Codec, snapshot_order}
use tradedrift.Snapshot.Restore.{
  Rules, Cursor, Restored, restored, check_after, is_sell, stage_order, restore_orders,
  insert_restored_order,
}
use tradedrift.Matching.Orders.{find, IsDistinct, enqueue, enqueue-append}
use tradedrift.Matching.Levels.{IsResting, is_buy, queue}
use tradedrift.Matching.Book.{IsBook, Changed, insert-Changed, insert_new}
use tradedrift.Matching.Uncrossed.{InOrder, NotWorse}
use tradedrift.Restoring.Insert.{insert_restored_is_insert}
use tradedrift.Restoring.Orders.{Reads, IsStorable, read_order-snapshot_order}

-- Each order passes the checks against the one before it.
abbrev pub Follows : Option (SideType × ℕ × ℕ) → SideType → List OrderNode → Type 0
Follows last st [] = Unit
Follows last st (n ∷ ns) =
    (check_after last st n.price n.timestamp ≡ restored tt)
    × Follows (some (st, n.price, n.timestamp)) st ns

-- The last order, if any, is of this side.
abbrev pub LastOn : SideType → Option (SideType × ℕ × ℕ) → Type 0
LastOn st last = (last ≡ none) ⊎ ((p : ℕ) × (t : ℕ) × (last ≡ some (st, p, t)))

NotWorse-is_worse : (d : Bool) (p q : ℕ) → NotWorse d p q → is_worse d p q ≡ false
NotWorse-is_worse true p q h = ground arith
NotWorse-is_worse false p q h = ground arith

InOrder-before :
    (d : Bool) (xs : List OrderNode) (n : OrderNode) (ys : List OrderNode)
    → InOrder d (xs ++ n ∷ ys)
    → All (λ m. is_worse d m.price n.price ≡ false) xs
InOrder-before d [] n ys h = tt
InOrder-before d (x ∷ xs) n ys h =
    (NotWorse-is_worse d x.price n.price (at xs h.0), InOrder-before d xs n ys h.1)
  where
    at :
        (zs : List OrderNode)
        → All (λ k. NotWorse d x.price k.price) (zs ++ n ∷ ys)
        → NotWorse d x.price n.price
    at [] a = a.0
    at (z ∷ zs) a = at zs a.1

-- The cursor after an order went in.
abbrev pub advanced_cursor : Cursor → OrderNode → Cursor
advanced_cursor c n = record {
  staged = insert_restored_order c.staged n;
  seen_asks = c.seen_asks || is_sell n.side;
  last = some (n.side, n.price, n.timestamp);
}

stage_order_lem :
    (c : Cursor) (n : OrderNode)
    → c.staged.order_index n.order_id ≡ none
    → (c.seen_asks && not (is_sell n.side)) ≡ false
    → check_after c.last n.side n.price n.timestamp ≡ restored tt
    → stage_order c n ≡ restored (advanced_cursor c n)
unfolding stage_order
stage_order_lem c n new seen after = rw (new, seen, after) refl

still_seen :
    (st : SideType) (seen : Bool)
    → (seen && not (is_sell st)) ≡ false
    → ((seen || is_sell st) && not (is_sell st)) ≡ false
still_seen buy true h = h
still_seen buy false h = refl
still_seen sell true h = refl
still_seen sell false h = refl

others_absent :
    (m : ℕ → Option OrderNode) (n : OrderNode) (ns : List OrderNode)
    → find n.order_id ns ≡ none
    → All (λ k. m k.order_id ≡ none) ns
    → All (λ k. update m n.order_id (some n) k.order_id ≡ none) ns
others_absent m n [] f a = tt
others_absent m n (k ∷ ks) f a = elim (Bool-cases (k.order_id == n.order_id)) [
  | inl e ↦ absurd (clash (rw e at f))
  | inr e ↦ (rw e a.0, others_absent m n ks (rw e at f) a.1)
]
  where
    clash : some k ≡ none → ⊥
    clash e = cc

-- What the loop makes of the orders `xs` of the side `st`.
pub record Filled (st : SideType) (c : Cursor) (xs : List OrderNode) (out : Restored Cursor)
    : Type 0 where
  pub after : Cursor
  pub returns : out ≡ restored after
  pub well_formed : IsBook after.staged
  pub queued : queue (get_side after.staged st) ≡ queue (get_side c.staged st) ++ xs
  pub other_same : get_side after.staged (opposite st) ≡ get_side c.staged (opposite st)
  pub sequence_same : after.staged.sequence ≡ c.staged.sequence
  pub seen :
      (c.seen_asks && not (is_sell st)) ≡ false → (after.seen_asks && not (is_sell st)) ≡ false
  pub last_on : LastOn st c.last → LastOn st after.last

module _ (codec : Codec) (rules : Rules) (r : Reads codec) (st : SideType) where
  step :
      (c : Cursor) (n : OrderNode) (ns : List OrderNode)
      → IsBook c.staged
      → IsStorable rules n
      → n.side ≡ st
      → c.staged.order_index n.order_id ≡ none
      → InOrder (is_buy st) (queue (get_side c.staged st) ++ n ∷ ns)
      → Changed st c.staged
          (insert_restored_order c.staged n)
          (queue (get_side c.staged st) ++ n ∷ [])
  step c n ns h s e new order =
      let resting : IsResting n.side n.price n = record {
        at_price = refl;
        positive = s.remaining_positive;
        on_side = refl;
        is_limit = s.is_limit;
      } in
      let q = queue (get_side c.staged st) in
      let at_end : enqueue (is_buy st) n q ≡ q ++ n ∷ [] =
        ap (enqueue (is_buy st) n) (sym (append-nil q))
        ∙ enqueue-append (is_buy st) n q [] (InOrder-before (is_buy st) q n ns order) in
      let changed : Changed st c.staged (insert c.staged n) (enqueue (is_buy st) n q) =
        subst
          (λ t.
            Changed t c.staged (insert c.staged n)
              (enqueue (is_buy t) n (queue (get_side c.staged t))))
          e (insert-Changed c.staged h n new resting) in
      subst (λ b. Changed st c.staged b (q ++ n ∷ []))
        (sym (insert_restored_is_insert c.staged n h new))
        (subst (λ l. Changed st c.staged (insert c.staged n) l) at_end changed)

  index_after :
      (c : Cursor) (n : OrderNode)
      → IsBook c.staged
      → c.staged.order_index n.order_id ≡ none
      → (insert_restored_order c.staged n).order_index
        ≡ update c.staged.order_index n.order_id (some n)
  index_after c n h new =
      ap (λ (b : OrderBook). b.order_index)
        (insert_restored_is_insert c.staged n h new ∙ insert_new c.staged n new)

  pub restore_orders_lem :
      (xs : List OrderNode) (c : Cursor)
      → IsBook c.staged
      → All (IsStorable rules) xs
      → All (λ n. n.side ≡ st) xs
      → IsDistinct xs
      → All (λ n. c.staged.order_index n.order_id ≡ none) xs
      → InOrder (is_buy st) (queue (get_side c.staged st) ++ xs)
      → Follows c.last st xs
      → (c.seen_asks && not (is_sell st)) ≡ false
      → Filled st c xs (restore_orders codec rules c (map (snapshot_order codec) xs))
  unfolding restore_orders
  restore_orders_lem [] c h s sides d new order f seen = record {
    after = c;
    returns = refl;
    well_formed = h;
    queued = sym (append-nil (queue (get_side c.staged st)));
    other_same = refl;
    sequence_same = refl;
    seen = λ e. e;
    last_on = λ l. l;
  }
  restore_orders_lem (n ∷ ns) c h s sides d new order f seen =
      let e = sides.0 in
      let c' = advanced_cursor c n in
      let x = step c n ns h s.0 e new.0 order in
      let staged =
        stage_order_lem c n new.0
          (subst (λ t. (c.seen_asks && not (is_sell t)) ≡ false) (sym e) seen)
          (subst (λ t. check_after c.last t n.price n.timestamp ≡ restored tt) (sym e) f.0) in
      let seen' : (c'.seen_asks && not (is_sell st)) ≡ false =
        subst (λ t. ((c.seen_asks || is_sell t) && not (is_sell st)) ≡ false) (sym e)
          (still_seen st c.seen_asks seen) in
      let new' : All (λ k. c'.staged.order_index k.order_id ≡ none) ns =
        subst (λ (m : ℕ → Option OrderNode). All (λ k. m k.order_id ≡ none) ns)
          (sym (index_after c n h new.0)) (others_absent c.staged.order_index n ns d.0 new.1) in
      let order' : InOrder (is_buy st) (queue (get_side c'.staged st) ++ ns) =
        rw x.queued (rw (append_assoc (queue (get_side c.staged st)) (n ∷ []) ns) order) in
      let last' : c'.last ≡ some (st, n.price, n.timestamp) =
        ap (λ t. some (t, n.price, n.timestamp)) e in
      let i =
        restore_orders_lem ns c' x.well_formed s.1 sides.1 d.1 new' order'
          (subst (λ l. Follows l st ns) (sym last') f.1) seen' in
      record {
        after = i.after;
        returns = rw (read_order-snapshot_order codec rules n r s.0) (rw staged i.returns);
        well_formed = i.well_formed;
        queued =
            i.queued
            ∙ ap (λ q. q ++ ns) x.queued
            ∙ append_assoc (queue (get_side c.staged st)) (n ∷ []) ns;
        other_same = i.other_same ∙ x.other_same;
        sequence_same = i.sequence_same ∙ x.sequence_same;
        seen = λ _. i.seen seen';
        last_on = λ _. i.last_on (inr (n.price, n.timestamp, last'));
      }
