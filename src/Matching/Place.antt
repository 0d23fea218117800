-- ===== src/Matching/Place.antt =====
-- `Insert` on one side: the order goes to the place that price-time priority gives it.
use tradedrift.Base.{
  ℕ, ◌≡◌, refl, ◌≢◌, sym, ap, subst, inl, inr, ◌∙◌, List, [], ◌∷◌, ◌++◌, Option, none, some, true,
  false, ◌==◌, arith, All, All-append, All-map, Bool-cases, Option-cases, update, update_self,
  update_ne, append_assoc,
}
use tradedrift.OrderBook.{SideType, OrderNode, PriceLevel, Side}
use tradedrift.Matcher.Search.{is_worse, binary_search_insert_index}
use tradedrift.Matcher.Ops.{collect, place, push_back, new_level, insert_at}
use tradedrift.Matching.Prices.{
  Worse, IsSorted, Worse→worse_test, not-Worse, not_worse_self, Worse-ne, Worse-trans,
  is_worse→Worse,
}
use tradedrift.Matching.Slice.{
  has, has-Worse, insert_price, insert_at_sorted, insert_price-IsSorted, has-insert_price,
}
use tradedrift.Matching.Orders.{
  total_remaining, total-append, enqueue, enqueue-append, enqueue_front,
}
use tradedrift.Matching.Levels.{
  IsResting, IsLevel, Levels, IsSide, is_buy, queue, Levels-has, collect-update_fresh,
  Levels-update, collect-All, Levels-fresh, tail_fresh,
}

module _ (st : SideType) (lv : ℕ → Option PriceLevel) (node : OrderNode) where
  -- The orders of a level that is as good or better are passed.
  passed :
      (p : ℕ) (l : PriceLevel)
      → is_worse (is_buy st) p node.price ≡ false
      → IsLevel st p l
      → All (λ n. is_worse (is_buy st) n.price node.price ≡ false) l.orders
  passed p l e h =
      All-map (IsResting st p) (λ n. is_worse (is_buy st) n.price node.price ≡ false) l.orders
        (λ n r. rw r.at_price e) h.resting

  -- The orders of worse prices come after it.
  stopped :
      (ps : List ℕ)
      → Levels st lv ps
      → All (λ q. Worse (is_buy st) q node.price) ps
      → enqueue (is_buy st) node (collect lv ps) ≡ node ∷ collect lv ps
  stopped ps k h = enqueue_front (is_buy st) node (collect lv ps) (
      collect-All st lv (λ n. is_worse (is_buy st) n.price node.price ≡ true) ps k
        (All-map (λ q. Worse (is_buy st) q node.price)
          (λ p. (n : OrderNode) → IsResting st p n → is_worse (is_buy st) n.price node.price ≡ true)
          ps (λ q w n r. rw r.at_price (Worse→worse_test (is_buy st) q node.price w)) h))

  collect-place_old :
      (l : PriceLevel) (ps : List ℕ)
      → lv node.price ≡ some l
      → IsSorted (is_buy st) ps
      → Levels st lv ps
      → has node.price ps ≡ true
      → collect (update lv node.price (some (push_back node l))) ps
        ≡ enqueue (is_buy st) node (collect lv ps)
  unfolding collect push_back
  collect-place_old l [] e s k h = cc
  collect-place_old l (p ∷ ps) e s k h = elim (Bool-cases (p == node.price)) [
    | inl same ↦
        let p_eq : p ≡ node.price = ground arith in
        let worse : All (λ q. Worse (is_buy st) q node.price) ps = rw p_eq at s.0 in
        rw
          (
            p_eq,
            update_self lv node.price,
            e,
            collect-update_fresh st lv node.price (some (push_back node l)) ps
                (tail_fresh (is_buy st) node.price ps worse),
          )
          (append_assoc l.orders (node ∷ []) (collect lv ps)
            ∙ sym (
                enqueue-append (is_buy st) node l.orders (collect lv ps) (
                  passed node.price l (not_worse_self (is_buy st) node.price) (
                    let level : IsLevel st node.price k.0.0 = rw p_eq at k.0.2 in
                    let same_level : k.0.0 ≡ l =
                      (let found : lv node.price ≡ some k.0.0 = rw p_eq at k.0.1 in ground arith) in
                    subst (IsLevel st node.price) same_level level))
                ∙ ap (λ t. l.orders ++ t) (stopped ps k.1 worse)))
    | inr other ↦
        let rest : has node.price ps ≡ true = rw other at h in
        let worse = has-Worse (is_buy st) node.price p ps s.0 rest in
        rw
          (
            update_ne lv node.price (some (push_back node l)) p
                (λ x. Worse-ne (is_buy st) node.price p worse (sym x)),
            collect-place_old l ps e s.1 k.1 rest,
            k.0.1,
          )
          (sym (
            enqueue-append (is_buy st) node k.0.0.orders (collect lv ps)
              (passed p k.0.0 (not-Worse (is_buy st) p node.price worse) k.0.2)))
  ]

  collect-place_new :
      (ps : List ℕ)
      → lv node.price ≡ none
      → IsSorted (is_buy st) ps
      → Levels st lv ps
      → collect
          (update lv node.price (some (push_back node (new_level node.price))))
          (insert_price (is_buy st) node.price ps)
        ≡ enqueue (is_buy st) node (collect lv ps)
  unfolding collect push_back
  collect-place_new [] e s k = rw (update_self lv node.price)
  collect-place_new (p ∷ ps) e s k = elim (Bool-cases (is_worse (is_buy st) p node.price)) [
    | inl worse ↦
        let w = is_worse→Worse (is_buy st) p node.price worse in
        rw worse (
          rw (update_self lv node.price) (
            ap (λ t. node ∷ t)
              (collect-update_fresh st lv node.price _ (p ∷ ps)
                (Levels-fresh st lv node.price (p ∷ ps) e k))
            ∙ sym (
                stopped (p ∷ ps) k (
                  w,
                  All-map (λ q. Worse (is_buy st) q p) (λ q. Worse (is_buy st) q node.price) ps
                      (λ q v. Worse-trans (is_buy st) q p node.price v w) s.0,
                ))))
    | inr better ↦ rw better (
        rw
          (
            update_ne lv node.price (some (push_back node (new_level node.price))) p
                (Levels-fresh st lv node.price (p ∷ ps) e k).0,
            collect-place_new ps e s.1 k.1,
            k.0.1,
          )
          (sym (
            enqueue-append (is_buy st) node k.0.0.orders (collect lv ps)
              (passed p k.0.0 better k.0.2))))
  ]

module _ (st : SideType) (lv : ℕ → Option PriceLevel) (node : OrderNode)
    (r : IsResting st node.price node) where
  push_back-IsLevel :
      (l : PriceLevel)
      → l.price ≡ node.price
      → l.total_qty ≡ total_remaining l.orders
      → All (IsResting st node.price) l.orders
      → IsLevel st node.price (push_back node l)
  unfolding push_back
  push_back-IsLevel l e t a = record {
    price_kept = e;
    total_kept = rw (total-append l.orders (node ∷ [])) (omega arith);
    resting = All-append (IsResting st node.price) l.orders (node ∷ []) a (r, tt);
    nonempty = append-ne l.orders;
  }
    where
      append-ne : (xs : List OrderNode) → xs ++ node ∷ [] ≢ []
      append-ne [] e' = cc
      append-ne (x ∷ xs) e' = cc

  Levels-place_new :
      (l : PriceLevel) (ps : List ℕ)
      → IsLevel st node.price l
      → IsSorted (is_buy st) ps
      → Levels st lv ps
      → Levels st (update lv node.price (some l)) (insert_price (is_buy st) node.price ps)
  Levels-place_new l [] h s k = ((l, update_self lv node.price (some l), h), tt)
  Levels-place_new l (p ∷ ps) h s k = elim (Bool-cases (is_worse (is_buy st) p node.price)) [
    | inl worse ↦
        rw worse (
          (l, update_self lv node.price (some l), h),
          Levels-update st lv node.price l h (p ∷ ps) k,
        )
    | inr better ↦ rw better (elim (Bool-cases (p == node.price)) [
      | inl same ↦
          let p_eq : p ≡ node.price = ground arith in
          (
            (l, rw p_eq (update_self lv node.price (some l)), rw p_eq h),
            Levels-place_new l ps h s.1 k.1,
          )
      | inr other ↦
          let differs : p ≢ node.price = ground arith in
          (
            (k.0.0, rw (update_ne lv node.price (some l) p differs) k.0.1, k.0.2),
            Levels-place_new l ps h s.1 k.1,
          )
    ])
  ]

-- What `Insert` promises of the side that it works on.
pub record Placed (st : SideType) (s : Side) (node : OrderNode) (s' : Side) : Type 0 where
  pub well_formed : IsSide st s'
  pub queued : queue s' ≡ enqueue (is_buy st) node (queue s)

has_fresh : (p : ℕ) (ps : List ℕ) → All (λ q. q ≢ p) ps → has p ps ≡ false
has_fresh p [] h = refl
has_fresh p (q ∷ qs) h = ground (arith, has_fresh p qs)

pub place_lem :
    (st : SideType) (s : Side) (node : OrderNode)
    → IsResting st node.price node
    → IsSide st s
    → Placed st s node (place s node)
unfolding place queue
place_lem st s node r h = elim (Option-cases (s.price_levels node.price)) [
  | inl e ↦
      let fresh =
        has_fresh node.price s.sorted_prices
          (Levels-fresh st s.price_levels node.price s.sorted_prices e h.levels) in
      let slice =
        subst
          (λ b.
            insert_at s.sorted_prices (binary_search_insert_index s node.price) node.price
            ≡ insert_price b node.price s.sorted_prices)
          h.bid (insert_at_sorted s node.price (rw h.bid h.sorted)) in
      let l = push_back node (new_level node.price) in
      rw (e, place)
        (rw slice (record {
          well_formed = record {
            bid = h.bid;
            sorted = insert_price-IsSorted (is_buy st) node.price s.sorted_prices h.sorted fresh;
            levels =
                Levels-place_new st s.price_levels node r l s.sorted_prices
                  (push_back-IsLevel st s.price_levels node r (new_level node.price) refl refl tt)
                  h.sorted h.levels;
            keys = λ p m found.
                rw (has-insert_price (is_buy st) node.price p s.sorted_prices)
                  (ground (arith, h.keys p m));
          };
          queued = collect-place_new st s.price_levels node s.sorted_prices e h.sorted h.levels;
        }))
  | inr (l, e) ↦
      let there = h.keys node.price l e in
      let ok : IsLevel st node.price l = level_at l e in
      rw (e, place)
        (record {
          well_formed = record {
            bid = h.bid;
            sorted = h.sorted;
            levels =
                Levels-update st s.price_levels node.price (push_back node l)
                  (push_back-IsLevel st s.price_levels node r l ok.price_kept ok.total_kept
                    ok.resting)
                  s.sorted_prices h.levels;
            keys = λ p m found. ground (arith, h.keys p m);
          };
          queued =
              collect-place_old st s.price_levels node l s.sorted_prices e h.sorted h.levels there;
        })
]
  where
    level_at : (l : PriceLevel) → s.price_levels node.price ≡ some l → IsLevel st node.price l
    level_at l e =
        let found =
          Levels-has st s.price_levels node.price s.sorted_prices h.levels
            (h.keys node.price l e) in
        let same : found.0 ≡ l = (let e' = found.1 in ground arith) in
        subst (IsLevel st node.price) same found.2
