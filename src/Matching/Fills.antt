-- ===== src/Matching/Fills.antt =====
-- What the fills of one `Match` are: quantities, prices, makers in queue order, and sequence numbers.
use tradedrift.Base.{
  ℕ, zero, suc, ◌⊎◌, ◌+◌, ◌≤◌, ◌<◌, ◌≡◌, refl, inl, inr, List, [], ◌∷◌, some, Bool, true, false,
  ltb, leb, ◌&&◌, arith, Bool-cases, All,
}
use tradedrift.OrderBook.{
  SideType, buy, sell, OrderType, limit, market, OrderNode, Fill, next_sequence,
}
use tradedrift.Matcher.Ops.{Env, front}
use tradedrift.Matcher.Loop.{make_fill, crossable, crossable_for, by_side}
use tradedrift.Matching.Orders.{total_remaining}
use tradedrift.Matching.Reduce.{reduce}
use tradedrift.Matching.Sweep.{takes, sweep}
use tradedrift.Matching.Refine.{takes_spent}

abbrev pub total_filled : List Fill → ℕ
total_filled [] = 0
total_filled (f ∷ fs) = f.quantity + total_filled fs

-- The price is no worse for the taker than its limit.
abbrev pub IsWithin : SideType → ℕ → ℕ → Type 0
IsWithin buy bound price = price ≤ bound
IsWithin sell bound price = bound ≤ price

-- The taker's limit, which a MARKET order has if its price is not zero.
abbrev pub Acceptable : OrderType → SideType → ℕ → ℕ → Type 0
Acceptable limit side bound price = IsWithin side bound price
Acceptable market side bound price = (bound ≡ 0) ⊎ IsWithin side bound price

-- The fill is between the taker and this maker: at the maker's price, which the taker accepts, and with
-- the right buyer and seller.
pub record Between (incoming : OrderNode) (f : Fill) (n : OrderNode) : Type 0 where
  pub maker : f.maker_order_id ≡ n.order_id
  pub at_price : f.price ≡ n.price
  pub accepted : Acceptable incoming.order_type incoming.side incoming.price f.price
  pub positive : 0 < f.quantity
  pub buy_order : f.buy_order_id ≡ by_side incoming.side incoming.order_id n.order_id
  pub sell_order : f.sell_order_id ≡ by_side incoming.side n.order_id incoming.order_id
  pub buyer : f.buyer_user_id ≡ by_side incoming.side incoming.user_id n.user_id
  pub seller : f.seller_user_id ≡ by_side incoming.side n.user_id incoming.user_id

-- A fill takes all that its maker has, but the last one may take less if it leaves nothing of the
-- taker; `rest` is what is left of the taker.
abbrev pub UsesUp : ℕ → ℕ → ℕ → List Fill → Type 0
UsesUp rest quantity has [] = (quantity ≡ has) ⊎ ((quantity < has) × (rest ≡ 0))
UsesUp rest quantity has (f ∷ fs) = quantity ≡ has

-- The fills go against the queue from its front, one order after the other, and use up each maker
-- before the next.
abbrev pub Against : OrderNode → ℕ → List Fill → List OrderNode → Type 0
Against incoming rest [] q = Unit
Against incoming rest (f ∷ fs) [] = ⊥
Against incoming rest (f ∷ fs) (n ∷ q) =
    Between incoming f n × UsesUp rest f.quantity n.remaining_qty fs × Against incoming rest fs q

-- Every fill has the sequence after the one before.
abbrev pub Numbered : ℕ → List Fill → Type 0
Numbered seq [] = Unit
Numbered seq (f ∷ fs) = (f.sequence ≡ next_sequence seq) × Numbered (next_sequence seq) fs

abbrev pub advance : ℕ → List Fill → ℕ
advance seq [] = seq
advance seq (f ∷ fs) = advance (next_sequence seq) fs

module _ (env : Env) (event_id m : ℕ) where
  pub sweep_conserves :
      (q : List OrderNode) (incoming : OrderNode) (idx seq : ℕ)
      → let r = sweep env event_id m q incoming idx seq in
        (total_filled r.fills + r.taker.remaining_qty ≡ incoming.remaining_qty)
        × (total_filled r.fills + total_remaining r.left ≡ total_remaining q)
  unfolding sweep make_fill
  sweep_conserves [] incoming idx seq = omega arith
  sweep_conserves (best ∷ q) incoming idx seq =
      let ih =
        sweep_conserves q (reduce incoming best.remaining_qty) (suc idx) (next_sequence seq) in
      elim (Bool-cases (takes incoming best)) [
        | inr no_more ↦ rw no_more (omega arith)
        | inl more ↦ rw more (elim (Bool-cases (leb best.remaining_qty incoming.remaining_qty)) [
          | inl full ↦
              let le : best.remaining_qty ≤ incoming.remaining_qty = ground arith in
              rw full (omega arith)
          | inr partly ↦
              let lt : incoming.remaining_qty < best.remaining_qty = ground arith in
              rw partly (omega arith)
        ])
      ]

  takes-crossable :
      (incoming best : OrderNode)
      → takes incoming best ≡ true
      → (0 < incoming.remaining_qty)
        × (crossable_for incoming.order_type incoming.side incoming.price best.price ≡ true)
  unfolding takes crossable
  takes-crossable incoming best h =
      both (ltb 0 incoming.remaining_qty)
        (crossable_for incoming.order_type incoming.side incoming.price best.price) refl h
    where
      both :
          (x y : Bool)
          → ltb 0 incoming.remaining_qty ≡ x
          → (x && y) ≡ true
          → (0 < incoming.remaining_qty) × (y ≡ true)
      both true y e t = (ground arith, t)
      both false y e t = cc

  crossable-Acceptable :
      (t : OrderType) (side : SideType) (bound price : ℕ)
      → crossable_for t side bound price ≡ true
      → Acceptable t side bound price
  crossable-Acceptable limit buy bound price h = ground arith
  crossable-Acceptable limit sell bound price h = ground arith
  crossable-Acceptable market buy zero price h = inl refl
  crossable-Acceptable market sell zero price h = inl refl
  crossable-Acceptable market buy (suc bound) price h = inr (ground arith)
  crossable-Acceptable market sell (suc bound) price h = inr (ground arith)

  make_fill-Between :
      (incoming best : OrderNode) (idx seq : ℕ)
      → takes incoming best ≡ true
      → 0 < best.remaining_qty
      → Between incoming (make_fill env event_id m seq incoming best idx) best
  unfolding make_fill
  make_fill-Between incoming best idx seq more some_left =
      let (pos, ok) = takes-crossable incoming best more in
      record {
        maker = refl;
        at_price = refl;
        accepted =
            crossable-Acceptable incoming.order_type incoming.side incoming.price best.price ok;
        positive = omega arith;
        buy_order = refl;
        sell_order = refl;
        buyer = refl;
        seller = refl;
      }

  filled_all :
      (incoming best : OrderNode) (idx seq : ℕ)
      → leb best.remaining_qty incoming.remaining_qty ≡ true
      → (make_fill env event_id m seq incoming best idx).quantity ≡ best.remaining_qty
  unfolding make_fill
  filled_all incoming best idx seq full =
      let le : best.remaining_qty ≤ incoming.remaining_qty = ground arith in omega arith

  filled_part :
      (incoming best : OrderNode) (idx seq : ℕ)
      → leb best.remaining_qty incoming.remaining_qty ≡ false
      → (make_fill env event_id m seq incoming best idx).quantity < best.remaining_qty
  unfolding make_fill
  filled_part incoming best idx seq partly =
      let lt : incoming.remaining_qty < best.remaining_qty = ground arith in omega arith

  -- Neither looks at the quantity that the taker has.
  again :
      (incoming : OrderNode) (k rest : ℕ) (fs : List Fill) (q : List OrderNode)
      → Against (reduce incoming k) rest fs q
      → Against incoming rest fs q
  again incoming k rest [] q h = tt
  again incoming k rest (f ∷ fs) [] h = h
  again incoming k rest (f ∷ fs) (n ∷ q) h = (
    record {
      maker = h.0.maker;
      at_price = h.0.at_price;
      accepted = h.0.accepted;
      positive = h.0.positive;
      buy_order = h.0.buy_order;
      sell_order = h.0.sell_order;
      buyer = h.0.buyer;
      seller = h.0.seller;
    },
    h.1,
    again incoming k rest fs q h.2,
  )

  used_up :
      (rest quantity : ℕ) (has : ℕ) (fs : List Fill) → quantity ≡ has → UsesUp rest quantity has fs
  used_up rest quantity has [] e = inl e
  used_up rest quantity has (f ∷ fs) e = e

  pub sweep-Against :
      (q : List OrderNode) (incoming : OrderNode) (idx seq : ℕ)
      → All (λ n. 0 < n.remaining_qty) q
      → let r = sweep env event_id m q incoming idx seq in
        Against incoming r.taker.remaining_qty r.fills q
  unfolding sweep
  sweep-Against [] incoming idx seq a = tt
  sweep-Against (best ∷ q) incoming idx seq a =
      let ih =
        sweep-Against q (reduce incoming best.remaining_qty) (suc idx) (next_sequence seq) a.1 in
      elim (Bool-cases (takes incoming best)) [
        | inr no_more ↦ rw no_more tt
        | inl more ↦
            let between = make_fill-Between incoming best idx (next_sequence seq) more a.0 in
            rw more (elim (Bool-cases (leb best.remaining_qty incoming.remaining_qty)) [
              | inl full ↦ rw full (
                between,
                used_up _ _ best.remaining_qty _
                    (filled_all incoming best idx (next_sequence seq) full),
                again incoming best.remaining_qty _ _ q ih,
              )
              | inr partly ↦ rw partly (
                between,
                inr (filled_part incoming best idx (next_sequence seq) partly, omega arith),
                tt,
              )
            ])
      ]

  pub sweep-Numbered :
      (q : List OrderNode) (incoming : OrderNode) (idx seq : ℕ)
      → let r = sweep env event_id m q incoming idx seq in
        Numbered seq r.fills × (r.sequence ≡ advance seq r.fills)
  unfolding sweep make_fill
  sweep-Numbered [] incoming idx seq = (tt, refl)
  sweep-Numbered (best ∷ q) incoming idx seq =
      let ih =
        sweep-Numbered q (reduce incoming best.remaining_qty) (suc idx) (next_sequence seq) in
      elim (Bool-cases (takes incoming best)) [
        | inr no_more ↦ rw no_more (tt, refl)
        | inl more ↦ rw more (elim (Bool-cases (leb best.remaining_qty incoming.remaining_qty)) [
          | inl full ↦ rw full ((refl, ih.0), ih.1)
          | inr partly ↦ rw partly ((refl, tt), refl)
        ])
      ]

  -- The pass stops only when nothing is left of the taker or the next order does not cross.
  pub sweep_exhausts :
      (q : List OrderNode) (incoming : OrderNode) (idx seq : ℕ) (n : OrderNode)
      → let r = sweep env event_id m q incoming idx seq in
        front r.left ≡ some n → takes r.taker n ≡ false
  unfolding sweep
  sweep_exhausts [] incoming idx seq n = λ h. cc
  sweep_exhausts (best ∷ q) incoming idx seq n =
      let ih =
        sweep_exhausts q (reduce incoming best.remaining_qty) (suc idx) (next_sequence seq) n in
      elim (Bool-cases (takes incoming best)) [
        | inr no_more ↦ rw no_more (λ h. let e : best ≡ n = ground arith in rw (← e) no_more)
        | inl more ↦ rw more (elim (Bool-cases (leb best.remaining_qty incoming.remaining_qty)) [
          | inl full ↦ rw full ih
          | inr partly ↦ rw partly (λ h. takes_spent incoming n)
        ])
      ]

  -- The maker of the last fill may keep a remainder; all that the taker met before it is used up.
  pub sweep-All :
      (P : OrderNode → Type 0) (q : List OrderNode) (incoming : OrderNode) (idx seq : ℕ)
      → ((n : OrderNode) (k : ℕ) → P n → P (reduce n k))
      → All P q
      → All P (sweep env event_id m q incoming idx seq).left
  unfolding sweep
  sweep-All P [] incoming idx seq f a = tt
  sweep-All P (best ∷ q) incoming idx seq f a =
      let ih =
        sweep-All P q (reduce incoming best.remaining_qty) (suc idx) (next_sequence seq) f a.1 in
      elim (Bool-cases (takes incoming best)) [
        | inr no_more ↦ rw no_more a
        | inl more ↦ rw more (elim (Bool-cases (leb best.remaining_qty incoming.remaining_qty)) [
          | inl full ↦ rw full ih
          | inr partly ↦ rw partly (f best incoming.remaining_qty a.0, a.1)
        ])
      ]
