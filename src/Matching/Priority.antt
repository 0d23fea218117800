-- ===== src/Matching/Priority.antt =====
-- Price-time priority in the results of `Match`: what a fill leaves behind is not better, and what
-- rests stands behind every order at its price.
use tradedrift.Base.{
  ℕ, suc, ◌≡◌, refl, ap, inl, inr, List, [], ◌∷◌, ◌++◌, Bool, true, false, leb, if◌then◌else◌,
  arith, Bool-cases, All, All-map,
}
use tradedrift.OrderBook.{OrderNode, Fill, next_sequence}
use tradedrift.Matcher.Search.{is_worse}
use tradedrift.Matcher.Ops.{Env}
use tradedrift.Matcher.Loop.{make_fill}
use tradedrift.Matching.Prices.{Worse, is_worse→Worse}
use tradedrift.Matching.Orders.{enqueue}
use tradedrift.Matching.Reduce.{reduce}
use tradedrift.Matching.Sweep.{takes, sweep}
use tradedrift.Matching.Fills.{sweep-All}
use tradedrift.Matching.Uncrossed.{NotWorse, InOrder}

-- No order of the queue has a better price than a fill; `d` says that the makers are bids.
abbrev pub NoneBetter : Bool → List Fill → List OrderNode → Type 0
NoneBetter d fs q = All (λ (f : Fill). All (λ (n : OrderNode). NotWorse d f.price n.price) q) fs

-- The order came into the queue behind all orders of its price or a better one, and before the worse
-- ones, and these keep their places.
pub record Placed (d : Bool) (node : OrderNode) (old new : List OrderNode) : Type 0 where
  pub ahead : List OrderNode
  pub behind : List OrderNode
  pub before : old ≡ ahead ++ behind
  pub after : new ≡ ahead ++ node ∷ behind
  pub as_good : All (λ (n : OrderNode). NotWorse d n.price node.price) ahead
  pub worse : All (λ (n : OrderNode). Worse d n.price node.price) behind

-- The queue of the own side if the taker rests, and if it does not.
abbrev pub Rested : Bool → Bool → OrderNode → List OrderNode → List OrderNode → Type 0
Rested true d taker old new = Placed d taker old new
Rested false d taker old new = new ≡ old

is_worse-NotWorse : (d : Bool) (p q : ℕ) → is_worse d p q ≡ false → NotWorse d p q
is_worse-NotWorse true p q h = ground arith
is_worse-NotWorse false p q h = ground arith

Worse-after : (d : Bool) (p q r : ℕ) → Worse d p r → NotWorse d p q → Worse d q r
Worse-after true p q r h k = omega arith
Worse-after false p q r h k = omega arith

NotWorse-self : (d : Bool) (p : ℕ) → NotWorse d p p
NotWorse-self true p = omega arith
NotWorse-self false p = omega arith

pub enqueue-Placed :
    (d : Bool) (node : OrderNode) (q : List OrderNode)
    → InOrder d q
    → Placed d node q (enqueue d node q)
enqueue-Placed d node [] o = record {
  ahead = [];
  behind = [];
  before = refl;
  after = refl;
  as_good = tt;
  worse = tt;
}
enqueue-Placed d node (n ∷ q) o = elim (Bool-cases (is_worse d n.price node.price)) [
  | inl e ↦
      let w = is_worse→Worse d n.price node.price e in
      rw e (record {
        ahead = [];
        behind = n ∷ q;
        before = refl;
        after = refl;
        as_good = tt;
        worse = (
          w,
          All-map (λ k. NotWorse d n.price k.price) (λ k. Worse d k.price node.price) q
              (λ k h. Worse-after d n.price k.price node.price w h) o.0,
        );
      })
  | inr e ↦
      let p = enqueue-Placed d node q o.1 in
      rw e (record {
        ahead = n ∷ p.ahead;
        behind = p.behind;
        before = ap (λ l. n ∷ l) p.before;
        after = ap (λ l. n ∷ l) p.after;
        as_good = (is_worse-NotWorse d n.price node.price e, p.as_good);
        worse = p.worse;
      })
]

pub enqueued-Rested :
    (go d : Bool) (taker : OrderNode) (old : List OrderNode)
    → InOrder d old
    → Rested go d taker old (if go then enqueue d taker old else old)
enqueued-Rested true d taker old o = enqueue-Placed d taker old o
enqueued-Rested false d taker old o = refl

module _ (env : Env) (event_id m : ℕ) where
  pub sweep-NoneBetter :
      (d : Bool) (q : List OrderNode) (incoming : OrderNode) (idx seq : ℕ)
      → InOrder d q
      → let r = sweep env event_id m q incoming idx seq in NoneBetter d r.fills r.left
  unfolding sweep make_fill
  sweep-NoneBetter d [] incoming idx seq o = tt
  sweep-NoneBetter d (best ∷ q) incoming idx seq o =
      let less = reduce incoming best.remaining_qty in
      elim (Bool-cases (takes incoming best)) [
        | inr no_more ↦ rw no_more tt
        | inl more ↦ rw more (elim (Bool-cases (leb best.remaining_qty incoming.remaining_qty)) [
          | inl full ↦ rw full (
            sweep-All env event_id m (λ n. NotWorse d best.price n.price) q less (suc idx)
                (next_sequence seq) (λ n k h. h) o.0,
            sweep-NoneBetter d q less (suc idx) (next_sequence seq) o.1,
          )
          | inr partly ↦ rw partly ((NotWorse-self d best.price, o.0), tt)
        ])
      ]
