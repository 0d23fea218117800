-- ===== src/Matching/Sweep.antt =====
-- The specification of `Match`: one pass over the opposite queue, oldest order of the best price
-- first, with no book, index or price level in sight. Every order is filled in full until one is
-- larger than what is left, or does not cross.
use tradedrift.Base.{ℕ, suc, List, [], ◌∷◌, Bool, ltb, leb, ◌&&◌, if◌then◌else◌}
use tradedrift.OrderBook.{OrderNode, Fill, next_sequence}
use tradedrift.Matcher.Ops.{Env}
use tradedrift.Matcher.Loop.{make_fill, crossable}
use tradedrift.Matching.Reduce.{reduce}

pub record Swept : Type 0 where
  pub left : List OrderNode
  pub taker : OrderNode
  pub fills : List Fill
  pub sequence : ℕ

-- The next order is filled at all.
unfoldable pub takes : OrderNode → OrderNode → Bool
unfolding crossable
takes incoming best = ltb 0 incoming.remaining_qty && crossable incoming best

module _ (env : Env) (event_id market_id : ℕ) where
  unfoldable pub sweep : List OrderNode → OrderNode → ℕ → ℕ → Swept
  sweep [] incoming idx seq = record { left = []; taker = incoming; fills = []; sequence = seq }
  sweep (best ∷ q) incoming idx seq =
      let seq' = next_sequence seq in
      let fill = make_fill env event_id market_id seq' incoming best idx in
      let rest = sweep q (reduce incoming best.remaining_qty) (suc idx) seq' in
      if takes incoming best
      then (if leb best.remaining_qty incoming.remaining_qty
          then record rest { fills = fill ∷ rest.fills }
          else record {
            left = reduce best incoming.remaining_qty ∷ q;
            taker = reduce incoming incoming.remaining_qty;
            fills = fill ∷ [];
            sequence = seq';
          })
      else record { left = best ∷ q; taker = incoming; fills = []; sequence = seq }
