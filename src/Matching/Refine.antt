-- ===== src/Matching/Refine.antt =====
-- The whole of `Match` refines the pass over the opposite queue.
use tradedrift.Base.{
  ℕ, zero, suc, ◌<◌, ◌≡◌, refl, ap, subst, inl, inr, ◌∙◌, List, [], ◌∷◌, ◌++◌, Option, none, some,
  false, leb, arith, Bool-cases, append-nil, append_assoc, length,
}
use tradedrift.OrderBook.{SideType, buy, sell, OrderNode, OrderBook, Fill, next_sequence}
use tradedrift.Matcher.Ops.{Env, get_side, opposite}
use tradedrift.Matcher.Loop.{next_best, match_step, match_loop, make_fill}
use tradedrift.Matching.Levels.{queue}
use tradedrift.Matching.Reduce.{reduce}
use tradedrift.Matching.Book.{IsBook, Changed}
use tradedrift.Matching.Sweep.{Swept, takes, sweep}
use tradedrift.Matching.Loop.{
  advanced, next_best_cons, next_best_nil, Ran, fill_of, step_full, step_partial, round_full,
  round_partial, get_side-advanced,
}

pub opposite-opposite : (st : SideType) → opposite (opposite st) ≡ st
opposite-opposite buy = refl
opposite-opposite sell = refl

pub takes_spent :
    (incoming best : OrderNode) → takes (reduce incoming incoming.remaining_qty) best ≡ false
unfolding takes
takes_spent incoming best = ground arith

module _ (env : Env) (event_id m : ℕ) where
  -- What the loop returns.
  pub record Loops (fuel : ℕ) (b : OrderBook) (incoming : OrderNode) (idx : ℕ) (fills : List Fill)
      (r : Swept) : Type 0 where
    pub book : OrderBook
    pub returns :
        match_loop fuel env event_id b incoming idx fills ≡ some (book, r.taker, fills ++ r.fills)
    pub ran : Ran b book incoming r

  loop_stops :
      (fuel : ℕ) (b : OrderBook) (incoming : OrderNode) (idx : ℕ) (fills : List Fill)
      (q : List OrderNode) (seq : ℕ)
      → IsBook b
      → queue (get_side b (opposite incoming.side)) ≡ q
      → b.sequence ≡ seq
      → next_best b incoming ≡ none
      → Loops
          (suc fuel)
          b
          incoming
          idx
          fills
          (record { left = q; taker = incoming; fills = []; sequence = seq })
  unfolding match_loop
  loop_stops fuel b incoming idx fills q seq h e es stop = record {
    book = b;
    returns = rw (stop, match_loop) (rw (append-nil fills));
    ran = record {
      well_formed = h;
      queued = e;
      own_same = refl;
      sequenced = es;
      market_same = refl;
    };
  }

  -- A round followed by what the rest of the loop returns.
  loop_goes :
      (fuel : ℕ) (b b' : OrderBook) (incoming incoming' best : OrderNode) (idx : ℕ)
      (fills : List Fill) (f : Fill) (q : List OrderNode) (r : Swept)
      → next_best b incoming ≡ some best
      → match_step env event_id b incoming best idx ≡ some (b', incoming', f)
      → incoming'.side ≡ incoming.side
      → Changed (opposite incoming.side) (advanced b) b' q
      → Loops fuel b' incoming' (suc idx) (fills ++ f ∷ []) r
      → Loops (suc fuel) b incoming idx fills (record r { fills = f ∷ r.fills })
  unfolding match_loop
  loop_goes fuel b b' incoming incoming' best idx fills f q r e s side c l = record {
    book = l.book;
    returns = rw (e, match_loop) (rw s (rw l.returns (rw (append_assoc fills (f ∷ []) r.fills))));
    ran = record {
      well_formed = l.ran.well_formed;
      queued = subst (λ t. queue (get_side l.book (opposite t)) ≡ r.left) side l.ran.queued;
      own_same =
          subst (λ t. get_side l.book (opposite (opposite t)) ≡ get_side b' (opposite (opposite t)))
            side l.ran.own_same
          ∙ c.other_same
          ∙ get_side-advanced (opposite (opposite incoming.side)) b;
      sequenced = l.ran.sequenced;
      market_same = l.ran.market_same ∙ c.market_same;
    };
  }

  pub match_loop-sweep :
      (fuel : ℕ) (q : List OrderNode) (b : OrderBook) (incoming : OrderNode) (idx : ℕ)
      (fills : List Fill) (seq : ℕ)
      → IsBook b
      → queue (get_side b (opposite incoming.side)) ≡ q
      → b.market_id ≡ m
      → b.sequence ≡ seq
      → length q < fuel
      → Loops fuel b incoming idx fills (sweep env event_id m q incoming idx seq)
  unfolding sweep fill_of
  match_loop-sweep zero q b incoming idx fills seq h e em es lt = absurd (omega arith)
  match_loop-sweep (suc fuel) [] b incoming idx fills seq h e em es lt =
      loop_stops fuel b incoming idx fills [] seq h e es (next_best_nil b incoming h e)
  match_loop-sweep (suc fuel) (best ∷ q) b incoming idx fills seq h e em es lt =
      let next = next_best_cons b incoming best q h e in
      elim (Bool-cases (takes incoming best)) [
        | inr no_more ↦
            rw no_more
              (loop_stops fuel b incoming idx fills (best ∷ q) seq h e es (rw no_more at next))
        | inl more ↦
            let next' = rw more at next in
            rw more (elim (Bool-cases (leb best.remaining_qty incoming.remaining_qty)) [
              | inl full ↦
                  let (b', done, c) = round_full env event_id b incoming best q h e in
                  rw full (
                    loop_goes fuel b b' incoming (reduce incoming best.remaining_qty) best idx fills
                      (fill idx best) q
                      (sweep env event_id m q (reduce incoming best.remaining_qty) (suc idx)
                        (next_sequence seq))
                      next'
                      (step_full env event_id b b' incoming best idx full done
                        ∙ same_fill best b' (reduce incoming best.remaining_qty))
                      refl c
                      (match_loop-sweep fuel q b' (reduce incoming best.remaining_qty) (suc idx)
                        (fills ++ fill idx best ∷ []) (next_sequence seq) c.well_formed c.queued
                        (c.market_same ∙ em) (c.sequence_same ∙ ap next_sequence es) (omega arith)))
              | inr partly ↦
                  let (b', done, c) = round_partial env event_id b incoming best q h e partly in
                  let q' = reduce best incoming.remaining_qty ∷ q in
                  let seq' = c.sequence_same ∙ ap next_sequence es in
                  rw partly (
                    loop_goes fuel b b' incoming (reduce incoming incoming.remaining_qty) best idx
                      fills (fill idx best) q'
                      (record {
                        left = q';
                        taker = reduce incoming incoming.remaining_qty;
                        fills = [];
                        sequence = next_sequence seq;
                      })
                      next'
                      (step_partial env event_id b b' incoming best idx partly done
                        ∙ same_fill best b' (reduce incoming incoming.remaining_qty))
                      refl c
                      (ends fuel b' (reduce best incoming.remaining_qty) q
                        (fills ++ fill idx best ∷ []) c.well_formed c.queued seq' (omega arith)))
            ])
      ]
    where
      fill : ℕ → OrderNode → Fill
      fill i best' = make_fill env event_id m (next_sequence seq) incoming best' i

      same_fill :
          (best' : OrderNode) (b' : OrderBook) (i' : OrderNode)
          → ◌≡◌ {A = Option (OrderBook × OrderNode × Fill)}
              (some (b', i', fill_of env event_id b incoming best' idx))
              (some (b', i', fill idx best'))
      same_fill best' b' i' = λ i.
          some (b', i', make_fill env event_id (em i) (next_sequence (es i)) incoming best' idx)

      spent : (best' : OrderNode) → takes (reduce incoming incoming.remaining_qty) best' ≡ false
      spent best' = takes_spent incoming best'

      -- With nothing left of the incoming order the loop ends.
      ends :
          (fuel' : ℕ) (b' : OrderBook) (best' : OrderNode) (q' : List OrderNode)
          (fills' : List Fill)
          → IsBook b'
          → queue (get_side b' (opposite incoming.side)) ≡ best' ∷ q'
          → b'.sequence ≡ next_sequence seq
          → 0 < fuel'
          → Loops fuel' b' (reduce incoming incoming.remaining_qty) (suc idx) fills' (record {
            left = best' ∷ q';
            taker = reduce incoming incoming.remaining_qty;
            fills = [];
            sequence = next_sequence seq;
          })
      ends zero b' best' q' fills' h' e' es' lt' = absurd (omega arith)
      ends (suc fuel') b' best' q' fills' h' e' es' lt' =
          loop_stops fuel' b' (reduce incoming incoming.remaining_qty) (suc idx) fills' (best' ∷ q')
            (next_sequence seq) h' e' es'
            (next_best_cons b' (reduce incoming incoming.remaining_qty) best' q' h' e'
              ∙ rw (spent best'))
