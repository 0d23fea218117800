-- ===== src/Safety/Apply.antt =====
-- `applyEvent` on an engine with a well-formed, uncrossed book.
use tradedrift.Base.{
  ℕ, ◌≡◌, refl, ◌≢◌, inl, inr, List, [], Option, none, some, false, ◌==◌, Bool-cases, Option-cases,
}
use tradedrift.OrderBook.{
  OrderBook, CancelStatus, CancelOutcome, unset, removed_from_book, already_absent, user_mismatch,
  invalid_request, CancelledOrder, Fill, next_sequence,
}
use tradedrift.Matcher.Ops.{Env}
use tradedrift.Matcher.Loop.{emitted}
use tradedrift.Engine.State.{
  Mode, mode_recovery, mode_live, mode_blocked, mode_reconciling, MarketEngine, MatchResult,
  InputEvent, EventBody, OrderCreatedPayload, OrderCancelPayload, order_created, order_cancel,
  recovery_barrier, unknown,
}
use tradedrift.Engine.Apply.{
  position, reply, reject, apply_event, apply_in, apply_body, apply_created, apply_cancel,
  after_cancel, node_of, matcher_mode, valid_tick_and_lot,
}
use tradedrift.Matching.Book.{IsBook}
use tradedrift.Matching.Loop.{IsBook-sequence}
use tradedrift.Matching.Match.{match_order-Matched}
use tradedrift.Matching.Crossing.{IsUncrossed, Matched-IsUncrossed, remove-IsUncrossed}
use tradedrift.Matching.Cancel.{cancel_outcome, Outcome, absent, refused, removed}
use tradedrift.Matching.Depth.{get_depth_exact}

pub record IsGood (b : OrderBook) : Type 0 where
  pub well_formed : IsBook b
  pub uncrossed : IsUncrossed b

-- The call came back with a result for this event, and changed nothing of the engine but its book.
pub record Replied (m : MarketEngine) (event : InputEvent)
    (out : Option (MarketEngine × Option MatchResult)) : Type 0 where
  pub book : OrderBook
  pub result : MatchResult
  pub returns : out ≡ some (record m { book = book }, some result)
  pub good : IsGood book
  pub positioned : result.source_position ≡ position event
  pub quiet : m.mode ≢ mode_live → result.fills ≡ []
  pub depth_sequence : result.depth_snapshot.sequence ≡ book.sequence

-- Outside the live mode the matcher runs in recovery.
quiet_mode :
    (mode : Mode) (fills : List Fill) → mode ≢ mode_live → emitted (matcher_mode mode) fills ≡ []
quiet_mode mode_live fills h = absurd (h refl)
quiet_mode mode_recovery fills h = refl
quiet_mode mode_blocked fills h = refl
quiet_mode mode_reconciling fills h = refl

-- The event is a command: its type is one that `applyEvent` knows.
abbrev pub IsCommand : EventBody → Type 0
IsCommand (order_created p) = Unit
IsCommand (order_cancel p) = Unit
IsCommand recovery_barrier = ⊥
IsCommand unknown = ⊥

module _ (env : Env) (m : MarketEngine) (event : InputEvent) where
  reply-Replied :
      (book : OrderBook) (fills : List Fill) (c : Option CancelledOrder)
      → IsGood book
      → (m.mode ≢ mode_live → fills ≡ [])
      → Replied m event (reply env m book event fills c)
  unfolding reply
  reply-Replied book fills c g quiet =
      let d = get_depth_exact env book 20 g.well_formed in
      record {
        book = book;
        result = record {
          fills = fills;
          cancel_result = c;
          depth_snapshot = d.0;
          source_position = position event;
          snapshot = none;
          barrier_reached = false;
          barrier_offset = 0;
        };
        returns = rw d.1 refl;
        good = g;
        positioned = refl;
        quiet = quiet;
        depth_sequence = d.2;
      }

  created-Replied :
      (p : OrderCreatedPayload) → IsGood m.book → Replied m event (apply_created env m event p)
  unfolding apply_created
  created-Replied p g = elim (Bool-cases (p.market_id == m.market_id)) [
    | inr other ↦ rw other (reply-Replied m.book [] _ g (λ _. refl))
    | inl same ↦ elim (Option-cases (m.book.order_index p.order_id)) [
      | inr (d, e) ↦ rw (same, e, apply_created) (reply-Replied m.book [] none g (λ _. refl))
      | inl e ↦
          rw (same, e, apply_created)
            (elim (Bool-cases (valid_tick_and_lot (node_of env p) m.config)) [
              | inr bad ↦ rw bad (reply-Replied m.book [] _ g (λ _. refl))
              | inl valid ↦
                  let x =
                    match_order-Matched env m.book (node_of env p) event.event_id g.well_formed e in
                  rw valid (
                    rw (x.returns (matcher_mode m.mode)) (
                      reply-Replied x.book _ _
                        (record {
                          well_formed = x.well_formed;
                          uncrossed =
                              Matched-IsUncrossed env m.book (node_of env p) event.event_id
                                g.well_formed e g.uncrossed x;
                        })
                        (quiet_mode m.mode _)))
            ])
    ]
  ]

  after_cancel-Replied :
      (p : OrderCancelPayload) (book : OrderBook) (o : CancelOutcome) (s : CancelStatus)
      → IsGood book
      → Replied m event (after_cancel env m event p book o s)
  unfolding after_cancel
  after_cancel-Replied p book o removed_from_book g =
      reply-Replied (record book { sequence = next_sequence book.sequence }) [] _
        (record {
          well_formed = IsBook-sequence book (next_sequence book.sequence) g.well_formed;
          uncrossed = g.uncrossed;
        })
        (λ _. refl)
  after_cancel-Replied p book o user_mismatch g = reply-Replied book [] _ g (λ _. refl)
  after_cancel-Replied p book o already_absent g = reply-Replied book [] _ g (λ _. refl)
  after_cancel-Replied p book o unset g = reply-Replied book [] _ g (λ _. refl)
  after_cancel-Replied p book o invalid_request g = reply-Replied book [] _ g (λ _. refl)

  cancel-IsGood :
      (k user : ℕ) (b' : OrderBook) (out : CancelOutcome)
      → IsGood m.book
      → IsBook b'
      → Outcome m.book k user b' out
      → IsGood b'
  cancel-IsGood k user b' out g h (absent _ same _) = rw same g
  cancel-IsGood k user b' out g h (refused _ _ _ same _) = rw same g
  cancel-IsGood k user b' out g h (removed n _ _ r) = record {
    well_formed = h;
    uncrossed =
        remove-IsUncrossed n.side m.book b' k r.changed.queued r.changed.other_same g.uncrossed;
  }

  cancel-Replied :
      (p : OrderCancelPayload) → IsGood m.book → Replied m event (apply_cancel env m event p)
  unfolding apply_cancel
  cancel-Replied p g = elim (Bool-cases (p.market_id == m.market_id)) [
    | inr other ↦ rw other (reply-Replied m.book [] _ g (λ _. refl))
    | inl same ↦
        let (b', out, e, h, o) = cancel_outcome m.book p.order_id p.user_id g.well_formed in
        rw (same, e, apply_cancel)
          (after_cancel-Replied p b' out out.status
            (cancel-IsGood p.order_id p.user_id b' out g h o))
  ]

  body-Replied :
      (body : EventBody)
      → IsCommand body
      → IsGood m.book
      → Replied m event (apply_body env m event body)
  unfolding apply_body
  body-Replied (order_created p) c g = created-Replied p g
  body-Replied (order_cancel p) c g = cancel-Replied p g
  body-Replied recovery_barrier c g = absurd c
  body-Replied unknown c g = absurd c

  in-Replied :
      (mode : Mode)
      → IsCommand event.body
      → IsGood m.book
      → Replied m event (apply_in mode env m event)
  unfolding apply_in reject
  in-Replied mode_blocked c g = reply-Replied m.book [] _ g (λ _. refl)
  in-Replied mode_reconciling c g = reply-Replied m.book [] _ g (λ _. refl)
  in-Replied mode_recovery c g = body-Replied event.body c g
  in-Replied mode_live c g = body-Replied event.body c g

  -- In every mode applyEvent answers a command on a well-formed, uncrossed book without panic or
  -- error, changes nothing of the engine but its book, keeps it well formed and uncrossed, and
  -- emits no fill unless the engine is live.
  pub apply_event-Replied :
      IsGood m.book → IsCommand event.body → Replied m event (apply_event env m event)
  unfolding apply_event
  apply_event-Replied g c = in-Replied m.mode c g
