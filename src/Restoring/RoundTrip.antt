-- ===== src/Restoring/RoundTrip.antt =====
-- `Restore` after `Serialize`.
use Prim.Native.String.{String}
use text.Mathlib.Text.{◌==◌ as same_text}
use text.Mathlib.TextPositions.{eq_refl}
use tradedrift.Base.{
  ℕ, ◌≡◌, refl, ◌≢◌, sym, ap, inl, inr, ◌∙◌, ◌⊎◌, List, [], ◌∷◌, ◌++◌, map, Option, none, some,
  Bool, true, false, ◌&&◌, All, All-map, arith, if◌then◌else◌, ◌==◌, ==_self,
}
use tradedrift.OrderBook.{buy, sell, OrderNode, OrderBook, new_order_book}
use tradedrift.Matcher.Ops.{get_side}
use tradedrift.Snapshot.Serialize.{
  Codec, SnapshotOrder, BookSnapshot, current_schema_version, snapshot_order, serialize,
}
use tradedrift.Snapshot.Restore.{
  Rules, Cursor, Restored, restored, refused, RestoreError, read_order, stage_order, restore_orders,
  restore, staged_book, is_beyond, ◌>>=◌,
}
use tradedrift.Matching.Orders.{find, or_else}
use tradedrift.Matching.Levels.{queue}
use tradedrift.Matching.Book.{IsBook}
use tradedrift.Matching.Loop.{queue-All, IsBook-sequence}
use tradedrift.Matching.Uncrossed.{queue-InOrder}
use tradedrift.Matching.Fresh.{new_order_book-IsBook}
use tradedrift.Restoring.Orders.{Reads, IsStorable}
use tradedrift.Restoring.Run.{Filled, restore_orders_lem}
use tradedrift.Restoring.Times.{InTime, Follows-queue, asks_after_bids}

Restored-cases {ℓ} :
    {A : Type ℓ} (x : Restored A)
    → ((a : A) × (x ≡ restored a)) ⊎ ((e : RestoreError) × (x ≡ refused e))
Restored-cases (restored a) = inl (a, refl)
Restored-cases (refused e) = inr (e, refl)

restore_orders-append :
    (codec : Codec) (rules : Rules) (xs ys : List SnapshotOrder) (c : Cursor)
    → restore_orders codec rules c (xs ++ ys)
      ≡ (restore_orders codec rules c xs >>= λ c'. restore_orders codec rules c' ys)
unfolding restore_orders
restore_orders-append codec rules [] ys c = refl
restore_orders-append codec rules (x ∷ xs) ys c = elim (Restored-cases (read_order codec rules x)) [
  | inr (e, f) ↦ rw f refl
  | inl (n, f) ↦ rw f (elim (Restored-cases (stage_order c n)) [
    | inr (e, g) ↦ rw g refl
    | inl (c', g) ↦ rw g (restore_orders-append codec rules xs ys c')
  ])
]

-- What `Restore` may rely on: the orders of each side pass its checks one by one, and their times do
-- not go back at one price.
pub record IsRestorable (rules : Rules) (b : OrderBook) : Type 0 where
  pub well_formed : IsBook b
  pub of_market : b.market_id ≡ rules.market_id
  pub bids_storable : All (IsStorable rules) (queue b.bids)
  pub asks_storable : All (IsStorable rules) (queue b.asks)
  pub bids_in_time : InTime (queue b.bids)
  pub asks_in_time : InTime (queue b.asks)

-- The restored book: the same queues in a well-formed book, the same index and the same sequence.
pub record SameBook (b b' : OrderBook) : Type 0 where
  pub well_formed : IsBook b'
  pub bids_same : queue b'.bids ≡ queue b.bids
  pub asks_same : queue b'.asks ≡ queue b.asks
  pub index_same : (k : ℕ) → b'.order_index k ≡ b.order_index k
  pub sequence_same : b'.sequence ≡ b.sequence

staged-IsBook : (m s : ℕ) → IsBook (staged_book m s)
staged-IsBook m s = IsBook-sequence (new_order_book m) s (new_order_book-IsBook m)

absent_everywhere :
    (m s : ℕ) (ns : List OrderNode) → All (λ n. (staged_book m s).order_index n.order_id ≡ none) ns
unfolding new_order_book
absent_everywhere m s [] = tt
absent_everywhere m s (n ∷ ns) = (refl, absent_everywhere m s ns)

and_false : (x : Bool) → (x && false) ≡ false
and_false true = refl
and_false false = refl

All-found : (ns : List OrderNode) → All (λ n. find n.order_id ns ≢ none) ns
All-found [] = tt
All-found (n ∷ ns) = (
  rw (==_self n.order_id) (λ e. cc),
  All-map (λ k. find k.order_id ns ≢ none) (λ k. find k.order_id (n ∷ ns) ≢ none) ns
      (λ k f. later k f (n.order_id == k.order_id)) (All-found ns),
)
  where
    later :
        (k : OrderNode)
        → find k.order_id ns ≢ none
        → (x : Bool) → (if x then some n else find k.order_id ns) ≢ none
    later k f true = λ e. cc
    later k f false = f

-- When every check of the metadata passes and the loop ends, the staged book is written.
restore_passes :
    (codec : Codec) (rules : Rules) (live : OrderBook) (snap : BookSnapshot) (partition : ℕ)
    (checkpoint : Option ℕ) (expected computed : String) (after : Cursor)
    → (snap.schema_version == current_schema_version) ≡ true
    → (snap.market_id == rules.market_id) ≡ true
    → (snap.partition == partition) ≡ true
    → is_beyond snap.offset checkpoint ≡ false
    → codec.checksum snap ≡ some computed
    → same_text computed expected ≡ true
    → restore_orders codec rules
        (record {
          staged = staged_book live.market_id snap.sequence;
          seen_asks = false;
          last = none;
        })
        snap.orders
      ≡ restored after
    → restore codec live snap rules partition checkpoint expected
      ≡ restored (record live {
        bids = after.staged.bids;
        asks = after.staged.asks;
        order_index = after.staged.order_index;
        sequence = after.staged.sequence;
      })
unfolding restore
restore_passes codec rules live snap partition checkpoint expected computed after v m p o c s e =
    rw (v, m, p, o) (rw c (rw s (rw e refl)))

module _ (codec : Codec) (rules : Rules) (r : Reads codec) (b live : OrderBook)
    (h : IsRestorable rules b) where
  start : Cursor
  start = record { staged = staged_book live.market_id b.sequence; seen_asks = false; last = none }

  bids_filled :
      Filled buy start
        (queue b.bids)
        (restore_orders codec rules start (map (snapshot_order codec) (queue b.bids)))
  unfolding start get_side queue new_order_book
  bids_filled =
      let ok = h.well_formed in
      restore_orders_lem codec rules r buy (queue b.bids) start
        (staged-IsBook live.market_id b.sequence) h.bids_storable
        (queue-All buy b.bids (λ n. n.side ≡ buy) ok.own_ok (λ n q. q.on_side)) ok.own_distinct
        (absent_everywhere live.market_id b.sequence (queue b.bids))
        (queue-InOrder buy b.bids ok.own_ok)
        (Follows-queue buy none (queue b.bids) (λ q u. refl) (queue-InOrder buy b.bids ok.own_ok)
          h.bids_in_time)
        refl

  no_bid :
      (k : ℕ)
      → (find k (queue b.bids) ≡ none) ⊎ (find k (queue b.asks) ≡ none)
      → find k (queue b.asks) ≢ none
      → or_else (find k (queue b.bids)) none ≡ none
  no_bid k (inl e) f = rw e refl
  no_bid k (inr e) f = absurd (f e)

  asks_filled :
      Filled sell bids_filled.after
        (queue b.asks)
        (restore_orders codec rules bids_filled.after (map (snapshot_order codec) (queue b.asks)))
  unfolding get_side queue new_order_book start
  asks_filled =
      let ok = h.well_formed in
      let f = bids_filled in
      let empty : queue f.after.staged.asks ≡ [] = ap queue f.other_same in
      let still : All (λ n. f.after.staged.order_index n.order_id ≡ none) (queue b.asks) =
        All-map (λ n. find n.order_id (queue b.asks) ≢ none)
          (λ n. f.after.staged.order_index n.order_id ≡ none) (queue b.asks)
          (λ n found.
            f.well_formed.indexed n.order_id
            ∙ rw (f.queued, empty) (no_bid n.order_id (ok.apart n.order_id) found))
          (All-found (queue b.asks)) in
      restore_orders_lem codec rules r sell (queue b.asks) f.after f.well_formed h.asks_storable
        (queue-All sell b.asks (λ n. n.side ≡ sell) ok.other_ok (λ n q. q.on_side))
        ok.other_distinct still (rw empty (queue-InOrder sell b.asks ok.other_ok))
        (Follows-queue sell f.after.last (queue b.asks)
          (asks_after_bids f.after.last (f.last_on (inl refl)))
          (queue-InOrder sell b.asks ok.other_ok) h.asks_in_time)
        (and_false f.after.seen_asks)

  -- The book that `Restore` writes into the live one.
  book_after : OrderBook
  book_after =
      let staged = asks_filled.after.staged in
      record live {
        bids = staged.bids;
        asks = staged.asks;
        order_index = staged.order_index;
        sequence = staged.sequence;
      }

  book_after-SameBook : SameBook b book_after
  unfolding book_after get_side queue new_order_book start
  book_after-SameBook =
      let f = bids_filled in
      let g = asks_filled in
      let bids : queue g.after.staged.bids ≡ queue b.bids = ap queue g.other_same ∙ f.queued in
      let asks : queue g.after.staged.asks ≡ queue b.asks =
        g.queued ∙ ap (λ q. q ++ queue b.asks) (ap queue f.other_same) in
      record {
        well_formed = record {
          own_ok = g.well_formed.own_ok;
          other_ok = g.well_formed.other_ok;
          own_distinct = g.well_formed.own_distinct;
          other_distinct = g.well_formed.other_distinct;
          apart = g.well_formed.apart;
          indexed = g.well_formed.indexed;
        };
        bids_same = bids;
        asks_same = asks;
        index_same = λ k. g.well_formed.indexed k ∙ rw (bids, asks) (sym (h.well_formed.indexed k));
        sequence_same = g.sequence_same ∙ f.sequence_same;
      }

  all_restored :
      restore_orders codec rules start
        (map (snapshot_order codec) (queue b.bids) ++ map (snapshot_order codec) (queue b.asks))
      ≡ restored asks_filled.after
  all_restored =
      restore_orders-append codec rules (map (snapshot_order codec) (queue b.bids))
        (map (snapshot_order codec) (queue b.asks)) start
      ∙ rw bids_filled.returns asks_filled.returns

  -- Restoring the snapshot of a restorable book (well formed, of the configured market, its orders
  -- on tick and lot and not in the future, times in order at each price), with texts that read
  -- back, its own checksum and an offset not beyond the checkpoint, succeeds and gives a well-
  -- formed book with the same queues, index and sequence.
  pub restore-serialize :
      (partition offset : ℕ) (checkpoint : Option ℕ) (sum : String)
      → is_beyond offset checkpoint ≡ false
      → codec.checksum (serialize codec b partition offset) ≡ some sum
      → (b' : OrderBook) × (restore codec live
            (serialize codec b partition offset)
            rules
            partition
            checkpoint
            sum
          ≡ restored b')
        × SameBook b b'
  unfolding serialize start queue book_after
  restore-serialize partition offset checkpoint sum durable summed =
      let snap = serialize codec b partition offset in
      let same_market : (b.market_id == rules.market_id) ≡ true =
        (let m = h.of_market in ground arith) in
      (
        book_after,
        restore_passes codec rules live snap partition checkpoint sum sum asks_filled.after refl
            same_market (==_self partition) durable summed (eq_refl sum) all_restored,
        book_after-SameBook,
      )
