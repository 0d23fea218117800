-- ===== src/Tests/Restoring.antt =====
-- A snapshot of the book of `Books`, with texts that read back.
use Prim.Native.String.{String, [], ◌∷◌}
use tradedrift.Base.{ℕ, zero, suc, ◌≡◌, refl, ap, none, some, pos, arith}
use tradedrift.OrderBook.{OrderBook, new_order_book}
use tradedrift.Matcher.Search.{binary_search_insert_index}
use tradedrift.Matcher.Ops.{insert, set_side, get_side, place, collect}
use tradedrift.Snapshot.Serialize.{Codec, serialize}
use tradedrift.Snapshot.Restore.{Rules, restored, restore, insert_restored_order}
use tradedrift.Matching.Levels.{queue}
use tradedrift.Restoring.Insert.{insert_restored_is_insert}
use tradedrift.Restoring.Orders.{Reads, IsStorable}
use tradedrift.Restoring.RoundTrip.{IsRestorable, SameBook, restore-serialize}
use tradedrift.Tests.Books.{
  quoted, quoted-IsBook, two_asks, two_asks-IsBook, resting_bid, far_ask, near_ask,
}

-- A number as so many strokes.
abbrev strokes : ℕ → String
strokes zero = []
strokes (suc n) = "I" ∷ strokes n

abbrev count_strokes : String → ℕ
count_strokes [] = 0
count_strokes (c ∷ text) = suc (count_strokes text)

count-strokes : (n : ℕ) → count_strokes (strokes n) ≡ n
count-strokes zero = refl
count-strokes (suc n) = ap suc (count-strokes n)

abbrev codec : Codec
codec = record {
  uuid_string = strokes;
  uuid_parse = λ text. some (count_strokes text);
  decimal_string = strokes;
  decimal_parse = λ text. some (pos (count_strokes text));
  time_format = strokes;
  time_parse = λ text. some (count_strokes text);
  checksum = λ snapshot. some "sum";
}

codec-Reads : Reads codec
codec-Reads = record {
  uuid = λ k. ap some (count-strokes k);
  decimal = λ n. ap (λ m. some (pos m)) (count-strokes n);
  time = λ t. ap some (count-strokes t);
}

abbrev rules : Rules
rules = record { market_id = 7; tick_size = 1; lot_size = 1; now = 1000 }

far_ask-IsStorable : IsStorable rules far_ask
far_ask-IsStorable = record {
  of_market = refl;
  is_limit = refl;
  remaining_positive = omega arith;
  remaining_le = omega arith;
  on_tick = refl;
  original_on_lot = refl;
  remaining_on_lot = refl;
  price_positive = omega arith;
  has_time = omega arith;
  not_future = omega arith;
}

near_ask-IsStorable : IsStorable rules near_ask
near_ask-IsStorable = record {
  of_market = refl;
  is_limit = refl;
  remaining_positive = omega arith;
  remaining_le = omega arith;
  on_tick = refl;
  original_on_lot = refl;
  remaining_on_lot = refl;
  price_positive = omega arith;
  has_time = omega arith;
  not_future = omega arith;
}

resting_bid-IsStorable : IsStorable rules resting_bid
resting_bid-IsStorable = record {
  of_market = refl;
  is_limit = refl;
  remaining_positive = omega arith;
  remaining_le = omega arith;
  on_tick = refl;
  original_on_lot = refl;
  remaining_on_lot = refl;
  price_positive = omega arith;
  has_time = omega arith;
  not_future = omega arith;
}

quoted-IsRestorable : IsRestorable rules quoted
unfolding new_order_book insert queue set_side place get_side binary_search_insert_index collect
quoted-IsRestorable = record {
  well_formed = quoted-IsBook;
  of_market = refl;
  bids_storable = (resting_bid-IsStorable, tt);
  asks_storable = (near_ask-IsStorable, (far_ask-IsStorable, tt));
  bids_in_time = tt;
  asks_in_time = (λ same. absurd (omega (arith, same)), tt);
}

restore-serialize_example :
    (b' : OrderBook) × (restore codec
        (new_order_book 7)
        (serialize codec quoted 3 20)
        rules
        3
        (some 25)
        "sum"
      ≡ restored b')
    × SameBook quoted b'
restore-serialize_example =
    restore-serialize codec rules codec-Reads quoted (new_order_book 7) quoted-IsRestorable 3 20
      (some 25) "sum" refl refl

resting_bid_is_absent : two_asks.order_index 4 ≡ none
unfolding new_order_book insert
resting_bid_is_absent = refl

insert_restored_is_insert_example :
    insert_restored_order two_asks resting_bid ≡ insert two_asks resting_bid
insert_restored_is_insert_example =
    insert_restored_is_insert two_asks resting_bid two_asks-IsBook resting_bid_is_absent
