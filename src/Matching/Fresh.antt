-- ===== src/Matching/Fresh.antt =====
-- `NewOrderBook` gives a well-formed book with empty queues.
use tradedrift.Base.{ℕ, ◌≡◌, refl, inl, none, some}
use tradedrift.OrderBook.{SideType, buy, sell, PriceLevel, new_order_book, empty_side}
use tradedrift.Matching.Levels.{IsSide, is_buy, queue}
use tradedrift.Matching.Book.{IsBook}

empty_side-IsSide : (st : SideType) → IsSide st (empty_side (is_buy st))
empty_side-IsSide st = record {
  bid = refl;
  sorted = tt;
  levels = tt;
  keys = λ p l e. absurd (clash l e);
}
  where
    clash : (l : PriceLevel) → none ≡ some l → ⊥
    clash l e = cc

pub new_order_book-IsBook : (market_id : ℕ) → IsBook (new_order_book market_id)
unfolding new_order_book queue
new_order_book-IsBook market_id = record {
  own_ok = empty_side-IsSide buy;
  other_ok = empty_side-IsSide sell;
  own_distinct = tt;
  other_distinct = tt;
  apart = λ k. inl refl;
  indexed = λ k. refl;
}
