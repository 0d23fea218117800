-- ===== src/Wallet/Settle.antt =====
-- service/settle_trade.go and service/settle_trade_events.go: the settlement of a trade.
use Prim.Native.String.{String}
use text.Mathlib.Text.{◌==◌ as same_text}
use tradedrift.Base.{ℕ, Option, none, some, not, leb, if◌then◌else◌, List, [], ◌∷◌}
use tradedrift.Base.Outcomes.{ok, failed, ◌>>=◌, ◌>>◌, check, require}
use tradedrift.Wallet.Tables.{
  Wallet, Reservation, is_released, WalletTransaction, TransactionType, credit, debit, OutboxEvent,
  is_duplicate, insufficient_reservation, reservation_not_found, invalid_settlement, internal,
  Result,
}
use tradedrift.Wallet.Decimals.{Amount}
use tradedrift.Wallet.Repository.{
  Database, Registered, inserted, already_settled, wallet_of, reservation_of_order,
  register_settlement, credit_available, debit_available, debit_reserved, consume_remaining,
  create_batch, insert_event,
}
use tradedrift.Wallet.Reserve.{Ids}
use tradedrift.Wallet.Validate.{
  TradeSettlementRequest, Moved, check_request, validate_settlement_amounts,
  validate_asset_precision, round_to_asset_precision,
}

pub record TradeSettledPayload : Type 0 where
  pub event_id : String
  pub trade_id : String
  pub buyer_user_id : String
  pub seller_user_id : String
  pub buyer_id : String
  pub seller_id : String
  pub buy_order_id : String
  pub sell_order_id : String
  pub market_id : String
  pub base_asset : String
  pub quote_asset : String
  pub price : Amount
  pub quantity : Amount
  pub sequence : ℕ
  pub executed_at : String
  pub settled_at : ℕ

pub record PortfolioUserTradePayload : Type 0 where
  pub trade_id : String
  pub user_id : String
  pub order_id : String
  pub role : String
  pub market_id : String
  pub base_asset : String
  pub quote_asset : String
  pub price : Amount
  pub quantity : Amount
  pub sequence : ℕ
  pub executed_at : String
  pub settled_at : ℕ

pub data Payload : Type 0 where
  trade_settled : TradeSettledPayload → Payload
  portfolio_user_trade : PortfolioUserTradePayload → Payload

abbrev pub Wallets : Type 0
Wallets = Database Payload

unfoldable pub build_trade_settled_event : String → TradeSettlementRequest → ℕ → OutboxEvent Payload
build_trade_settled_event id req now = record {
  id = id;
  aggregate_id = req.trade_id;
  event_type = "TradeSettled";
  payload = trade_settled (record {
    event_id = id;
    trade_id = req.trade_id;
    buyer_user_id = req.buyer_user_id;
    seller_user_id = req.seller_user_id;
    buyer_id = req.buyer_user_id;
    seller_id = req.seller_user_id;
    buy_order_id = req.buy_order_id;
    sell_order_id = req.seller_order_id;
    market_id = req.market_id;
    base_asset = req.base_asset;
    quote_asset = req.quote_asset;
    price = req.price;
    quantity = req.quantity;
    sequence = req.sequence;
    executed_at = req.executed_at;
    settled_at = now;
  });
  partition_key = req.buyer_user_id;
}

unfoldable pub build_portfolio_event :
    String → TradeSettlementRequest → String → String → String → ℕ → OutboxEvent Payload
build_portfolio_event id req user order role now = record {
  id = id;
  aggregate_id = req.trade_id;
  event_type = "PortfolioUserTrade";
  payload = portfolio_user_trade (record {
    trade_id = req.trade_id;
    user_id = user;
    order_id = order;
    role = role;
    market_id = req.market_id;
    base_asset = req.base_asset;
    quote_asset = req.quote_asset;
    price = req.price;
    quantity = req.quantity;
    sequence = req.sequence;
    executed_at = req.executed_at;
    settled_at = now;
  });
  partition_key = user;
}

abbrev pub mm_account_uuid : String
mm_account_uuid = "00000000-0000-0000-0000-000000000001"

-- The reservation of a side; the market maker's side has none.
unfoldable pub fetch_reservation : String → String → Wallets → Result (Option Reservation)
fetch_reservation user order db =
    let found = (do
      r ← require (reservation_of_order order db.reservations) reservation_not_found
      ok (some r)) in
    if same_text user mm_account_uuid then ok none else found

unfoldable pub validate_reservation : Option Reservation → String → String → Result (Unit {0})
validate_reservation none asset user = ok tt
validate_reservation (some r) asset user = do
  check (not (is_released r.status)) insufficient_reservation
  check (same_text r.asset asset) invalid_settlement
  check (same_text r.user_id user) invalid_settlement

-- Step 4b: the buyer's quote before it is rounded.
unfoldable pub check_buyer_remaining : Option Reservation → ℕ → Result (Unit {0})
check_buyer_remaining none quote = ok tt
check_buyer_remaining (some r) quote = check (leb quote r.remaining_amount) insufficient_reservation

-- The payer's half of a leg: from the reserved balance and the reservation, or for the market maker
-- from the available balance.
unfoldable pub debit_side : String → Option Reservation → ℕ → Wallets → Result Wallets
debit_side wallet none amount db = debit_available wallet amount db
debit_side wallet (some r) amount db = do
  debited ← debit_reserved wallet amount db
  consume_remaining r.id amount debited

-- The four wallets of a trade.
pub record Parties : Type 0 where
  pub seller_base : Wallet
  pub buyer_base : Wallet
  pub buyer_quote : Wallet
  pub seller_quote : Wallet

unfoldable pub fetch_wallets : TradeSettlementRequest → Wallets → Result Parties
fetch_wallets req db = do
  seller_base ← require (wallet_of req.seller_user_id req.base_asset db.wallets) internal
  buyer_base ← require (wallet_of req.buyer_user_id req.base_asset db.wallets) internal
  buyer_quote ← require (wallet_of req.buyer_user_id req.quote_asset db.wallets) internal
  seller_quote ← require (wallet_of req.seller_user_id req.quote_asset db.wallets) internal
  ok (record {
    seller_base = seller_base;
    buyer_base = buyer_base;
    buyer_quote = buyer_quote;
    seller_quote = seller_quote;
  })

-- Steps 7 and 8.
unfoldable pub move_balances :
    Parties → Option Reservation → Option Reservation → Moved → Wallets → Result Wallets
move_balances p buyer_res seller_res m db = do
  base_paid ← debit_side p.seller_base.id seller_res m.base db
  base_moved ← credit_available p.buyer_base.id m.base base_paid
  quote_paid ← debit_side p.buyer_quote.id buyer_res m.quote base_moved
  credit_available p.seller_quote.id m.quote quote_paid

abbrev settlement_entry :
    String → String → TradeSettlementRequest → TransactionType → String → ℕ → WalletTransaction
settlement_entry id wallet req type asset amount = record {
  id = id;
  wallet_id = wallet;
  reference_id = req.trade_id;
  reference_type = "SETTLEMENT";
  transaction_type = type;
  asset = asset;
  amount = amount;
}

-- Step 9: the ids of the four entries, and the entries.
unfoldable pub settlement_entries :
    Ids → TradeSettlementRequest → Parties → Moved → Result (List WalletTransaction)
settlement_entries ids req p m = do
  id0 ← require (ids 0) internal
  id1 ← require (ids 1) internal
  id2 ← require (ids 2) internal
  id3 ← require (ids 3) internal
  ok (
      settlement_entry id0 p.seller_base.id req debit req.base_asset m.base
      ∷ settlement_entry id1 p.buyer_base.id req credit req.base_asset m.base
      ∷ settlement_entry id2 p.buyer_quote.id req debit req.quote_asset m.quote
      ∷ settlement_entry id3 p.seller_quote.id req credit req.quote_asset m.quote
      ∷ [])

-- Step 10.
unfoldable pub insert_events : Ids → TradeSettlementRequest → ℕ → Wallets → Result Wallets
insert_events ids req now db = do
  id4 ← require (ids 4) internal
  first ← insert_event (build_trade_settled_event id4 req now) db
  id5 ← require (ids 5) internal
  second ←
      insert_event (build_portfolio_event id5 req req.buyer_user_id req.buy_order_id "BUY" now)
        first
  id6 ← require (ids 6) internal
  insert_event (build_portfolio_event id6 req req.seller_user_id req.seller_order_id "SELL" now)
      second

-- After the batch: a duplicate entry ends the call without an error and without a commit, so the
-- tables are those of `before`.
unfoldable pub after_batch :
    Ids → TradeSettlementRequest → ℕ → Wallets → Result Wallets → Result Wallets
after_batch ids req now before (ok db) = insert_events ids req now db
after_batch ids req now before (failed e) = if is_duplicate e then ok before else failed e

-- Steps 3 to 11, on the tables with the new settlement; `before` are those of the call.
unfoldable pub settle_registered :
    Ids → TradeSettlementRequest → ℕ → Moved → Wallets → Wallets → Result Wallets
settle_registered ids req now m before db = do
  buyer_res ← fetch_reservation req.buyer_user_id req.buy_order_id db
  seller_res ← fetch_reservation req.seller_user_id req.seller_order_id db
  validate_reservation seller_res req.base_asset req.seller_user_id
  validate_reservation buyer_res req.quote_asset req.buyer_user_id
  check_buyer_remaining buyer_res m.quote
  p ← fetch_wallets req db
  quote ← round_to_asset_precision db.assets req.quote_asset m.quote
  validate_asset_precision db.assets req.base_asset m.base
  validate_asset_precision db.assets req.quote_asset quote
  let rounded : Moved = record { base = m.base; quote = quote }
  moved ← move_balances p buyer_res seller_res rounded db
  entries ← settlement_entries ids req p rounded
  after_batch ids req now before (create_batch entries moved)

unfoldable pub settle_once :
    Ids → TradeSettlementRequest → ℕ → Moved → Wallets → Registered Payload → Result Wallets
settle_once ids req now m db already_settled = ok db
settle_once ids req now m db (inserted fresh) = settle_registered ids req now m db fresh

unfoldable pub settle_trade : Ids → TradeSettlementRequest → ℕ → Wallets → Result Wallets
settle_trade ids req now db = do
  check_request req
  m ← validate_settlement_amounts db.assets req
  registered ← register_settlement req.trade_id req.market_id req.sequence db
  settle_once ids req now m db registered
