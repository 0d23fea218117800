-- ===== src/Tests/Wallet.antt =====
-- The wallet service at a concrete trade.
use Prim.Native.String.{String, ◌++◌ as join}
use text.Mathlib.Text.{◌==◌ as same_text}
use tradedrift.Base.{
  first_row, ℕ, zero, suc, ◌*◌, ◌^◌, ◌≡◌, refl, Bool, true, false, List, [], ◌∷◌, some, ℤ, pos,
  negsuc, update_rows,
}
use tradedrift.Base.Outcomes.{ok, failed, check, require, ◌>>=◌, ◌>>◌}
use tradedrift.Wallet.Tables.{SettledTrade, Result}
use tradedrift.Wallet.Decimals.{
  Amount, plain_amount, decimal_scale, scale_from, is_whole_at, column_units, truncate_units,
}
use tradedrift.Wallet.Repository.{
  create_wallet, wallet_of, create_transaction, asset_of_code, transaction_of, credit_available,
  update_wallets, reservation_of_order, move_to_reserved, create_reservation, register_settlement,
  register_against, insert_settled, debit_reserved, consume_remaining, update_reservations,
  create_batch, insert_event,
}
use tradedrift.Wallet.Reserve.{
  committed_entry, Ids, check_asset, reserve_funds, reserve_against, reserve_new,
  validate_reservation_request,
}
use tradedrift.Wallet.Validate.{
  TradeSettlementRequest, check_request, validate_settlement_amounts, settlement_units, quote_gap,
  round_to_asset_precision, validate_asset_precision,
}
use tradedrift.Wallet.Settle.{
  Wallets, settle_trade, settle_once, settle_registered, fetch_reservation, validate_reservation,
  check_buyer_remaining, fetch_wallets, move_balances, debit_side, settlement_entries, after_batch,
  insert_events, build_trade_settled_event, build_portfolio_event,
}
use tradedrift.Wallet.Serve.{
  Call, reserve_call, deposit_call, initialize_call, settle_call, committed, serve, serve_all,
}
use tradedrift.Wallet.Deposit.{
  initialize_wallet, initialize_assets, initialize_asset, seed_wallet, record_seed, deposit_funds,
  validate_deposit, deposit_against, credit_deposit,
}
use tradedrift.Funds.State.{Sound, owned, of_asset}
use tradedrift.Wallet.Deposit.{DepositResult, after_entry}
use tradedrift.Funds.Deposit.{Depositable, Deposits}
use tradedrift.Funds.Settle.{Settles, settled_row}
use tradedrift.Funds.Serve.{serve_all-Sound, settlement_moves, serve_all_conserves, deposit_credits}
use tradedrift.Funds.Replay.{settled_once, dust_never_settles}

-- The n-th id of a call.
abbrev ids_of : String → Ids
ids_of call zero = some (join call "-0")
ids_of call (suc zero) = some (join call "-1")
ids_of call (suc (suc zero)) = some (join call "-2")
ids_of call (suc (suc (suc zero))) = some (join call "-3")
ids_of call (suc (suc (suc (suc zero)))) = some (join call "-4")
ids_of call (suc (suc (suc (suc (suc zero))))) = some (join call "-5")
ids_of call _ = some (join call "-6")

abbrev decimal : ℕ → ℤ → Amount
decimal digits exponent = some (record { coefficient = pos digits; exponent = exponent })

abbrev no_blank : String → Bool
no_blank s = false

abbrev start : Wallets
start = record {
  wallets = [];
  reservations = [];
  transactions = [];
  settled_trades = [];
  outbox = [];
  assets =
      record { asset_code = "USDT"; decimals = 2; is_enabled = true; seed_amount = 10000 * 10 ^ 10 }
      ∷ record { asset_code = "BTC"; decimals = 8; is_enabled = true; seed_amount = 0 }
      ∷ [];
}

start-Sound : Sound start
start-Sound = record {
  wallet_ids = tt;
  reservation_ids = tt;
  balanced = tt;
  split = tt;
  backed = λ q. refl;
}

abbrev opening : List Call
opening =
    initialize_call (ids_of "wallet-alice") "alice"
    ∷ initialize_call (ids_of "wallet-bob") "bob"
    ∷ deposit_call (ids_of "deposit-bob") "bob" "BTC" (decimal 2 (pos 0)) "payment" "DEPOSIT"
    ∷ []

abbrev orders : List Call
orders =
    reserve_call (ids_of "reserve-buy") no_blank "alice" "buy" "USDT" (decimal 50000 (negsuc 1))
    ∷ reserve_call (ids_of "reserve-sell") no_blank "bob" "sell" "BTC" (decimal 1 (pos 0))
    ∷ []

unfoldable traded : Wallets
traded = serve_all orders (serve_all opening start)

request : TradeSettlementRequest
request = record {
  trade_id = "trade";
  buyer_user_id = "alice";
  seller_user_id = "bob";
  buy_order_id = "buy";
  seller_order_id = "sell";
  market_id = "BTC-USDT";
  base_asset = "BTC";
  quote_asset = "USDT";
  base_amount = decimal 5 (negsuc 0);
  quote_amount = decimal 20000 (negsuc 1);
  price = decimal 400 (pos 0);
  quantity = decimal 50 (negsuc 1);
  sequence = 7;
  executed_at = "now";
}

after : Wallets
after = committed (settle_trade (ids_of "settle") request 0 traded) traded

abbrev is_ok : {A : Type 0} → Result A → Bool
is_ok (ok a) = true
is_ok (failed e) = false

committed-ok : (m : Result Wallets) (db : Wallets) → is_ok m ≡ true → m ≡ ok (committed m db)
committed-ok (ok d) db h = refl
committed-ok (failed e) db h = cc

opened : Wallets
opened = serve_all opening start

opened-Sound : Sound opened
unfolding opened
opened-Sound = serve_all-Sound opening start start-Sound

traded-Sound : Sound traded
unfolding traded
traded-Sound =
    serve_all-Sound orders (serve_all opening start) (serve_all-Sound opening start start-Sound)

-- Whether a call is answered without an error; what it opens is what these runs compute with.
settles : TradeSettlementRequest → Wallets → Bool
unfolding serve_all serve committed_entry after_entry initialize_wallet initialize_assets
    initialize_asset seed_wallet record_seed create_wallet wallet_of create_transaction
    deposit_funds validate_deposit plain_amount check_asset decimal_scale scale_from is_whole_at
    asset_of_code transaction_of deposit_against credit_deposit column_units credit_available
    update_wallets update_rows reserve_funds reserve_against reserve_new
    validate_reservation_request reservation_of_order move_to_reserved create_reservation check
    require ◌>>=◌ ◌>>◌ settle_trade check_request validate_settlement_amounts settlement_units
    quote_gap register_settlement register_against insert_settled settle_once settle_registered
    fetch_reservation validate_reservation check_buyer_remaining fetch_wallets
    round_to_asset_precision truncate_units validate_asset_precision move_balances debit_side
    debit_reserved consume_remaining update_reservations settlement_entries create_batch after_batch
    insert_events insert_event build_trade_settled_event build_portfolio_event
settles req db = is_ok (settle_trade (ids_of "settle") req 0 db)

settles-ok :
    (req : TradeSettlementRequest) (db : Wallets)
    → settles req db ≡ true
    → settle_trade (ids_of "settle") req 0 db
      ≡ ok (committed (settle_trade (ids_of "settle") req 0 db) db)
unfolding settles
settles-ok req db h = committed-ok _ db h

request-settles : settles request traded ≡ true
unfolding traded request settles
request-settles = refl

settlement_moves_example : Settles (ids_of "settle") request traded after
unfolding after
settlement_moves_example =
    settlement_moves (ids_of "settle") request 0 traded after traded-Sound
      (settles-ok request traded request-settles)

serve_all-Sound_example : Sound (serve_all orders opened)
serve_all-Sound_example = serve_all-Sound orders opened opened-Sound

serve_all_conserves_example :
    owned (of_asset "USDT") (serve_all orders opened).wallets
    ≡ owned (of_asset "USDT") opened.wallets
serve_all_conserves_example = serve_all_conserves orders "USDT" opened (tt, (tt, tt)) opened-Sound

replayed : settles request after ≡ true
unfolding after traded request settles
replayed = refl

after_settled :
    first_row (λ (t : SettledTrade). same_text t.trade_id request.trade_id) after.settled_trades
    ≡ some (settled_row request)
unfolding after traded request settles
after_settled = refl

settled_once_example :
    (committed (settle_trade (ids_of "settle") request 0 after) after ≡ after)
    × (request.market_id ≡ request.market_id)
    × (request.sequence ≡ request.sequence)
settled_once_example =
    settled_once (ids_of "settle") request 0 (settled_row request) after _ after_settled
      (settles-ok request after replayed)

-- A trade of 0.00001 BTC at 400 USDT, whose 0.004 USDT are below one unit of 0.01.
dust : TradeSettlementRequest
dust = record request {
  base_amount = decimal 1 (negsuc 4);
  quantity = decimal 1 (negsuc 4);
  quote_amount = decimal 4 (negsuc 2);
}

dust_never_settles_example : serve (settle_call (ids_of "settle") dust 0) traded ≡ traded
unfolding traded request dust settles
dust_never_settles_example =
    dust_never_settles (ids_of "settle") dust 0 (record { base = 10 ^ 5; quote = 4 * 10 ^ 7 })
      (record {
        asset_code = "USDT";
        decimals = 2;
        is_enabled = true;
        seed_amount = 10000 * 10 ^ 10;
      })
      traded refl refl refl

deposit : Result (DepositResult × Wallets)
deposit =
    deposit_funds (ids_of "deposit") "alice" "USDT" (decimal 25 (negsuc 0)) "payment" "TOPUP" opened

deposited : DepositResult × Wallets
unfolding deposit opened settles
deposited = elim deposit [
  | ok out ↦ out
  | failed e ↦ (record { transaction_id = ""; new_balance = 0 }, opened)
]

deposit_succeeds : deposit ≡ ok (deposited.0, deposited.1)
unfolding deposit deposited opened settles
deposit_succeeds = refl

deposit_credits_example :
    (c : Depositable "alice" "USDT" "payment" "TOPUP" (decimal 25 (negsuc 0)) opened) × Deposits
      (ids_of "deposit")
      "alice"
      "USDT"
      "payment"
      "TOPUP"
      (column_units c.plain)
      c.wallet
      deposited.0
      opened
      deposited.1
unfolding deposit
deposit_credits_example =
    deposit_credits (ids_of "deposit") "alice" "USDT" (decimal 25 (negsuc 0)) "payment" "TOPUP"
      deposited.0 opened deposited.1 opened-Sound deposit_succeeds
