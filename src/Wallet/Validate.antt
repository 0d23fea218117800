-- ===== src/Wallet/Validate.antt =====
-- service/settle_trade_validate.go, and the checks at the head of service/settle_trade.go.
use Prim.Native.String.{String, ◌++◌ as join}
use text.Mathlib.Text.{◌==◌ as same_text}
use tradedrift.Base.{ℕ, ◌+◌, ◌-◌, ◌*◌, ◌^◌, not, ◌||◌, leb, ◌==◌, List}
use tradedrift.Base.Outcomes.{ok, ◌>>=◌, ◌>>◌, check, require}
use tradedrift.Wallet.Tables.{SupportedAsset, invalid_settlement, internal, Result}
use tradedrift.Wallet.Decimals.{Amount, plain_amount, truncate_units}
use tradedrift.Wallet.Repository.{asset_of_code}
use tradedrift.Wallet.Reserve.{check_asset}

pub record TradeSettlementRequest : Type 0 where
  pub trade_id : String
  pub buyer_user_id : String
  pub seller_user_id : String
  pub buy_order_id : String
  pub seller_order_id : String
  pub market_id : String
  pub base_asset : String
  pub quote_asset : String
  pub base_amount : Amount
  pub quote_amount : Amount
  pub price : Amount
  pub quantity : Amount
  pub sequence : ℕ
  pub executed_at : String

-- Step 0, without the amounts.
unfoldable pub check_request : TradeSettlementRequest → Result (Unit {0})
check_request req = do
  check
      (not (
        same_text req.trade_id ""
        || same_text req.buyer_user_id ""
        || same_text req.seller_user_id ""
        || same_text req.buy_order_id ""
        || same_text req.seller_order_id ""))
      invalid_settlement
  check (not (same_text req.buyer_user_id req.seller_user_id)) invalid_settlement
  check (not (same_text req.buy_order_id req.seller_order_id)) invalid_settlement
  check (not (same_text req.base_asset "" || same_text req.quote_asset "")) invalid_settlement
  check (not (same_text req.market_id "")) invalid_settlement
  check (not (req.sequence == 0)) invalid_settlement

-- `parse`: the amount in units of 10^-10, which is exact with ten places at most.
unfoldable pub settlement_units : Amount → Result ℕ
settlement_units text = do
  d ← require (plain_amount text) invalid_settlement
  check (leb d.places 10) invalid_settlement
  ok (d.digits * 10 ^ (10 - d.places))

-- The base and quote amounts of a request, in units.
pub record Moved : Type 0 where
  pub base : ℕ
  pub quote : ℕ

-- The difference of the quote and price times quantity, in units of 10^-20.
unfoldable pub quote_gap : ℕ → ℕ → ℕ → ℕ
quote_gap quote price quantity =
    (quote * 10 ^ 10 - price * quantity) + (price * quantity - quote * 10 ^ 10)

unfoldable pub validate_settlement_amounts :
    List SupportedAsset → TradeSettlementRequest → Result Moved
validate_settlement_amounts assets req = do
  base ← settlement_units req.base_amount
  quote ← settlement_units req.quote_amount
  price ← settlement_units req.price
  quantity ← settlement_units req.quantity
  check (base == quantity) invalid_settlement
  info ← require (asset_of_code req.quote_asset assets) invalid_settlement
  check (leb (quote_gap quote price quantity * 10 ^ info.decimals) (10 ^ 20)) invalid_settlement
  check (same_text req.market_id (join req.base_asset (join "-" req.quote_asset)))
      invalid_settlement
  ok (record { base = base; quote = quote })

unfoldable pub validate_asset_precision : List SupportedAsset → String → ℕ → Result (Unit {0})
validate_asset_precision assets code units = do
  info ← require (asset_of_code code assets) invalid_settlement
  check_asset invalid_settlement info (record { digits = units; places = 10 })

unfoldable pub round_to_asset_precision : List SupportedAsset → String → ℕ → Result ℕ
round_to_asset_precision assets code units = do
  info ← require (asset_of_code code assets) internal
  ok (truncate_units info.decimals units)
