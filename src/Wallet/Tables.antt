-- ===== src/Wallet/Tables.antt =====
-- repository/wallet.go, reservation.go, transaction.go, settled_trade.go, asset.go, outbox.go,
-- constants.go and errors.go: the rows of the wallet's database. An amount is a number of units of
-- 10^-10, as its column DECIMAL(30,10) holds it; the time stamps of the rows are left out.
use Prim.Native.String.{String}
use tradedrift.Base.Outcomes.{Outcome}
use tradedrift.Base.{ℕ, Option, Bool, true, false}

pub record Wallet : Type 0 where
  pub id : String
  pub user_id : String
  pub asset : String
  pub available_balance : ℕ
  pub reserved_balance : ℕ
  pub is_frozen : Bool
  pub frozen_by : Option String
  pub freeze_reason : Option String
  pub initial_balance : ℕ
  pub total_balance : ℕ

pub data ReservationStatus : Type 0 where
  active partially_consumed consumed released : ReservationStatus

pub record Reservation : Type 0 where
  pub id : String
  pub order_id : String
  pub user_id : String
  pub asset : String
  pub reserved_amount : ℕ
  pub consumed_amount : ℕ
  pub remaining_amount : ℕ
  pub status : ReservationStatus

pub data TransactionType : Type 0 where
  credit debit : TransactionType

pub record WalletTransaction : Type 0 where
  pub id : String
  pub wallet_id : String
  pub reference_id : String
  pub reference_type : String
  pub transaction_type : TransactionType
  pub asset : String
  pub amount : ℕ

pub record SettledTrade : Type 0 where
  pub trade_id : String
  pub market_id : String
  pub sequence : ℕ

pub record SupportedAsset : Type 0 where
  pub asset_code : String
  pub decimals : ℕ
  pub is_enabled : Bool
  pub seed_amount : ℕ

-- An event that waits for its publication; `P` is the type of the payloads before their JSON.
pub record OutboxEvent (P : Type 0) : Type 0 where
  pub id : String
  pub aggregate_id : String
  pub event_type : String
  pub payload : P
  pub partition_key : String

-- The sentinel errors; `internal` is an error that wraps none of them.
pub data WalletError : Type 0 where
  duplicate insufficient_balance wallet_frozen insufficient_reservation : WalletError
  reservation_not_found invalid_settlement settlement_conflict invalid_reservation : WalletError
  reservation_conflict invalid_deposit wallet_not_found internal : WalletError

abbrev pub is_duplicate : WalletError → Bool
is_duplicate duplicate = true
is_duplicate _ = false

abbrev pub is_released : ReservationStatus → Bool
is_released released = true
is_released _ = false

abbrev pub is_consumed : ReservationStatus → Bool
is_consumed consumed = true
is_consumed _ = false

-- What a step of a transaction gives.
abbrev pub Result {ℓ} : Type ℓ → Type ℓ
Result A = Outcome WalletError A
