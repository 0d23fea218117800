-- ===== src/Wallet/Reserve.antt =====
-- service/reserve_funds.go and service/release_funds.go. `ids` gives what the calls of the id
-- generator return in turn. The transactions run one after the other, so the reservation that is read
-- again under the wallet's lock is the one that was read before.
use Prim.Native.String.{String}
use text.Mathlib.Text.{◌==◌ as same_text}
use tradedrift.Base.{ℕ, Option, none, some, Bool, not, ◌||◌, leb, ◌==◌, if◌then◌else◌}
use tradedrift.Base.Outcomes.{ok, failed, ◌>>=◌, ◌>>◌, check, require}
use tradedrift.Wallet.Tables.{
  Reservation, active, released, is_released, is_consumed, credit, debit, SupportedAsset,
  WalletError, insufficient_balance, wallet_frozen, reservation_not_found, invalid_reservation,
  reservation_conflict, internal, Result,
}
use tradedrift.Wallet.Decimals.{
  Amount, Plain, plain_amount, decimal_scale, column_units, same_amount,
}
use tradedrift.Wallet.Repository.{
  Database, wallet_of, reservation_of_order, asset_of_code, move_to_reserved, move_from_reserved,
  create_reservation, update_status, create_transaction,
}

abbrev pub Ids : Type 0
Ids = ℕ → Option String

unfoldable pub validate_reservation_request : Bool → Amount → Result Plain
validate_reservation_request blank amount = do
  check (not blank) invalid_reservation
  require (plain_amount amount) invalid_reservation

unfoldable pub validate_existing_reservation :
    Reservation → String → String → Plain → Result Reservation
validate_existing_reservation r user asset amount = do
  check (not (is_released r.status || is_consumed r.status)) reservation_conflict
  check (same_text r.user_id user) reservation_conflict
  check (same_text r.asset asset) reservation_conflict
  check (same_amount r.reserved_amount amount) reservation_conflict
  ok r

-- The checks of an asset: it is known, enabled, and has the places of the amount.
unfoldable pub check_asset : WalletError → SupportedAsset → Plain → Result (Unit {0})
check_asset e a amount = do check a.is_enabled e; check (leb (decimal_scale amount) a.decimals) e

-- A ledger entry before the commit: a duplicate is only logged, but its statement has aborted the
-- transaction, and the commit is then refused.
unfoldable pub committed_entry : {P : Type 0} → Result (Database P) → Result (Database P)
committed_entry (ok db) = ok db
committed_entry (failed e) = failed internal

unfoldable pub reserve_new :
    {P : Type 0}
    → Ids
    → String
    → String
    → String
    → Plain
    → Database P
    → Result (Reservation × Database P)
reserve_new {P = P} ids user order asset amount db = do
  w ← require (wallet_of user asset db.wallets) insufficient_balance
  info ← require (asset_of_code asset db.assets) invalid_reservation
  check_asset invalid_reservation info amount
  check (not w.is_frozen) wallet_frozen
  moved ← move_to_reserved w.id (column_units amount) db
  reservation_id ← require (ids 0) internal
  let r : Reservation = record {
    id = reservation_id;
    order_id = order;
    user_id = user;
    asset = asset;
    reserved_amount = column_units amount;
    consumed_amount = 0;
    remaining_amount = column_units amount;
    status = active;
  }
  created ← create_reservation r moved
  txn_id ← require (ids 1) internal
  written ← committed_entry (
      create_transaction
        (record {
          id = txn_id;
          wallet_id = w.id;
          reference_id = order;
          reference_type = "RESERVATION";
          transaction_type = debit;
          asset = asset;
          amount = column_units amount;
        })
        created)
  ok (r, written)

-- A reservation of the order that is there already is returned, and nothing is written.
unfoldable pub reserve_against :
    {P : Type 0}
    → Option Reservation
    → Ids
    → String
    → String
    → String
    → Plain
    → Database P
    → Result (Reservation × Database P)
reserve_against none ids user order asset d db = reserve_new ids user order asset d db
reserve_against {P = P} (some r) ids user order asset d db = do
  existing ← validate_existing_reservation r user asset d
  ok (existing, db)

-- `blank`: the asset is empty once trimmed.
unfoldable pub reserve_funds :
    {P : Type 0}
    → Ids
    → (String → Bool)
    → String
    → String
    → String
    → Amount
    → Database P
    → Result (Reservation × Database P)
reserve_funds {P = P} ids blank user order asset amount db = do
  d ← validate_reservation_request (blank asset) amount
  reserve_against (reservation_of_order order db.reservations) ids user order asset d db

-- The reservation gives back what is left of it.
unfoldable pub release_remaining :
    {P : Type 0} → Ids → String → Reservation → Database P → Result (Database P)
release_remaining {P = P} ids order r db = do
  w ← require (wallet_of r.user_id r.asset db.wallets) internal
  moved ← move_from_reserved w.id r.remaining_amount db
  updated ← update_status r.id released moved
  txn_id ← require (ids 0) internal
  committed_entry (
      create_transaction
        (record {
          id = txn_id;
          wallet_id = w.id;
          reference_id = order;
          reference_type = "RELEASE";
          transaction_type = credit;
          asset = r.asset;
          amount = r.remaining_amount;
        })
        updated)

unfoldable pub release_funds : {P : Type 0} → Ids → String → Database P → Result (Database P)
release_funds ids order db = do
  r ← require (reservation_of_order order db.reservations) reservation_not_found
  let finish = update_status r.id released db
  let give_back = release_remaining ids order r db
  if is_released r.status || is_consumed r.status
      then ok db
      else (if r.remaining_amount == 0 then finish else give_back)
