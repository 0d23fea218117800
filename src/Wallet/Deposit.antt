-- ===== src/Wallet/Deposit.antt =====
-- service/deposit_funds.go, service/initialize_wallet.go and service/freeze.go. The transactions run
-- one after the other, so what DepositFunds reads again under the wallet's lock is what it read before.
use Prim.Native.String.{String}
use text.Mathlib.Text.{◌==◌ as same_text}
use tradedrift.Base.{
  ℕ, suc, ◌+◌, Option, none, some, Bool, false, not, List, [], ◌∷◌, ◌==◌, if◌then◌else◌,
}
use tradedrift.Base.Outcomes.{ok, failed, ◌>>=◌, ◌>>◌, check, require}
use tradedrift.Wallet.Tables.{
  Wallet, WalletTransaction, credit, SupportedAsset, is_duplicate, wallet_frozen, wallet_not_found,
  invalid_deposit, internal, Result,
}
use tradedrift.Wallet.Decimals.{Amount, Plain, plain_amount, column_units}
use tradedrift.Wallet.Repository.{
  Database, wallet_of, asset_of_code, transaction_of, create_wallet, credit_available, freeze_row,
  unfreeze_row, create_transaction,
}
use tradedrift.Wallet.Reserve.{Ids, check_asset}

pub record DepositResult : Type 0 where
  pub transaction_id : String
  pub new_balance : ℕ

unfoldable pub validate_deposit : String → String → String → String → Amount → Result Plain
validate_deposit user asset reference type amount = do
  check (not (same_text user "")) invalid_deposit
  check (not (same_text asset "")) invalid_deposit
  check (not (same_text reference "")) invalid_deposit
  check (not (same_text type "")) invalid_deposit
  require (plain_amount amount) invalid_deposit

-- After the ledger entry: a duplicate rolls the credit back and is answered with the balance as it was.
unfoldable pub after_entry :
    {P : Type 0}
    → String
    → String
    → ℕ
    → ℕ
    → Database P
    → Result (Database P)
    → Result (DepositResult × Database P)
after_entry txn_id reference balance units before (ok db) =
    ok (record { transaction_id = txn_id; new_balance = balance + units }, db)
after_entry txn_id reference balance units before (failed e) =
    if is_duplicate e
    then ok (record { transaction_id = reference; new_balance = balance }, before)
    else failed e

abbrev pub deposit_entry : String → String → String → String → String → ℕ → WalletTransaction
deposit_entry id wallet asset reference type units = record {
  id = id;
  wallet_id = wallet;
  reference_id = reference;
  reference_type = type;
  transaction_type = credit;
  asset = asset;
  amount = units;
}

unfoldable pub credit_deposit :
    {P : Type 0}
    → Ids
    → Wallet
    → String
    → String
    → String
    → Plain
    → Database P
    → Result (DepositResult × Database P)
credit_deposit {P = P} ids w asset reference type d db = do
  txn_id ← require (ids 0) internal
  credited ← credit_available w.id (column_units d) db
  after_entry txn_id reference w.available_balance (column_units d) db (
      create_transaction (deposit_entry txn_id w.id asset reference type (column_units d)) credited)

-- A deposit whose reference is on the wallet's ledger already is answered from there.
unfoldable pub deposit_against :
    {P : Type 0}
    → Option WalletTransaction
    → Ids
    → Wallet
    → String
    → String
    → String
    → Plain
    → Database P
    → Result (DepositResult × Database P)
deposit_against none ids w asset reference type d db =
    credit_deposit ids w asset reference type d db
deposit_against (some t) ids w asset reference type d db =
    ok (record { transaction_id = t.id; new_balance = w.available_balance }, db)

unfoldable pub deposit_funds :
    {P : Type 0}
    → Ids
    → String
    → String
    → Amount
    → String
    → String
    → Database P
    → Result (DepositResult × Database P)
deposit_funds {P = P} ids user asset amount reference type db = do
  d ← validate_deposit user asset reference type amount
  info ← require (asset_of_code asset db.assets) invalid_deposit
  check_asset invalid_deposit info d
  w ← require (wallet_of user asset db.wallets) wallet_not_found
  check (not w.is_frozen) wallet_frozen
  deposit_against (transaction_of w.id reference type db.transactions) ids w asset reference type d
      db

-- The ledger entry of a seed, which a seed of zero does not get.
unfoldable pub record_seed :
    {P : Type 0} → Ids → ℕ → String → String → SupportedAsset → Database P → Result (Database P)
record_seed {P = P} ids n user wallet_id a db = do
  txn_id ← require (ids n) internal
  create_transaction
      (record {
        id = txn_id;
        wallet_id = wallet_id;
        reference_id = user;
        reference_type = "INITIAL_ALLOCATION";
        transaction_type = credit;
        asset = a.asset_code;
        amount = a.seed_amount;
      })
      db

unfoldable pub seed_wallet :
    {P : Type 0} → Ids → ℕ → String → SupportedAsset → Database P → Result (Database P)
seed_wallet {P = P} ids n user a db = do
  wallet_id ← require (ids n) internal
  created ←
      create_wallet
        (record {
          id = wallet_id;
          user_id = user;
          asset = a.asset_code;
          available_balance = a.seed_amount;
          reserved_balance = 0;
          is_frozen = false;
          frozen_by = none;
          freeze_reason = none;
          initial_balance = a.seed_amount;
          total_balance = a.seed_amount;
        })
        db
  let seeded = record_seed ids (suc n) user wallet_id a created
  if a.seed_amount == 0 then ok created else seeded

unfoldable pub initialize_asset :
    {P : Type 0}
    → Option Wallet
    → Ids
    → ℕ
    → String
    → SupportedAsset
    → Database P
    → Result (Database P)
initialize_asset none ids n user a db = seed_wallet ids n user a db
initialize_asset (some w) ids n user a db = ok db

-- The wallets of the assets that have none yet; `n` counts the ids that are drawn, two for a wallet.
unfoldable pub initialize_assets :
    {P : Type 0} → Ids → ℕ → String → List SupportedAsset → Database P → Result (Database P)
initialize_assets ids n user [] db = ok db
initialize_assets {P = P} ids n user (a ∷ rest) db = do
  next ← initialize_asset (wallet_of user a.asset_code db.wallets) ids n user a db
  initialize_assets ids (suc (suc n)) user rest next

-- GetEnabled: the rows of the table in the order of display, which is the order of the list.
abbrev pub enabled_assets : List SupportedAsset → List SupportedAsset
enabled_assets [] = []
enabled_assets (a ∷ rest) = if a.is_enabled then a ∷ enabled_assets rest else enabled_assets rest

unfoldable pub initialize_wallet : {P : Type 0} → Ids → String → Database P → Result (Database P)
initialize_wallet ids user db = initialize_assets ids 0 user (enabled_assets db.assets) db

unfoldable pub freeze_wallet :
    {P : Type 0} → String → String → Bool → String → Database P → Result (Bool × Database P)
freeze_wallet {P = P} user asset freeze reason db = do
  w ← require (wallet_of user asset db.wallets) wallet_not_found
  next ← if freeze then freeze_row w.id "admin" reason db else unfreeze_row w.id db
  ok (freeze, next)
