-- ===== src/Wallet/Repository.antt =====
-- repository/postgres and migration/00001_create_wallet_schema.sql: the statements on the tables,
-- with the constraints that refuse a row.
use Prim.Native.String.{String}
use text.Mathlib.Text.{◌==◌ as same_text}
use tradedrift.Base.{
  ℕ, ◌+◌, ◌-◌, Option, none, some, Bool, true, false, not, ◌&&◌, ◌||◌, List, [], ◌∷◌, ◌++◌, ltb,
  leb, ◌==◌, if◌then◌else◌, first_row, any_row, update_rows,
}
use tradedrift.Base.Outcomes.{ok, ◌>>=◌, ◌>>◌, check, require}
use tradedrift.Wallet.Tables.{
  Wallet, Reservation, ReservationStatus, consumed, partially_consumed, WalletTransaction,
  SettledTrade, SupportedAsset, OutboxEvent, WalletError, duplicate, insufficient_balance,
  insufficient_reservation, settlement_conflict, internal, Result,
}

-- The JSON payloads of the outbox, before they are marshalled.
pub record Database (P : Type 0) : Type 0 where
  pub wallets : List Wallet
  pub reservations : List Reservation
  pub transactions : List WalletTransaction
  pub settled_trades : List SettledTrade
  pub outbox : List (OutboxEvent P)
  pub assets : List SupportedAsset

unfoldable pub wallet_of : String → String → List Wallet → Option Wallet
wallet_of user asset = first_row (λ w. same_text w.user_id user && same_text w.asset asset)

unfoldable pub reservation_of_order : String → List Reservation → Option Reservation
reservation_of_order order = first_row (λ r. same_text r.order_id order)

unfoldable pub asset_of_code : String → List SupportedAsset → Option SupportedAsset
asset_of_code code = first_row (λ a. same_text a.asset_code code)

unfoldable pub transaction_of :
    String → String → String → List WalletTransaction → Option WalletTransaction
transaction_of wallet reference type = first_row (λ t.
    same_text t.wallet_id wallet
    && same_text t.reference_id reference
    && same_text t.reference_type type)

-- The keys of the table: the id, and the user with the asset.
abbrev wallet_clash : Wallet → Wallet → Bool
wallet_clash w x =
    same_text x.id w.id || (same_text x.user_id w.user_id && same_text x.asset w.asset)

unfoldable pub create_wallet : {P : Type 0} → Wallet → Database P → Result (Database P)
create_wallet w db = do
  check (w.total_balance == w.available_balance + w.reserved_balance) internal
  check (not (any_row (wallet_clash w) db.wallets)) internal
  ok (record db { wallets = db.wallets ++ (w ∷ []) })

-- An UPDATE of the wallets, and the error if it affects no row.
unfoldable pub update_wallets :
    {P : Type 0}
    → (Wallet → Bool)
    → (Wallet → Wallet)
    → WalletError
    → Database P
    → Result (Database P)
update_wallets p f e db = do
  wallets ← require (update_rows p f db.wallets) e
  ok (record db { wallets = wallets })

unfoldable pub credit_available : {P : Type 0} → String → ℕ → Database P → Result (Database P)
credit_available id amount =
    update_wallets (λ w. same_text w.id id)
      (λ w. record w {
        available_balance = w.available_balance + amount;
        total_balance = w.total_balance + amount;
      })
      internal

unfoldable pub debit_available : {P : Type 0} → String → ℕ → Database P → Result (Database P)
debit_available id amount =
    update_wallets (λ w. same_text w.id id && leb amount w.available_balance)
      (λ w. record w {
        available_balance = w.available_balance - amount;
        total_balance = w.total_balance - amount;
      })
      insufficient_balance

unfoldable pub move_to_reserved : {P : Type 0} → String → ℕ → Database P → Result (Database P)
move_to_reserved id amount =
    update_wallets (λ w. same_text w.id id && leb amount w.available_balance)
      (λ w. record w {
        available_balance = w.available_balance - amount;
        reserved_balance = w.reserved_balance + amount;
      })
      insufficient_balance

unfoldable pub move_from_reserved : {P : Type 0} → String → ℕ → Database P → Result (Database P)
move_from_reserved id amount =
    update_wallets (λ w. same_text w.id id && leb amount w.reserved_balance)
      (λ w. record w {
        reserved_balance = w.reserved_balance - amount;
        available_balance = w.available_balance + amount;
      })
      insufficient_balance

unfoldable pub debit_reserved : {P : Type 0} → String → ℕ → Database P → Result (Database P)
debit_reserved id amount =
    update_wallets (λ w. same_text w.id id && leb amount w.reserved_balance)
      (λ w. record w {
        reserved_balance = w.reserved_balance - amount;
        total_balance = w.total_balance - amount;
      })
      insufficient_balance

unfoldable pub freeze_row :
    {P : Type 0} → String → String → String → Database P → Result (Database P)
freeze_row id by reason =
    update_wallets (λ w. same_text w.id id)
      (λ w. record w { is_frozen = true; frozen_by = some by; freeze_reason = some reason })
      internal

unfoldable pub unfreeze_row : {P : Type 0} → String → Database P → Result (Database P)
unfreeze_row id =
    update_wallets (λ w. same_text w.id id)
      (λ w. record w { is_frozen = false; frozen_by = none; freeze_reason = none }) internal

unfoldable pub create_reservation : {P : Type 0} → Reservation → Database P → Result (Database P)
create_reservation r db = do
  check (ltb 0 r.reserved_amount) internal
  check
      (not (any_row (λ x. same_text x.id r.id || same_text x.order_id r.order_id) db.reservations))
      duplicate
  ok (record db { reservations = db.reservations ++ (r ∷ []) })

unfoldable pub update_reservations :
    {P : Type 0}
    → (Reservation → Bool)
    → (Reservation → Reservation)
    → WalletError
    → Database P
    → Result (Database P)
update_reservations p f e db = do
  reservations ← require (update_rows p f db.reservations) e
  ok (record db { reservations = reservations })

unfoldable pub update_status :
    {P : Type 0} → String → ReservationStatus → Database P → Result (Database P)
update_status id status =
    update_reservations (λ r. same_text r.id id) (λ r. record r { status = status }) internal

unfoldable pub consume_remaining : {P : Type 0} → String → ℕ → Database P → Result (Database P)
consume_remaining id amount =
    update_reservations (λ r. same_text r.id id && leb amount r.remaining_amount)
      (λ r. record r {
        consumed_amount = r.consumed_amount + amount;
        remaining_amount = r.remaining_amount - amount;
        status = if leb r.remaining_amount amount then consumed else partially_consumed;
      })
      insufficient_reservation

abbrev is_reference_type : String → Bool
is_reference_type t =
    same_text t "INITIAL_ALLOCATION"
    || same_text t "RESERVATION"
    || same_text t "RELEASE"
    || same_text t "SETTLEMENT"
    || same_text t "DEPOSIT"
    || same_text t "TOPUP"
    || same_text t "WITHDRAWAL"

-- The keys of the ledger: the id, and the wallet with the reference and its type.
abbrev pub transaction_clash : WalletTransaction → WalletTransaction → Bool
transaction_clash t x =
    same_text x.id t.id
    || (same_text x.wallet_id t.wallet_id
        && same_text x.reference_id t.reference_id
        && same_text x.reference_type t.reference_type)

unfoldable pub create_transaction :
    {P : Type 0} → WalletTransaction → Database P → Result (Database P)
create_transaction t db = do
  check (ltb 0 t.amount) internal
  check (is_reference_type t.reference_type) internal
  check (not (any_row (transaction_clash t) db.transactions)) duplicate
  ok (record db { transactions = db.transactions ++ (t ∷ []) })

unfoldable pub create_batch :
    {P : Type 0} → List WalletTransaction → Database P → Result (Database P)
create_batch [] db = ok db
create_batch (t ∷ ts) db = do next ← create_transaction t db; create_batch ts next

-- What RegisterSettlement returns: the row was inserted, or it was there already.
pub data Registered (P : Type 0) : Type 0 where
  inserted : Database P → Registered P
  already_settled : Registered P

-- A new trade is refused by the key of its market's sequence number.
unfoldable pub insert_settled :
    {P : Type 0} → String → String → ℕ → Database P → Result (Registered P)
insert_settled trade market sequence db = do
  check
      (not
        (any_row (λ s. same_text s.market_id market && s.sequence == sequence) db.settled_trades))
      internal
  ok (
      inserted (record db {
        settled_trades =
            db.settled_trades
            ++ (record { trade_id = trade; market_id = market; sequence = sequence } ∷ []);
      }))

-- By the row that has the trade's id.
unfoldable pub register_against :
    {P : Type 0} → Option SettledTrade → String → String → ℕ → Database P → Result (Registered P)
register_against none trade market sequence db = insert_settled trade market sequence db
register_against (some s) trade market sequence db = do
  check (same_text s.market_id market && s.sequence == sequence) settlement_conflict
  ok already_settled

unfoldable pub register_settlement :
    {P : Type 0} → String → String → ℕ → Database P → Result (Registered P)
register_settlement trade market sequence db =
    register_against (first_row (λ s. same_text s.trade_id trade) db.settled_trades) trade market
      sequence db

unfoldable pub insert_event : {P : Type 0} → OutboxEvent P → Database P → Result (Database P)
insert_event {P = P} e db = do
  check (not (any_row (λ (x : OutboxEvent P). same_text x.id e.id) db.outbox)) internal
  ok (record db { outbox = db.outbox ++ (e ∷ []) })
