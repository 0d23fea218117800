-- ===== src/Wallet/Serve.antt =====
-- The calls of the wallet service as a sequence of steps on its tables (service/service.go): each is
-- one transaction, so a failed call leaves the tables as they were.
use Prim.Native.String.{String}
use tradedrift.Base.{ℕ, Bool, List, [], ◌∷◌}
use tradedrift.Base.Outcomes.{ok, failed}
use tradedrift.Wallet.Tables.{Result}
use tradedrift.Wallet.Decimals.{Amount}
use tradedrift.Wallet.Reserve.{Ids, reserve_funds, release_funds}
use tradedrift.Wallet.Deposit.{deposit_funds, initialize_wallet, freeze_wallet}
use tradedrift.Wallet.Validate.{TradeSettlementRequest}
use tradedrift.Wallet.Settle.{Wallets, settle_trade}

-- A call with its arguments, and what the id generator and the clock give during it.
pub data Call : Type 0 where
  reserve_call : Ids → (String → Bool) → String → String → String → Amount → Call
  release_call : Ids → String → Call
  deposit_call : Ids → String → String → Amount → String → String → Call
  initialize_call : Ids → String → Call
  freeze_call : String → String → Bool → String → Call
  settle_call : Ids → TradeSettlementRequest → ℕ → Call

-- The tables after a call's transaction.
abbrev pub committed : Result Wallets → Wallets → Wallets
committed (ok db) before = db
committed (failed e) before = before

abbrev pub committed_with : {A : Type 0} → Result (A × Wallets) → Wallets → Wallets
committed_with (ok r) before = r.1
committed_with (failed e) before = before

unfoldable pub serve : Call → Wallets → Wallets
serve (reserve_call ids blank user order asset amount) db =
    committed_with (reserve_funds ids blank user order asset amount db) db
serve (release_call ids order) db = committed (release_funds ids order db) db
serve (deposit_call ids user asset amount reference type) db =
    committed_with (deposit_funds ids user asset amount reference type db) db
serve (initialize_call ids user) db = committed (initialize_wallet ids user db) db
serve (freeze_call user asset freeze reason) db =
    committed_with (freeze_wallet user asset freeze reason db) db
serve (settle_call ids req now) db = committed (settle_trade ids req now db) db

unfoldable pub serve_all : List Call → Wallets → Wallets
serve_all [] db = db
serve_all (c ∷ cs) db = serve_all cs (serve c db)
