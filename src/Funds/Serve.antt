-- ===== src/Funds/Serve.antt =====
-- The theorems about the wallet service: the invariant of its tables under every sequence of calls,
-- and what each call moves.
use Prim.Native.String.{String}
use tradedrift.Base.{
  ℕ, ◌≡◌, refl, sym, ap, ◌∙◌, subst, Bool, true, false, List, [], ◌∷◌, All, arith,
}
use tradedrift.Base.Outcomes.{ok, failed}
use tradedrift.Wallet.Tables.{Wallet, Reservation, Result}
use tradedrift.Wallet.Decimals.{Amount, column_units}
use tradedrift.Wallet.Reserve.{Ids}
use tradedrift.Wallet.Deposit.{DepositResult, deposit_funds}
use tradedrift.Wallet.Validate.{TradeSettlementRequest}
use tradedrift.Wallet.Settle.{Wallets, settle_trade}
use tradedrift.Wallet.Serve.{
  Call, reserve_call, release_call, deposit_call, initialize_call, freeze_call, settle_call,
  committed, committed_with, serve, serve_all,
}
use tradedrift.Funds.State.{of_asset, owned, Sound}
use tradedrift.Base.Post.{Post, Post-get, Post-map}
use tradedrift.Funds.Settle
use tradedrift.Funds.Settle.{Settles, moved, settle_trade-Settles}
use tradedrift.Funds.Reserve.{Kept, reserve_funds-Kept}
use tradedrift.Funds.Release.{release_funds-Kept}
use tradedrift.Funds.Deposit.{
  Depositable, Deposits, repeated, clashed, credited, Answered, deposit_funds-Deposits,
}
use tradedrift.Funds.Initialize.{initialize_wallet-Sound, freeze_wallet-Kept}

-- A failed call leaves the tables; a committed one has its postcondition.
pub committed-Post :
    (Q : Wallets → Type 0) (m : Result Wallets) (db : Wallets)
    → Q db
    → Post Q m
    → Q (committed m db)
committed-Post Q (ok d) db q h = h
committed-Post Q (failed e) db q h = q

committed_with-Post :
    {A : Type 0} (Q : Wallets → Type 0) (m : Result (A × Wallets)) (db : Wallets)
    → Q db
    → Post (λ (out : A × Wallets). Q out.1) m
    → Q (committed_with m db)
committed_with-Post Q (ok d) db q h = h
committed_with-Post Q (failed e) db q h = q

Settles-Sound :
    (ids : Ids) (req : TradeSettlementRequest) (db db' : Wallets)
    → Sound db
    → Settles ids req db db'
    → Sound db'
Settles-Sound ids req db db' sound (Settle.repeated s e m q same) = subst Sound (sym same) sound
Settles-Sound ids req db db' sound (Settle.clashed c es e k same) = subst Sound (sym same) sound
Settles-Sound ids req db db' sound (moved c moves r) = moves.sound

Deposits-Sound :
    (ids : Ids) (user asset reference type : String) (units : ℕ) (w : Wallet) (out : DepositResult)
    (db db' : Wallets)
    → Sound db
    → Deposits ids user asset reference type units w out db db'
    → Sound db'
Deposits-Sound ids user asset reference type units w out db db' sound (repeated t e o same) =
    subst Sound (sym same) sound
Deposits-Sound ids user asset reference type units w out db db' sound (clashed id d n t o same) =
    subst Sound (sym same) sound
Deposits-Sound ids user asset reference type units w out db db' sound (credited id d n o l g) = g.0

pub serve-Sound : (c : Call) (db : Wallets) → Sound db → Sound (serve c db)
unfolding serve
serve-Sound (reserve_call ids blank user order asset amount) db sound =
    committed_with-Post Sound _ db sound (
      Post-map (λ (out : Reservation × Wallets). Sound out.1) (λ out. Kept db out.1) _
        (λ out k. k.0) (reserve_funds-Kept db sound ids blank user order asset amount))
serve-Sound (release_call ids order) db sound =
    committed-Post Sound _ db sound
      (Post-map Sound (Kept db) _ (λ d k. k.0) (release_funds-Kept ids order db sound))
serve-Sound (deposit_call ids user asset amount reference type) db sound =
    committed_with-Post Sound _ db sound (
      Post-map (λ (out : DepositResult × Wallets). Sound out.1)
        (Answered ids user asset amount reference type db) _
        (λ out g.
          Deposits-Sound ids user asset reference type _ g.0.wallet out.0 db out.1 sound g.1)
        (deposit_funds-Deposits db sound ids user asset amount reference type))
serve-Sound (initialize_call ids user) db sound =
    committed-Post Sound _ db sound (initialize_wallet-Sound ids user db sound)
serve-Sound (freeze_call user asset freeze reason) db sound = committed_with-Post Sound _ db sound (
    Post-map (λ (out : Bool × Wallets). Sound out.1) (λ out. Kept db out.1) _ (λ out k. k.0)
      (freeze_wallet-Kept db sound user asset freeze reason))
serve-Sound (settle_call ids req now) db sound = committed-Post Sound _ db sound (
    Post-map Sound (Settles ids req db) _ (λ d s. Settles-Sound ids req db d sound s)
      (settle_trade-Settles ids req now db sound))

-- From sound tables every sequence of reserve, release, deposit, initialize, freeze and settle
-- calls leads to sound tables: ids are unique, a wallet's total is its available and reserved
-- balance, a reservation's amount is its consumed and remaining part with a status that agrees,
-- and the reserved balances of every choice of users and assets are exactly what their
-- reservations that are not released still hold back.
pub serve_all-Sound : (cs : List Call) (db : Wallets) → Sound db → Sound (serve_all cs db)
unfolding serve_all
serve_all-Sound [] db sound = sound
serve_all-Sound (c ∷ cs) db sound = serve_all-Sound cs (serve c db) (serve-Sound c db sound)

-- A settlement that returns no error on sound tables does one of three things: it changes nothing,
-- since the trade is settled already, with the same market and sequence; or the trade is new, its
-- amounts are valid, and what is left of the buyer's reservation covers its quote amount, unless
-- the buyer is the market maker, and then it adds the trade to the settled ones, keeps the tables
-- sound and moves exactly the request's base amount from the seller to the buyer and its quote
-- amount, cut to the places of the quote asset, from the buyer to the seller; or such a trade
-- changes nothing, since one of its four entries has a key that the ledger or an entry before it
-- has.
pub settlement_moves :
    (ids : Ids) (req : TradeSettlementRequest) (now : ℕ) (db db' : Wallets)
    → Sound db
    → settle_trade ids req now db ≡ ok db'
    → Settles ids req db db'
settlement_moves ids req now db db' sound e =
    Post-get (Settles ids req db) _ (settle_trade-Settles ids req now db sound) e

-- Between users, an asset only changes hands.
Settles-conserves :
    (ids : Ids) (req : TradeSettlementRequest) (a : String) (db db' : Wallets)
    → Settles ids req db db'
    → owned (of_asset a) db'.wallets ≡ owned (of_asset a) db.wallets
Settles-conserves ids req a db db' (Settle.repeated s e m q same) =
    ap (λ (d : Wallets). owned (of_asset a) d.wallets) same
Settles-conserves ids req a db db' (Settle.clashed c es e k same) =
    ap (λ (d : Wallets). owned (of_asset a) d.wallets) same
Settles-conserves ids req a db db' (moved c moves r) = omega (arith, moves.accounts (of_asset a))

-- The calls that take no money in.
abbrev pub IsInternal : Call → Type 0
IsInternal (deposit_call ids user asset amount reference type) = true ≡ false
IsInternal (initialize_call ids user) = true ≡ false
IsInternal _ = Unit

serve_conserves :
    (c : Call) (a : String) (db : Wallets)
    → IsInternal c
    → Sound db
    → owned (of_asset a) (serve c db).wallets ≡ owned (of_asset a) db.wallets
unfolding serve
serve_conserves (reserve_call ids blank user order asset amount) a db i sound =
    committed_with-Post (λ d. owned (of_asset a) d.wallets ≡ owned (of_asset a) db.wallets) _ db
      refl
      (Post-map
        (λ (out : Reservation × Wallets).
          owned (of_asset a) out.1.wallets ≡ owned (of_asset a) db.wallets)
        (λ out. Kept db out.1) _ (λ out k. k.1 (of_asset a))
        (reserve_funds-Kept db sound ids blank user order asset amount))
serve_conserves (release_call ids order) a db i sound =
    committed-Post (λ d. owned (of_asset a) d.wallets ≡ owned (of_asset a) db.wallets) _ db refl
      (Post-map (λ d. owned (of_asset a) d.wallets ≡ owned (of_asset a) db.wallets) (Kept db) _
        (λ d k. k.1 (of_asset a)) (release_funds-Kept ids order db sound))
serve_conserves (deposit_call ids user asset amount reference type) a db i sound = cc
serve_conserves (initialize_call ids user) a db i sound = cc
serve_conserves (freeze_call user asset freeze reason) a db i sound =
    committed_with-Post (λ d. owned (of_asset a) d.wallets ≡ owned (of_asset a) db.wallets) _ db
      refl
      (Post-map
        (λ (out : Bool × Wallets). owned (of_asset a) out.1.wallets ≡ owned (of_asset a) db.wallets)
        (λ out. Kept db out.1) _ (λ out k. k.1 (of_asset a))
        (freeze_wallet-Kept db sound user asset freeze reason))
serve_conserves (settle_call ids req now) a db i sound =
    committed-Post (λ d. owned (of_asset a) d.wallets ≡ owned (of_asset a) db.wallets) _ db refl
      (Post-map (λ d. owned (of_asset a) d.wallets ≡ owned (of_asset a) db.wallets)
        (Settles ids req db) _ (λ d s. Settles-conserves ids req a db d s)
        (settle_trade-Settles ids req now db sound))

-- No sequence of reserve, release, freeze and settle calls on sound tables changes the sum of the
-- total balances of an asset.
pub serve_all_conserves :
    (cs : List Call) (a : String) (db : Wallets)
    → All IsInternal cs
    → Sound db
    → owned (of_asset a) (serve_all cs db).wallets ≡ owned (of_asset a) db.wallets
unfolding serve_all
serve_all_conserves [] a db i sound = refl
serve_all_conserves (c ∷ cs) a db i sound =
    serve_all_conserves cs a (serve c db) i.1 (serve-Sound c db sound)
    ∙ serve_conserves c a db i.0 sound

-- A deposit that returns no error on sound tables is of a valid request, whose asset is known and
-- enabled and has the places of the amount, to a wallet that is there and not frozen; either the
-- wallet's ledger did not have the reference, and the amount is credited, exactly and to this
-- wallet only, with one entry of the first id that is drawn, or nothing changes, since the ledger
-- of the wallet has the reference already, or since that id is taken in the ledger; the answer
-- says which.
pub deposit_credits :
    (ids : Ids) (user asset : String) (amount : Amount) (reference type : String)
    (out : DepositResult) (db db' : Wallets)
    → Sound db
    → deposit_funds ids user asset amount reference type db ≡ ok (out, db')
    → (c : Depositable user asset reference type amount db) × Deposits ids user asset reference type
        (column_units c.plain)
        c.wallet
        out
        db
        db'
deposit_credits ids user asset amount reference type out db db' sound e =
    Post-get _ _ (deposit_funds-Deposits db sound ids user asset amount reference type) e
