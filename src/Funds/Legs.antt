-- ===== src/Funds/Legs.antt =====
-- The reservations, the wallets and the two legs of a settlement.
use Prim.Native.String.{String}
use text.Mathlib.Text.{◌==◌ as same_text}
use text.Mathlib.TextEquality.{eq_iff}
use tradedrift.Base.{negated, ℕ, ◌+◌, ◌≡◌, refl, subst, arith, Option, some, none}
use tradedrift.Base.Outcomes.{ok}
use tradedrift.Wallet.Tables.{Reservation}
use tradedrift.Wallet.Repository.{wallet_of, reservation_of_order}
use tradedrift.Wallet.Validate.{TradeSettlementRequest, Moved}
use tradedrift.Wallet.Settle.{
  Wallets, Parties, fetch_reservation, validate_reservation, debit_side, fetch_wallets,
  move_balances, mm_account_uuid,
}
use tradedrift.Funds.State.{Pairs, Sound, Names, Lives}
use tradedrift.Base.Post.{Post, Post-require, Post-step, Post-map, Post-if, both_pass, check-true}
use tradedrift.Funds.Steps.{wallet_of-Names, reservation_of_order-Lives}
use tradedrift.Funds.Moves.{
  Moves, chain-Moves, recount-Moves, nothing, at, credit_available-Moves, debit_available-Moves,
}
use tradedrift.Funds.Consume.{debit_side-Moves}

-- A reservation that was fetched and validated: its rows are open and of the user and the asset.
abbrev pub Backs : Option Reservation → String → String → Wallets → Type 0
Backs none user asset db = Unit
Backs (some r) user asset db = Lives r.id user asset db.reservations

pub debit_of_side-Moves :
    (db : Wallets) (sound : Sound db) (k user asset : String) (amount : ℕ)
    (res : Option Reservation)
    → Names k user asset db.wallets
    → Backs res user asset db
    → Post (Moves (at user asset amount) nothing db) (debit_side k res amount db)
unfolding debit_side
debit_of_side-Moves db sound k user asset amount none names h =
    debit_available-Moves db sound k user asset amount names
debit_of_side-Moves db sound k user asset amount (some r) names h =
    debit_side-Moves db sound k r.id user asset amount names h r refl

Backs-Moves :
    (res : Option Reservation) (user asset : String) {o g : Pairs → ℕ} (db db' : Wallets)
    → Moves o g db db'
    → Backs res user asset db
    → Backs res user asset db'
Backs-Moves none user asset db db' m h = tt
Backs-Moves (some r) user asset db db' m h = m.lives r.id user asset h

-- What leaves and what arrives in a trade.
abbrev pub paid : TradeSettlementRequest → Moved → Pairs → ℕ
paid req m q =
    at req.seller_user_id req.base_asset m.base q + at req.buyer_user_id req.quote_asset m.quote q

abbrev pub received : TradeSettlementRequest → Moved → Pairs → ℕ
received req m q =
    at req.buyer_user_id req.base_asset m.base q + at req.seller_user_id req.quote_asset m.quote q

-- The wallets are those of the trade's users and assets.
pub record IsParties (req : TradeSettlementRequest) (p : Parties) (db : Wallets) : Type 0 where
  pub seller_base : Names p.seller_base.id req.seller_user_id req.base_asset db.wallets
  pub buyer_base : Names p.buyer_base.id req.buyer_user_id req.base_asset db.wallets
  pub buyer_quote : Names p.buyer_quote.id req.buyer_user_id req.quote_asset db.wallets
  pub seller_quote : Names p.seller_quote.id req.seller_user_id req.quote_asset db.wallets

pub move_balances-Moves :
    (req : TradeSettlementRequest) (p : Parties) (buyer_res seller_res : Option Reservation)
    (m : Moved) (db : Wallets)
    → Sound db
    → IsParties req p db
    → Backs seller_res req.seller_user_id req.base_asset db
    → Backs buyer_res req.buyer_user_id req.quote_asset db
    → Post (Moves (paid req m) (received req m) db) (move_balances p buyer_res seller_res m db)
unfolding move_balances
move_balances-Moves req p buyer_res seller_res m db sound parties seller_backs buyer_backs =
    Post-step _ _ _ _
      (debit_of_side-Moves db sound _ req.seller_user_id req.base_asset m.base seller_res
        parties.seller_base seller_backs)
      λ d1 m1.
        Post-step _ _ _ _
          (credit_available-Moves d1 m1.sound _ req.buyer_user_id req.base_asset m.base
            (m1.names _ _ _ parties.buyer_base))
          λ d2 m2.
            let n2 = chain-Moves db d1 d2 m1 m2 in
            Post-step _ _ _ _
              (debit_of_side-Moves d2 m2.sound _ req.buyer_user_id req.quote_asset m.quote buyer_res
                (n2.names _ _ _ parties.buyer_quote)
                (Backs-Moves buyer_res _ _ db d2 n2 buyer_backs))
              λ d3 m3.
                let n3 = chain-Moves db d2 d3 n2 m3 in
                Post-map _ _ _
                  (λ d4 m4.
                    recount-Moves (paid req m) (received req m) db d4
                      (λ q. (omega arith, omega arith)) (chain-Moves db d3 d4 n3 m4))
                  (credit_available-Moves d3 m3.sound _ req.seller_user_id req.quote_asset m.quote
                    (n3.names _ _ _ parties.seller_quote))

module _ (db : Wallets) (sound : Sound db) where
  pub fetched-Backs :
      (user order asset : String)
      → Post
          (λ res. validate_reservation res asset user ≡ ok tt → Backs res user asset db)
          (fetch_reservation user order db)
  unfolding fetch_reservation validate_reservation
  fetched-Backs user order asset =
      Post-if _ (same_text user mm_account_uuid) _ _ (λ v. tt)
        (Post-require _ (reservation_of_order order db.reservations) _ _ λ r found v.
          let (alive, rest) = both_pass _ _ v in
          let (asset_ok, user_ok) = both_pass _ _ rest in
          let lives =
            reservation_of_order-Lives db sound order r found (negated _ (check-true _ _ alive)) in
          subst (λ a. Lives r.id user a db.reservations)
            ((eq_iff r.asset asset).0 (check-true _ _ asset_ok))
            (subst (λ u. Lives r.id u r.asset db.reservations)
              ((eq_iff r.user_id user).0 (check-true _ _ user_ok)) lives))

  pub fetched-IsParties :
      (req : TradeSettlementRequest) → Post (λ p. IsParties req p db) (fetch_wallets req db)
  unfolding fetch_wallets
  fetched-IsParties req =
      Post-require _ (wallet_of req.seller_user_id req.base_asset db.wallets) _ _ λ w0 e0.
        Post-require _ (wallet_of req.buyer_user_id req.base_asset db.wallets) _ _ λ w1 e1.
          Post-require _ (wallet_of req.buyer_user_id req.quote_asset db.wallets) _ _ λ w2 e2.
            Post-require _ (wallet_of req.seller_user_id req.quote_asset db.wallets) _ _ λ w3 e3.
              record {
                seller_base = wallet_of-Names db sound _ _ w0 e0;
                buyer_base = wallet_of-Names db sound _ _ w1 e1;
                buyer_quote = wallet_of-Names db sound _ _ w2 e2;
                seller_quote = wallet_of-Names db sound _ _ w3 e3;
              }
