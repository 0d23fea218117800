-- ===== src/Funds/Settle.antt =====
-- The settlement of a trade keeps the tables sound and moves exactly the base and quote amounts.
use Prim.Native.String.{String}
use text.Mathlib.Text.{◌==◌ as same_text}
use text.Mathlib.TextEquality.{eq_iff}
use tradedrift.Base.{
  ℕ, ◌≤◌, ◌≡◌, refl, sym, subst, List, [], ◌∷◌, ◌++◌, Option, some, none, ◌⊎◌, inl, inr, first_row,
  leb→le, and_left, and_right, ==_iff,
}
use tradedrift.Base.Outcomes.{ok}
use tradedrift.Wallet.Tables.{Reservation, WalletTransaction, SettledTrade, SupportedAsset}
use tradedrift.Wallet.Repository.{
  Registered, inserted, already_settled, register_settlement, register_against, insert_settled,
  asset_of_code, reservation_of_order,
}
use tradedrift.Wallet.Validate.{
  TradeSettlementRequest, Moved, validate_settlement_amounts, round_to_asset_precision,
}
use tradedrift.Wallet.Decimals.{truncate_units}
use tradedrift.Wallet.Reserve.{Ids}
use tradedrift.Wallet.Settle.{
  Wallets, Parties, mm_account_uuid, fetch_reservation, check_buyer_remaining, fetch_wallets,
  settlement_entries, settle_registered, settle_once, settle_trade, Payload,
}
use tradedrift.Funds.State.{Sound}
use tradedrift.Base.Post.{
  Post, Post-get, Post-require, Post-step, Post-bind, Post-then, Post-check, Post-both, Post-choose,
  check-true,
}
use tradedrift.Funds.Moves.{Moves}
use tradedrift.Funds.Legs.{paid, received, fetched-Backs, fetched-IsParties, move_balances-Moves}
use tradedrift.Funds.Ledger.{Clashes, duplicate_batch}
use tradedrift.Funds.Records.{create_batch-rest, after_batch-Post, move_balances-SameRecords}

abbrev pub settled_row : TradeSettlementRequest → SettledTrade
settled_row req = record {
  trade_id = req.trade_id;
  market_id = req.market_id;
  sequence = req.sequence;
}

-- The row of the trade among the settled ones.
abbrev pub settled_before : TradeSettlementRequest → Wallets → Option SettledTrade
settled_before req db =
    first_row (λ (s : SettledTrade). same_text s.trade_id req.trade_id) db.settled_trades

-- The buyer is the market maker, or the reservation of its order has at least this much left.
abbrev pub Covered : TradeSettlementRequest → ℕ → Wallets → Type 0
Covered req quote db =
    (req.buyer_user_id ≡ mm_account_uuid)
    ⊎ ((r : Reservation) × (reservation_of_order req.buy_order_id db.reservations ≡ some r)
        × (quote ≤ r.remaining_amount))

-- The checks and amounts of a new trade: it is not settled, its quote before the cut is covered, and
-- `quote` is that cut to the places of the quote asset.
pub record Settleable (req : TradeSettlementRequest) (db : Wallets) : Type 0 where
  pub new : settled_before req db ≡ none
  pub amounts : Moved
  pub valid : validate_settlement_amounts db.assets req ≡ ok amounts
  pub info : SupportedAsset
  pub known : asset_of_code req.quote_asset db.assets ≡ some info
  pub quote : ℕ
  pub rounded : quote ≡ truncate_units info.decimals amounts.quote
  pub covered : Covered req amounts.quote db
  pub parties : Parties
  pub found : fetch_wallets req db ≡ ok parties

abbrev pub cut : {req : TradeSettlementRequest} {db : Wallets} → Settleable req db → Moved
cut c = record { base = c.amounts.base; quote = c.quote }

-- The trade is settled already, by the same market and sequence, and nothing changes; or one of the
-- four entries of the new trade has a key that the ledger or an entry before it has, and nothing
-- changes; or the trade is recorded and its amounts move.
pub data Settles (ids : Ids) (req : TradeSettlementRequest) (db db' : Wallets) : Type 0 where
  repeated :
      (s : SettledTrade)
      → settled_before req db ≡ some s
      → s.market_id ≡ req.market_id
      → s.sequence ≡ req.sequence
      → db' ≡ db
      → Settles ids req db db'
  clashed :
      (c : Settleable req db) (entries : List WalletTransaction)
      → settlement_entries ids req c.parties (cut c) ≡ ok entries
      → Clashes entries db.transactions
      → db' ≡ db
      → Settles ids req db db'
  moved :
      (c : Settleable req db)
      → Moves (paid req (cut c)) (received req (cut c)) db db'
      → db'.settled_trades ≡ db.settled_trades ++ (settled_row req ∷ [])
      → Settles ids req db db'

fetched_cover :
    (req : TradeSettlementRequest) (db : Wallets) (quote : ℕ)
    → Post
        (λ res. check_buyer_remaining res quote ≡ ok tt → Covered req quote db)
        (fetch_reservation req.buyer_user_id req.buy_order_id db)
unfolding fetch_reservation check_buyer_remaining
fetched_cover req db quote =
    Post-choose _ (same_text req.buyer_user_id mm_account_uuid) _ _
      (λ mm v. inl ((eq_iff req.buyer_user_id mm_account_uuid).0 mm))
      (λ _.
        Post-require _ (reservation_of_order req.buy_order_id db.reservations) _ _
          λ r found v. inr (r, found, leb→le _ _ (check-true _ _ v)))

pub rounded_quote :
    (assets : List SupportedAsset) (code : String) (units : ℕ)
    → Post
        (λ quote.
          (info : SupportedAsset) × (asset_of_code code assets ≡ some info)
          × (quote ≡ truncate_units info.decimals units))
        (round_to_asset_precision assets code units)
unfolding round_to_asset_precision
rounded_quote assets code units =
    Post-require _ (asset_of_code code assets) _ _ λ info e. (info, e, refl)

-- `db` has a new settlement, and is otherwise `before`.
settle_registered-Settles :
    (ids : Ids) (req : TradeSettlementRequest) (now : ℕ) (m : Moved) (before : Wallets)
    → Sound before
    → settled_before req before ≡ none
    → validate_settlement_amounts before.assets req ≡ ok m
    → Post (Settles ids req before) (
        settle_registered ids req now m before
          (record before { settled_trades = before.settled_trades ++ (settled_row req ∷ []) }))
unfolding settle_registered fetch_wallets
settle_registered-Settles ids req now m before sound new valid =
    let db : Wallets = record before {
      settled_trades = before.settled_trades ++ (settled_row req ∷ []);
    } in
    Post-step _ _ _ _
      (Post-both _ _ _ (fetched_cover req db m.quote)
        (fetched-Backs db sound req.buyer_user_id req.buy_order_id req.quote_asset))
      λ buyer_res (cover, buyer_backs).
        Post-step _ _ _ _
          (fetched-Backs db sound req.seller_user_id req.seller_order_id req.base_asset)
          λ seller_res seller_backs. Post-then _ _ _ λ seller_ok. Post-then _ _ _ λ buyer_ok.
            Post-then _ _ _ λ enough. Post-bind _ _ _ λ p found.
              let parties = Post-get _ _ (fetched-IsParties db sound req) found in
              Post-step _ _ _ _ (rounded_quote before.assets req.quote_asset m.quote)
                λ quote (info, known, rounded). Post-then _ _ _ λ _. Post-then _ _ _ λ _.
                  let c : Settleable req before = record {
                    new = new;
                    amounts = m;
                    valid = valid;
                    info = info;
                    known = known;
                    quote = quote;
                    rounded = rounded;
                    covered = cover enough;
                    parties = p;
                    found = found;
                  } in
                  Post-step _ _ _ _
                    (Post-both _ _ _ (move_balances-SameRecords p buyer_res seller_res (cut c) db) (
                      move_balances-Moves req p buyer_res seller_res (cut c) db sound parties
                        (seller_backs seller_ok) (buyer_backs buyer_ok)))
                    λ d (same, moves). Post-bind _ _ _ λ entries drawn.
                      after_batch-Post _ ids req now before _
                        (λ e failing dup.
                          clashed c entries drawn
                            (subst (Clashes entries) same.1
                              (duplicate_batch entries d e failing dup))
                            refl)
                        (create_batch-rest _ entries d λ us es. moved c moves same.0)

-- What RegisterSettlement answers on the tables `db`.
abbrev pub IsRegistered : TradeSettlementRequest → Wallets → Registered Payload → Type 0
IsRegistered req db already_settled =
    (s : SettledTrade) × (settled_before req db ≡ some s)
    × (s.market_id ≡ req.market_id)
    × (s.sequence ≡ req.sequence)
IsRegistered req db (inserted fresh) =
    (settled_before req db ≡ none)
    × (fresh ≡ record db { settled_trades = db.settled_trades ++ (settled_row req ∷ []) })

pub register_against-IsRegistered :
    (old : Option SettledTrade) (req : TradeSettlementRequest) (db : Wallets)
    → settled_before req db ≡ old
    → Post (IsRegistered req db) (register_against old req.trade_id req.market_id req.sequence db)
unfolding register_against insert_settled
register_against-IsRegistered none req db e = Post-check _ _ _ _ λ _. (e, refl)
register_against-IsRegistered (some s) req db e = Post-check _ _ _ _ λ fits. (
  s,
  e,
  (eq_iff s.market_id req.market_id).0 (and_left _ _ fits),
  (==_iff s.sequence req.sequence).0 (and_right _ _ fits),
)

settle_once-Settles :
    (ids : Ids) (req : TradeSettlementRequest) (now : ℕ) (m : Moved) (db : Wallets)
    (r : Registered Payload)
    → Sound db
    → validate_settlement_amounts db.assets req ≡ ok m
    → IsRegistered req db r
    → Post (Settles ids req db) (settle_once ids req now m db r)
unfolding settle_once
settle_once-Settles ids req now m db already_settled sound valid (s, e, market, sequence) =
    repeated s e market sequence refl
settle_once-Settles ids req now m db (inserted fresh) sound valid (new, e) =
    subst (λ f. Post (Settles ids req db) (settle_registered ids req now m db f)) (sym e)
      (settle_registered-Settles ids req now m db sound new valid)

pub settle_trade-Settles :
    (ids : Ids) (req : TradeSettlementRequest) (now : ℕ) (db : Wallets)
    → Sound db
    → Post (Settles ids req db) (settle_trade ids req now db)
unfolding settle_trade register_settlement
settle_trade-Settles ids req now db sound = Post-then _ _ _ λ _. Post-bind _ _ _ λ m valid.
    Post-step _ _ _ _ (register_against-IsRegistered (settled_before req db) req db refl)
      λ r found. settle_once-Settles ids req now m db r sound valid found
