-- ===== src/Funds/Replay.antt =====
-- Settlements that change nothing: of a trade that is settled already, and of a trade whose quote is
-- below one unit of its asset.
use text.Mathlib.Text.{◌==◌ as same_text}
use text.Mathlib.TextEquality.{eq_iff}
use tradedrift.Base.{
  and_left, and_right, ℕ, ◌≡◌, refl, sym, ◌∙◌, subst, true, false, ◌&&◌, List, ◌∷◌, some, first_row,
  ltb, ◌==◌, ==_iff,
}
use tradedrift.Base.Outcomes.{ok, failed}
use tradedrift.Wallet.Tables.{SettledTrade, WalletTransaction, is_duplicate, SupportedAsset, Result}
use tradedrift.Wallet.Decimals.{truncate_units}
use tradedrift.Wallet.Repository.{
  Registered, already_settled, register_against, register_settlement, inserted, create_transaction,
  create_batch, asset_of_code,
}
use tradedrift.Wallet.Reserve.{Ids}
use tradedrift.Wallet.Validate.{TradeSettlementRequest, Moved, validate_settlement_amounts}
use tradedrift.Wallet.Settle.{
  Wallets, settle_trade, settle_once, Payload, Parties, settlement_entries, after_batch,
  settle_registered,
}
use tradedrift.Wallet.Serve.{settle_call, serve}
use tradedrift.Funds.Serve.{committed-Post}
use tradedrift.Base.Post.{
  Post, ok_same, Post-get, Post-then, Post-require, Post-if, Post-check, Post-bind, Post-step,
}
use tradedrift.Funds.Settle.{
  rounded_quote, IsRegistered, settled_before, register_against-IsRegistered,
}

registered_again :
    (s : SettledTrade) (req : TradeSettlementRequest) (db : Wallets)
    → Post
        (λ (r : Registered Payload).
          (r ≡ already_settled)
          × ((same_text s.market_id req.market_id && s.sequence == req.sequence) ≡ true))
        (register_against (some s) req.trade_id req.market_id req.sequence db)
unfolding register_against
registered_again s req db = Post-check _ _ _ _ λ fits. (refl, fits)

once_again :
    {F : Type 0} (ids : Ids) (req : TradeSettlementRequest) (now : ℕ) (m : Moved) (db : Wallets)
    → F
    → Post (λ d. (d ≡ db) × F) (settle_once ids req now m db already_settled)
unfolding settle_once
once_again ids req now m db f = (refl, f)

-- The trade's id is settled already.
settle_trade-settled :
    (ids : Ids) (req : TradeSettlementRequest) (now : ℕ) (s : SettledTrade) (db : Wallets)
    → first_row (λ (t : SettledTrade). same_text t.trade_id req.trade_id) db.settled_trades ≡ some s
    → Post
        (λ d.
          (d ≡ db) × ((same_text s.market_id req.market_id && s.sequence == req.sequence) ≡ true))
        (settle_trade ids req now db)
unfolding settle_trade register_settlement
settle_trade-settled ids req now s db found = Post-then _ _ _ λ _. Post-bind _ _ _ λ m _.
    Post-step _
      (λ r.
        (r ≡ already_settled)
        × ((same_text s.market_id req.market_id && s.sequence == req.sequence) ≡ true))
      _ _
      (subst
        (λ o.
          Post
            (λ (r : Registered Payload).
              (r ≡ already_settled)
              × ((same_text s.market_id req.market_id && s.sequence == req.sequence) ≡ true))
            (register_against o req.trade_id req.market_id req.sequence db))
        (sym found) (registered_again s req db))
      λ r (again, fits).
        subst
          (λ x.
            Post
              (λ d.
                (d ≡ db)
                × ((same_text s.market_id req.market_id && s.sequence == req.sequence) ≡ true))
              (settle_once ids req now m db x))
          (sym again) (once_again ids req now m db fits)

-- A settlement that returns no error for a trade that is among the settled ones leaves the tables
-- as they are, and its market and sequence are the recorded ones.
pub settled_once :
    (ids : Ids) (req : TradeSettlementRequest) (now : ℕ) (s : SettledTrade) (db db' : Wallets)
    → first_row (λ (t : SettledTrade). same_text t.trade_id req.trade_id) db.settled_trades ≡ some s
    → settle_trade ids req now db ≡ ok db'
    → (db' ≡ db) × (s.market_id ≡ req.market_id) × (s.sequence ≡ req.sequence)
settled_once ids req now s db db' found e =
    let (same, fits) = Post-get _ _ (settle_trade-settled ids req now s db found) e in
    (
      same,
      (eq_iff s.market_id req.market_id).0 (and_left _ _ fits),
      (==_iff s.sequence req.sequence).0 (and_right _ _ fits),
    )

-- No value: the step fails.
abbrev Never : {A : Type 0} → A → Type 0
Never a = true ≡ false

refused_entry :
    (t : WalletTransaction) (db : Wallets) → t.amount ≡ 0 → Post Never (create_transaction t db)
unfolding create_transaction
refused_entry t db e = Post-check _ _ _ _ λ above. cc (subst (λ n. ltb 0 n ≡ true) e above)

-- The third entry has no amount.
refused_batch :
    (t0 t1 t2 : WalletTransaction) (ts : List WalletTransaction) (db : Wallets)
    → t2.amount ≡ 0
    → Post Never (create_batch (t0 ∷ t1 ∷ t2 ∷ ts) db)
unfolding create_batch
refused_batch t0 t1 t2 ts db e =
    Post-bind _ _ _
      λ d1 _. Post-bind _ _ _ λ d2 _. Post-step _ _ _ _ (refused_entry t2 d2 e) λ d3 never. cc

refused_entries :
    (ids : Ids) (req : TradeSettlementRequest) (p : Parties) (m : Moved) (db : Wallets)
    → m.quote ≡ 0
    → Post (λ entries. Post Never (create_batch entries db)) (settlement_entries ids req p m)
unfolding settlement_entries
refused_entries ids req p m db e = Post-require _ (ids 0) _ _ λ id0 _.
    Post-require _ (ids 1) _ _ λ id1 _.
      Post-require _ (ids 2) _ _
        λ id2 _. Post-require _ (ids 3) _ _ λ id3 _. refused_batch _ _ _ _ db e

refused_after :
    (ids : Ids) (req : TradeSettlementRequest) (now : ℕ) (before : Wallets) (m : Result Wallets)
    → Post Never m
    → Post (λ d. d ≡ before) (after_batch ids req now before m)
unfolding after_batch
refused_after ids req now before (ok d) h = cc
refused_after ids req now before (failed e) h =
    Post-if (λ d. d ≡ before) (is_duplicate e) _ _ refl tt

same_cut :
    (a b : SupportedAsset) (units : ℕ) {quote : ℕ}
    → some a ≡ some b
    → quote ≡ truncate_units a.decimals units
    → truncate_units b.decimals units ≡ 0
    → quote ≡ 0
same_cut a b units e cut dust = cc

dust_registered :
    (ids : Ids) (req : TradeSettlementRequest) (now : ℕ) (m : Moved) (info : SupportedAsset)
    (before db : Wallets)
    → asset_of_code req.quote_asset db.assets ≡ some info
    → truncate_units info.decimals m.quote ≡ 0
    → Post (λ d. d ≡ before) (settle_registered ids req now m before db)
unfolding settle_registered
dust_registered ids req now m info before db known dust = Post-bind _ _ _ λ buyer_res _.
    Post-bind _ _ _ λ seller_res _. Post-then _ _ _ λ _. Post-then _ _ _ λ _. Post-then _ _ _ λ _.
      Post-bind _ _ _ λ p _.
        Post-step _ _ _ _ (rounded_quote db.assets req.quote_asset m.quote)
          λ quote (info', known', cut). Post-then _ _ _ λ _. Post-then _ _ _ λ _.
            Post-bind _ _ _ λ d _.
              Post-step _ _ _ _
                (refused_entries ids req p _ d
                  (same_cut info' info m.quote (sym known' ∙ known) cut dust))
                λ entries h. refused_after ids req now before _ h

dust_once :
    (ids : Ids) (req : TradeSettlementRequest) (now : ℕ) (m : Moved) (info : SupportedAsset)
    (db : Wallets) (r : Registered Payload)
    → asset_of_code req.quote_asset db.assets ≡ some info
    → truncate_units info.decimals m.quote ≡ 0
    → IsRegistered req db r
    → Post (λ d. d ≡ db) (settle_once ids req now m db r)
unfolding settle_once
dust_once ids req now m info db already_settled known dust h = refl
dust_once ids req now m info db (inserted fresh) known dust (new, h) =
    dust_registered ids req now m info db fresh
      (subst (λ (d : Wallets). asset_of_code req.quote_asset d.assets ≡ some info) (sym h) known)
      dust

settle_trade-dust :
    (ids : Ids) (req : TradeSettlementRequest) (now : ℕ) (m : Moved) (info : SupportedAsset)
    (db : Wallets)
    → validate_settlement_amounts db.assets req ≡ ok m
    → asset_of_code req.quote_asset db.assets ≡ some info
    → truncate_units info.decimals m.quote ≡ 0
    → Post (λ d. d ≡ db) (settle_trade ids req now db)
unfolding settle_trade register_settlement
settle_trade-dust ids req now m info db valid known dust = Post-then _ _ _ λ _.
    Post-bind _ _ _ λ m' valid'.
      Post-step _ _ _ _ (register_against-IsRegistered (settled_before req db) req db refl)
        λ r found.
          dust_once ids req now m' info db r known
            (subst (λ (v : Moved). truncate_units info.decimals v.quote ≡ 0)
              (ok_same (sym valid ∙ valid')) dust)
            found

-- A settlement of a valid request whose quote amount is cut to zero by the places of the quote
-- asset leaves the tables as they are.
pub dust_never_settles :
    (ids : Ids) (req : TradeSettlementRequest) (now : ℕ) (m : Moved) (info : SupportedAsset)
    (db : Wallets)
    → validate_settlement_amounts db.assets req ≡ ok m
    → asset_of_code req.quote_asset db.assets ≡ some info
    → truncate_units info.decimals m.quote ≡ 0
    → serve (settle_call ids req now) db ≡ db
unfolding serve
dust_never_settles ids req now m info db valid known dust =
    committed-Post (λ d. d ≡ db) _ db refl
      (settle_trade-dust ids req now m info db valid known dust)
