-- ===== src/Funds/Deposit.antt =====
-- DepositFunds keeps the tables sound and adds what it credits.
use Prim.Native.String.{String}
use text.Mathlib.Text.{◌==◌ as same_text}
use tradedrift.Base.{
  negated, ◌≤◌, leb→le, ℕ, ◌+◌, ◌≡◌, refl, ap, subst, true, false, [], ◌∷◌, ◌++◌, arith, any_row,
  Bool-cases, inl, inr, Option, some, none,
}
use tradedrift.Base.Outcomes.{ok, failed}
use tradedrift.Wallet.Tables.{
  Wallet, SupportedAsset, WalletTransaction, WalletError, Result, is_duplicate,
}
use tradedrift.Wallet.Decimals.{Amount, Plain, column_units}
use tradedrift.Wallet.Repository.{transaction_clash, wallet_of, asset_of_code, transaction_of}
use tradedrift.Wallet.Reserve.{Ids, check_asset}
use tradedrift.Wallet.Deposit.{
  DepositResult, after_entry, deposit_entry, validate_deposit, credit_deposit, deposit_against,
  deposit_funds,
}
use tradedrift.Wallet.Settle.{Wallets}
use tradedrift.Funds.State.{Pairs, owned, Sound}
use tradedrift.Base.Post.{
  Post, Post-require, Post-step, Post-bind, Post-then, Post-check, Post-map, Post-both, both_pass,
  check-true,
}
use tradedrift.Funds.Steps.{wallet_of-Names}
use tradedrift.Funds.Moves.{at, credit_available-Moves}
use tradedrift.Funds.Records.{credit_available-SameRecords}
use tradedrift.Funds.Ledger.{duplicate_entry, create_transaction-Post, taken_id}
use tradedrift.Wallet.Decimals.{decimal_scale}

-- The tables are sound, and the wallets of every choice own as much more.
abbrev pub Grown : (Pairs → ℕ) → Wallets → Wallets → Type 0
Grown gain db db' = Sound db' × ((q : Pairs) → owned q db'.wallets ≡ owned q db.wallets + gain q)

-- The checks of a deposit: the request is valid, its asset is known and enabled and has the places of
-- the amount, and its wallet is there and not frozen.
pub record Depositable (user asset reference type : String) (amount : Amount) (db : Wallets)
    : Type 0 where
  pub plain : Plain
  pub valid : validate_deposit user asset reference type amount ≡ ok plain
  pub info : SupportedAsset
  pub known : asset_of_code asset db.assets ≡ some info
  pub enabled : info.is_enabled ≡ true
  pub fits : decimal_scale plain ≤ info.decimals
  pub wallet : Wallet
  pub found : wallet_of user asset db.wallets ≡ some wallet
  pub unfrozen : wallet.is_frozen ≡ false

-- The answer to a deposit of these units to the wallet `w`, and the tables after it. It is credited
-- under the first id that is drawn; or nothing changes, since the wallet's ledger has the reference
-- already, or since another entry of the ledger has that id.
pub data Deposits (ids : Ids) (user asset reference type : String) (units : ℕ) (w : Wallet)
    (out : DepositResult) (db db' : Wallets) : Type 0 where
  repeated :
      (t : WalletTransaction)
      → transaction_of w.id reference type db.transactions ≡ some t
      → out ≡ record { transaction_id = t.id; new_balance = w.available_balance }
      → db' ≡ db
      → Deposits ids user asset reference type units w out db db'
  clashed :
      (id : String)
      → ids 0 ≡ some id
      → transaction_of w.id reference type db.transactions ≡ none
      → any_row (λ (x : WalletTransaction). same_text x.id id) db.transactions ≡ true
      → out ≡ record { transaction_id = reference; new_balance = w.available_balance }
      → db' ≡ db
      → Deposits ids user asset reference type units w out db db'
  credited :
      (id : String)
      → ids 0 ≡ some id
      → transaction_of w.id reference type db.transactions ≡ none
      → out ≡ record { transaction_id = id; new_balance = w.available_balance + units }
      → db'.transactions
        ≡ db.transactions ++ (deposit_entry id w.id asset reference type units ∷ [])
      → Grown (at user asset units) db db'
      → Deposits ids user asset reference type units w out db db'

after_entry-Post :
    (Q : DepositResult × Wallets → Type 0) (id reference : String) (balance units : ℕ)
    (before : Wallets) (m : Result Wallets)
    → ((e : WalletError)
        → m ≡ failed e
        → is_duplicate e ≡ true
        → Q (record { transaction_id = reference; new_balance = balance }, before))
    → Post (λ d. Q (record { transaction_id = id; new_balance = balance + units }, d)) m
    → Post Q (after_entry id reference balance units before m)
unfolding after_entry
after_entry-Post Q id reference balance units before (ok d) f h = h
after_entry-Post Q id reference balance units before (failed e) f h =
    elim (Bool-cases (is_duplicate e)) [ inl t ↦ rw t (f e refl t) | inr n ↦ rw n tt ]

module _ (db : Wallets) (sound : Sound db) (ids : Ids) (w : Wallet)
    (user asset reference type : String) (d : Plain)
    (e : wallet_of user asset db.wallets ≡ some w) where
  credit_deposit-Deposits :
      transaction_of w.id reference type db.transactions ≡ none
      → Post
          (λ out. Deposits ids user asset reference type (column_units d) w out.0 db out.1)
          (credit_deposit ids w asset reference type d db)
  unfolding credit_deposit
  credit_deposit-Deposits new = Post-require _ (ids 0) _ _ λ id drawn.
      Post-step _ _ _ _
        (Post-both _ _ _ (credit_available-SameRecords w.id (column_units d) db) (
          credit_available-Moves db sound w.id user asset (column_units d)
            (wallet_of-Names db sound user asset w e)))
        λ after (same, m).
          let t = deposit_entry id w.id asset reference type (column_units d) in
          after_entry-Post
            (λ out. Deposits ids user asset reference type (column_units d) w out.0 db out.1) _ _ _
            _ db _
            (λ x f dup.
              clashed id drawn new
                (taken_id t db.transactions
                  (subst (λ ts. any_row (transaction_clash t) ts ≡ true) same.1
                    (duplicate_entry t after x f dup))
                  new)
                refl refl)
            (create_transaction-Post _ t after (
              credited id drawn new refl (ap (λ ts. ts ++ (t ∷ [])) same.1)
                (m.sound, λ q. omega (arith, m.accounts q))))

  deposit_against-Deposits :
      (old : Option WalletTransaction)
      → transaction_of w.id reference type db.transactions ≡ old
      → Post
          (λ out. Deposits ids user asset reference type (column_units d) w out.0 db out.1)
          (deposit_against old ids w asset reference type d db)
  unfolding deposit_against
  deposit_against-Deposits none new = credit_deposit-Deposits new
  deposit_against-Deposits (some t) old = repeated t old refl refl

abbrev pub Answered :
    Ids → String → String → Amount → String → String → Wallets → DepositResult × Wallets → Type 0
Answered ids user asset amount reference type db out =
    (c : Depositable user asset reference type amount db) × Deposits ids user asset reference type
      (column_units c.plain) c.wallet out.0 db out.1

pub deposit_funds-Deposits :
    (db : Wallets) (sound : Sound db) (ids : Ids) (user asset : String) (amount : Amount)
    (reference type : String)
    → Post
        (Answered ids user asset amount reference type db)
        (deposit_funds ids user asset amount reference type db)
unfolding deposit_funds check_asset
deposit_funds-Deposits db sound ids user asset amount reference type = Post-bind _ _ _ λ d valid.
    Post-require _ (asset_of_code asset db.assets) _ _ λ info known. Post-then _ _ _ λ checked.
      Post-require _ (wallet_of user asset db.wallets) _ _ λ w e. Post-check _ _ _ _ λ thawed.
        let (on, scale) = both_pass _ _ checked in
        Post-map (Answered ids user asset amount reference type db)
          (λ out. Deposits ids user asset reference type (column_units d) w out.0 db out.1) _
          (λ out g. (
            record {
              plain = d;
              valid = valid;
              info = info;
              known = known;
              enabled = check-true _ _ on;
              fits = leb→le _ _ (check-true _ _ scale);
              wallet = w;
              found = e;
              unfrozen = negated _ thawed;
            },
            g,
          ))
          (deposit_against-Deposits db sound ids w user asset reference type d e
            (transaction_of w.id reference type db.transactions) refl)
