-- ===== src/Funds/Initialize.antt =====
-- InitializeWallet and FreezeWallet keep the tables sound; the first adds the seeds that it credits, and
-- the second adds nothing.
use Prim.Native.String.{String}
use text.Mathlib.Text.{◌==◌ as same_text}
use tradedrift.Base.{
  negated, ℕ, suc, ◌≡◌, refl, ap, Bool, List, [], ◌∷◌, All-append, All-map, arith, update_rows,
  Option, some, none, ◌==◌, ==_iff,
}
use tradedrift.Wallet.Tables.{Wallet, SupportedAsset, WalletTransaction, WalletError}
use tradedrift.Wallet.Repository.{
  update_wallets, create_wallet, freeze_row, unfreeze_row, wallet_of,
}
use tradedrift.Wallet.Reserve.{Ids}
use tradedrift.Wallet.Deposit.{
  record_seed, seed_wallet, initialize_asset, initialize_assets, enabled_assets, initialize_wallet,
  freeze_wallet,
}
use tradedrift.Wallet.Settle.{Wallets}
use tradedrift.Base.Swaps.{
  Unique-append, Swaps-All_old, update_rows-Swaps, or_none_left, any_row_none, sum_of-append,
}
use tradedrift.Funds.State.{count, Pairs, IsBalanced, wallet_key, Sound}
use tradedrift.Base.Post.{Post, Post-require, Post-step, Post-check, Post-map, Post-if}
use tradedrift.Funds.Steps.{count_zero, SameWallet, column_grows, Sound-available}
use tradedrift.Funds.Moves.{at}
use tradedrift.Funds.Records.{create_transaction-rest}
use tradedrift.Funds.Reserve.{Kept}
use tradedrift.Funds.Deposit.{Grown}

module _ (db : Wallets) (sound : Sound db) where
  create_wallet-Grown :
      (w : Wallet)
      → w.reserved_balance ≡ 0
      → Post
          (λ d.
            (ts : List WalletTransaction)
            → Grown (at w.user_id w.asset w.total_balance) db (record d { transactions = ts }))
          (create_wallet w db)
  unfolding create_wallet
  create_wallet-Grown w empty = Post-check _ _ _ _ λ fits. Post-check _ _ _ _ λ free ts. (
    record {
      wallet_ids = Unique-append wallet_key w db.wallets sound.wallet_ids (
          All-map _ _ db.wallets (λ y n. or_none_left (same_text y.id w.id) _ n)
            (any_row_none _ db.wallets (negated _ free)));
      reservation_ids = sound.reservation_ids;
      balanced = All-append IsBalanced db.wallets (w ∷ []) sound.balanced ((==_iff _ _).0 fits, tt);
      split = sound.split;
      backed = λ q. omega (
        arith,
        sound.backed q,
        sum_of-append (λ v. count (q v.user_id v.asset) v.reserved_balance) db.wallets w,
        ap (count (q w.user_id w.asset)) empty,
        count_zero (q w.user_id w.asset),
      );
    },
    λ q. sum_of-append (λ v. count (q v.user_id v.asset) v.total_balance) db.wallets w,
  )

  seed_wallet-Grown :
      (ids : Ids) (n : ℕ) (user : String) (a : SupportedAsset)
      → Post (Grown (at user a.asset_code a.seed_amount) db) (seed_wallet ids n user a db)
  unfolding seed_wallet record_seed
  seed_wallet-Grown ids n user a = Post-require _ (ids n) _ _ λ id _.
      Post-step _ _ _ _ (create_wallet-Grown _ refl) λ created g.
        Post-if _ (a.seed_amount == 0) _ _ (g created.transactions)
          (Post-require _ (ids (suc n)) _ _ λ id' _. create_transaction-rest _ _ created g)

  initialize_asset-Grown :
      (old : Option Wallet) (ids : Ids) (n : ℕ) (user : String) (a : SupportedAsset)
      → Post (λ d. (g : Pairs → ℕ) × Grown g db d) (initialize_asset old ids n user a db)
  unfolding initialize_asset
  initialize_asset-Grown none ids n user a =
      Post-map (λ d. (g : Pairs → ℕ) × Grown g db d) _ (seed_wallet ids n user a db)
        (λ d h. (at user a.asset_code a.seed_amount, h)) (seed_wallet-Grown ids n user a)
  initialize_asset-Grown (some w) ids n user a = (λ _. 0, (sound, λ q. omega arith))

  -- The wallet's row with other columns of its freeze.
  update_freeze-Kept :
      (k : String) (f : Wallet → Wallet) (e : WalletError)
      → ((w : Wallet) → SameWallet w (f w))
      → ((w : Wallet) → (f w).available_balance ≡ w.available_balance)
      → ((w : Wallet) → (f w).reserved_balance ≡ w.reserved_balance)
      → ((w : Wallet) → (f w).total_balance ≡ w.total_balance)
      → Post (Kept db) (update_wallets (λ w. same_text w.id k) f e db)
  unfolding update_wallets
  update_freeze-Kept k f e same available reserved total =
      Post-require _ (update_rows _ f db.wallets) _ _ λ ws found.
        let (x, s, t) =
          update_rows-Swaps wallet_key _ f k (λ a h. h) db.wallets ws sound.wallet_ids found in
        let fits = Swaps-All_old _ s sound.balanced in
        (
          Sound-available db sound (same x) s
              (omega (arith, fits, available x, reserved x, total x)) (reserved x),
          λ q. omega (
            arith,
            column_grows q (λ w. w.total_balance) (same x) s 0 (omega (arith, total x)),
            count_zero (q x.user_id x.asset),
          ),
        )

  pub freeze_wallet-Kept :
      (user asset : String) (freeze : Bool) (reason : String)
      → Post (λ out. Kept db out.1) (freeze_wallet user asset freeze reason db)
  unfolding freeze_wallet freeze_row unfreeze_row
  freeze_wallet-Kept user asset freeze reason =
      Post-require _ (wallet_of user asset db.wallets) _ _ λ w e.
        Post-step _ (Kept db) _ _
          (Post-if (Kept db) freeze _ _
            (update_freeze-Kept w.id _ _
              (λ v. record { same_id = refl; same_user = refl; same_asset = refl }) (λ v. refl)
              (λ v. refl) (λ v. refl))
            (update_freeze-Kept w.id _ _
              (λ v. record { same_id = refl; same_user = refl; same_asset = refl }) (λ v. refl)
              (λ v. refl) (λ v. refl)))
          λ next k. k

initialize_assets-Sound :
    (ids : Ids) (n : ℕ) (user : String) (assets : List SupportedAsset) (db : Wallets)
    → Sound db
    → Post Sound (initialize_assets ids n user assets db)
unfolding initialize_assets
initialize_assets-Sound ids n user [] db sound = sound
initialize_assets-Sound ids n user (a ∷ rest) db sound =
    Post-step _ _ _ _
      (initialize_asset-Grown db sound (wallet_of user a.asset_code db.wallets) ids n user a)
      λ next g. initialize_assets-Sound ids (suc (suc n)) user rest next g.1.0

pub initialize_wallet-Sound :
    (ids : Ids) (user : String) (db : Wallets)
    → Sound db
    → Post Sound (initialize_wallet ids user db)
unfolding initialize_wallet
initialize_wallet-Sound ids user db sound =
    initialize_assets-Sound ids 0 user (enabled_assets db.assets) db sound
