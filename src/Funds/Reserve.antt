-- ===== src/Funds/Reserve.antt =====
-- ReserveFunds and ReleaseFunds keep the tables sound and every wallet's total.
use Prim.Native.String.{String}
use text.Mathlib.Text.{◌==◌ as same_text}
use tradedrift.Base.{
  negated, and_left, and_right, ℕ, ◌+◌, ◌-◌, ◌≡◌, refl, sym, subst, Bool, true, false, ◌&&◌, List,
  [], ◌∷◌, ◌++◌, All, All-append, All-map, arith, leb, leb→le, update_rows, Option, some, none,
}
use tradedrift.Wallet.Tables.{Wallet, Reservation, active}
use tradedrift.Wallet.Decimals.{Amount, Plain, column_units}
use tradedrift.Wallet.Repository.{
  update_wallets, move_to_reserved, create_reservation, wallet_of, reservation_of_order,
  asset_of_code,
}
use tradedrift.Wallet.Reserve.{Ids, reserve_new, reserve_against, reserve_funds}
use tradedrift.Wallet.Settle.{Wallets}
use tradedrift.Base.Swaps.{
  Unique-append, Unique-Swaps, Swaps, Swaps-All_old, Swaps-All, update_rows-Swaps, any_row_none,
  or_none_left, sum_of-append,
}
use tradedrift.Funds.State.{
  count, Pairs, owned, open_amount, IsBalanced, IsSplit, wallet_key, reservation_key, Sound,
  SoundRows, Names,
}
use tradedrift.Base.Post.{
  Post, Post-require, Post-step, Post-bind, Post-then, Post-check, Post-update,
}
use tradedrift.Funds.Steps.{count_zero, SameWallet, column_grows, wallet_of-Names}
use tradedrift.Funds.Moves.{at_wallet}
use tradedrift.Funds.Records.{committed_entry-rest}

-- The tables are sound, and the wallets of every choice own what they owned.
abbrev pub Kept : Wallets → Wallets → Type 0
Kept db db' = Sound db' × ((q : Pairs) → owned q db'.wallets ≡ owned q db.wallets)

-- The row that ReserveFunds writes.
abbrev new_reservation : String → String → String → String → ℕ → Reservation
new_reservation id order user asset amount = record {
  id = id;
  order_id = order;
  user_id = user;
  asset = asset;
  reserved_amount = amount;
  consumed_amount = 0;
  remaining_amount = amount;
  status = active;
}

create_reservation-rows :
    (r : Reservation) (db : Wallets)
    → Post
        (λ d.
          (d ≡ record db { reservations = db.reservations ++ (r ∷ []) })
          × All (λ y. same_text y.id r.id ≡ false) db.reservations)
        (create_reservation r db)
unfolding create_reservation
create_reservation-rows r db = Post-check _ _ _ _ λ _. Post-check _ _ _ _ λ free. (
  refl,
  All-map _ _ db.reservations (λ y n. or_none_left (same_text y.id r.id) _ n)
      (any_row_none _ db.reservations (negated _ free)),
)

module _ (db : Wallets) (sound : Sound db) where
  -- The wallet's row and the new reservation.
  reserve_rows :
      (k user asset order id : String) (amount : ℕ) {x : Wallet} {ws : List Wallet}
      → Names k user asset db.wallets
      → (same_text x.id k && leb amount x.available_balance) ≡ true
      → Swaps x
          (record x {
            available_balance = x.available_balance - amount;
            reserved_balance = x.reserved_balance + amount;
          })
          db.wallets
          ws
      → All (λ y. same_text y.id id ≡ false) db.reservations
      → SoundRows ws (db.reservations ++ (new_reservation id order user asset amount ∷ []))
        × ((q : Pairs) → owned q ws ≡ owned q db.wallets)
  reserve_rows k user asset order id amount {x = x} names t s fresh =
      let same : SameWallet x (record x {
        available_balance = x.available_balance - amount;
        reserved_balance = x.reserved_balance + amount;
      }) =
        record { same_id = refl; same_user = refl; same_asset = refl } in
      let fits = Swaps-All_old _ s sound.balanced in
      let enough = leb→le amount x.available_balance (and_right (same_text x.id k) _ t) in
      let owner = Swaps-All_old _ s names (and_left _ (leb amount x.available_balance) t) in
      let r = new_reservation id order user asset amount in
      (
        record {
          wallet_ids = Unique-Swaps wallet_key refl s sound.wallet_ids;
          reservation_ids =
              Unique-append reservation_key r db.reservations sound.reservation_ids fresh;
          balanced = Swaps-All IsBalanced s (omega (arith, fits, enough)) sound.balanced;
          split = All-append IsSplit db.reservations (r ∷ []) sound.split ((omega arith, refl), tt);
          backed = λ q. omega (
            arith,
            sound.backed q,
            column_grows q (λ w. w.reserved_balance) same s amount refl,
            at_wallet q x user asset amount owner,
            sum_of-append (λ v. count (q v.user_id v.asset) (open_amount v)) db.reservations r,
          );
        },
        λ q. omega (
          arith,
          column_grows q (λ w. w.total_balance) same s 0 (omega arith),
          count_zero (q x.user_id x.asset),
        ),
      )

  reserve_new-Kept :
      (ids : Ids) (user order asset : String) (d : Plain)
      → Post (λ out. Kept db out.1) (reserve_new ids user order asset d db)
  unfolding reserve_new move_to_reserved update_wallets
  reserve_new-Kept ids user order asset d =
      let amount = column_units d in
      Post-require _ (wallet_of user asset db.wallets) _ _ λ w e.
        Post-require _ (asset_of_code asset db.assets) _ _ λ info _. Post-then _ _ _ λ _.
          Post-check _ _ _ _ λ _. Post-update _ (update_rows _ _ db.wallets) _ _ _ λ ws found.
            let (x, s, t) =
              update_rows-Swaps wallet_key _ _ w.id
                (λ a h. and_left (same_text a.id w.id) (leb amount a.available_balance) h)
                db.wallets ws sound.wallet_ids found in
            Post-require _ (ids 0) _ _ λ id _.
              Post-step _ _ _ _ (create_reservation-rows _ (record db { wallets = ws }))
                λ created (at_end, fresh).
                  let kept =
                    reserve_rows w.id user asset order id amount
                      (wallet_of-Names db sound user asset w e) t s fresh in
                  Post-require _ (ids 1) _ _ λ id' _.
                    Post-step _ (λ written. Kept db written) _ _
                      (committed_entry-rest (Kept db) _ created λ ts.
                        subst (λ c. Kept db (record c { transactions = ts })) (sym at_end) kept)
                      λ written k. k

  reserve_against-Kept :
      (old : Option Reservation) (ids : Ids) (user order asset : String) (d : Plain)
      → Post (λ out. Kept db out.1) (reserve_against old ids user order asset d db)
  unfolding reserve_against
  reserve_against-Kept none ids user order asset d = reserve_new-Kept ids user order asset d
  reserve_against-Kept (some r) ids user order asset d =
      Post-bind _ _ _ λ existing _. (sound, λ q. refl)

  pub reserve_funds-Kept :
      (ids : Ids) (blank : String → Bool) (user order asset : String) (amount : Amount)
      → Post (λ out. Kept db out.1) (reserve_funds ids blank user order asset amount db)
  unfolding reserve_funds
  reserve_funds-Kept ids blank user order asset amount = Post-bind _ _ _ λ d _.
      reserve_against-Kept (reservation_of_order order db.reservations) ids user order asset d
