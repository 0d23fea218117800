-- ===== src/Funds/Steps.antt =====
-- The single statements on the wallets and the reservations, and what they do to the measures.
use Prim.Native.String.{String}
use text.Mathlib.Text.{◌==◌ as same_text}
use text.Mathlib.TextEquality.{eq_iff}
use tradedrift.Base.{
  and_left, and_right, ℕ, ◌+◌, ◌≡◌, ◌∙◌, refl, sym, subst, Bool, true, false, ◌&&◌, List, arith,
  sum_of, some,
}
use tradedrift.Wallet.Tables.{Wallet, Reservation, is_released}
use tradedrift.Wallet.Repository.{wallet_of, reservation_of_order}
use tradedrift.Wallet.Settle.{Wallets}
use tradedrift.Base.Swaps.{
  Unique, Swaps, Swaps-sum_of, Swaps-All_old, Swaps-All, Unique-Swaps, first_row-Only,
  first_row-true,
}
use tradedrift.Funds.State.{
  count, Pairs, IsBalanced, wallet_key, reservation_key, Sound, Names, Lives,
}

pub count_add : (b : Bool) (m n : ℕ) → count b (m + n) ≡ count b m + count b n
count_add true m n = refl
count_add false m n = refl

pub count_zero : (b : Bool) → count b 0 ≡ 0
count_zero true = refl
count_zero false = refl

-- One wallet is replaced by a row of the same id, user and asset.
pub record SameWallet (x y : Wallet) : Type 0 where
  pub same_id : y.id ≡ x.id
  pub same_user : y.user_id ≡ x.user_id
  pub same_asset : y.asset ≡ x.asset

pub Swaps-Names :
    {x y : Wallet} {ws ws' : List Wallet} (k u a : String)
    → SameWallet x y
    → Swaps x y ws ws'
    → Names k u a ws
    → Names k u a ws'
Swaps-Names k u a same s h =
    Swaps-All _ s
      (λ t.
        let (p, q) = Swaps-All_old _ s h (subst (λ i. same_text i k ≡ true) same.same_id t) in
        (same.same_user ∙ p, same.same_asset ∙ q))
      h

-- A row's part of a sum over a choice, when its number grows.
part_grows :
    (q : Pairs) {u u' a a' : String} {n : ℕ} (m amount : ℕ)
    → u' ≡ u
    → a' ≡ a
    → n ≡ m + amount
    → count (q u' a') n ≡ count (q u a) m + count (q u a) amount
part_grows q {u = u} {a = a} m amount eu ea e = rw (eu, ea, e) (count_add (q u a) m amount)

-- A column of the wallets of a choice, when a row's part of it grows or shrinks.
module _ (q : Pairs) (column : Wallet → ℕ) {x y : Wallet} {ws ws' : List Wallet}
    (same : SameWallet x y) (s : Swaps x y ws ws') where
  pub column_grows :
      (amount : ℕ)
      → column y ≡ column x + amount
      → sum_of (λ w. count (q w.user_id w.asset) (column w)) ws'
        ≡ sum_of (λ w. count (q w.user_id w.asset) (column w)) ws
          + count (q x.user_id x.asset) amount
  column_grows amount e = omega (
    arith,
    Swaps-sum_of (λ w. count (q w.user_id w.asset) (column w)) s,
    part_grows q (column x) amount same.same_user same.same_asset e,
  )

  pub column_shrinks :
      (amount : ℕ)
      → column y + amount ≡ column x
      → sum_of (λ w. count (q w.user_id w.asset) (column w)) ws'
          + count (q x.user_id x.asset) amount
        ≡ sum_of (λ w. count (q w.user_id w.asset) (column w)) ws
  column_shrinks amount e =
      let back =
        part_grows q (column y) amount (sym same.same_user) (sym same.same_asset) (sym e) in
      let here : count (q y.user_id y.asset) amount ≡ count (q x.user_id x.asset) amount =
        cc (same.same_user, same.same_asset) in
      omega (arith, Swaps-sum_of (λ w. count (q w.user_id w.asset) (column w)) s, back, here)

module _ (db : Wallets) (sound : Sound db) where
  -- The rows of the wallet that a query finds.
  pub wallet_of-Names :
      (user asset : String) (w : Wallet)
      → wallet_of user asset db.wallets ≡ some w
      → Names w.id user asset db.wallets
  unfolding wallet_of
  wallet_of-Names user asset w e =
      let found =
        first_row-true (λ (v : Wallet). same_text v.user_id user && same_text v.asset asset)
          db.wallets e in
      first_row-Only wallet_key (λ v. (v.user_id ≡ user) × (v.asset ≡ asset)) _ db.wallets
        sound.wallet_ids e
        (
          (eq_iff w.user_id user).0 (and_left _ _ found),
          (eq_iff w.asset asset).0 (and_right _ _ found),
        )

  pub reservation_of_order-Lives :
      (order : String) (r : Reservation)
      → reservation_of_order order db.reservations ≡ some r
      → is_released r.status ≡ false
      → Lives r.id r.user_id r.asset db.reservations
  unfolding reservation_of_order
  reservation_of_order-Lives order r e alive =
      first_row-Only reservation_key
        (λ x. (x.user_id ≡ r.user_id) × (x.asset ≡ r.asset) × (is_released x.status ≡ false)) _
        db.reservations sound.reservation_ids e (refl, refl, alive)

-- The tables with other wallets that are one swap away.
module _ {x y : Wallet} {ws' : List Wallet} (db : Wallets) (sound : Sound db)
    (same : SameWallet x y) (s : Swaps x y db.wallets ws') where
  swapped_ids : Unique wallet_key ws'
  swapped_ids = Unique-Swaps wallet_key same.same_id s sound.wallet_ids

  -- An update of the wallets that leaves the reserved balance alone.
  pub Sound-available :
      IsBalanced y → y.reserved_balance ≡ x.reserved_balance → Sound (record db { wallets = ws' })
  Sound-available balanced reserved = record {
    wallet_ids = swapped_ids;
    reservation_ids = sound.reservation_ids;
    balanced = Swaps-All IsBalanced s balanced sound.balanced;
    split = sound.split;
    backed = λ q. omega (
      arith,
      sound.backed q,
      column_grows q (λ w. w.reserved_balance) same s 0 (omega (arith, reserved)),
      count_zero (q x.user_id x.asset),
    );
  }
