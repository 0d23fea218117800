-- ===== src/Funds/Release.antt =====
-- ReleaseFunds keeps the tables sound and every wallet's total.
use Prim.Native.String.{String}
use text.Mathlib.Text.{◌==◌ as same_text}
use tradedrift.Base.{
  and_left, and_right, ◌+◌, ◌-◌, ◌≡◌, refl, sym, ap, subst, true, false, ◌&&◌, ◌||◌, List, All,
  arith, leb, leb→le, update_rows, Bool-cases, inl, inr, some, ◌==◌, ==_iff,
}
use tradedrift.Wallet.Tables.{Wallet, Reservation, released, is_released, is_consumed}
use tradedrift.Wallet.Repository.{
  update_wallets, update_reservations, move_from_reserved, update_status, wallet_of,
  reservation_of_order,
}
use tradedrift.Wallet.Reserve.{Ids, release_remaining, release_funds}
use tradedrift.Wallet.Settle.{Wallets}
use tradedrift.Base.Swaps.{
  Unique-Swaps, Swaps, Swaps-All_old, Swaps-All, update_rows-Swaps, or_none_left, first_row-Only,
}
use tradedrift.Funds.State.{
  count, Pairs, owned, promised, open_amount, IsBalanced, IsSplit, wallet_key, reservation_key,
  Sound, SoundRows, Names,
}
use tradedrift.Base.Post.{Post, Post-require, Post-update}
use tradedrift.Funds.Steps.{count_zero, SameWallet, column_grows, column_shrinks, wallet_of-Names}
use tradedrift.Funds.Moves.{at_wallet}
use tradedrift.Funds.Consume.{promised_shrinks}
use tradedrift.Funds.Records.{committed_entry-rest}
use tradedrift.Funds.Reserve.{Kept}

-- The row that UpdateStatus writes for a release.
abbrev release : Reservation → Reservation
release r = record r { status = released }

release_opens :
    (r : Reservation)
    → is_released r.status ≡ false
    → open_amount (release r) + r.remaining_amount ≡ open_amount r
release_opens r alive = rw alive (omega arith)

module _ (db : Wallets) (sound : Sound db) (order : String) (r : Reservation)
    (found : reservation_of_order order db.reservations ≡ some r)
    (alive : is_released r.status ≡ false) where
  -- The rows of the reservation's id are the reservation.
  itself : All (λ y. same_text y.id r.id ≡ true → y ≡ r) db.reservations
  unfolding reservation_of_order
  itself =
      first_row-Only reservation_key (λ y. y ≡ r) _ db.reservations sound.reservation_ids found refl

  released_rows :
      {y : Reservation} {rs : List Reservation}
      → same_text y.id r.id ≡ true
      → Swaps y (release y) db.reservations rs
      → (q : Pairs)
      → promised q rs + count (q r.user_id r.asset) r.remaining_amount ≡ promised q db.reservations
  released_rows {y = y} t s q =
      let same = Swaps-All_old _ s itself t in
      promised_shrinks q r.user_id r.asset r.remaining_amount (ap (λ v. v.user_id) same)
        (ap (λ v. v.asset) same) refl refl
        (subst (λ v. open_amount (release y) + v.remaining_amount ≡ open_amount y) same
          (release_opens y (subst (λ v. is_released v.status ≡ false) (sym same) alive)))
        s

  give_back_rows :
      (k : String) {x : Wallet} {ws : List Wallet} {y : Reservation} {rs : List Reservation}
      → Names k r.user_id r.asset db.wallets
      → (same_text x.id k && leb r.remaining_amount x.reserved_balance) ≡ true
      → Swaps x
          (record x {
            reserved_balance = x.reserved_balance - r.remaining_amount;
            available_balance = x.available_balance + r.remaining_amount;
          })
          db.wallets
          ws
      → same_text y.id r.id ≡ true
      → Swaps y (release y) db.reservations rs
      → SoundRows ws rs × ((q : Pairs) → owned q ws ≡ owned q db.wallets)
  give_back_rows k {x = x} names t s t' s' =
      let same : SameWallet x (record x {
        reserved_balance = x.reserved_balance - r.remaining_amount;
        available_balance = x.available_balance + r.remaining_amount;
      }) =
        record { same_id = refl; same_user = refl; same_asset = refl } in
      let fits = Swaps-All_old _ s sound.balanced in
      let covered =
        leb→le r.remaining_amount x.reserved_balance (and_right (same_text x.id k) _ t) in
      let owner =
        Swaps-All_old _ s names (and_left _ (leb r.remaining_amount x.reserved_balance) t) in
      (
        record {
          wallet_ids = Unique-Swaps wallet_key refl s sound.wallet_ids;
          reservation_ids = Unique-Swaps reservation_key refl s' sound.reservation_ids;
          balanced = Swaps-All IsBalanced s (omega (arith, fits, covered)) sound.balanced;
          split = Swaps-All IsSplit s' ((Swaps-All_old _ s' sound.split).0, tt) sound.split;
          backed = λ q. omega (
            arith,
            sound.backed q,
            column_shrinks q (λ w. w.reserved_balance) same s r.remaining_amount
                (omega (arith, covered)),
            at_wallet q x r.user_id r.asset r.remaining_amount owner,
            released_rows t' s' q,
          );
        },
        λ q. omega (
          arith,
          column_grows q (λ w. w.total_balance) same s 0 (omega arith),
          count_zero (q x.user_id x.asset),
        ),
      )

  release_remaining-Kept : (ids : Ids) → Post (Kept db) (release_remaining ids order r db)
  unfolding release_remaining move_from_reserved update_status update_wallets update_reservations
  release_remaining-Kept ids = Post-require _ (wallet_of r.user_id r.asset db.wallets) _ _ λ w e.
      Post-update _ (update_rows _ _ db.wallets) _ _ _ λ ws found_w.
        Post-update _ (update_rows _ _ db.reservations) _ _ _ λ rs found_r.
          let (x, s, t) =
            update_rows-Swaps wallet_key _ _ w.id
              (λ a h. and_left (same_text a.id w.id) (leb r.remaining_amount a.reserved_balance) h)
              db.wallets ws sound.wallet_ids found_w in
          let (y, s', t') =
            update_rows-Swaps reservation_key _ _ r.id (λ a h. h) db.reservations rs
              sound.reservation_ids found_r in
          Post-require _ (ids 0) _ _ λ id _.
            committed_entry-rest (Kept db) _ _
              λ ts. give_back_rows w.id (wallet_of-Names db sound _ _ w e) t s t' s'

  -- Nothing is left: only the status changes.
  finish-Kept : r.remaining_amount ≡ 0 → Post (Kept db) (update_status r.id released db)
  unfolding update_status update_reservations
  finish-Kept none_left = Post-require _ (update_rows _ _ db.reservations) _ _ λ rs found_r.
      let (y, s', t') =
        update_rows-Swaps reservation_key _ _ r.id (λ a h. h) db.reservations rs
          sound.reservation_ids found_r in
      (
        record {
          wallet_ids = sound.wallet_ids;
          reservation_ids = Unique-Swaps reservation_key refl s' sound.reservation_ids;
          balanced = sound.balanced;
          split = Swaps-All IsSplit s' ((Swaps-All_old _ s' sound.split).0, tt) sound.split;
          backed = λ q. omega (
            arith,
            sound.backed q,
            released_rows t' s' q,
            ap (count (q r.user_id r.asset)) none_left,
            count_zero (q r.user_id r.asset),
          );
        },
        λ q. refl,
      )

pub release_funds-Kept :
    (ids : Ids) (order : String) (db : Wallets)
    → Sound db
    → Post (Kept db) (release_funds ids order db)
unfolding release_funds
release_funds-Kept ids order db sound =
    Post-require _ (reservation_of_order order db.reservations) _ _ λ r found.
      elim (Bool-cases (is_released r.status || is_consumed r.status)) [
        | inl done ↦ rw done (sound, λ q. refl)
        | inr unsettled ↦
            let alive = or_none_left (is_released r.status) (is_consumed r.status) unsettled in
            rw unsettled (elim (Bool-cases (r.remaining_amount == 0)) [
              | inl z ↦ rw z (finish-Kept db sound order r found alive ((==_iff _ _).0 z))
              | inr n ↦ rw n (release_remaining-Kept db sound order r found alive ids)
            ])
      ]
