-- ===== src/Funds/Consume.antt =====
-- The payer's half of a leg with a reservation: what DebitReserved takes from the reserved balance,
-- ConsumeRemaining takes from the reservation.
use Prim.Native.String.{String}
use text.Mathlib.Text.{◌==◌ as same_text}
use tradedrift.Base.{
  and_left, and_right, ℕ, ◌+◌, ◌-◌, ◌≤◌, ◌≡◌, ◌∙◌, refl, sym, subst, Bool, true, false, ◌&&◌, List,
  arith, leb, leb→le, leb_false→lt, update_rows, if◌then◌else◌, Bool-cases, inl, inr, some,
}
use tradedrift.Wallet.Tables.{Wallet, Reservation, partially_consumed, consumed, is_released}
use tradedrift.Wallet.Repository.{
  update_wallets, update_reservations, debit_reserved, consume_remaining,
}
use tradedrift.Wallet.Settle.{Wallets, debit_side}
use tradedrift.Base.Swaps.{
  Swaps, Swaps-All_old, Swaps-All, Swaps-sum_of, update_rows-Swaps, Unique-Swaps,
}
use tradedrift.Funds.State.{
  count, Pairs, promised, open_amount, IsBalanced, IsSplit, Agrees, wallet_key, reservation_key,
  Sound, Names, Lives,
}
use tradedrift.Base.Post.{Post, Post-require, Post-update}
use tradedrift.Funds.Steps.{count_add, count_zero, SameWallet, Swaps-Names, column_shrinks}
use tradedrift.Funds.Moves.{Moves, nothing, at, at_wallet}

-- The row that ConsumeRemaining writes.
abbrev consume : ℕ → Reservation → Reservation
consume amount r = record r {
  consumed_amount = r.consumed_amount + amount;
  remaining_amount = r.remaining_amount - amount;
  status = if leb r.remaining_amount amount then consumed else partially_consumed;
}

consumed_status : (b : Bool) → is_released (if b then consumed else partially_consumed) ≡ false
consumed_status true = refl
consumed_status false = refl

consumed-Agrees :
    (c n amount : ℕ) → Agrees (if leb n amount then consumed else partially_consumed) c (n - amount)
consumed-Agrees c n amount = elim (Bool-cases (leb n amount)) [
  | inl t ↦ rw t (omega (arith, leb→le n amount t))
  | inr f ↦ rw f (omega (arith, leb_false→lt n amount f))
]

consume-IsSplit :
    (amount : ℕ) (r : Reservation)
    → amount ≤ r.remaining_amount
    → IsSplit r
    → IsSplit (consume amount r)
consume-IsSplit amount r enough h = (
  omega (arith, h.0, enough),
  consumed-Agrees (r.consumed_amount + amount) r.remaining_amount amount,
)

consume_opens :
    (amount : ℕ) (r : Reservation)
    → amount ≤ r.remaining_amount
    → is_released r.status ≡ false
    → open_amount (consume amount r) + amount ≡ open_amount r
consume_opens amount r enough alive =
    rw (alive, consumed_status (leb r.remaining_amount amount)) (omega (arith, enough))

-- What an open reservation's row gives to the promises of a choice.
promised_part :
    (q : Pairs) {u u' a a' : String} (m n amount : ℕ)
    → u' ≡ u
    → a' ≡ a
    → n + amount ≡ m
    → count (q u' a') m ≡ count (q u a) n + count (q u a) amount
promised_part q {u = u} {a = a} m n amount eu ea e = rw (eu, ea, sym e) (count_add (q u a) n amount)

-- The promises of a choice, when the open part of a reservation's row shrinks.
pub promised_shrinks :
    (q : Pairs) (user asset : String) (amount : ℕ) {x y : Reservation} {rs rs' : List Reservation}
    → x.user_id ≡ user
    → x.asset ≡ asset
    → y.user_id ≡ x.user_id
    → y.asset ≡ x.asset
    → open_amount y + amount ≡ open_amount x
    → Swaps x y rs rs'
    → promised q rs' + count (q user asset) amount ≡ promised q rs
promised_shrinks q user asset amount {x} {y} eu ea eu' ea' e s = omega (
  arith,
  Swaps-sum_of (λ r. count (q r.user_id r.asset) (open_amount r)) s,
  promised_part q (open_amount x) (open_amount y) amount eu ea e,
  promised_part q (open_amount y) (open_amount y) 0 (eu' ∙ eu) (ea' ∙ ea) (omega arith),
  count_zero (q user asset),
)

Swaps-Lives :
    {x y : Reservation} {rs rs' : List Reservation} (k u a : String)
    → y.id ≡ x.id
    → y.user_id ≡ x.user_id
    → y.asset ≡ x.asset
    → is_released y.status ≡ false
    → Swaps x y rs rs'
    → Lives k u a rs
    → Lives k u a rs'
Swaps-Lives k u a ei eu ea alive s h =
    Swaps-All _ s
      (λ t.
        let (p, q, _) = Swaps-All_old _ s h (subst (λ i. same_text i k ≡ true) ei t) in
        (eu ∙ p, ea ∙ q, alive))
      h

module _ (db : Wallets) (sound : Sound db) (k rid user asset : String) (amount : ℕ)
    (names : Names k user asset db.wallets) (lives : Lives rid user asset db.reservations) where
  -- Both rows are found, and their owners are the reservation's.
  paid_from_reservation :
      {x : Wallet} {ws' : List Wallet} {r : Reservation} {rs' : List Reservation}
      → (same_text x.id k && leb amount x.reserved_balance) ≡ true
      → Swaps x
          (record x {
            reserved_balance = x.reserved_balance - amount;
            total_balance = x.total_balance - amount;
          })
          db.wallets
          ws'
      → (same_text r.id rid && leb amount r.remaining_amount) ≡ true
      → Swaps r (consume amount r) db.reservations rs'
      → Moves (at user asset amount) nothing db (record db { wallets = ws'; reservations = rs' })
  paid_from_reservation {x = x} {r = r} t s t' s' =
      let same : SameWallet x _ = record { same_id = refl; same_user = refl; same_asset = refl } in
      let balanced = Swaps-All_old _ s sound.balanced in
      let covered = leb→le amount x.reserved_balance (and_right (same_text x.id k) _ t) in
      let enough = leb→le amount r.remaining_amount (and_right (same_text r.id rid) _ t') in
      let owner = Swaps-All_old _ s names (and_left _ (leb amount x.reserved_balance) t) in
      let (r_user, r_asset, alive) =
        Swaps-All_old _ s' lives (and_left _ (leb amount r.remaining_amount) t') in
      let still = consumed_status (leb r.remaining_amount amount) in
      record {
        sound = record {
          wallet_ids = Unique-Swaps wallet_key refl s sound.wallet_ids;
          reservation_ids = Unique-Swaps reservation_key refl s' sound.reservation_ids;
          balanced = Swaps-All IsBalanced s (omega (arith, balanced, covered)) sound.balanced;
          split =
              Swaps-All IsSplit s'
                (consume-IsSplit amount r enough (Swaps-All_old _ s' sound.split)) sound.split;
          backed = λ q. omega (
            arith,
            sound.backed q,
            column_shrinks q (λ w. w.reserved_balance) same s amount (omega (arith, covered)),
            at_wallet q x user asset amount owner,
            promised_shrinks q user asset amount r_user r_asset refl refl
                (consume_opens amount r enough alive) s',
          );
        };
        names = λ j u a. Swaps-Names j u a same s;
        lives = λ j u a. Swaps-Lives j u a refl refl refl still s';
        accounts = λ q. omega (
          arith,
          column_shrinks q (λ w. w.total_balance) same s amount (omega (arith, balanced, covered)),
          at_wallet q x user asset amount owner,
        );
      }

  pub debit_side-Moves :
      (r : Reservation)
      → r.id ≡ rid
      → Post (Moves (at user asset amount) nothing db) (debit_side k (some r) amount db)
  unfolding debit_side debit_reserved consume_remaining update_wallets update_reservations
  debit_side-Moves r e = Post-update _ (update_rows _ _ db.wallets) _ _ _ λ ws found.
      Post-require _ (update_rows _ _ db.reservations) _ _ λ rs found'.
        let (x, s, t) =
          update_rows-Swaps wallet_key _ _ k
            (λ a h. and_left (same_text a.id k) (leb amount a.reserved_balance) h) db.wallets ws
            sound.wallet_ids found in
        let (y, s', t') =
          update_rows-Swaps reservation_key _ _ r.id
            (λ a h. and_left (same_text a.id r.id) (leb amount a.remaining_amount) h)
            db.reservations rs sound.reservation_ids found' in
        paid_from_reservation t s
          (subst (λ i. (same_text y.id i && leb amount y.remaining_amount) ≡ true) e t') s'
