-- ===== src/Funds/Moves.antt =====
-- The statements that move money between wallets, in the settlement's terms: what leaves and what
-- arrives at the wallets of a choice.
use Prim.Native.String.{String}
use text.Mathlib.Text.{◌==◌ as same_text}
use tradedrift.Base.{and_left, and_right, ℕ, ◌+◌, ◌≡◌, refl, List, arith, leb, leb→le, update_rows}
use tradedrift.Wallet.Tables.{Wallet, Reservation}
use tradedrift.Wallet.Repository.{update_wallets, credit_available, debit_available}
use tradedrift.Wallet.Settle.{Wallets}
use tradedrift.Base.Swaps.{Swaps-All_old, update_rows-Swaps}
use tradedrift.Funds.State.{count, Pairs, owned, wallet_key, Sound, SoundRows, Names, Lives}
use tradedrift.Base.Post.{Post, Post-require}
use tradedrift.Funds.Steps.{SameWallet, Swaps-Names, column_grows, column_shrinks, Sound-available}

-- From `db` to `db'` the tables stay sound, the rows keep their owners, no open reservation is
-- released, and `out` leaves the wallets while `gain` arrives.
pub record MovedRows (out gain : Pairs → ℕ) (ws : List Wallet) (rs : List Reservation)
    (ws' : List Wallet) (rs' : List Reservation) : Type 0 where
  pub sound : SoundRows ws' rs'
  pub names : (k u a : String) → Names k u a ws → Names k u a ws'
  pub lives : (k u a : String) → Lives k u a rs → Lives k u a rs'
  pub accounts : (q : Pairs) → owned q ws' + out q ≡ owned q ws + gain q

abbrev pub Moves : (Pairs → ℕ) → (Pairs → ℕ) → Wallets → Wallets → Type 0
Moves out gain db db' = MovedRows out gain db.wallets db.reservations db'.wallets db'.reservations

module _ {o g : Pairs → ℕ} {o' g' : Pairs → ℕ} (a b c : Wallets) where
  -- One move after another.
  pub chain-Moves : Moves o g a b → Moves o' g' b c → Moves (λ q. o q + o' q) (λ q. g q + g' q) a c
  chain-Moves m n = record {
    sound = n.sound;
    names = λ j u x h. n.names j u x (m.names j u x h);
    lives = λ j u x h. n.lives j u x (m.lives j u x h);
    accounts = λ q. omega (arith, m.accounts q, n.accounts q);
  }

-- The same move, by what leaves and arrives.
pub recount-Moves :
    {o g : Pairs → ℕ} (o' g' : Pairs → ℕ) (a b : Wallets)
    → ((q : Pairs) → (o q ≡ o' q) × (g q ≡ g' q))
    → Moves o g a b
    → Moves o' g' a b
recount-Moves o' g' a b e m = record {
  sound = m.sound;
  names = m.names;
  lives = m.lives;
  accounts = λ q. omega (arith, m.accounts q, (e q).0, (e q).1);
}

abbrev pub nothing : Pairs → ℕ
nothing q = 0

abbrev pub at : String → String → ℕ → Pairs → ℕ
at user asset amount q = count (q user asset) amount

pub at_wallet :
    (q : Pairs) (x : Wallet) (user asset : String) (amount : ℕ)
    → (x.user_id ≡ user) × (x.asset ≡ asset)
    → count (q x.user_id x.asset) amount ≡ at user asset amount q
at_wallet q x user asset amount h = rw (h.0, h.1) refl

module _ (db : Wallets) (sound : Sound db) (k user asset : String) (amount : ℕ)
    (names : Names k user asset db.wallets) where
  pub credit_available-Moves :
      Post (Moves nothing (at user asset amount) db) (credit_available k amount db)
  unfolding credit_available update_wallets
  credit_available-Moves = Post-require _ (update_rows _ _ db.wallets) _ _ λ ws e.
      let (x, swaps, t) =
        update_rows-Swaps wallet_key _ _ k (λ a h. h) db.wallets ws sound.wallet_ids e in
      let same : SameWallet x _ = record { same_id = refl; same_user = refl; same_asset = refl } in
      let fits = Swaps-All_old _ swaps sound.balanced in
      let owner = Swaps-All_old _ swaps names t in
      record {
        sound = Sound-available db sound same swaps (omega (arith, fits)) refl;
        names = λ j u a. Swaps-Names j u a same swaps;
        lives = λ j u a h. h;
        accounts = λ q. omega (
          arith,
          column_grows q (λ w. w.total_balance) same swaps amount refl,
          at_wallet q x user asset amount owner,
        );
      }

  pub debit_available-Moves :
      Post (Moves (at user asset amount) nothing db) (debit_available k amount db)
  unfolding debit_available update_wallets
  debit_available-Moves = Post-require _ (update_rows _ _ db.wallets) _ _ λ ws e.
      let (x, swaps, t) =
        update_rows-Swaps wallet_key _ _ k
          (λ a h. and_left (same_text a.id k) (leb amount a.available_balance) h) db.wallets ws
          sound.wallet_ids e in
      let same : SameWallet x _ = record { same_id = refl; same_user = refl; same_asset = refl } in
      let fits = Swaps-All_old _ swaps sound.balanced in
      let enough =
        leb→le amount x.available_balance
          (and_right (same_text x.id k) (leb amount x.available_balance) t) in
      let owner =
        Swaps-All_old _ swaps names
          (and_left (same_text x.id k) (leb amount x.available_balance) t) in
      record {
        sound = Sound-available db sound same swaps (omega (arith, fits, enough)) refl;
        names = λ j u a. Swaps-Names j u a same swaps;
        lives = λ j u a h. h;
        accounts = λ q. omega (
          arith,
          column_shrinks q (λ w. w.total_balance) same swaps amount (omega (arith, fits, enough)),
          at_wallet q x user asset amount owner,
        );
      }
