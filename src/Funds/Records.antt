-- ===== src/Funds/Records.antt =====
-- The ledger, the outbox and the settled trades beside the balances.
use Prim.Native.String.{String}
use tradedrift.Base.{ℕ, ◌≡◌, refl, Bool, true, List, [], ◌∷◌, ◌∙◌, update_rows, Option, some, none}
use tradedrift.Base.Outcomes.{ok, failed}
use tradedrift.Wallet.Tables.{
  Wallet, Reservation, is_duplicate, WalletTransaction, OutboxEvent, WalletError, Result,
}
use tradedrift.Wallet.Repository.{
  Database, update_wallets, update_reservations, credit_available, debit_available, debit_reserved,
  consume_remaining, create_transaction, create_batch, insert_event,
}
use tradedrift.Wallet.Validate.{TradeSettlementRequest, Moved}
use tradedrift.Wallet.Reserve.{Ids, committed_entry}
use tradedrift.Wallet.Settle.{
  Wallets, Parties, debit_side, move_balances, insert_events, after_batch, Payload,
}
use tradedrift.Base.Post.{Post, Post-require, Post-step, Post-check, Post-map, Post-choose}

-- The ledger and the outbox are apart from the balances.
pub create_transaction-rest :
    {P : Type 0} (Q : Database P → Type 0) (t : WalletTransaction) (db : Database P)
    → ((ts : List WalletTransaction) → Q (record db { transactions = ts }))
    → Post Q (create_transaction t db)
unfolding create_transaction
create_transaction-rest Q t db h =
    Post-check _ _ _ _ λ _. Post-check _ _ _ _ λ _. Post-check _ _ _ _ λ _. h _

Post-committed :
    {P : Type 0} (Q : Database P → Type 0) (m : Result (Database P))
    → Post Q m
    → Post Q (committed_entry m)
unfolding committed_entry
Post-committed Q (ok d) h = h
Post-committed Q (failed e) h = tt

pub committed_entry-rest :
    {P : Type 0} (Q : Database P → Type 0) (t : WalletTransaction) (db : Database P)
    → ((ts : List WalletTransaction) → Q (record db { transactions = ts }))
    → Post Q (committed_entry (create_transaction t db))
committed_entry-rest Q t db h = Post-committed Q _ (create_transaction-rest Q t db h)

pub create_batch-rest :
    {P : Type 0} (Q : Database P → Type 0) (ts : List WalletTransaction) (db : Database P)
    → ((us : List WalletTransaction) → Q (record db { transactions = us }))
    → Post Q (create_batch ts db)
unfolding create_batch
create_batch-rest Q [] db h = h db.transactions
create_batch-rest Q (t ∷ ts) db h =
    Post-step _ (λ d. (us : List WalletTransaction) → Q (record d { transactions = us })) _ _
      (create_transaction-rest _ t db λ us vs. h vs) λ d g. create_batch-rest Q ts d g

-- What every other outbox would keep holds after an event.
abbrev pub AnyOutbox : (Wallets → Type 0) → Wallets → Type 0
AnyOutbox Q db = (es : List (OutboxEvent Payload)) → Q (record db { outbox = es })

insert_event-rest :
    (Q : Wallets → Type 0) (e : OutboxEvent Payload) (db : Wallets)
    → AnyOutbox Q db
    → Post (AnyOutbox Q) (insert_event e db)
unfolding insert_event
insert_event-rest Q e db h = Post-check _ _ _ _ λ _ es. h es

pub insert_events-rest :
    (Q : Wallets → Type 0) (ids : Ids) (req : TradeSettlementRequest) (now : ℕ) (db : Wallets)
    → AnyOutbox Q db
    → Post Q (insert_events ids req now db)
unfolding insert_events
insert_events-rest Q ids req now db h = Post-require _ (ids 4) _ _ λ id4 _.
    Post-step _ _ _ _ (insert_event-rest Q _ db h) λ d1 h1. Post-require _ (ids 5) _ _ λ id5 _.
      Post-step _ _ _ _ (insert_event-rest Q _ d1 h1) λ d2 h2.
        Post-require _ (ids 6) _ _
          λ id6 _. Post-map Q (AnyOutbox Q) _ (λ d3 h3. h3 d3.outbox) (insert_event-rest Q _ d2 h2)

-- After a batch of entries: a duplicate gives back the tables of the call.
pub after_batch-Post :
    (Q : Wallets → Type 0) (ids : Ids) (req : TradeSettlementRequest) (now : ℕ) (before : Wallets)
    (m : Result Wallets)
    → ((e : WalletError) → m ≡ failed e → is_duplicate e ≡ true → Q before)
    → Post (AnyOutbox Q) m
    → Post Q (after_batch ids req now before m)
unfolding after_batch
after_batch-Post Q ids req now before (ok db) b h = insert_events-rest Q ids req now db h
after_batch-Post Q ids req now before (failed e) b h =
    Post-choose Q (is_duplicate e) _ _ (λ dup. b e refl dup) (λ _. tt)

-- The records beside the balances are the same.
abbrev pub SameRecords : Wallets → Wallets → Type 0
SameRecords db d =
    (d.settled_trades ≡ db.settled_trades)
    × (d.transactions ≡ db.transactions)
    × (d.outbox ≡ db.outbox)

update_wallets-SameRecords :
    (p : Wallet → Bool) (f : Wallet → Wallet) (e : WalletError) (db : Wallets)
    → Post (SameRecords db) (update_wallets p f e db)
unfolding update_wallets
update_wallets-SameRecords p f e db =
    Post-require _ (update_rows p f db.wallets) _ _ λ ws _. (refl, refl, refl)

pub credit_available-SameRecords :
    (k : String) (amount : ℕ) (db : Wallets) → Post (SameRecords db) (credit_available k amount db)
unfolding credit_available
credit_available-SameRecords k amount db = update_wallets-SameRecords _ _ _ db

debit_side-SameRecords :
    (k : String) (res : Option Reservation) (amount : ℕ) (db : Wallets)
    → Post (SameRecords db) (debit_side k res amount db)
unfolding debit_side debit_available debit_reserved consume_remaining update_reservations
debit_side-SameRecords k none amount db = update_wallets-SameRecords _ _ _ db
debit_side-SameRecords k (some r) amount db =
    Post-step _ _ _ _ (update_wallets-SameRecords _ _ _ db)
      λ d same. Post-require _ (update_rows _ _ d.reservations) _ _ λ rs _. same

chain-SameRecords : (a b c : Wallets) → SameRecords a b → SameRecords b c → SameRecords a c
chain-SameRecords a b c h k = (k.0 ∙ h.0, k.1 ∙ h.1, k.2 ∙ h.2)

pub move_balances-SameRecords :
    (p : Parties) (buyer_res seller_res : Option Reservation) (m : Moved) (db : Wallets)
    → Post (SameRecords db) (move_balances p buyer_res seller_res m db)
unfolding move_balances
move_balances-SameRecords p buyer_res seller_res m db =
    Post-step _ _ _ _ (debit_side-SameRecords _ seller_res m.base db) λ d1 s1.
      Post-step _ _ _ _ (credit_available-SameRecords _ m.base d1) λ d2 s2.
        Post-step _ _ _ _ (debit_side-SameRecords _ buyer_res m.quote d2) λ d3 s3.
          Post-map (SameRecords db) (SameRecords d3) _
            (λ d4 s4.
              chain-SameRecords db d3 d4
                (chain-SameRecords db d2 d3 (chain-SameRecords db d1 d2 s1 s2) s3) s4)
            (credit_available-SameRecords _ m.quote d3)
