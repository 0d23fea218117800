-- ===== src/Funds/Ledger.antt =====
-- The ledger's keys: what a written entry adds, and when an entry, or one of a batch, is a duplicate.
use text.Mathlib.Text.{◌==◌ as same_text}
use tradedrift.Base.{
  ◌≡◌, refl, subst, ◌∙◌, Bool, true, false, not, ◌||◌, List, [], ◌∷◌, ◌++◌, Option, some, none,
  any_row, first_row, inl, inr, ◌⊎◌, if◌then◌else◌,
}
use tradedrift.Base.Outcomes.{ok, failed, check, ◌>>◌, ◌>>=◌}
use tradedrift.Wallet.Tables.{
  WalletTransaction, WalletError, Result, is_duplicate, internal, duplicate,
}
use tradedrift.Wallet.Repository.{
  Database, transaction_clash, transaction_of, create_transaction, create_batch,
}
use tradedrift.Base.Post.{Post, Post-get, Post-check}

third_check :
    {A : Type 0} (a b c : Bool) (d : A) (e : WalletError)
    → (check a internal >> (check b internal >> (check (not c) duplicate >> ok d))) ≡ failed e
    → is_duplicate e ≡ true
    → c ≡ true
unfolding check ◌>>◌
third_check false b c d e h dup = cc
third_check true false c d e h dup = cc
third_check true true true d e h dup = refl
third_check true true false d e h dup = cc

-- An entry of the batch has a key that the ledger or an entry before it has.
abbrev pub Clashes : List WalletTransaction → List WalletTransaction → Type 0
Clashes [] ledger = ⊥
Clashes (t ∷ ts) ledger =
    (any_row (transaction_clash t) ledger ≡ true) ⊎ Clashes ts (ledger ++ (t ∷ []))

module _ {P : Type 0} where
  pub duplicate_entry :
      (t : WalletTransaction) (db : Database P) (e : WalletError)
      → create_transaction t db ≡ failed e
      → is_duplicate e ≡ true
      → any_row (transaction_clash t) db.transactions ≡ true
  unfolding create_transaction
  duplicate_entry t db e h dup =
      third_check _ _ _ (record db { transactions = db.transactions ++ (t ∷ []) }) e h dup

  -- A written entry is added to the ledger, and nothing else changes.
  pub create_transaction-Post :
      (Q : Database P → Type 0) (t : WalletTransaction) (db : Database P)
      → Q (record db { transactions = db.transactions ++ (t ∷ []) })
      → Post Q (create_transaction t db)
  unfolding create_transaction
  create_transaction-Post Q t db h =
      Post-check _ _ _ _ λ _. Post-check _ _ _ _ λ _. Post-check _ _ _ _ λ _. h

  batch_step :
      (t : WalletTransaction) (ts : List WalletTransaction) (db : Database P) (e : WalletError)
      (o : Result (Database P))
      → create_transaction t db ≡ o
      → ((next : Database P)
          → next.transactions ≡ db.transactions ++ (t ∷ [])
          → create_batch ts next ≡ failed e
          → Clashes ts (db.transactions ++ (t ∷ [])))
      → (o >>= λ next. create_batch ts next) ≡ failed e
      → is_duplicate e ≡ true
      → Clashes (t ∷ ts) db.transactions
  unfolding ◌>>=◌
  batch_step t ts db e (ok next) s later h dup = inr (
      later next
        (Post-get (λ d. d.transactions ≡ db.transactions ++ (t ∷ [])) (create_transaction t db)
          (create_transaction-Post _ t db refl) s)
        h)
  batch_step t ts db e (failed x) s later h dup = inl (duplicate_entry t db e (s ∙ h) dup)

  pub duplicate_batch :
      (ts : List WalletTransaction) (db : Database P) (e : WalletError)
      → create_batch ts db ≡ failed e
      → is_duplicate e ≡ true
      → Clashes ts db.transactions
  unfolding create_batch
  duplicate_batch [] db e h dup = cc
  duplicate_batch (t ∷ ts) db e h dup =
      batch_step t ts db e (create_transaction t db) refl
        (λ next same k. subst (Clashes ts) same (duplicate_batch ts next e k dup)) h dup

clash_head :
    (b c rest other : Bool) (x : WalletTransaction) (found : Option WalletTransaction)
    → (found ≡ none → rest ≡ true → other ≡ true)
    → ((b || c) || rest) ≡ true
    → (if c then some x else found) ≡ none
    → (b || other) ≡ true
clash_head true c rest other x found later h n = refl
clash_head false true rest other x found later h n = cc
clash_head false false rest other x found later h n = later n h

clash_of_id :
    (p q : WalletTransaction → Bool) (ts : List WalletTransaction)
    → any_row (λ x. p x || q x) ts ≡ true
    → first_row q ts ≡ none
    → any_row p ts ≡ true
clash_of_id p q [] h n = h
clash_of_id p q (x ∷ ts) h n =
    clash_head (p x) (q x) _ _ x (first_row q ts) (λ n' h'. clash_of_id p q ts h' n') h n

-- If no entry of the wallet has the reference, only the id of an entry can be taken.
pub taken_id :
    (t : WalletTransaction) (ts : List WalletTransaction)
    → any_row (transaction_clash t) ts ≡ true
    → transaction_of t.wallet_id t.reference_id t.reference_type ts ≡ none
    → any_row (λ (x : WalletTransaction). same_text x.id t.id) ts ≡ true
unfolding transaction_of
taken_id t ts h n = clash_of_id (λ x. same_text x.id t.id) _ ts h n
