-- ===== src/Funds/Lease.antt =====
-- The lease of an event of the outbox, over sequences of outbox_repository.go's operations by any
-- number of publishers.
use Prim.Native.String.{String}
use text.Mathlib.Text.{◌==◌ as same_text}
use tradedrift.Base.{
  ℕ, zero, suc, ◌-◌, ◌≡◌, refl, Option, some, Bool, true, false, not, ◌&&◌, List, [], ◌∷◌, ◌++◌,
  map, take, All, Bool-cases, inl, inr, any_row, first_row, if◌then◌else◌, and_left,
}
use tradedrift.Base.Swaps.{Unique, Unique-append, first_row-Only, any_row_none}
use tradedrift.Funds.Updates.{
  and_false, after, after_refusal, after_update, first_row-append, first_row-set_rows,
  Unique-set_rows,
}
use tradedrift.Wallet.Tables.{OutboxEvent}
use tradedrift.Wallet.Lease.{
  OutboxRow, row_id, claimed_by, claimable_status, claimable, ordered, insert_by, before,
  chosen_ids, has_id, pending_row, insert_pending, fetch_pending, mark_published, mark_failed,
  release_claims,
}

-- A call of the repository; a fetch has the rows that others have locked at its time.
pub data LeaseStep (P : Type 0) : Type 0 where
  inserting : OutboxEvent P → ℕ → LeaseStep P
  fetching :
      (locked : String → Bool) → (limit lease now db_now : ℕ) → (token : String) → LeaseStep P
  publishing : (id token : String) → (db_now : ℕ) → LeaseStep P
  failing : (id reason token : String) → LeaseStep P
  releasing : (ids : List String) → (token : String) → LeaseStep P

abbrev pub perform :
    {P : Type 0} → (String → String → Bool) → LeaseStep P → List (OutboxRow P) → List (OutboxRow P)
perform id_before (inserting event now) rows = after (insert_pending event now rows) rows
perform id_before (fetching locked limit lease now db_now token) rows =
    fetch_pending id_before locked limit lease now db_now token rows
perform id_before (publishing id token db_now) rows =
    after (mark_published id token db_now rows) rows
perform id_before (failing id reason token) rows = after (mark_failed id reason token rows) rows
perform id_before (releasing ids token) rows = release_claims ids token rows

abbrev pub perform_all :
    {P : Type 0}
    → (String → String → Bool)
    → List (LeaseStep P)
    → List (OutboxRow P)
    → List (OutboxRow P)
perform_all id_before [] rows = rows
perform_all id_before (s ∷ steps) rows = perform_all id_before steps (perform id_before s rows)

abbrev pub find_event : {P : Type 0} → String → List (OutboxRow P) → Option (OutboxRow P)
find_event id rows = first_row (λ r. same_text (row_id r) id) rows

-- A step that has no claim on a row.
abbrev pub Refused : {P : Type 0} → OutboxRow P → LeaseStep P → Type 0
Refused r (inserting event now) = Unit
Refused r (fetching locked limit lease now db_now token) =
    claimable_status (now - lease) r.claimed_at r.status ≡ false
Refused r (publishing id token db_now) = claimed_by token r ≡ false
Refused r (failing id reason token) = claimed_by token r ≡ false
Refused r (releasing ids token) = claimed_by token r ≡ false

-- What no claimable row is, no chosen id is.
module _ {P : Type 0} (P' : OutboxRow P → Type 0) where
  All-take : (n : ℕ) (xs : List (OutboxRow P)) → All P' xs → All P' (take n xs)
  All-take zero xs h = tt
  All-take (suc n) [] h = tt
  All-take (suc n) (x ∷ xs) h = (h.0, All-take n xs h.1)

  insert_by_step :
      (b : Bool) (xs ys : List (OutboxRow P))
      → All P' xs
      → All P' ys
      → All P' (if b then xs else ys)
  insert_by_step true xs ys h k = h
  insert_by_step false xs ys h k = k

  All-insert_by :
      (less : OutboxRow P → OutboxRow P → Bool) (r : OutboxRow P) (xs : List (OutboxRow P))
      → P' r
      → All P' xs
      → All P' (insert_by less r xs)
  unfolding insert_by
  All-insert_by less r [] h hs = (h, tt)
  All-insert_by less r (s ∷ xs) h hs =
      insert_by_step (less s r) _ _ (hs.0, All-insert_by less r xs h hs.1) (h, hs)

  All-ordered :
      (less : OutboxRow P → OutboxRow P → Bool) (xs : List (OutboxRow P))
      → All P' xs
      → All P' (ordered less xs)
  unfolding ordered
  All-ordered less [] hs = tt
  All-ordered less (x ∷ xs) hs = All-insert_by less x _ hs.0 (All-ordered less xs hs.1)

module _ {P : Type 0} (locked : String → Bool) (cutoff : ℕ) (k : String) where
  claimable_step :
      (b : Bool) (x : OutboxRow P) (xs : List (OutboxRow P))
      → (b ≡ true → same_text (row_id x) k ≡ false)
      → All (λ y. same_text (row_id y) k ≡ false) xs
      → All (λ y. same_text (row_id y) k ≡ false) (if b then x ∷ xs else xs)
  claimable_step true x xs h hs = (h refl, hs)
  claimable_step false x xs h hs = hs

  claimable_apart :
      (rows : List (OutboxRow P))
      → All
          (λ y.
            same_text (row_id y) k ≡ true → claimable_status cutoff y.claimed_at y.status ≡ false)
          rows
      → All (λ y. same_text (row_id y) k ≡ false) (claimable locked cutoff rows)
  unfolding claimable
  claimable_apart [] h = tt
  claimable_apart (x ∷ rows) h =
      claimable_step _ x _
        (λ (c : claimable_status cutoff x.claimed_at x.status && not (locked (row_id x)) ≡ true).
          elim (Bool-cases (same_text (row_id x) k)) [
            | inl t ↦ cc (
              h.0 t,
              and_left (claimable_status cutoff x.claimed_at x.status) (not (locked (row_id x))) c,
            )
            | inr e ↦ e
          ])
        (claimable_apart rows h.1)

  no_id :
      (rows : List (OutboxRow P))
      → All (λ y. same_text (row_id y) k ≡ false) rows
      → has_id k (map row_id rows) ≡ false
  no_id [] h = refl
  no_id (x ∷ rows) h = rw h.0 (no_id rows h.1)

-- A fetch does not choose the id of a row that is not claimable.
not_chosen :
    {P : Type 0} (id_before : String → String → Bool) (locked : String → Bool) (limit cutoff : ℕ)
    (rows : List (OutboxRow P)) (id : String) {r : OutboxRow P}
    → Unique row_id rows
    → find_event id rows ≡ some r
    → claimable_status cutoff r.claimed_at r.status ≡ false
    → has_id (row_id r) (chosen_ids id_before locked limit cutoff rows) ≡ false
unfolding chosen_ids
not_chosen id_before locked limit cutoff rows id {r} u e refused =
    let apart = claimable_apart locked cutoff (row_id r) rows (
      first_row-Only row_id (λ y. claimable_status cutoff y.claimed_at y.status ≡ false)
        (λ y. same_text (row_id y) id) rows u e refused) in
    no_id locked cutoff (row_id r) _ (
      All-take (λ y. same_text (row_id y) (row_id r) ≡ false) limit _
        (All-ordered (λ y. same_text (row_id y) (row_id r) ≡ false) (before id_before) _ apart))

module _ {P : Type 0} (id_before : String → String → Bool) where
  pub perform-Unique :
      (s : LeaseStep P) (rows : List (OutboxRow P))
      → Unique row_id rows
      → Unique row_id (perform id_before s rows)
  unfolding insert_pending fetch_pending mark_published mark_failed release_claims
  perform-Unique (inserting event now) rows u =
      elim (Bool-cases (any_row (λ (r : OutboxRow P). same_text (row_id r) event.id) rows)) [
        | inl t ↦ rw t u
        | inr e ↦ rw e (
            Unique-append row_id (pending_row event now) rows u
              (any_row_none (λ (r : OutboxRow P). same_text (row_id r) event.id) rows e))
      ]
  perform-Unique (fetching locked limit lease now db_now token) rows u =
      Unique-set_rows _ _ row_id rows (λ a. refl) u
  perform-Unique (publishing id token db_now) rows u =
      after_update (Unique row_id) _ _ rows u (Unique-set_rows _ _ row_id rows (λ a. refl) u)
  perform-Unique (failing id reason token) rows u =
      after_update (Unique row_id) _ _ rows u (Unique-set_rows _ _ row_id rows (λ a. refl) u)
  perform-Unique (releasing ids token) rows u = Unique-set_rows _ _ row_id rows (λ a. refl) u

  -- A refused step leaves the row.
  pub perform_keeps :
      (s : LeaseStep P) (rows : List (OutboxRow P)) (id : String) (r : OutboxRow P)
      → Unique row_id rows
      → find_event id rows ≡ some r
      → Refused r s
      → find_event id (perform id_before s rows) ≡ some r
  unfolding insert_pending fetch_pending mark_published mark_failed release_claims
  perform_keeps (inserting event now) rows id r u e h =
      after_refusal (λ xs. find_event id xs ≡ some r)
        (any_row (λ (y : OutboxRow P). same_text (row_id y) event.id) rows) rows
        (rows ++ (pending_row event now ∷ [])) e
        (first_row-append (λ y. same_text (row_id y) id) rows (pending_row event now ∷ []) e)
  perform_keeps (fetching locked limit lease now db_now token) rows id r u e h =
      first_row-set_rows _ _ (λ y. same_text (row_id y) id) rows (λ a. refl) e
        (not_chosen id_before locked limit (now - lease) rows id u e h)
  perform_keeps (publishing i token db_now) rows id r u e h =
      after_update (λ xs. find_event id xs ≡ some r) _ _ rows e
        (first_row-set_rows _ _ (λ y. same_text (row_id y) id) rows (λ a. refl) e
          (and_false (same_text (row_id r) i) _ h))
  perform_keeps (failing i reason token) rows id r u e h =
      after_update (λ xs. find_event id xs ≡ some r) _ _ rows e
        (first_row-set_rows _ _ (λ y. same_text (row_id y) id) rows (λ a. refl) e
          (and_false (same_text (row_id r) i) _ h))
  perform_keeps (releasing ids token) rows id r u e h =
      first_row-set_rows _ _ (λ y. same_text (row_id y) id) rows (λ a. refl) e
        (and_false (has_id (row_id r) ids) _ h)

  pub perform_all_keeps :
      (steps : List (LeaseStep P)) (rows : List (OutboxRow P)) (id : String) (r : OutboxRow P)
      → Unique row_id rows
      → find_event id rows ≡ some r
      → All (Refused r) steps
      → find_event id (perform_all id_before steps rows) ≡ some r
  perform_all_keeps [] rows id r u e h = e
  perform_all_keeps (s ∷ steps) rows id r u e h =
      perform_all_keeps steps (perform id_before s rows) id r (perform-Unique s rows u)
        (perform_keeps s rows id r u e h.0) h.1
