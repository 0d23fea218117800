-- ===== src/Wallet/Lease.antt =====
-- outbox_repository.go: the events of the outbox that the publishers claim for a lease, mark as
-- published or failed, and release. Times are numbers and the clocks are arguments: `now` is the
-- publisher's, `db_now` the database's. The rows that another transaction has locked, which SKIP LOCKED
-- passes over, and the order of the ids are parameters.
use Prim.Native.String.{String}
use text.Mathlib.Text.{◌==◌ as same_text}
use tradedrift.Base.{
  ℕ, ◌-◌, Option, none, some, Bool, true, false, not, ◌&&◌, ◌||◌, List, [], ◌∷◌, ◌++◌, map, take,
  ltb, any_row, set_rows, update_rows, if◌then◌else◌,
}
use tradedrift.Wallet.Tables.{OutboxEvent}

pub data OutboxStatus : Type 0 where
  pending processing processed failed : OutboxStatus

pub record OutboxRow (P : Type 0) : Type 0 where
  pub event : OutboxEvent P
  pub created_at : ℕ
  pub status : OutboxStatus
  pub claimed_at : Option ℕ
  pub claim_token : Option String
  pub published_at : Option ℕ
  pub failed_reason : Option String

abbrev pub is_processing : OutboxStatus → Bool
is_processing processing = true
is_processing _ = false

-- claimed_at IS NULL OR claimed_at < cutoff
abbrev pub lease_expired : ℕ → Option ℕ → Bool
lease_expired cutoff none = true
lease_expired cutoff (some at) = ltb at cutoff

-- claim_token = token, which does not hold of NULL.
abbrev pub holds_token : String → Option String → Bool
holds_token token none = false
holds_token token (some t) = same_text t token

-- The condition of the lease in FetchPending.
abbrev pub claimable_status : ℕ → Option ℕ → OutboxStatus → Bool
claimable_status cutoff at pending = true
claimable_status cutoff at processing = lease_expired cutoff at
claimable_status cutoff at _ = false

abbrev pub has_id : String → List String → Bool
has_id id ids = any_row (λ i. same_text i id) ids

module _ {P : Type 0} where
  abbrev pub row_id : OutboxRow P → String
  row_id r = r.event.id

  abbrev pub pending_row : OutboxEvent P → ℕ → OutboxRow P
  pending_row event now = record {
    event = event;
    created_at = now;
    status = pending;
    claimed_at = none;
    claim_token = none;
    published_at = none;
    failed_reason = none;
  }

  -- Insert; `none` is the error of an id that is not new.
  unfoldable pub insert_pending :
      OutboxEvent P → ℕ → List (OutboxRow P) → Option (List (OutboxRow P))
  insert_pending event now rows =
      if any_row (λ r. same_text (row_id r) event.id) rows
      then none
      else some (rows ++ (pending_row event now ∷ []))

  -- The claimable rows that are not locked.
  unfoldable pub claimable : (String → Bool) → ℕ → List (OutboxRow P) → List (OutboxRow P)
  claimable locked cutoff [] = []
  claimable locked cutoff (r ∷ rows) =
      let rest = claimable locked cutoff rows in
      if claimable_status cutoff r.claimed_at r.status && not (locked (row_id r))
      then r ∷ rest
      else rest

  -- ORDER BY created_at ASC, id ASC
  abbrev pub before : (String → String → Bool) → OutboxRow P → OutboxRow P → Bool
  before id_before r s =
      ltb r.created_at s.created_at
      || (not (ltb s.created_at r.created_at) && id_before (row_id r) (row_id s))

  unfoldable pub insert_by :
      (OutboxRow P → OutboxRow P → Bool) → OutboxRow P → List (OutboxRow P) → List (OutboxRow P)
  insert_by less r [] = r ∷ []
  insert_by less r (s ∷ rows) =
      let rest = insert_by less r rows in if less s r then s ∷ rest else r ∷ s ∷ rows

  unfoldable pub ordered :
      (OutboxRow P → OutboxRow P → Bool) → List (OutboxRow P) → List (OutboxRow P)
  ordered less [] = []
  ordered less (r ∷ rows) = insert_by less r (ordered less rows)

  -- The ids of the CTE `claimable`.
  unfoldable pub chosen_ids :
      (String → String → Bool) → (String → Bool) → ℕ → ℕ → List (OutboxRow P) → List String
  chosen_ids id_before locked limit cutoff rows =
      map row_id (take limit (ordered (before id_before) (claimable locked cutoff rows)))

  -- FetchPending's UPDATE, without the list of the rows that it returns, for a new token; `lease` is the repository's claimLease.
  unfoldable pub fetch_pending :
      (String → String → Bool)
      → (String → Bool)
      → (limit lease now db_now : ℕ) → String
      → List (OutboxRow P)
      → List (OutboxRow P)
  fetch_pending id_before locked limit lease now db_now token rows =
      let ids = chosen_ids id_before locked limit (now - lease) rows in
      set_rows (λ r. has_id (row_id r) ids)
        (λ r. record r { status = processing; claimed_at = some db_now; claim_token = some token })
        rows

  -- WHERE id = $1 AND status = 'PROCESSING' AND claim_token = $2
  abbrev pub claimed_by : String → OutboxRow P → Bool
  claimed_by token r = is_processing r.status && holds_token token r.claim_token

  -- `none` is the error of an event that is not found, not in processing or claimed by another.
  unfoldable pub mark_published :
      String → String → ℕ → List (OutboxRow P) → Option (List (OutboxRow P))
  mark_published id token db_now rows =
      update_rows (λ r. same_text (row_id r) id && claimed_by token r)
        (λ r. record r {
          status = processed;
          published_at = some db_now;
          claimed_at = none;
          claim_token = none;
        })
        rows

  unfoldable pub mark_failed :
      String → String → String → List (OutboxRow P) → Option (List (OutboxRow P))
  mark_failed id reason token rows =
      update_rows (λ r. same_text (row_id r) id && claimed_by token r)
        (λ r. record r {
          status = failed;
          failed_reason = some reason;
          claimed_at = none;
          claim_token = none;
        })
        rows

  unfoldable pub release_claims : List String → String → List (OutboxRow P) → List (OutboxRow P)
  release_claims ids token rows =
      set_rows (λ r. has_id (row_id r) ids && claimed_by token r)
        (λ r. record r { status = pending; claimed_at = none; claim_token = none }) rows

  unfoldable pub release_claim : String → String → List (OutboxRow P) → List (OutboxRow P)
  release_claim id token rows = release_claims (id ∷ []) token rows
