-- ===== src/Funds/Fencing.antt =====
-- What the claim tokens and the lease of outbox_repository.go promise to a publisher.
use Prim.Native.String.{String}
use text.Mathlib.Text.{◌==◌ as same_text}
use tradedrift.Base.{
  ℕ, ◌-◌, ◌≤◌, ◌≡◌, refl, Option, some, Bool, ◌&&◌, true, false, List, [], ◌∷◌, arith, All, ltb,
}
use tradedrift.Base.Swaps.{Unique, first_row-true}
use tradedrift.Funds.Updates.{update_rows_found}
use text.Mathlib.TextPositions.{eq_refl}
use tradedrift.Wallet.Lease.{
  OutboxStatus, pending, processing, processed, failed, OutboxRow, row_id, claimed_by,
  claimable_status, is_processing, mark_published,
}
use tradedrift.Funds.Lease.{
  LeaseStep, inserting, fetching, publishing, failing, releasing, Refused, find_event, perform_all,
  perform_all_keeps,
}

-- A step of another publisher than that of the token, or a fetch before the end of the lease of a
-- claim made at `at`.
abbrev pub Foreign : {P : Type 0} → String → ℕ → LeaseStep P → Type 0
Foreign t at (inserting event now) = Unit
Foreign t at (fetching locked limit lease now db_now token) = now - lease ≤ at
Foreign t at (publishing id token db_now) = same_text t token ≡ false
Foreign t at (failing id reason token) = same_text t token ≡ false
Foreign t at (releasing ids token) = same_text t token ≡ false

abbrev pub is_handled : OutboxStatus → Bool
is_handled processed = true
is_handled failed = true
is_handled _ = false

handled_unclaimable :
    (cutoff : ℕ) (at : Option ℕ) (s : OutboxStatus)
    → is_handled s ≡ true
    → claimable_status cutoff at s ≡ false
handled_unclaimable cutoff at pending h = cc
handled_unclaimable cutoff at processing h = cc
handled_unclaimable cutoff at processed h = refl
handled_unclaimable cutoff at failed h = refl

handled_unclaimed :
    (s : OutboxStatus) (b : Bool) → is_handled s ≡ true → (is_processing s && b) ≡ false
handled_unclaimed pending b h = refl
handled_unclaimed processing b h = cc
handled_unclaimed processed b h = refl
handled_unclaimed failed b h = refl

handled-Refused :
    {P : Type 0} (r : OutboxRow P) (s : LeaseStep P) → is_handled r.status ≡ true → Refused r s
handled-Refused r (inserting event now) h = tt
handled-Refused r (fetching locked limit lease now db_now token) h =
    handled_unclaimable (now - lease) r.claimed_at r.status h
handled-Refused r (publishing id token db_now) h = handled_unclaimed r.status _ h
handled-Refused r (failing id reason token) h = handled_unclaimed r.status _ h
handled-Refused r (releasing ids token) h = handled_unclaimed r.status _ h

handled_refuses :
    {P : Type 0} (r : OutboxRow P) (steps : List (LeaseStep P))
    → is_handled r.status ≡ true
    → All (Refused r) steps
handled_refuses r [] h = tt
handled_refuses r (s ∷ steps) h = (handled-Refused r s h, handled_refuses r steps h)

not_later : (a b : ℕ) → b ≤ a → ltb a b ≡ false
not_later a b h = ground arith

module _ {P : Type 0} (r : OutboxRow P) (t : String) (at : ℕ) (status : r.status ≡ processing)
    (claimed_at : r.claimed_at ≡ some at) (token : r.claim_token ≡ some t) where
  held_by : (other : String) → same_text t other ≡ false → claimed_by other r ≡ false
  held_by other h = rw status (rw token h)

  held-Refused : (s : LeaseStep P) → Foreign t at s → Refused r s
  held-Refused (inserting event now) h = tt
  held-Refused (fetching locked limit lease now db_now new) h =
      rw status (rw claimed_at (not_later at (now - lease) h))
  held-Refused (publishing id other db_now) h = held_by other h
  held-Refused (failing id reason other) h = held_by other h
  held-Refused (releasing ids other) h = held_by other h

  held_refuses : (steps : List (LeaseStep P)) → All (Foreign t at) steps → All (Refused r) steps
  held_refuses [] h = tt
  held_refuses (s ∷ steps) h = (held-Refused s h.0, held_refuses steps h.1)

-- The holder of the claim may mark the event.
holder_marks :
    {P : Type 0} (rows : List (OutboxRow P)) (id t : String) (r : OutboxRow P) (now : ℕ)
    → find_event id rows ≡ some r
    → r.status ≡ processing
    → r.claim_token ≡ some t
    → (new : List (OutboxRow P)) × (mark_published id t now rows ≡ some new)
unfolding mark_published
holder_marks rows id t r now e status token =
    update_rows_found (λ y. same_text (row_id y) id)
      (λ y. same_text (row_id y) id && claimed_by t y) _ rows r e
      (rw (first_row-true (λ y. same_text (row_id y) id) rows e) (rw status (rw token (eq_refl t))))

-- If the ids of the rows are unique, an event that is published or failed stays as it is under
-- every sequence of inserts, fetches, marks and releases.
pub handled_stays :
    {P : Type 0} (id_before : String → String → Bool) (steps : List (LeaseStep P))
    (rows : List (OutboxRow P)) (id : String) (r : OutboxRow P)
    → Unique row_id rows
    → find_event id rows ≡ some r
    → is_handled r.status ≡ true
    → find_event id (perform_all id_before steps rows) ≡ some r
handled_stays id_before steps rows id r u e h =
    perform_all_keeps id_before steps rows id r u e (handled_refuses r steps h)

-- If the ids of the rows are unique, an event that is in processing under a token since a time
-- stays as it is under every sequence of inserts, of fetches whose clock less their lease is at
-- most that time, and of marks and releases with other tokens; the token's holder can then mark it
-- as published.
pub claim_holds :
    {P : Type 0} (id_before : String → String → Bool) (steps : List (LeaseStep P))
    (rows : List (OutboxRow P)) (id : String) (r : OutboxRow P) (t : String) (at now : ℕ)
    → Unique row_id rows
    → find_event id rows ≡ some r
    → r.status ≡ processing
    → r.claimed_at ≡ some at
    → r.claim_token ≡ some t
    → All (Foreign t at) steps
    → let later = perform_all id_before steps rows in
      (find_event id later ≡ some r)
      × ((new : List (OutboxRow P)) × (mark_published id t now later ≡ some new))
claim_holds id_before steps rows id r t at now u e status claimed token foreign =
    let kept =
      perform_all_keeps id_before steps rows id r u e
        (held_refuses r t at status claimed token steps foreign) in
    (kept, holder_marks _ id t r now kept status token)
