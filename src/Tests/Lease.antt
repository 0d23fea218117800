-- ===== src/Tests/Lease.antt =====
-- Two publishers at a small outbox.
use Prim.Native.String.{String}
use tradedrift.Base.{◌≡◌, refl, some, none, false, List, [], ◌∷◌, arith}
use tradedrift.Wallet.Tables.{OutboxEvent}
use tradedrift.Wallet.Lease.{
  processing, processed, OutboxRow, fetch_pending, chosen_ids, claimable, ordered, insert_by,
  mark_published,
}
use tradedrift.Funds.Lease.{
  LeaseStep, inserting, fetching, publishing, failing, releasing, find_event, perform_all,
}
use tradedrift.Funds.Fencing.{handled_stays, claim_holds}

abbrev event : String → OutboxEvent Unit
event id = record {
  id = id;
  aggregate_id = "wallet";
  event_type = "FundsReserved";
  payload = tt;
  partition_key = "user";
}

abbrev held : OutboxRow Unit
held = record {
  event = event "e1";
  created_at = 5;
  status = processing;
  claimed_at = some 100;
  claim_token = some "t1";
  published_at = none;
  failed_reason = none;
}

abbrev sent : OutboxRow Unit
sent = record {
  event = event "e2";
  created_at = 4;
  status = processed;
  claimed_at = none;
  claim_token = none;
  published_at = some 90;
  failed_reason = none;
}

abbrev outbox : List (OutboxRow Unit)
outbox = held ∷ sent ∷ []

abbrev steps : List (LeaseStep Unit)
steps =
    inserting (event "e3") 110
    ∷ fetching (λ _. false) 10 60 120 120 "t2"
    ∷ publishing "e1" "t2" 130
    ∷ releasing ("e1" ∷ "e2" ∷ []) "t2"
    ∷ failing "e3" "no broker" "t2"
    ∷ []

-- A fetch after the end of the lease claims the event again.
fetched_again :
    fetch_pending (λ _ _. false) (λ _. false) 10 60 161 161 "t2" outbox
    ≡ record held { claimed_at = some 161; claim_token = some "t2" } ∷ sent ∷ []
unfolding fetch_pending chosen_ids claimable ordered insert_by
fetched_again = refl

handled_stays_example : find_event "e2" (perform_all (λ _ _. false) steps outbox) ≡ some sent
handled_stays_example =
    handled_stays (λ _ _. false) steps outbox "e2" sent ((refl, tt), (tt, tt)) refl refl

claim_holds_example :
    let later = perform_all (λ _ _. false) steps outbox in
    (find_event "e1" later ≡ some held)
    × ((new : List (OutboxRow Unit)) × (mark_published "e1" "t1" 140 later ≡ some new))
claim_holds_example =
    claim_holds (λ _ _. false) steps outbox "e1" held "t1" 100 140 ((refl, tt), (tt, tt)) refl refl
      refl refl (tt, (omega arith, (refl, (refl, (refl, tt)))))
