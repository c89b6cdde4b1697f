-- ===== src/Database/Tests.antt =====
-- Runs of the outbox and of the status transitions on concrete rows, and the laws at those inputs.
use radar_system.Prelude.{◌≡◌, refl, Bool, true, false, none, [], ◌∷◌, ◌⊎◌, eq_iff, ◌==◌, All}
use radar_system.Contracts.{UuidNumber, other}
use radar_system.Database.Tables.{Incident, OutboxEvent, processing, no_text, Db, empty_db}
use radar_system.Database.Tx.{ok, err, committed, invalid_state_transition}
use radar_system.Database.Lifecycle.{
  status_open, status_resolved, status_closed, valid_transitions, is_valid_transition,
  transition_audit_event_type,
}
use radar_system.Database.Outbox.{fresh_row, due, holds_id, claim_outbox_batch, mark_failed}
use radar_system.Database.Outbox.Claim.{claims_disjoint}
use radar_system.Database.Outbox.Failure.{failed_row, failed_db, mark_failed_outcome}
use radar_system.Database.Repository.{transition_status, stamped}
use radar_system.Database.Repository.Transition.{
  IsEdge, Moved, IsStamped, transition_outcome, transition-IsStamped,
}

abbrev old_row : OutboxEvent
old_row = fresh_row 1 11 "alert.normalized" "watcher-agent" (other []) 7 100

abbrev young_row : OutboxEvent
young_row = fresh_row 2 12 "alert.normalized" "watcher-agent" (other []) 8 200

abbrev two_rows : Db
two_rows = record empty_db { outbox_events = young_row ∷ old_row ∷ [] }

abbrev no_locks : UuidNumber → Bool
no_locks id = false

abbrev first_locked : UuidNumber → Bool
first_locked id = id == 1

-- the fifth attempt of a row
abbrev tired_row : OutboxEvent
tired_row = record old_row { status = processing; attempts = 4 }

mark_failed_outcome_example :
    mark_failed 300 tired_row no_text false two_rows
    ≡ ok (
      (failed_row 300 tired_row no_text false, true),
      failed_db 300 tired_row no_text false two_rows,
    )
mark_failed_outcome_example = mark_failed_outcome 300 tired_row no_text false two_rows

claims_disjoint_example :
    All
      (λ e. holds_id (due no_locks 300 1 two_rows) e.id ≡ false)
      (claim_outbox_batch no_locks 400 5 (claim_outbox_batch no_locks 300 1 two_rows).1).0
claims_disjoint_example = claims_disjoint no_locks no_locks 300 400 1 5 two_rows

abbrev incident : Incident
incident = record {
  id = 5;
  correlation_id = 7;
  fingerprint = "f";
  service_name = "payments";
  title = "payments down";
  severity = "high";
  status = status_open;
  alert_count = 1;
  opened_at = 100;
  resolved_at = none;
  closed_at = none;
  updated_at = 100;
}

abbrev one_incident : Db
one_incident = record empty_db { incidents = incident ∷ [] }

-- an incident cannot close before it is resolved
transition_outcome_example :
    (IsEdge "open" "closed"
      × ((db' : Db) × (transition_status 5 "closed" "bot" none none none 300 one_incident
            ≡ ok (stamped "closed" 300 incident, db'))
          × Moved incident "closed" "bot" 300 one_incident db'))
    ⊎ ((IsEdge "open" "closed" → ⊥)
        × (transition_status 5 "closed" "bot" none none none 300 one_incident
            ≡ err (invalid_state_transition "open" "closed" 5)))
transition_outcome_example =
    transition_outcome 5 "closed" "bot" none none none 300 one_incident incident refl

investigated : Db
unfolding transition_status
investigated = committed (transition_status 5 "investigating" "bot" none none none 300) one_incident

open-ne-resolved : status_open ≡ status_resolved → ⊥
open-ne-resolved e = cc ((eq_iff status_open status_resolved).1 e)

open-ne-closed : status_open ≡ status_closed → ⊥
open-ne-closed e = cc ((eq_iff status_open status_closed).1 e)

transition-IsStamped_example : All IsStamped investigated.incidents
unfolding transition_status investigated is_valid_transition valid_transitions
    transition_audit_event_type
transition-IsStamped_example =
    transition-IsStamped 5 "investigating" "bot" none none none 300 one_incident
      (stamped "investigating" 300 incident) investigated
      (
        record {
          resolved = λ e. absurd (open-ne-resolved e);
          closed = λ e. absurd (open-ne-closed e);
        },
        tt,
      )
      refl
