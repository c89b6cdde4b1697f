-- ===== src/Ingestion/Resolving.antt =====
-- What an ending signal does: it flips the firing alerts of one live incident, resolves that
-- incident, and publishes nothing; redelivered, it changes no incident and no alert.
use radar_system.Prelude.{
  ℕ, ◌≤◌, ◌≡◌, refl, sym, ◌∙◌, Bool, true, false, ◌&&◌, none, some, List, [], ◌∷◌, ◌++◌, arith,
  ◌==◌, str_eq, Bool-cases, inl, inr, ◌⊎◌, any, update, count_where, count_where-update,
  count_where-update-le, count_where-update_self, All-both, All-update, update-HasUniqueKeys,
}
use mathlib.Core.Option.{some-injective}
use radar_system.Contracts.{UuidNumber, Time, NormalizedAlert}
use radar_system.Database.Tables.{Incident, Alert, AuditLog, Db}
use radar_system.Database.Tx.{ok, ◌>>=◌}
use radar_system.Database.Lifecycle.{
  status_open, status_investigating, status_resolved, transition_audit_event_type,
}
use radar_system.Database.Repository.{stamped, is_active}
use radar_system.Database.Repository.Transition.{IsEdge, clear_early, clear, transition_along}
use radar_system.Ingestion.Resolver.{
  ingestion_actor, resolved_by_alert, is_on, is_firing_on, flipped, mark_incident_alerts_resolved,
  resolve_incident_if_quiet,
}
use radar_system.Ingestion.Publisher.{Fresh, PublishResult, webhook_time, resolve_found}
use radar_system.Ingestion.Consistent.{
  IsCounted, Consistent, IsConsistent, IsFound, incident_key, has_id, All-found, found_eq,
}

abbrev pub IsLive : Incident → Type 0
IsLive i = (i.status ≡ status_open) ⊎ (i.status ≡ status_investigating)

live-IsEdge : (i : Incident) → IsLive i → IsEdge i.status status_resolved
live-IsEdge i (inl e) = clear_early e refl
live-IsEdge i (inr e) = clear e refl

flip_on : (k : UuidNumber) (t : Time) (a : Alert) → is_on k (flipped t a) ≡ is_on k a
flip_on k t a = refl

not_firing : (b : Bool) → (b && str_eq "resolved" "firing") ≡ false
not_firing true = refl
not_firing false = refl

flip_firing : (k : UuidNumber) (t : Time) (a : Alert) → is_firing_on k (flipped t a) ≡ false
flip_firing k t a = not_firing (is_on k a)

any_id-stamped :
    (k id : UuidNumber) (t : Time) (rows : List Incident)
    → any (has_id k) (update (has_id id) (stamped status_resolved t) rows) ≡ any (has_id k) rows
any_id-stamped k id t [] = refl
any_id-stamped k id t (r ∷ rows) = elim (Bool-cases (r.id == id)) [
  | inl e ↦ rw (e, any_id-stamped k id t rows)
  | inr e ↦ rw (e, any_id-stamped k id t rows)
]

abbrev pub resolved_result : UuidNumber → ℕ → PublishResult
resolved_result id count = record {
  incident_id = some id;
  deduplicated = false;
  ignored = false;
  alerts_resolved = some count;
  incident_resolved = true;
}

module _ (fresh : Fresh) (alert : NormalizedAlert) (i : Incident) (db : Db) (found : IsFound db i)
    (live : IsLive i) where
  abbrev pub flipped_alerts : List Alert
  flipped_alerts = update (is_firing_on i.id) (flipped (webhook_time alert)) db.alerts

  abbrev pub resolved_incidents : List Incident
  resolved_incidents =
      update (has_id i.id) (stamped status_resolved (webhook_time alert)) db.incidents

  no_firing_left : count_where (is_firing_on i.id) flipped_alerts ≡ 0
  no_firing_left =
      count_where-update_self (is_firing_on i.id) (flipped (webhook_time alert)) db.alerts
        (λ a _. flip_firing i.id (webhook_time alert) a)

  -- For a live incident of the table, an ending signal never raises: it flips the incident's
  -- firing alerts, resolves the incident at the webhook's time with one audit record, and
  -- writes no event.
  pub resolve_outcome :
      (db' : Db) × (resolve_found fresh alert (some i) db
        ≡ ok (resolved_result i.id (count_where (is_firing_on i.id) db.alerts), db'))
      × (db'.incidents ≡ resolved_incidents)
      × (db'.alerts ≡ flipped_alerts)
      × (db'.outbox_events ≡ db.outbox_events)
      × ((receipt : AuditLog) × (db'.audit_log ≡ db.audit_log ++ receipt ∷ [])
          × (receipt.event_type ≡ "incident.resolved")
          × (receipt.entity_id ≡ i.id))
  unfolding resolve_found mark_incident_alerts_resolved resolve_incident_if_quiet
  resolve_outcome =
      let at_time = webhook_time alert in
      let flipped_db : Db = record db { alerts = flipped_alerts } in
      let (db', moves, moved) =
        transition_along i.id status_resolved ingestion_actor none (some resolved_by_alert)
          (some at_time) fresh.utcnow flipped_db i found (live-IsEdge i live) in
      (
        db',
        rw (no_firing_left, moves, ◌>>=◌),
        moved.incidents,
        moved.alerts,
        moved.outbox,
        (
          moved.receipt,
          moved.audited,
          some-injective moved.receipt.event_type "incident.resolved"
              (sym moved.kind ∙ unfold transition_audit_event_type in refl),
          moved.names,
        ),
      )

  on_kept :
      (k : UuidNumber) → count_where (is_on k) flipped_alerts ≡ count_where (is_on k) db.alerts
  on_kept k =
      count_where-update (is_on k) (is_firing_on i.id) (flipped (webhook_time alert)) db.alerts
        (λ a _. flip_on k (webhook_time alert) a)

  firing_le :
      (k : UuidNumber)
      → count_where (is_firing_on k) flipped_alerts ≤ count_where (is_firing_on k) db.alerts
  firing_le k =
      count_where-update-le (is_firing_on k) (is_firing_on i.id) (flipped (webhook_time alert))
        db.alerts (λ a _. flip_firing k (webhook_time alert) a)

  ids_kept : (k : UuidNumber) → any (has_id k) resolved_incidents ≡ any (has_id k) db.incidents
  ids_kept k = any_id-stamped k i.id (webhook_time alert) db.incidents

  -- ... and the tables stay consistent.
  pub resolved-Consistent : IsConsistent db → Consistent resolved_incidents flipped_alerts
  unfolding is_active
  resolved-Consistent c = record {
    rows =
        All-update (λ r. IsCounted db.alerts r × IsFound db r) (IsCounted flipped_alerts)
          (has_id i.id) (stamped status_resolved (webhook_time alert)) db.incidents
          (λ r k t.
            let same : r ≡ i = found_eq db r i k.1 found t in
            record {
              quiet = λ _. rw same no_firing_left;
              counted = k.0.counted ∙ sym (on_kept r.id);
            })
          (λ r k t. record {
            quiet = λ over. omega (arith, k.0.quiet over, firing_le r.id);
            counted = k.0.counted ∙ sym (on_kept r.id);
          })
          (All-both (IsCounted db.alerts) (IsFound db) db.incidents c.rows (All-found db c));
    keys =
        update-HasUniqueKeys incident_key (has_id i.id)
          (stamped status_resolved (webhook_time alert)) db.incidents (λ _ _. refl) c.keys;
    refs =
        All-update (λ x. (k : UuidNumber) → is_on k x ≡ true → any (has_id k) db.incidents ≡ true)
          (λ x. (k : UuidNumber) → is_on k x ≡ true → any (has_id k) resolved_incidents ≡ true)
          (is_firing_on i.id) (flipped (webhook_time alert)) db.alerts
          (λ a h _ k on. ids_kept k ∙ h k on) (λ a h _ k on. ids_kept k ∙ h k on) c.refs;
  }
