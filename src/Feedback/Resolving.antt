-- ===== src/Feedback/Resolving.antt =====
-- A click on "Resolve", from the button to the tables.
use radar_system.Prelude.{
  String, ◌≡◌, refl, sym, subst, ap, ◌∙◌, none, some, [], ◌∷◌, ◌++◌, ◌⊎◌, inl, inr,
}
use radar_system.Contracts.{UuidNumber, Time}
use radar_system.Database.Tables.{Incident, Recommendation, Db}
use radar_system.Database.Tx.{Result, ok, err, invalid_state_transition, ◌>>=◌}
use radar_system.Database.Lifecycle.{status_resolved}
use radar_system.Database.Repository.{incident_by_id, transition_status}
use radar_system.Database.Repository.Transition.{IsEdge, Moved, transition_outcome}
use radar_system.Feedback.Callbacks.{
  resolve, action_of_value, ParsedCallback, NotificationInteraction, parse_callback,
}
use radar_system.Feedback.Cards.{TextLib, button}
use radar_system.Feedback.Delivery.{recommendation_by_id}
use radar_system.Feedback.Buttons.{click}
use radar_system.Feedback.Interactions.{
  resolved, already_resolved, invalid_transition_audit, resolve_payload, after_transition,
  resolve_incident, Reflected, reflected, handle_callback, handle, Clicked,
}

module _ (texts : TextLib) (id : UuidNumber) (now : Time) (user channel ts : String)
    (r : Recommendation) (i : Incident) (db : Db) where
  -- the click of the card's button
  abbrev pub clicked : NotificationInteraction
  clicked =
      click user channel ts
        (button texts "✅ Resolve" resolve (texts.uuid_text r.id) (some "primary"))

  abbrev pub resolve_click : ParsedCallback
  resolve_click = record {
    action = resolve;
    recommendation_id = r.id;
    user_id = user;
    channel_id = channel;
    message_ts = ts;
  }

  -- The incident is resolved, by the user, with one audit record.
  abbrev pub IsResolved : Clicked → Type 0
  IsResolved c = (c.outcome ≡ some resolved) × Moved i status_resolved user now db c.tables

  -- The tables with one record of the refused attempt.
  abbrev pub attempt_recorded : Db
  attempt_recorded = record db {
    audit_log =
        db.audit_log ++ invalid_transition_audit resolve_click r i.status status_resolved i.id ∷ [];
  }

  -- Nothing changes but that record.
  abbrev pub IsRefused : Clicked → Type 0
  IsRefused c = (c.outcome ≡ some already_resolved) × (c.tables ≡ attempt_recorded)

  refused :
      incident_by_id r.incident_id db ≡ some i
      → after_transition resolve_click r db
          (err (invalid_state_transition i.status status_resolved i.id))
        ≡ ok ((already_resolved, r, i), attempt_recorded)
  refused known = rw (known, ◌>>=◌) refl

  read_back :
      texts.uuid_of (texts.uuid_text r.id) ≡ some r.id
      → (x : Result (Reflected × Db)) → resolve_incident now resolve_click db ≡ x
      → handle texts id now clicked db ≡ reflected texts id now resolve_click db x
  unfolding handle parse_callback action_of_value handle_callback
  read_back readable x e = rw readable (ap (reflected texts id now resolve_click db) e)

  loaded :
      recommendation_by_id r.id db ≡ some r
      → (x : Result (Incident × Db))
      → transition_status r.incident_id status_resolved user
          (some r.correlation_id)
          (some (resolve_payload resolve_click r))
          none
          now
          db
        ≡ x
      → resolve_incident now resolve_click db ≡ after_transition resolve_click r db x
  unfolding resolve_incident
  loaded found x e = rw (found, ◌>>=◌) (ap (after_transition resolve_click r db) e)

  -- A click on the resolve button of a delivered card whose recommendation and incident are there,
  -- where the id on the button reads back: it resolves an open or investigated incident; any other
  -- incident stays as it is, and the attempt is recorded.
  pub click_resolves :
      texts.uuid_of (texts.uuid_text r.id) ≡ some r.id
      → recommendation_by_id r.id db ≡ some r
      → incident_by_id r.incident_id db ≡ some i
      → (IsEdge i.status status_resolved × IsResolved (handle texts id now clicked db))
        ⊎ ((IsEdge i.status status_resolved → ⊥) × IsRefused (handle texts id now clicked db))
  click_resolves readable found known =
      elim (transition_outcome r.incident_id status_resolved user (some r.correlation_id)
        (some (resolve_payload resolve_click r)) none now db i known) [
          | inl (edge, (db', e, moved)) ↦
              inl (
                edge,
                subst IsResolved (sym (read_back readable _ (loaded found _ e))) (refl, moved),
              )
          | inr (no_edge, e) ↦ inr (
            no_edge,
            subst IsRefused (sym (read_back readable _ (loaded found _ e ∙ refused known)))
                (refl, refl),
          )
        ]
