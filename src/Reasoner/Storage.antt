-- ===== src/Reasoner/Storage.antt =====
-- apps/reasoner-agent/src/radar_reasoner_agent/storage.py: the write of one recommendation. `seen`
-- are the tables as the reads of the transaction saw them; the insert, with its foreign keys and
-- its unique index, meets them as they are by the commit.
use radar_system.Prelude.{
  ℕ, String, Bool, true, false, not, ◌||◌, Option, none, some, [], ◌∷◌, ◌++◌, ◌==◌, any, find_row,
  length, if◌then◌else◌,
}
use radar_system.Contracts.{
  UuidNumber, Time, Value, null, text, number, flag, uuid, Document, confidence_value, reason_value,
  FallbackMetadata, recommendation_created,
}
use radar_system.Database.Tables.{
  Incident, InvestigationPlan, Recommendation, AuditLog, document, Db,
}
use radar_system.Database.Tx.{
  Tx, ◌>>=◌, ◌>>◌, pure, raise, modify, add_audit, integrity_error, incident_not_found,
  plan_not_found,
}
use radar_system.Database.Outbox.{write_outbox_event}
use radar_system.Database.Repository.{incident_by_id}
use radar_system.Reasoner.Context.{plan_by_id}
use radar_system.Reasoner.Fallback.{ReasoningOutcome}

-- `new_id()`, the generated ids of the event, and NOW()
pub record Fresh : Type 0 where
  pub recommendation_id : UuidNumber
  pub outbox_id : UuidNumber
  pub event_id : UuidNumber
  pub now : Time

pub record StorageOutcome : Type 0 where
  pub recommendation_id : UuidNumber
  pub duplicate : Bool
  pub incident_opened_at : Option Time
  pub recommendation_created_at : Option Time

-- `_existing_recommendation_id`
unfoldable pub existing_recommendation : UuidNumber → Db → Option Recommendation
existing_recommendation incident_id db =
    find_row (λ r. r.incident_id == incident_id) db.recommendations

abbrev audit : String → UuidNumber → UuidNumber → Document → AuditLog
audit event_type incident_id correlation_id payload = record {
  event_type = event_type;
  entity_type = "incident";
  entity_id = incident_id;
  correlation_id = correlation_id;
  actor = "reasoner-agent";
  payload = document payload;
}

-- `_duplicate_audit`
abbrev pub existing_audit : UuidNumber → UuidNumber → UuidNumber → AuditLog
existing_audit incident_id correlation_id existing_id =
    audit "reasoner.duplicate_recommendation_ignored" incident_id correlation_id (
      ("existing_recommendation_id", uuid existing_id)
      ∷ ("reason", text "the pre-check found an existing recommendation")
      ∷ [])

-- `race_audit`
abbrev pub race_audit : UuidNumber → UuidNumber → AuditLog
race_audit incident_id correlation_id =
    audit "reasoner.duplicate_recommendation_ignored" incident_id correlation_id
      (("reason", text "lost the race to the one-recommendation-per-incident index") ∷ [])

abbrev reason_of : Option FallbackMetadata → Value
reason_of none = null
reason_of (some f) = text (reason_value f.reason)

abbrev tokens_of : Option ℕ → Value
tokens_of none = null
tokens_of (some n) = number n

-- `_audit`
abbrev pub created_audit : Fresh → UuidNumber → UuidNumber → ReasoningOutcome → AuditLog
created_audit fresh incident_id correlation_id outcome =
    audit "reasoner.recommendation_created" incident_id correlation_id (
      ("recommendation_id", uuid fresh.recommendation_id)
      ∷ ("is_fallback", flag outcome.is_fallback)
      ∷ ("confidence", text (confidence_value outcome.confidence))
      ∷ ("llm_provider", text outcome.llm_provider)
      ∷ ("model_id", text outcome.model_id)
      ∷ ("action_count", number (length outcome.recommended_actions))
      ∷ ("fallback_reason", reason_of outcome.context_bundle.fallback)
      ∷ ("prompt_tokens", tokens_of outcome.prompt_tokens)
      ∷ [])

abbrev pub new_recommendation :
    Fresh → UuidNumber → UuidNumber → UuidNumber → ReasoningOutcome → Recommendation
new_recommendation fresh correlation_id incident_id plan_id outcome = record {
  id = fresh.recommendation_id;
  incident_id = incident_id;
  plan_id = plan_id;
  correlation_id = correlation_id;
  llm_provider = outcome.llm_provider;
  model_alias = outcome.model_alias;
  model_id = outcome.model_id;
  root_cause = outcome.root_cause;
  confidence = confidence_value outcome.confidence;
  recommended_actions = outcome.recommended_actions;
  context_bundle = outcome.context_bundle;
  raw_llm_response = outcome.raw_llm_response;
  is_fallback = outcome.is_fallback;
  prompt_tokens = outcome.prompt_tokens;
  completion_tokens = outcome.completion_tokens;
  latency_ms = outcome.latency_ms;
  slack_message_ts = none;
  created_at = fresh.now;
}

abbrev pub is_taken : Recommendation → Recommendation → Bool
is_taken new r = r.incident_id == new.incident_id || r.id == new.id

abbrev pub is_dangling : Recommendation → Db → Bool
is_dangling r db =
    not (any (λ (i : Incident). i.id == r.incident_id) db.incidents)
    || not (any (λ (p : InvestigationPlan). p.id == r.plan_id) db.investigation_plans)

-- the insert, under the primary key, the unique index on `incident_id` and the two foreign keys
unfoldable pub add_recommendation : Recommendation → Tx Unit
add_recommendation new db =
    if any (is_taken new) db.recommendations || is_dangling new db
    then raise integrity_error db
    else modify (λ t. record t { recommendations = t.recommendations ++ new ∷ [] }) db

-- what follows the insert
abbrev pub announce :
    Fresh → UuidNumber → Incident → ReasoningOutcome → UuidNumber → Tx StorageOutcome
announce fresh correlation_id incident outcome incident_id = do
  write_outbox_event fresh.outbox_id fresh.event_id "recommendation.created" "feedback-service"
      (recommendation_created
        (record { incident_id = incident_id; recommendation_id = fresh.recommendation_id }))
      correlation_id fresh.now
  add_audit (created_audit fresh incident_id correlation_id outcome)
  pure (record {
    recommendation_id = fresh.recommendation_id;
    duplicate = false;
    incident_opened_at = some incident.opened_at;
    recommendation_created_at = some fresh.now;
  })

abbrev pub store_after :
    Fresh
    → UuidNumber
    → UuidNumber
    → UuidNumber
    → ReasoningOutcome
    → Incident
    → Option Recommendation
    → Tx StorageOutcome
store_after fresh correlation_id incident_id plan_id outcome incident (some existing) = do
  add_audit (existing_audit incident_id correlation_id existing.id)
  pure (record {
    recommendation_id = existing.id;
    duplicate = true;
    incident_opened_at = none;
    recommendation_created_at = none;
  })
store_after fresh correlation_id incident_id plan_id outcome incident none = do
  add_recommendation (new_recommendation fresh correlation_id incident_id plan_id outcome)
  announce fresh correlation_id incident outcome incident_id

abbrev pub or_gone : {A : Type 0} → UuidNumber → Option A → Tx A
or_gone id none = raise (incident_not_found id)
or_gone id (some i) = pure i

abbrev pub or_plan_gone : UuidNumber → Option InvestigationPlan → Tx InvestigationPlan
or_plan_gone id none = raise (plan_not_found id)
or_plan_gone id (some p) = pure p

-- `store_recommendation`
unfoldable pub store_recommendation :
    Fresh → UuidNumber → UuidNumber → UuidNumber → ReasoningOutcome → Db → Tx StorageOutcome
store_recommendation fresh correlation_id incident_id plan_id outcome seen = do
  incident ← or_gone incident_id (incident_by_id incident_id seen)
  or_plan_gone plan_id (plan_by_id plan_id seen)
  store_after fresh correlation_id incident_id plan_id outcome incident
      (existing_recommendation incident_id seen)
