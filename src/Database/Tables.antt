-- ===== src/Database/Tables.antt =====
-- packages/database/src/radar_database/models.py: one record for each table, and the database as
-- the tables that the modelled services share.
use radar_system.Prelude.{ℕ, String, Bool, true, false, Option, List, []}
use radar_system.Contracts.{
  UuidNumber, Time, Document, Payload, RecommendedAction, StoredContextBundle,
}

pub record Incident : Type 0 where
  pub id : UuidNumber
  pub correlation_id : UuidNumber
  pub fingerprint : String
  pub service_name : String
  pub title : String
  pub severity : String
  pub status : String
  pub alert_count : ℕ
  pub opened_at : Time
  pub resolved_at : Option Time
  pub closed_at : Option Time
  pub updated_at : Time

pub record Alert : Type 0 where
  pub id : UuidNumber
  pub source : String
  pub source_alert_id : Option String
  pub fingerprint : String
  pub service_name : String
  pub alert_name : String
  pub severity : String
  pub status : String
  pub labels : List (String × String)
  pub annotations : List (String × String)
  pub fired_at : Time
  pub resolved_at : Option Time
  pub received_at : Time
  pub incident_id : Option UuidNumber
  pub correlation_id : UuidNumber

-- `steps` holds the order and the description of each step
pub record InvestigationPlan : Type 0 where
  pub id : UuidNumber
  pub incident_id : UuidNumber
  pub correlation_id : UuidNumber
  pub steps : List (ℕ × String)
  pub template_key : Option String
  pub status : String
  pub created_at : Time
  pub updated_at : Time

pub record Recommendation : Type 0 where
  pub id : UuidNumber
  pub incident_id : UuidNumber
  pub plan_id : UuidNumber
  pub correlation_id : UuidNumber
  pub llm_provider : String
  pub model_alias : String
  pub model_id : String
  pub root_cause : String
  pub confidence : String
  pub recommended_actions : List RecommendedAction
  pub context_bundle : StoredContextBundle
  pub raw_llm_response : Option String
  pub is_fallback : Bool
  pub prompt_tokens : Option ℕ
  pub completion_tokens : Option ℕ
  pub latency_ms : Option ℕ
  pub slack_message_ts : Option String
  pub created_at : Time

pub record Feedback : Type 0 where
  pub id : UuidNumber
  pub recommendation_id : UuidNumber
  pub incident_id : UuidNumber
  pub correlation_id : UuidNumber
  pub sentiment : String
  pub correction_text : Option String
  pub slack_user_id : Option String
  pub slack_message_ts : Option String
  pub llm_provider : String
  pub model_alias : String
  pub created_at : Time

-- STATUS_PENDING, STATUS_PROCESSING, STATUS_DEAD_LETTER of outbox.py: the only values written
pub data OutboxStatus : Type 0 where
  pending processing dead_letter : OutboxStatus

-- What `last_error` is composed of; one constructor for each message of the worker.
pub data ErrorText : Type 0 where
  no_text : ErrorText
  no_token_for : String → ErrorText
  exceeded : String → Time → ErrorText
  connection_error_to : String → String → ErrorText
  http_status : ℕ → String → ErrorText
  reaped : ErrorText

pub record OutboxEvent : Type 0 where
  pub id : UuidNumber
  pub event_id : UuidNumber
  pub event_type : String
  pub target_service : String
  pub payload : Payload
  pub correlation_id : UuidNumber
  pub status : OutboxStatus
  pub attempts : ℕ
  pub last_error : Option ErrorText
  pub process_after : Time
  pub created_at : Time
  pub updated_at : Time

pub record ProcessedEvent : Type 0 where
  pub event_id : UuidNumber
  pub processed_by : String

-- An audit row's payload: a document, or what an outbox row held when it was written.
pub data AuditPayload : Type 0 where
  document : Document → AuditPayload
  dead_lettered : UuidNumber → String → String → ℕ → ErrorText → String → AuditPayload
  requeued : UuidNumber → ℕ → Option ErrorText → AuditPayload

pub record AuditLog : Type 0 where
  pub event_type : String
  pub entity_type : String
  pub entity_id : UuidNumber
  pub correlation_id : UuidNumber
  pub actor : String
  pub payload : AuditPayload

pub record Db : Type 0 where
  pub incidents : List Incident
  pub alerts : List Alert
  pub outbox_events : List OutboxEvent
  pub processed_events : List ProcessedEvent
  pub audit_log : List AuditLog
  pub investigation_plans : List InvestigationPlan
  pub recommendations : List Recommendation
  pub feedback : List Feedback

abbrev pub empty_db : Db
empty_db = record {
  incidents = [];
  alerts = [];
  outbox_events = [];
  processed_events = [];
  audit_log = [];
  investigation_plans = [];
  recommendations = [];
  feedback = [];
}

abbrev pub is_pending : OutboxStatus → Bool
is_pending pending = true
is_pending _ = false

abbrev pub is_processing : OutboxStatus → Bool
is_processing processing = true
is_processing _ = false

abbrev pub is_dead_letter : OutboxStatus → Bool
is_dead_letter dead_letter = true
is_dead_letter _ = false
