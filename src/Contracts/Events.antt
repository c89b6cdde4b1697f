-- ===== src/Contracts/Events.antt =====
-- packages/contracts/src/radar_contracts/alerts.py and events.py: the alert and the two event
-- bodies of the pipeline's first hops. An id is a number, and so is a moment (microseconds).
-- The JSON round trip of an event body is not modelled: a payload is the body itself.
use radar_system.Prelude.{ℕ, ◌*◌, String, Bool, Option, List}
use radar_system.Contracts.Alerts.{Severity}

abbrev pub UuidNumber : Type 0
UuidNumber = ℕ

abbrev pub Time : Type 0
Time = ℕ

abbrev pub seconds : ℕ → Time
seconds n = n * 1_000_000

abbrev pub minutes : ℕ → Time
minutes n = seconds (n * 60)

-- A value in a document that the program writes (an audit payload).
pub data Value : Type 0 where
  null : Value
  text : String → Value
  number : ℕ → Value
  flag : Bool → Value
  uuid : UuidNumber → Value

abbrev pub Document : Type 0
Document = List (String × Value)

-- `NormalizedAlert`, without `raw_payload`, which nothing in the pipeline reads
pub record NormalizedAlert : Type 0 where
  pub id : UuidNumber
  pub source : String
  pub source_alert_id : Option String
  pub fingerprint : String
  pub service_name : String
  pub alert_name : String
  pub severity : Severity
  pub status : String
  pub labels : List (String × String)
  pub annotations : List (String × String)
  pub fired_at : Time
  pub resolved_at : Option Time
  pub received_at : Time
  pub correlation_id : UuidNumber

-- `AlertNormalizedPayload`: the alert, and what ingestion decided about it
pub record AlertNormalizedPayload : Type 0 where
  pub alert : NormalizedAlert
  pub open alert use *
  pub incident_id : UuidNumber
  pub deduplicated : Bool

pub record PlanRequestedPayload : Type 0 where
  pub incident_id : UuidNumber
  pub service_name : String
  pub alert_name : String

pub record ReasoningRequestedPayload : Type 0 where
  pub incident_id : UuidNumber
  pub plan_id : UuidNumber

pub record RecommendationCreatedPayload : Type 0 where
  pub incident_id : UuidNumber
  pub recommendation_id : UuidNumber

-- The body of an event; `other` is any body of another shape.
pub data Payload : Type 0 where
  alert_normalized : AlertNormalizedPayload → Payload
  plan_requested : PlanRequestedPayload → Payload
  reasoning_requested : ReasoningRequestedPayload → Payload
  recommendation_created : RecommendationCreatedPayload → Payload
  other : Document → Payload

-- `EventEnvelope`: the four fields that go over the wire
pub record EventEnvelope : Type 0 where
  pub event_id : UuidNumber
  pub event_type : String
  pub correlation_id : UuidNumber
  pub payload : Payload
