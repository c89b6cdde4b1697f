-- ===== src/Reasoner/Routes.antt =====
-- apps/reasoner-agent/src/radar_reasoner_agent/routes.py: `POST /events`, with its two transactions
-- around the remote calls, and the absorbed race. The first transaction reads `seen`, the second
-- one reads `later`; the writes, and the recovery transaction, meet the tables `db` as they are by
-- the commit.
use radar_system.Prelude.{ℕ, String, Option, none, some, List, if◌then◌else◌, str_eq}
use radar_system.Contracts.{
  Time, Document, EventEnvelope, Payload, alert_normalized, plan_requested, reasoning_requested,
  recommendation_created, other, ReasoningRequestedPayload, ContextBundle, RetrievalMetadata,
}
use radar_system.Database.Tables.{Db}
use radar_system.Database.Tx.{
  Tx, Result, ok, err, Error, incident_not_found, plan_not_found, integrity_error, value_error,
  runtime_error, ◌>>=◌, ◌>>◌, pure, add_audit,
}
use radar_system.Database.Repository.{is_already_processed, mark_processed}
use radar_system.Reasoner.Rca.{RcaLib}
use radar_system.Reasoner.Llm.{PostResult, LlmSuccess, complete}
use radar_system.Reasoner.Knowledge.{KnowledgeResult, fetch, retrieval_of, with_context}
use radar_system.Reasoner.Fallback.{ReasoningOutcome, resolve}
use radar_system.Reasoner.Context.{Context, available, not_available, invalid, build_context_bundle}
use radar_system.Reasoner.Storage.{Fresh, StorageOutcome, store_recommendation, race_audit}

abbrev pub service_name : String
service_name = "reasoner-agent"

-- What the handler is given: the libraries of the parser, the gateway and the knowledge client.
pub record KnowledgeApi : Type 0 where
  pub post : ContextBundle → PostResult
  pub shown : ℕ → String
  pub decode : String → Option (List Document)
  pub elapsed : ℕ

pub record Services (J : Type 0) : Type 0 where
  pub lower : String → String
  pub rca : RcaLib J
  pub post : ContextBundle → PostResult
  pub decode : String → Option LlmSuccess
  pub budget : Time
  pub elapsed : ℕ
  pub knowledge : Option KnowledgeApi

-- The HTTP answer: 200 with a status text, 422, 503, or the 500 of an uncaught exception.
pub data Answer : Type 0 where
  processed already_recommended already_processed ignored : Answer
  unprocessable not_ready : Answer
  server_error : Error → Answer

-- `_parse_payload`
abbrev pub parse_payload : Payload → Option ReasoningRequestedPayload
parse_payload (reasoning_requested p) = some p
parse_payload (alert_normalized p) = none
parse_payload (plan_requested p) = none
parse_payload (recommendation_created p) = none
parse_payload (other p) = none

abbrev pub recover : EventEnvelope → ReasoningRequestedPayload → Tx Unit
recover envelope payload = do
  add_audit (race_audit payload.incident_id envelope.correlation_id)
  mark_processed envelope.event_id service_name

abbrev pub recovered : Db → Result {0} (Unit × Db) → Answer × Db
recovered db (ok (u, db')) = (already_recommended, db')
recovered db (err e) = (server_error e, db)

-- `_absorb_race`
unfoldable pub absorb_race : EventEnvelope → ReasoningRequestedPayload → Db → Answer × Db
absorb_race envelope payload db =
    if is_already_processed envelope.event_id service_name db
    then (already_processed, db)
    else recovered db (recover envelope payload db)

abbrev pub store_and_mark :
    Fresh → EventEnvelope → ReasoningRequestedPayload → ReasoningOutcome → Db → Tx StorageOutcome
store_and_mark fresh envelope payload outcome later = do
  stored ←
      store_recommendation fresh envelope.correlation_id payload.incident_id payload.plan_id outcome
        later
  mark_processed envelope.event_id service_name
  pure stored

-- the latency is only observed on a new recommendation, and needs both moments
abbrev pub observed : Option Time → Option Time → Answer
observed none created = server_error runtime_error
observed (some opened) none = server_error runtime_error
observed (some opened) (some created) = processed

abbrev pub stored_answer : StorageOutcome → Answer
stored_answer o =
    if o.duplicate
    then already_recommended
    else observed o.incident_opened_at o.recommendation_created_at

-- what the write transaction comes to
abbrev pub stored :
    EventEnvelope → ReasoningRequestedPayload → Db → Result (StorageOutcome × Db) → Answer × Db
stored envelope payload db (ok (o, db')) = (stored_answer o, db')
stored envelope payload db (err (incident_not_found id)) = (unprocessable, db)
stored envelope payload db (err (plan_not_found id)) = (unprocessable, db)
stored envelope payload db (err integrity_error) = absorb_race envelope payload db
stored envelope payload db (err e) = (server_error e, db)

abbrev pub store_outcome :
    Fresh
    → EventEnvelope
    → ReasoningRequestedPayload
    → Option ReasoningOutcome
    → Db
    → Db
    → Answer × Db
store_outcome fresh envelope payload none later db = (server_error value_error, db)
store_outcome fresh envelope payload (some outcome) later db =
    stored envelope payload db (store_and_mark fresh envelope payload outcome later db)

abbrev pub fetch_from : KnowledgeApi → ContextBundle → KnowledgeResult
fetch_from api bundle = fetch api.shown api.decode api.elapsed (api.post bundle)

-- the remote calls, and what they come to
abbrev pub reason_grounded :
    {J : Type 0} → Services J → ContextBundle → Option RetrievalMetadata → Option ReasoningOutcome
reason_grounded services bundle retrieval =
    resolve services.rca bundle retrieval
      (complete services.post services.decode services.budget services.elapsed bundle)

abbrev pub reason_with :
    {J : Type 0} → Services J → ContextBundle → Option KnowledgeApi → Option ReasoningOutcome
reason_with services bundle none = reason_grounded services bundle none
reason_with services bundle (some api) =
    let f = fetch_from api bundle in
    reason_grounded services (with_context f.outcome f.chunks bundle) (some (retrieval_of f))

abbrev pub reason_over :
    {J : Type 0}
    → Services J
    → Fresh
    → EventEnvelope
    → ReasoningRequestedPayload
    → Context
    → Db
    → Db
    → Answer × Db
reason_over services fresh envelope payload not_available later db = (unprocessable, db)
reason_over services fresh envelope payload invalid later db = (server_error value_error, db)
reason_over services fresh envelope payload (available bundle) later db =
    store_outcome fresh envelope payload (reason_with services bundle services.knowledge) later db

abbrev pub handle_parsed :
    {J : Type 0}
    → Services J
    → Fresh
    → EventEnvelope
    → Option ReasoningRequestedPayload
    → Db
    → Db
    → Db
    → Answer × Db
handle_parsed services fresh envelope none seen later db = (unprocessable, db)
handle_parsed services fresh envelope (some payload) seen later db =
    reason_over services fresh envelope payload
      (build_context_bundle services.lower payload.incident_id payload.plan_id seen) later db

abbrev pub marked_ignored : Db → Result {0} (Unit × Db) → Answer × Db
marked_ignored db (ok (u, db')) = (ignored, db')
marked_ignored db (err e) = (server_error e, db)

-- `receive_event`; `none` are a database and a gateway that are not there yet
unfoldable pub receive_event :
    {J : Type 0} → Option (Services J) → Fresh → EventEnvelope → Db → Db → Db → Answer × Db
receive_event none fresh envelope seen later db = (not_ready, db)
receive_event (some services) fresh envelope seen later db =
    if is_already_processed envelope.event_id service_name seen
    then (already_processed, db)
    else if str_eq envelope.event_type "incident.reasoning_requested"
    then handle_parsed services fresh envelope (parse_payload envelope.payload) seen later db
    else marked_ignored db (mark_processed envelope.event_id service_name db)
