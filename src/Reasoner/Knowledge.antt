-- ===== src/Reasoner/Knowledge.antt =====
-- apps/reasoner-agent/src/radar_reasoner_agent/knowledge.py: the retrieved context of an incident.
-- The HTTP client and the reading of the reply are parameters.
use radar_system.Prelude.{ℕ, String, Option, none, some, List, [], ◌∷◌, ◌==◌, length, if◌then◌else◌}
use radar_system.Contracts.{Document, ContextBundle, RetrievalMetadata}
use radar_system.Reasoner.Llm.{PostResult, timed_out, httpx_timed_out, http_error, response}

pub data RetrievalOutcome : Type 0 where
  grounded empty unavailable : RetrievalOutcome

abbrev pub outcome_value : RetrievalOutcome → String
outcome_value grounded = "grounded"
outcome_value empty = "empty"
outcome_value unavailable = "unavailable"

pub record KnowledgeResult : Type 0 where
  pub outcome : RetrievalOutcome
  pub chunks : List Document
  pub detail : Option String
  pub elapsed_ms : Option ℕ

-- `KnowledgeClient._unavailable`
abbrev pub unavailable_because : String → ℕ → KnowledgeResult
unavailable_because detail elapsed = record {
  outcome = unavailable;
  chunks = [];
  detail = some detail;
  elapsed_ms = some elapsed;
}

abbrev pub fetched : ℕ → Option (List Document) → KnowledgeResult
fetched elapsed none = unavailable_because "bad_response_shape" elapsed
fetched elapsed (some []) = record {
  outcome = empty;
  chunks = [];
  detail = none;
  elapsed_ms = some elapsed;
}
fetched elapsed (some (c ∷ rest)) = record {
  outcome = grounded;
  chunks = c ∷ rest;
  detail = none;
  elapsed_ms = some elapsed;
}

module _ (shown : ℕ → String) (decode : String → Option (List Document)) (elapsed : ℕ) where
  -- `KnowledgeClient.fetch`; `shown` is the text of a refused status
  abbrev pub fetch : PostResult → KnowledgeResult
  fetch timed_out = unavailable_because "timeout" elapsed
  fetch httpx_timed_out = unavailable_because "TimeoutException" elapsed
  fetch (http_error name) = unavailable_because name elapsed
  fetch (response status_code body) =
      if status_code == 200
      then fetched elapsed (decode body)
      else unavailable_because (shown status_code) elapsed

-- the metadata and the bundle that the handler takes from a fetch
abbrev pub retrieval_of : KnowledgeResult → RetrievalMetadata
retrieval_of f = record {
  outcome = outcome_value f.outcome;
  chunk_count = length f.chunks;
  detail = f.detail;
  elapsed_ms = f.elapsed_ms;
}

abbrev pub with_context : RetrievalOutcome → List Document → ContextBundle → ContextBundle
with_context grounded chunks bundle = record bundle { retrieved_context = chunks }
with_context empty chunks bundle = bundle
with_context unavailable chunks bundle = bundle
