-- ===== src/Lib.antt =====
-- The alert pipeline of the radar system: a webhook's alert becomes an incident (ingestion), the
-- incident asks for an investigation (watcher), gets a plan (planner) and a recommendation
-- (reasoner), whose card is posted and answered (feedback service), and each hop goes through a
-- transactional outbox that a worker delivers at least once. Every part is a function or a
-- transaction on one database.
--
-- Contracts (packages/contracts/src/radar_contracts): `Severity`, the normalized alert, the
-- events of the hops, and what a recommendation is made of (`Reasoning`, with the context bundle
-- of the reasoner, which the table stores). `value` and `of_value` are the enum's text and its
-- parse.
-- Database (packages/database/src/radar_database): `Tables` has a record for each table of
-- models.py that these services write, and `Db`, the tables together. `Tx` is a session: an
-- action on `Db` that ends in `ok` with a value and the new tables, or in the exception that it
-- raises, with no tables, as a session that raises is rolled back. `Lifecycle` is lifecycle.py,
-- `Outbox` is outbox.py, `Repository` is repository.py (`transition_status` and the idempotency
-- markers).
-- Worker (apps/outbox-worker/src/radar_outbox_worker): `Dispatcher` is dispatcher.py, `Processor`
-- is retry.py, `Reaper` is dead_letter.py and `Poller` is poller.py. `Life` has every transaction
-- that touches the outbox as a step (`Step`) and their sequences (`Reach`).
-- Ingestion (apps/ingestion/src/radar_ingestion): `Deduper`, `Resolver` and `Publisher` are the
-- files of those names. `Consistent` says what holds between incidents and alerts; `Firing`,
-- `FiringConsistent`, `Resolving`, `Always`, `Window` and `Redelivery` have the proofs.
-- Watcher (apps/watcher-agent/src/radar_watcher_agent): `Rules`, `Correlation` and `Routes` are
-- the files of those names; `Ratchet`, `Suppression`, `Decision` and `Once` have the proofs.
-- Planner (apps/planner-agent/src/radar_planner_agent): `Templates`, `Planning` and `Routes` are
-- the files of those names. A delivery's reads see the tables `seen`, its writes those of the
-- commit. `Single`, `Once` and `Race` have the proofs.
-- Reasoner (apps/reasoner-agent/src/radar_reasoner_agent): `History`, `Context`, `Rca`, `Llm`,
-- `Knowledge`, `Fallback`, `Storage` and `Routes` are the files of those names. The handler has
-- two transactions: the first reads `seen`, the second reads `later`, and its writes meet `db`.
-- `Outcome`, `Always`, `Single`, `Once`, `Race`, `Prompt` and `Counts` have the proofs.
-- Feedback (apps/feedback-service/src/radar_feedback_service): `Callbacks`, `Cards`, `Delivery`,
-- `Routes` and `Interactions` are the files of those names. A posted card outlives a rollback, so
-- the handler answers the posted cards beside the tables. `Buttons`, `Recorded`, `Delivered`,
-- `Once` and `Resolving` have the proofs; `CardStep` is the specification of one card.
-- Knowledge (apps/knowledge-service/src/radar_knowledge_service): `Reconciliation` and `Fusion`
-- are the files of those names, `Index` and `Indexer` are indexer.py, `Grading` is crag.py and
-- crag_client.py, and `Retrieval` is query.py and retrieval.py. `Manifest`, `Idle`, `Settled`,
-- `Fused`, `Ranked`, `Judged` and `Retrieved` have the proofs; `Positions` defines the sums of a
-- fusion one id at a time.
-- Gateway (apps/llm-gateway/src/radar_llm_gateway/gateway): `Breaker` is circuit_breaker.py,
-- `Retry` is retry.py and `Fallback` is fallback.py; `Trips`, `Trial`, `Budget` and `Terminal`
-- have the proofs. The operation is a function from the number of the call to its outcome and the
-- clock before and after it; a run of the loop meets no other request on its breaker, and the two
-- bindings of a request have different breakers.
-- Prelude: tests on numbers, tables as lists (select, update, delete, count), ORDER BY as an
-- insertion sort and LIMIT 1 of it as `latest`, unique keys.
--
-- How the state is modelled. A table is a list of rows; an UPDATE is a map over the rows that its
-- WHERE clause selects, and an INSERT appends, after the test of the unique columns, whose failure
-- is `integrity_error`. A row id is a number, and so is a moment, in microseconds. Generated ids
-- and the clocks (NOW() and `utcnow()`) are arguments, in the records `Fresh`. Where the code
-- computes `now - age`, the comparison adds the age to the other side, so that no subtraction is
-- cut at 0. Row locks with SKIP LOCKED are a test on ids, `locked`, an argument of the claims.
--
-- Parameters: the HTTP clients (`post`, which answers a reply or one of its failures), the
-- formatting of a URL template (`format`), what a provider's calls come to, the libraries of the
-- parser of the model's text (`RcaLib`: JSON, the fence's regular expression, Pydantic), the
-- notification backend (`Notifier`, which at each post may fail, before or after the card is
-- there), the text of a UUID or a number (`TextLib`), the floats of the fusion (`FloatLib`), the
-- searches and the query's vector (`SearchLib`), the reading of the grader's reply (`CragLib`), and
-- of the indexer the search index, the embedder, the chunker and the hash of a document
-- (`IndexerLib`). The theorems on buttons assume that the text of the id at hand reads back as that
-- id; the one on the indexer that every chunk names the runbook it was cut from, which a contract
-- test of the repository checks of its files; the one on the ranking that the order of the floats
-- is asymmetric; no other theorem assumes anything about a parameter but, where it says so, what
-- the calls at hand answer.
--
-- Recursion is on lists and numbers, so nothing is bounded by fuel. The poll loop is modelled by
-- one round; the loops that sleep between rounds are not modelled.
--
-- Not modelled: logging, metrics gauges, the HTTP routing and the token check in front of the
-- handlers, the JSON of an event's body and of a stored bundle (an event and a row carry the value
-- itself), `raw_payload` of an alert, most of the Pydantic validators, the bot's commands, the
-- chunker and the API of the knowledge service, the normalizers of ingestion, the gateway's routing
-- between modes, the lengths of the columns and the width of their integers, what the dispatcher's
-- client raises besides timeouts and HTTP errors, and two messages that reach one handler at the
-- same time, but for the reads of the planner and the reasoner, which may be older than the tables
-- that their writes meet.
pub mod Prelude
pub mod Contracts
pub mod Database
pub mod Worker
pub mod Ingestion
pub mod Watcher
pub mod Gateway
pub mod Planner
pub mod Reasoner
pub mod Feedback
pub mod Knowledge
