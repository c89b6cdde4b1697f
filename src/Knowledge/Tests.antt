-- ===== src/Knowledge/Tests.antt =====
-- Concrete runs of the indexer, the fusion, the grader and the retrieval.
use radar_system.Prelude.{
  ℕ, ◌+◌, String, ◌≡◌, refl, true, false, not, none, some, List, [], ◌∷◌, ◌++◌, map, any, select,
  length, str_eq, ltb,
}
use radar_system.Knowledge.Reconciliation.{Chunk, Mapping, is_text, diff_corpus, diff_runbook}
use radar_system.Knowledge.Index.{IndexedChunk, IndexerLib, Store}
use radar_system.Knowledge.Indexer.{nothing_done, index_all, index_runbook, remove_all, run}
use radar_system.Knowledge.Fusion.{FloatLib, reciprocal_rank_fusion}
use radar_system.Knowledge.Grading.{
  Grade, partial, insufficient, Hit, CragLib, Posted, reply, build_grading_prompt, apply_grades,
  parse_grades, grade,
}
use radar_system.Knowledge.Judged.{AllRefused, empty_is_judgement}
use radar_system.Knowledge.Retrieval.{SearchLib, hit_ids, build_query, retrieve}
use radar_system.Knowledge.Retrieved.{retrieved_exact}
use radar_system.Knowledge.Settled.{second_run_idle}

abbrev Held : Type 0
Held = List (IndexedChunk String)

-- a runbook with one chunk
abbrev chunk_of : String → Chunk
chunk_of id = record {
  chunk_id = id;
  runbook_id = id;
  title = "Slow queries";
  section = "Symptoms";
  text = id;
  ordinal = 0;
  services = "orders-db" ∷ [];
  severity = "high";
  status = "fixture";
  alert_name = none;
}

abbrev lib : IndexerLib Held String
lib = record {
  dims_match = true;
  chunk_runbook = λ source. some (chunk_of source ∷ []);
  document_hash = λ source. source;
  file_path = λ id. id;
  recorded_at = λ id. 20;
  within_budget = λ texts. true;
  embed = λ texts. some texts;
  index = λ documents held. some (length documents, held ++ documents);
  chunk_ids_for = λ id held.
      map (λ (d : IndexedChunk String). d.chunk.chunk_id)
        (select (λ (d : IndexedChunk String). str_eq d.chunk.runbook_id id) held);
  delete_chunks = λ ids held. some (
    length ids,
    select (λ (d : IndexedChunk String). not (any (is_text d.chunk.chunk_id) ids)) held,
  );
}

abbrev corpus : Mapping
corpus = ("slow-queries", "slow-queries") ∷ ("disk-full", "disk-full") ∷ []

abbrev empty_store : Store Held
empty_store = record { held = []; documents = [] }

abbrev store_indexed : Store Held
store_indexed = (run lib 10 corpus empty_store).1

two_indexed :
    (run lib 10 corpus empty_store).0
    ≡ some
        (record { embedded = 2; indexed = 2; deleted = 0; processed = 2; skipped = 0; removed = 0 })
unfolding run index_all diff_corpus index_runbook diff_runbook remove_all
two_indexed = refl

second_run_idle_example :
    run lib 10 corpus store_indexed ≡ (some (nothing_done lib 10 2), store_indexed)
unfolding run index_all diff_corpus index_runbook diff_runbook remove_all
second_run_idle_example =
    second_run_idle lib 10 corpus
      (record { embedded = 2; indexed = 2; deleted = 0; processed = 2; skipped = 0; removed = 0 })
      empty_store store_indexed (refl, (refl, tt)) ((refl, tt), ((refl, tt), tt)) refl

-- the total of a score is the list of its shares
abbrev shares : FloatLib (List ℕ)
shares = record {
  zero = [];
  add = λ x y. x ++ y;
  share = λ c p. (c + p) ∷ [];
  higher = λ x y. ltb (length y) (length x);
}

abbrev rankings : List (List String)
rankings = ("disk-full" ∷ "slow-queries" ∷ []) ∷ ("slow-queries" ∷ []) ∷ []

-- an id that two rankings have goes before the first of one
twice_ranked :
    reciprocal_rank_fusion shares rankings 60 none ≡ some ("slow-queries" ∷ "disk-full" ∷ [])
unfolding reciprocal_rank_fusion
twice_ranked = refl

-- a grader whose reply is read as one entry, and a gateway that answers
abbrev crag : Grade → CragLib
crag g = record {
  strip = λ t. t;
  is_fenced = λ t. false;
  after_line = λ t. none;
  before_fence = λ t. t;
  validate = λ t. some (record { chunk_id = t; grade = g } ∷ []);
  content = λ body. some body;
}

abbrev hit_of : String → Hit
hit_of id = record {
  chunk_id = id;
  runbook_id = some id;
  section = some "Symptoms";
  text = some "CPU is high";
  grade = none;
}

abbrev answers : String → Posted
answers prompt = reply 200 "disk-full"

partial_kept :
    grade (crag partial) answers "orders" (hit_of "disk-full" ∷ [])
    ≡ record (hit_of "disk-full") { grade = some "partial" } ∷ []
unfolding grade apply_grades parse_grades
partial_kept = refl

-- a reply that does not cover the chunks leaves them ungraded
uncovered_kept :
    grade (crag insufficient) answers "orders" (hit_of "disk-full" ∷ hit_of "slow-queries" ∷ [])
    ≡ hit_of "disk-full" ∷ hit_of "slow-queries" ∷ []
unfolding grade parse_grades
uncovered_kept = refl

empty_is_judgement_example :
    (prompt : String) × (build_grading_prompt "orders" (hit_of "disk-full" ∷ []) ≡ some prompt)
    × AllRefused (crag insufficient) (hit_of "disk-full" ∷ []) (answers prompt)
unfolding grade apply_grades parse_grades
empty_is_judgement_example =
    empty_is_judgement (crag insufficient) answers "orders" (hit_of "disk-full") [] refl

abbrev search : SearchLib String (List ℕ)
search = record {
  strip = λ t. t;
  embed = λ texts. some texts;
  search_bm25 = λ query service size. some (hit_of "disk-full" ∷ hit_of "slow-queries" ∷ []);
  search_knn = λ vector service size. some (hit_of "slow-queries" ∷ []);
  floats = shares;
}

retrieved_exact_example :
    (ids : List String) × (hits : List Hit) × (reciprocal_rank_fusion shares rankings 60 (some 5)
      ≡ some ids)
    × (retrieve search none 10 "orders" none 5 ≡ some hits)
    × (hit_ids hits ≡ ids)
retrieved_exact_example =
    retrieved_exact search none 10 "orders" none 5 "orders"
      (hit_of "disk-full" ∷ hit_of "slow-queries" ∷ []) (hit_of "slow-queries" ∷ []) refl refl refl
      refl

query_in_order :
    build_query search "orders" "HighCPU" ((2, "top") ∷ (1, "df -h") ∷ (3, "") ∷ [])
    ≡ some "orders HighCPU df -h top"
unfolding build_query
query_in_order = refl
