-- ===== src/Knowledge/Index.antt =====
-- apps/knowledge-service/src/radar_knowledge_service/indexer.py: what a run works on, and the
-- manifest table. The search index, the embedder and the chunker are parameters (`IndexerLib`).
use radar_system.Prelude.{ℕ, String, Bool, Option, none, some, List, [], ◌∷◌, str_eq, if◌then◌else◌}
use radar_system.Contracts.{Time}
use radar_system.Knowledge.Reconciliation.{Chunk, Mapping}

-- `chunk_to_document`: the chunk, its vector and the moment of the run
pub record IndexedChunk (V : Type 0) : Type 0 where
  pub chunk : Chunk
  pub embedding : V
  pub indexed_at : Time

-- `RunbookDocument` of packages/database/src/radar_database/models.py, the manifest
pub record RunbookDocument : Type 0 where
  pub runbook_id : String
  pub title : String
  pub file_path : String
  pub services : List String
  pub severity : String
  pub content_hash : String
  pub chunk_count : ℕ
  pub indexed_at : Time
  pub index_status : String
  pub updated_at : Time

-- S is what the search index holds, V a vector. `none` of a call is its exception, which
-- leaves the search index as it was; `recorded_at` is the
-- clock when the row of a runbook is written.
pub record IndexerLib (S V : Type 0) : Type 0 where
  pub dims_match : Bool
  pub chunk_runbook : String → Option (List Chunk)
  pub document_hash : String → String
  pub file_path : String → String
  pub recorded_at : String → Time
  pub within_budget : List String → Bool
  pub embed : List String → Option (List V)
  pub index : List (IndexedChunk V) → S → Option (ℕ × S)
  pub chunk_ids_for : String → S → List String
  pub delete_chunks : List String → S → Option (ℕ × S)

pub record IndexRunResult : Type 0 where
  pub embedded : ℕ
  pub indexed : ℕ
  pub deleted : ℕ
  pub processed : ℕ
  pub skipped : ℕ
  pub removed : ℕ

-- The index and the manifest.
pub record Store (S : Type 0) : Type 0 where
  pub held : S
  pub documents : List RunbookDocument

abbrev pub is_document : String → RunbookDocument → Bool
is_document id d = str_eq d.runbook_id id

-- `_load_manifest`
abbrev pub manifest_of : List RunbookDocument → Mapping
manifest_of [] = []
manifest_of (d ∷ rest) = (d.runbook_id, d.content_hash) ∷ manifest_of rest

-- the file path of a row that is there is kept
abbrev pub upsert : RunbookDocument → List RunbookDocument → List RunbookDocument
upsert d [] = d ∷ []
upsert d (e ∷ rest) =
    let others = upsert d rest in
    if str_eq e.runbook_id d.runbook_id
    then record d { file_path = e.file_path } ∷ rest
    else e ∷ others

-- `zip(…, strict=True)`: `none` where the lengths differ
abbrev pub zip_strict : {A B : Type 0} → List A → List B → Option (List (A × B))
zip_strict [] [] = some []
zip_strict [] (b ∷ bs) = none
zip_strict (a ∷ xs) [] = none
zip_strict (a ∷ xs) (b ∷ bs) = elim (zip_strict xs bs) [
  | some rest ↦ some ((a, b) ∷ rest)
  | none ↦ none
]

-- What a step comes to: its counts or an exception, and what it leaves.
abbrev pub Stepped : Type 0 → Type 0
Stepped S = Option IndexRunResult × Store S
