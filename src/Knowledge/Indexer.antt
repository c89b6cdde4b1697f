-- ===== src/Knowledge/Indexer.antt =====
-- apps/knowledge-service/src/radar_knowledge_service/indexer.py: one run over the corpus.
-- A run is no transaction: where a step raises, what was written before stays.
use radar_system.Prelude.{
  ℕ, ◌+◌, String, Option, none, some, List, [], ◌∷◌, map, length, delete, if◌then◌else◌,
}
use radar_system.Contracts.{Time}
use radar_system.Knowledge.Reconciliation.{
  Chunk, CorpusDiff, RunbookDiff, Mapping, get, diff_corpus, diff_runbook,
}
use radar_system.Knowledge.Index.{
  IndexedChunk, RunbookDocument, IndexerLib, IndexRunResult, Store, is_document, manifest_of,
  upsert, zip_strict, Stepped,
}

module _ {S V : Type 0} (lib : IndexerLib S V) (written_at : Time) where
  abbrev pub document_of : Chunk × V → IndexedChunk V
  document_of (c, v) = record { chunk = c; embedding = v; indexed_at = written_at }

  abbrev pub index_zipped : S → Option (List (Chunk × V)) → Option (ℕ × S)
  index_zipped held none = none
  index_zipped held (some pairs) = lib.index (map document_of pairs) held

  abbrev pub index_embedded : List Chunk → S → Option (List V) → Option (ℕ × S)
  index_embedded chunks held none = none
  index_embedded chunks held (some vectors) = index_zipped held (zip_strict chunks vectors)

  -- the vectors of the new chunks, and their documents
  abbrev pub index_new : List Chunk → S → Option (ℕ × S)
  index_new [] held = some (0, held)
  index_new (c ∷ rest) held =
      index_embedded (c ∷ rest) held (lib.embed (map (λ (c : Chunk). c.text) (c ∷ rest)))

  abbrev pub delete_stale : List String → S → Option (ℕ × S)
  delete_stale [] held = some (0, held)
  delete_stale (id ∷ rest) held = lib.delete_chunks (id ∷ rest) held

  -- `_record_indexed`; an empty list is the IndexError of its first element
  abbrev pub record_indexed :
      List Chunk → String → List RunbookDocument → Option (List RunbookDocument)
  record_indexed [] digest documents = none
  record_indexed (first ∷ rest) digest documents = some (
      upsert
        (record {
          runbook_id = first.runbook_id;
          title = first.title;
          file_path = lib.file_path first.runbook_id;
          services = first.services;
          severity = first.severity;
          content_hash = digest;
          chunk_count = length (first ∷ rest);
          indexed_at = lib.recorded_at first.runbook_id;
          index_status = "indexed";
          updated_at = lib.recorded_at first.runbook_id;
        })
        documents)

  abbrev pub counted_runbook :
      IndexRunResult
      → List Chunk
      → ℕ
      → ℕ
      → S
      → List RunbookDocument
      → Option (List RunbookDocument)
      → Stepped S
  counted_runbook result embedded indexed deleted held documents none =
      (none, record { held = held; documents = documents })
  counted_runbook result embedded indexed deleted held documents (some documents') = (
    some (record result {
      embedded = result.embedded + length embedded;
      indexed = result.indexed + indexed;
      deleted = result.deleted + deleted;
      processed = result.processed + 1;
    }),
    record { held = held; documents = documents' },
  )

  -- after the stale chunks are deleted
  abbrev pub record_deleted :
      List Chunk
      → RunbookDiff
      → String
      → IndexRunResult
      → List RunbookDocument
      → ℕ
      → S
      → Option (ℕ × S)
      → Stepped S
  record_deleted chunks diff digest result documents indexed held none =
      (none, record { held = held; documents = documents })
  record_deleted chunks diff digest result documents indexed held (some (deleted, held')) =
      counted_runbook result diff.to_embed indexed deleted held' documents
        (record_indexed chunks digest documents)

  -- after the new chunks are indexed
  abbrev pub finish_runbook :
      List Chunk → RunbookDiff → String → IndexRunResult → Store S → Option (ℕ × S) → Stepped S
  finish_runbook chunks diff digest result store none = (none, store)
  finish_runbook chunks diff digest result store (some (indexed, held)) =
      record_deleted chunks diff digest result store.documents indexed held
        (delete_stale diff.to_delete held)

  abbrev pub index_chunks :
      String → String → IndexRunResult → Store S → Option (List Chunk) → Stepped S
  index_chunks runbook_id digest result store none = (none, store)
  index_chunks runbook_id digest result store (some chunks) =
      let diff = diff_runbook runbook_id chunks (lib.chunk_ids_for runbook_id store.held) in
      if lib.within_budget (map (λ (c : Chunk). c.text) chunks)
      then finish_runbook chunks diff digest result store (index_new diff.to_embed store.held)
      else (none, store)

  -- `_index_runbook`
  unfoldable pub index_runbook : String → String → String → IndexRunResult → Store S → Stepped S
  index_runbook runbook_id source digest result store =
      index_chunks runbook_id digest result store (lib.chunk_runbook source)

  -- after the chunks of a removed runbook are deleted
  abbrev pub removed_row : String → IndexRunResult → Store S → Option (ℕ × S) → Stepped S
  removed_row runbook_id result store none = (none, store)
  removed_row runbook_id result store (some (deleted, held)) = (
    some (record result { deleted = result.deleted + deleted; removed = result.removed + 1 }),
    record { held = held; documents = delete (is_document runbook_id) store.documents },
  )

  -- `_remove_runbook`
  unfoldable pub remove_runbook : String → IndexRunResult → Store S → Stepped S
  remove_runbook runbook_id result store =
      removed_row runbook_id result store
        (lib.delete_chunks (lib.chunk_ids_for runbook_id store.held) store.held)

  abbrev pub and_then : (IndexRunResult → Store S → Stepped S) → Stepped S → Stepped S
  and_then next (none, store) = (none, store)
  and_then next (some result, store) = next result store

  unfoldable pub remove_all : List String → IndexRunResult → Store S → Stepped S
  remove_all [] result store = (some result, store)
  remove_all (id ∷ rest) result store = and_then (remove_all rest) (remove_runbook id result store)

  -- `corpus[runbook_id]`, which the ids of the corpus have
  abbrev pub index_found : String → Option String → IndexRunResult → Store S → Stepped S
  index_found id none result store = (none, store)
  index_found id (some source) result store =
      index_runbook id source (lib.document_hash source) result store

  unfoldable pub index_all : Mapping → List String → IndexRunResult → Store S → Stepped S
  index_all corpus [] result store = (some result, store)
  index_all corpus (id ∷ rest) result store =
      and_then (index_all corpus rest) (index_found id (get id corpus) result store)

  abbrev pub hashes : Mapping → Mapping
  hashes [] = []
  hashes ((id, source) ∷ rest) = (id, lib.document_hash source) ∷ hashes rest

  abbrev pub nothing_done : ℕ → IndexRunResult
  nothing_done skipped = record {
    embedded = 0;
    indexed = 0;
    deleted = 0;
    processed = 0;
    skipped = skipped;
    removed = 0;
  }

  abbrev pub apply_diff : Mapping → CorpusDiff → Store S → Stepped S
  apply_diff corpus diff store =
      and_then (index_all corpus diff.changed)
        (remove_all diff.removed (nothing_done (length diff.unchanged)) store)

  -- `RunbookIndexer.run`; `corpus` is what `read_corpus` read
  unfoldable pub run : Mapping → Store S → Stepped S
  run corpus store =
      if lib.dims_match
      then apply_diff corpus (diff_corpus (hashes corpus) (manifest_of store.documents)) store
      else (none, store)
