-- ===== src/Knowledge/Idle.antt =====
-- What a run leaves in the manifest, step by step, and that the run after it has nothing to do.
use radar_system.Prelude.{
  ℕ, String, ◌≡◌, refl, sym, ap, ◌∙◌, Bool, true, false, Option, none, some, List, [], ◌∷◌, inl,
  inr, arith, any, map, All, length, str_eq, eq_iff, Bool-cases, Option-cases, if◌then◌else◌,
}
use radar_system.Contracts.{Time}
use radar_system.Knowledge.Reconciliation.{
  Chunk, Mapping, get, has, is_text, is_value, changed_ids, removed_ids, diff_corpus, diff_runbook,
  RunbookDiff,
}
use radar_system.Knowledge.Index.{
  RunbookDocument, IndexerLib, IndexRunResult, Store, manifest_of, Stepped,
}
use radar_system.Knowledge.Indexer.{
  record_deleted, removed_row, finish_runbook, index_chunks, index_runbook, remove_runbook,
  remove_all, index_found, and_then, index_all, hashes, nothing_done, run,
}
use radar_system.Knowledge.Manifest.{
  recorded, recorded-delete, removed_exact, unchanged_value, any-sorted, get-has, has-get,
  get-has_not, IsNamed, AllNamed, found-IsNamed, get-hashes, counted_recorded,
}

is_value-some : (o : Option String) (d : String) → is_value o d ≡ true → o ≡ some d
is_value-some none d h = cc
is_value-some (some x) d h = ap some ((eq_iff x d).0 h)

diff_settles :
    (k : String) (m on_disk : Mapping)
    → (if any (is_text k) (changed_ids m on_disk)
        then get k on_disk
        else if any (is_text k) (removed_ids on_disk m)
        then none
        else get k m)
      ≡ get k on_disk
diff_settles k m on_disk = elim (Bool-cases (any (is_text k) (changed_ids m on_disk))) [
  | inl q ↦ rw q refl
  | inr q ↦
      rw (q, removed_exact k on_disk m)
        (elim (Option-cases (get k on_disk)) [
          | inl none_there ↦
              rw (none_there, get-has_not k on_disk none_there)
                (elim (Bool-cases (has k m)) [
                  | inl t ↦ rw t refl
                  | inr t ↦ rw (t, get-has k m t) refl
                ])
          | inr (d, there) ↦
              rw (there, has-get k d on_disk there)
                (is_value-some (get k m) d (unchanged_value k d m on_disk q there))
        ])
]

module _ {S V : Type 0} (lib : IndexerLib S V) (written_at : Time) where
  deleted_recorded :
      (k id digest : String) (chunks : List Chunk) (diff : RunbookDiff)
      (result result' : IndexRunResult) (documents : List RunbookDocument) (store' : Store S)
      (indexed : ℕ) (held : S) (o : Option (ℕ × S))
      → All (λ (c : Chunk). c.runbook_id ≡ id) chunks
      → record_deleted lib written_at chunks diff digest result documents indexed held o
        ≡ (some result', store')
      → recorded k store'.documents ≡ (if str_eq id k then some digest else recorded k documents)
  deleted_recorded k id digest chunks diff result result' documents store' indexed held none n e =
      cc
  deleted_recorded k id digest chunks diff result result' documents store' indexed held
        (some (deleted, held')) n e =
      counted_recorded lib written_at k digest id chunks diff.to_embed result result' indexed
        deleted held' documents store' n e

  finish_recorded :
      (k id digest : String) (chunks : List Chunk) (diff : RunbookDiff)
      (result result' : IndexRunResult) (store store' : Store S) (o : Option (ℕ × S))
      → All (λ (c : Chunk). c.runbook_id ≡ id) chunks
      → finish_runbook lib written_at chunks diff digest result store o ≡ (some result', store')
      → recorded k store'.documents
        ≡ (if str_eq id k then some digest else recorded k store.documents)
  finish_recorded k id digest chunks diff result result' store store' none n e = cc
  finish_recorded k id digest chunks diff result result' store store' (some (indexed, held)) n e =
      deleted_recorded k id digest chunks diff result result' store.documents store' indexed held _
        n e

  chunks_recorded :
      (k id digest : String) (result result' : IndexRunResult) (store store' : Store S)
      (o : Option (List Chunk))
      → IsNamed id o
      → index_chunks lib written_at id digest result store o ≡ (some result', store')
      → recorded k store'.documents
        ≡ (if str_eq id k then some digest else recorded k store.documents)
  chunks_recorded k id digest result result' store store' none n e = cc
  chunks_recorded k id digest result result' store store' (some chunks) n e =
      elim (Bool-cases (lib.within_budget (map (λ (c : Chunk). c.text) chunks))) [
        | inl q ↦
            finish_recorded k id digest chunks
              (diff_runbook id chunks (lib.chunk_ids_for id store.held)) result result' store store'
              _ n (rw q at e)
        | inr q ↦ cc (rw q at e)
      ]

  found_recorded :
      (k id : String) (corpus : Mapping) (result result' : IndexRunResult) (store store' : Store S)
      → AllNamed lib written_at corpus
      → index_found lib written_at id (get id corpus) result store ≡ (some result', store')
      → recorded k store'.documents
        ≡ (if str_eq id k then get k (hashes lib written_at corpus) else recorded k store.documents)
  unfolding index_runbook
  found_recorded k id corpus result result' store store' n e = elim (Option-cases (get id corpus)) [
    | inl q ↦ cc (rw q at e)
    | inr (source, q) ↦
        chunks_recorded k id (lib.document_hash source) result result' store store'
          (lib.chunk_runbook source) (found-IsNamed lib written_at id source corpus n q) (rw q at e)
        ∙ elim (Bool-cases (str_eq id k)) [
          | inl t ↦
              rw
                (
                  t,
                  sym (ap (λ x. get x (hashes lib written_at corpus)) ((eq_iff id k).0 t)),
                  get-hashes lib written_at id corpus,
                  q,
                )
                refl
          | inr t ↦ rw t refl
        ]
  ]

  and_then_cases :
      (next : IndexRunResult → Store S → Stepped S) (s : Stepped S) (result' : IndexRunResult)
      (store' : Store S)
      → and_then lib written_at next s ≡ (some result', store')
      → (result1 : IndexRunResult) × (store1 : Store S) × (s ≡ (some result1, store1))
        × (next result1 store1 ≡ (some result', store'))
  and_then_cases next (none, store1) result' store' e = cc
  and_then_cases next (some result1, store1) result' store' e = (result1, store1, refl, e)

  removed_recorded :
      (k id : String) (result result' : IndexRunResult) (store store' : Store S)
      (o : Option (ℕ × S))
      → removed_row lib written_at id result store o ≡ (some result', store')
      → recorded k store'.documents ≡ (if str_eq id k then none else recorded k store.documents)
  removed_recorded k id result result' store store' none e = cc
  removed_recorded k id result result' store store' (some (deleted, held)) e =
      ap (λ (x : Stepped S). recorded k x.1.documents) (sym e)
      ∙ recorded-delete k id store.documents

  recorded-remove_all :
      (k : String) (ids : List String) (result result' : IndexRunResult) (store store' : Store S)
      → remove_all lib written_at ids result store ≡ (some result', store')
      → recorded k store'.documents
        ≡ (if any (is_text k) ids then none else recorded k store.documents)
  unfolding remove_all remove_runbook
  recorded-remove_all k [] result result' store store' e =
      ap (λ (x : Stepped S). recorded k x.1.documents) (sym e)
  recorded-remove_all k (id ∷ rest) result result' store store' e =
      let (result1, store1, found, next) =
        and_then_cases (remove_all lib written_at rest)
          (remove_runbook lib written_at id result store) result' store' e in
      recorded-remove_all k rest result1 result' store1 store' next
      ∙ rw
          (removed_recorded k id result result1 store store1
            (lib.delete_chunks (lib.chunk_ids_for id store.held) store.held) found)
          (ground arith)

  recorded-index_all :
      (k : String) (corpus : Mapping) (ids : List String) (result result' : IndexRunResult)
      (store store' : Store S)
      → AllNamed lib written_at corpus
      → index_all lib written_at corpus ids result store ≡ (some result', store')
      → recorded k store'.documents ≡ (
          if any (is_text k) ids
          then get k (hashes lib written_at corpus)
          else recorded k store.documents)
  unfolding index_all
  recorded-index_all k corpus [] result result' store store' n e =
      ap (λ (x : Stepped S). recorded k x.1.documents) (sym e)
  recorded-index_all k corpus (id ∷ rest) result result' store store' n e =
      let (result1, store1, found, next) =
        and_then_cases (index_all lib written_at corpus rest)
          (index_found lib written_at id (get id corpus) result store) result' store' e in
      recorded-index_all k corpus rest result1 result' store1 store' n next
      ∙ rw (found_recorded k id corpus result result1 store store1 n found) (ground arith)

  has_run :
      (matching : Bool) (done : Stepped S) (store store' : Store S) (result : IndexRunResult)
      → (if matching then done else (none, store)) ≡ (some result, store')
      → done ≡ (some result, store')
  has_run true done store store' result e = e
  has_run false done store store' result e = cc

  -- A run that succeeded has left the hashes of the corpus in the manifest.
  pub recorded-run :
      (k : String) (corpus : Mapping) (result : IndexRunResult) (store store' : Store S)
      → AllNamed lib written_at corpus
      → run lib written_at corpus store ≡ (some result, store')
      → recorded k store'.documents ≡ get k (hashes lib written_at corpus)
  unfolding run diff_corpus
  recorded-run k corpus result store store' n e =
      let m = manifest_of store.documents in
      let on_disk = hashes lib written_at corpus in
      let diff = diff_corpus on_disk m in
      let (result1, store1, gone, next) =
        and_then_cases (index_all lib written_at corpus diff.changed)
          (remove_all lib written_at diff.removed
            (nothing_done lib written_at (length diff.unchanged)) store)
          result store' (has_run lib.dims_match _ store store' result e) in
      recorded-index_all k corpus diff.changed result1 result store1 store' n next
      ∙ rw
          (
            recorded-remove_all k diff.removed _ result1 store store1 gone,
            any-sorted k (changed_ids m on_disk),
            any-sorted k (removed_ids on_disk m),
          )
          (diff_settles k m on_disk)
