-- ===== src/Knowledge/Manifest.antt =====
-- What a run leaves in the manifest: exactly the hashes of the corpus.
use radar_system.Prelude.{
  ℕ, String, ◌≡◌, refl, sym, ap, ◌∙◌, subst, true, false, Option, none, some, List, [], ◌∷◌, inl,
  inr, arith, any, All, delete, str_eq, eq_iff, Bool-cases, if◌then◌else◌,
}
use radar_system.Contracts.{Time}
use radar_system.Knowledge.Reconciliation.{
  Chunk, Mapping, get, has, is_text, is_value, insert_text, sorted, changed_ids, removed_ids,
}
use radar_system.Knowledge.Index.{
  RunbookDocument, IndexerLib, IndexRunResult, Store, is_document, manifest_of, upsert, Stepped,
}
use radar_system.Knowledge.Indexer.{record_indexed, counted_runbook, hashes}

abbrev pub recorded : String → List RunbookDocument → Option String
recorded k documents = get k (manifest_of documents)

str_eq_trans : (a b c : String) → str_eq a b ≡ true → str_eq a c ≡ str_eq b c
str_eq_trans a b c h = ap (λ x. str_eq x c) ((eq_iff a b).0 h)

pub recorded-delete :
    (k id : String) (documents : List RunbookDocument)
    → recorded k (delete (is_document id) documents)
      ≡ (if str_eq id k then none else recorded k documents)
recorded-delete k id [] = ground arith
recorded-delete k id (d ∷ rest) = elim (Bool-cases (str_eq d.runbook_id id)) [
  | inl e ↦ rw (e, recorded-delete k id rest, str_eq_trans d.runbook_id id k e) (ground arith)
  | inr e ↦ elim (Bool-cases (str_eq id k)) [
    | inl t ↦
        let other : str_eq d.runbook_id k ≡ false =
          sym (ap (λ x. str_eq d.runbook_id x) ((eq_iff id k).0 t)) ∙ e in
        rw (e, other) (recorded-delete k id rest ∙ rw t refl)
    | inr t ↦
        rw (e, t)
          (ap (λ o. if str_eq d.runbook_id k then some d.content_hash else o)
            (recorded-delete k id rest ∙ rw t refl))
  ]
]

recorded-upsert :
    (k : String) (d : RunbookDocument) (documents : List RunbookDocument)
    → recorded k (upsert d documents)
      ≡ (if str_eq d.runbook_id k then some d.content_hash else recorded k documents)
recorded-upsert k d [] = refl
recorded-upsert k d (e ∷ rest) = elim (Bool-cases (str_eq e.runbook_id d.runbook_id)) [
  | inl t ↦ rw (t, str_eq_trans e.runbook_id d.runbook_id k t) (ground arith)
  | inr t ↦ elim (Bool-cases (str_eq d.runbook_id k)) [
    | inl q ↦
        let other : str_eq e.runbook_id k ≡ false =
          sym (ap (λ x. str_eq e.runbook_id x) ((eq_iff d.runbook_id k).0 q)) ∙ t in
        rw (t, other) (recorded-upsert k d rest)
    | inr q ↦
        rw (t, q)
          (ap (λ o. if str_eq e.runbook_id k then some e.content_hash else o)
            (recorded-upsert k d rest ∙ rw q refl))
  ]
]

any-insert_text :
    (k s : String) (xs : List String)
    → any (is_text k) (insert_text s xs) ≡ any (is_text k) (s ∷ xs)
any-insert_text k s [] = refl
any-insert_text k s (t ∷ rest) = ground (arith, any-insert_text k s rest)

pub any-sorted : (k : String) (xs : List String) → any (is_text k) (sorted xs) ≡ any (is_text k) xs
any-sorted k [] = refl
any-sorted k (s ∷ rest) =
    any-insert_text k s (sorted rest)
    ∙ ap (λ b. if is_text k s then true else b) (any-sorted k rest)

pub get-has : (k : String) (m : Mapping) → has k m ≡ false → get k m ≡ none
get-has k [] h = refl
get-has k ((j, v) ∷ rest) h = ground (arith, get-has k rest)

pub has-get : (k d : String) (m : Mapping) → get k m ≡ some d → has k m ≡ true
has-get k d [] h = cc
has-get k d ((j, v) ∷ rest) h = ground (arith, has-get k d rest)

pub get-has_not : (k : String) (m : Mapping) → get k m ≡ none → has k m ≡ false
get-has_not k [] h = refl
get-has_not k ((j, v) ∷ rest) h = ground (arith, get-has_not k rest)

pub removed_exact :
    (k : String) (on_disk m : Mapping)
    → any (is_text k) (removed_ids on_disk m) ≡ (if has k on_disk then false else has k m)
removed_exact k on_disk [] = ground arith
removed_exact k on_disk ((j, v) ∷ rest) = elim (Bool-cases (str_eq j k)) [
  | inl e ↦
      let same : has j on_disk ≡ has k on_disk = ap (λ x. has x on_disk) ((eq_iff j k).0 e) in
      rw (e, same)
        (elim (Bool-cases (has k on_disk)) [
          | inl q ↦ rw q (removed_exact k on_disk rest ∙ rw q refl)
          | inr q ↦ rw (q, e) refl
        ])
  | inr e ↦ elim (Bool-cases (has j on_disk)) [
    | inl q ↦ rw (q, e) (removed_exact k on_disk rest)
    | inr q ↦ rw (q, e) (removed_exact k on_disk rest)
  ]
]

-- A runbook that is on disk and not changed has its hash in the manifest.
pub unchanged_value :
    (k d : String) (m on_disk : Mapping)
    → any (is_text k) (changed_ids m on_disk) ≡ false
    → get k on_disk ≡ some d
    → is_value (get k m) d ≡ true
unchanged_value k d m [] h e = cc
unchanged_value k d m ((j, v) ∷ rest) h e = elim (Bool-cases (str_eq j k)) [
  | inl q ↦
      let jk : j ≡ k = (eq_iff j k).0 q in
      let vd : v ≡ d = cc (rw q at e) in
      elim (Bool-cases (is_value (get j m) v)) [
        | inl t ↦
            subst (λ x. is_value (get x m) d ≡ true) jk
              (subst (λ y. is_value (get j m) y ≡ true) vd t)
        | inr t ↦ cc (rw (t, q) at h)
      ]
  | inr q ↦ elim (Bool-cases (is_value (get j m) v)) [
    | inl t ↦ unchanged_value k d m rest (rw t at h) (rw q at e)
    | inr t ↦ unchanged_value k d m rest (rw (t, q) at h) (rw q at e)
  ]
]

-- The chunks of a source carry the id of its runbook.
abbrev pub IsNamed : String → Option (List Chunk) → Type 0
IsNamed id none = Unit
IsNamed id (some chunks) = All (λ (c : Chunk). c.runbook_id ≡ id) chunks

module _ {S V : Type 0} (lib : IndexerLib S V) (written_at : Time) where
  -- Every runbook of the corpus names itself as its file does.
  abbrev pub AllNamed : Mapping → Type 0
  AllNamed [] = Unit
  AllNamed ((id, source) ∷ rest) = IsNamed id (lib.chunk_runbook source) × AllNamed rest

  pub found-IsNamed :
      (id source : String) (corpus : Mapping)
      → AllNamed corpus
      → get id corpus ≡ some source
      → IsNamed id (lib.chunk_runbook source)
  found-IsNamed id source [] n e = cc
  found-IsNamed id source ((j, s) ∷ rest) n e = elim (Bool-cases (str_eq j id)) [
    | inl q ↦
        let same : s ≡ source = cc (rw q at e) in
        subst (λ x. IsNamed x (lib.chunk_runbook source)) ((eq_iff j id).0 q)
          (subst (λ y. IsNamed j (lib.chunk_runbook y)) same n.0)
    | inr q ↦ found-IsNamed id source rest n.1 (rw q at e)
  ]

  pub get-hashes :
      (k : String) (corpus : Mapping)
      → get k (hashes lib written_at corpus)
        ≡ elim (get k corpus) [ some source ↦ some (lib.document_hash source) | none ↦ none ]
  get-hashes k [] = refl
  get-hashes k ((j, s) ∷ rest) = elim (Bool-cases (str_eq j k)) [
    | inl q ↦ rw q refl
    | inr q ↦ rw q (get-hashes k rest)
  ]

  pub counted_recorded :
      (k digest id : String) (chunks embedded : List Chunk) (result result' : IndexRunResult)
      (indexed deleted : ℕ) (held : S) (documents : List RunbookDocument) (store' : Store S)
      → All (λ (c : Chunk). c.runbook_id ≡ id) chunks
      → counted_runbook lib written_at result embedded indexed deleted held documents
          (record_indexed lib written_at chunks digest documents)
        ≡ (some result', store')
      → recorded k store'.documents ≡ (if str_eq id k then some digest else recorded k documents)
  counted_recorded k digest id [] embedded result result' indexed deleted held documents store' n
        e =
      cc
  counted_recorded k digest id (c ∷ rest) embedded result result' indexed deleted held documents
        store' n e =
      ap (λ (x : Stepped S). recorded k x.1.documents) (sym e)
      ∙ recorded-upsert k _ documents
      ∙ ap (λ x. if str_eq x k then some digest else recorded k documents) n.0
