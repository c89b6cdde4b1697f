-- ===== src/Knowledge/Settled.antt =====
-- The run after a run that succeeded: it finds every runbook unchanged.
use Prim.Native.Nat.{Ordering}
use Prim.Native.String.{compare}
use radar_system.Prelude.{
  String, ◌≡◌, refl, sym, ap, ◌∙◌, Bool, true, false, none, some, List, [], ◌∷◌, inl, inr, arith,
  any, length, str_eq, eq_iff, eq_refl, Bool-cases, Option-cases, if◌then◌else◌, suc,
}
use radar_system.Contracts.{Time}
use radar_system.Knowledge.Reconciliation.{
  CorpusDiff, Mapping, get, has, is_text, insert_text, sorted, changed_ids, unchanged_ids,
  removed_ids, diff_corpus,
}
use radar_system.Knowledge.Index.{IndexerLib, IndexRunResult, Store, manifest_of, Stepped}
use radar_system.Knowledge.Indexer.{remove_all, index_all, hashes, nothing_done, apply_diff, run}
use radar_system.Knowledge.Manifest.{removed_exact, has-get, get-has_not, AllNamed}
use radar_system.Knowledge.Idle.{recorded-run}

-- A mapping as Python has it: every key once.
abbrev pub IsDict : Mapping → Type 0
IsDict [] = Unit
IsDict ((k, v) ∷ rest) = (has k rest ≡ false) × IsDict rest

-- The manifest has, of every runbook on disk, the hash on disk.
Agrees : Mapping → Mapping → Type 0
Agrees m [] = Unit
Agrees m ((k, v) ∷ rest) = (get k m ≡ some v) × Agrees m rest

dict-Agrees :
    (m part : Mapping)
    → IsDict part
    → ((k d : String) → get k part ≡ some d → get k m ≡ some d)
    → Agrees m part
unfolding Agrees
dict-Agrees m [] dict same = tt
dict-Agrees m ((k, v) ∷ rest) (new, dict) same = (
  same k v (rw (eq_refl k) refl),
  dict-Agrees m rest dict (λ j d e. same j d (elim (Bool-cases (str_eq k j)) [
    | inl q ↦ cc (rw ((eq_iff k j).0 q) at new, has-get j d rest e)
    | inr q ↦ rw q e
  ])),
)

Agrees-changed :
    (m on_disk : Mapping)
    → Agrees m on_disk
    → (changed_ids m on_disk ≡ []) × (length (unchanged_ids m on_disk) ≡ length on_disk)
unfolding Agrees
Agrees-changed m [] a = (refl, refl)
Agrees-changed m ((k, v) ∷ rest) (e, a) =
    let (changed, unchanged) = Agrees-changed m rest a in
    (rw (e, eq_refl v) changed, rw (e, eq_refl v) (ap (λ n. suc n) unchanged))

none_held : (xs : List String) → ((k : String) → any (is_text k) xs ≡ false) → xs ≡ []
none_held [] h = refl
none_held (x ∷ xs) h = cc (ap (λ b. if b then true else any (is_text x) xs) (sym (eq_refl x)) ∙ h x)

has_same : (k : String) (m n : Mapping) → get k m ≡ get k n → has k m ≡ has k n
has_same k m n e = elim (Option-cases (get k n)) [
  | inl q ↦ get-has_not k m (e ∙ q) ∙ sym (get-has_not k n q)
  | inr (d, q) ↦ has-get k d m (e ∙ q) ∙ sym (has-get k d n q)
]

same_removed :
    (m on_disk : Mapping) → ((k : String) → get k m ≡ get k on_disk) → removed_ids on_disk m ≡ []
same_removed m on_disk same =
    none_held (removed_ids on_disk m)
      (λ k. removed_exact k on_disk m ∙ rw (has_same k m on_disk (same k)) (ground arith))

length-insert_text : (s : String) (xs : List String) → length (insert_text s xs) ≡ suc (length xs)
length-insert_text s [] = refl
length-insert_text s (t ∷ rest) =
    elim (compare s t)
      as (λ o.
        length (elim o [
          | Ordering.lt ↦ s ∷ t ∷ rest
          | Ordering.eq ↦ s ∷ t ∷ rest
          | Ordering.gt ↦ t ∷ insert_text s rest
        ])
        ≡ suc (suc (length rest))) [
          | Ordering.lt ↦ refl
          | Ordering.eq ↦ refl
          | Ordering.gt ↦ ap (λ n. suc n) (length-insert_text s rest)
        ]

length-sorted : (xs : List String) → length (sorted xs) ≡ length xs
length-sorted [] = refl
length-sorted (s ∷ rest) = length-insert_text s (sorted rest) ∙ ap (λ n. suc n) (length-sorted rest)

module _ {S V : Type 0} (lib : IndexerLib S V) (written_at : Time) where
  has-hashes : (k : String) (corpus : Mapping) → has k (hashes lib written_at corpus) ≡ has k corpus
  has-hashes k [] = refl
  has-hashes k ((j, s) ∷ rest) = ap (λ b. if str_eq j k then true else b) (has-hashes k rest)

  hashes-IsDict : (corpus : Mapping) → IsDict corpus → IsDict (hashes lib written_at corpus)
  hashes-IsDict [] dict = tt
  hashes-IsDict ((j, s) ∷ rest) (new, dict) = (has-hashes j rest ∙ new, hashes-IsDict rest dict)

  length-hashes : (corpus : Mapping) → length (hashes lib written_at corpus) ≡ length corpus
  length-hashes [] = refl
  length-hashes ((j, s) ∷ rest) = ap (λ n. suc n) (length-hashes rest)

  has_matched :
      (matching : Bool) (done : Stepped S) (store store' : Store S) (result : IndexRunResult)
      → (if matching then done else (none, store)) ≡ (some result, store')
      → matching ≡ true
  has_matched true done store store' result e = refl
  has_matched false done store store' result e = cc

  idle :
      (corpus : Mapping) (diff : CorpusDiff) (store : Store S)
      → diff.changed ≡ []
      → diff.removed ≡ []
      → apply_diff lib written_at corpus diff store
        ≡ (some (nothing_done lib written_at (length diff.unchanged)), store)
  unfolding remove_all index_all
  idle corpus diff store c r = rw (c, r) refl

  -- The run after a run that succeeded, over the same corpus, succeeds and does nothing: it counts
  -- every runbook as skipped, embeds, indexes and deletes no chunk, and leaves the index and the
  -- manifest as they were. The corpus is a dict, and every chunk names the runbook it was cut from.
  pub second_run_idle :
      (corpus : Mapping) (result : IndexRunResult) (store store' : Store S)
      → IsDict corpus
      → AllNamed lib written_at corpus
      → run lib written_at corpus store ≡ (some result, store')
      → run lib written_at corpus store'
        ≡ (some (nothing_done lib written_at (length corpus)), store')
  unfolding run diff_corpus
  second_run_idle corpus result store store' dict named e =
      let m = manifest_of store'.documents in
      let on_disk = hashes lib written_at corpus in
      let same : (k : String) → get k m ≡ get k on_disk =
        λ k. recorded-run lib written_at k corpus result store store' named e in
      let (changed, unchanged) =
        Agrees-changed m on_disk
          (dict-Agrees m on_disk (hashes-IsDict corpus dict) (λ k d q. same k ∙ q)) in
      let diff = diff_corpus on_disk m in
      ap (λ b. if b then apply_diff lib written_at corpus diff store' else (none, store'))
        (has_matched lib.dims_match _ store store' result e)
      ∙ idle corpus diff store' (ap sorted changed) (ap sorted (same_removed m on_disk same))
      ∙ ap (λ n. (some (nothing_done lib written_at n), store'))
          (length-sorted (unchanged_ids m on_disk) ∙ unchanged ∙ length-hashes corpus)
