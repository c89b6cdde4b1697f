-- ===== src/Knowledge/Reconciliation.antt =====
-- apps/knowledge-service/src/radar_knowledge_service/reconciliation.py: which runbooks, and which
-- of their chunks, need work. A mapping is a list of pairs.
use Prim.Native.Nat.{Ordering}
use Prim.Native.String.{compare}
use radar_system.Prelude.{
  ℕ, String, Bool, true, false, not, Option, none, some, List, [], ◌∷◌, any, map, select, str_eq,
  if◌then◌else◌,
}

-- `Chunk` of chunking.py
pub record Chunk : Type 0 where
  pub chunk_id : String
  pub runbook_id : String
  pub title : String
  pub section : String
  pub text : String
  pub ordinal : ℕ
  pub services : List String
  pub severity : String
  pub status : String
  pub alert_name : Option String

pub record CorpusDiff : Type 0 where
  pub changed : List String
  pub unchanged : List String
  pub removed : List String

pub record RunbookDiff : Type 0 where
  pub runbook_id : String
  pub to_embed : List Chunk
  pub unchanged : List String
  pub to_delete : List String

abbrev pub Mapping : Type 0
Mapping = List (String × String)

-- `mapping.get(key)`
abbrev pub get : String → Mapping → Option String
get key [] = none
get key ((k, v) ∷ rest) = if str_eq k key then some v else get key rest

abbrev pub is_text : String → String → Bool
is_text key k = str_eq k key

-- `key in mapping`
abbrev pub has : String → Mapping → Bool
has key [] = false
has key ((k, v) ∷ rest) = if str_eq k key then true else has key rest

abbrev pub keys : Mapping → List String
keys [] = []
keys ((k, v) ∷ rest) = k ∷ keys rest

-- `sorted` on texts
abbrev pub insert_text : String → List String → List String
insert_text s [] = s ∷ []
insert_text s (t ∷ rest) =
    let later = t ∷ insert_text s rest in
    elim (compare s t) [
      | Ordering.lt ↦ s ∷ t ∷ rest
      | Ordering.eq ↦ s ∷ t ∷ rest
      | Ordering.gt ↦ later
    ]

abbrev pub sorted : List String → List String
sorted [] = []
sorted (s ∷ rest) = insert_text s (sorted rest)

-- `manifest.get(runbook_id) == digest`
abbrev pub is_value : Option String → String → Bool
is_value none digest = false
is_value (some d) digest = str_eq d digest

abbrev pub changed_ids : Mapping → Mapping → List String
changed_ids manifest [] = []
changed_ids manifest ((k, digest) ∷ rest) =
    let others = changed_ids manifest rest in
    if is_value (get k manifest) digest then others else k ∷ others

abbrev pub unchanged_ids : Mapping → Mapping → List String
unchanged_ids manifest [] = []
unchanged_ids manifest ((k, digest) ∷ rest) =
    let others = unchanged_ids manifest rest in
    if is_value (get k manifest) digest then k ∷ others else others

abbrev pub removed_ids : Mapping → Mapping → List String
removed_ids on_disk [] = []
removed_ids on_disk ((k, digest) ∷ rest) =
    let others = removed_ids on_disk rest in if has k on_disk then others else k ∷ others

-- `diff_corpus`
unfoldable pub diff_corpus : Mapping → Mapping → CorpusDiff
diff_corpus on_disk manifest = record {
  changed = sorted (changed_ids manifest on_disk);
  unchanged = sorted (unchanged_ids manifest on_disk);
  removed = sorted (removed_ids on_disk manifest);
}

-- `{chunk.chunk_id: chunk for chunk in chunks}`: the first place, the last value
abbrev pub put_chunk : Chunk → List Chunk → List Chunk
put_chunk c [] = c ∷ []
put_chunk c (d ∷ rest) =
    let others = put_chunk c rest in if str_eq d.chunk_id c.chunk_id then c ∷ rest else d ∷ others

abbrev pub put_all : List Chunk → List Chunk → List Chunk
put_all [] known = known
put_all (c ∷ rest) known = put_all rest (put_chunk c known)

abbrev pub chunk_ids : List Chunk → List String
chunk_ids chunks = map (λ (c : Chunk). c.chunk_id) chunks

-- `diff_runbook`
unfoldable pub diff_runbook : String → List Chunk → List String → RunbookDiff
diff_runbook runbook_id chunks stored =
    let produced = put_all chunks [] in
    record {
      runbook_id = runbook_id;
      to_embed = select (λ (c : Chunk). not (any (is_text c.chunk_id) stored)) produced;
      unchanged = select (λ id. any (is_text id) stored) (chunk_ids produced);
      to_delete = select (λ id. not (any (is_text id) (chunk_ids produced))) stored;
    }
