-- ===== src/Knowledge/Retrieval.antt =====
-- apps/knowledge-service/src/radar_knowledge_service/query.py and retrieval.py: the text of a
-- search, and the fusion of its two legs. The embedder and the two searches are parameters; `none`
-- of a call is its exception.
use Prim.Native.String.{◌++◌ as str_append}
use radar_system.Prelude.{
  ℕ, String, ◌||◌, Option, none, some, List, [], ◌∷◌, ◌++◌, map, str_eq, order_by, if◌then◌else◌,
}
use radar_system.Knowledge.Fusion.{Dict, lookup, put, FloatLib, reciprocal_rank_fusion}
use radar_system.Knowledge.Grading.{Hit}

pub record SearchLib (V N : Type 0) : Type 0 where
  pub strip : String → String
  pub embed : List String → Option (List V)
  pub search_bm25 : String → Option String → ℕ → Option (List Hit)
  pub search_knn : V → Option String → ℕ → Option (List Hit)
  pub floats : FloatLib N

abbrev pub rank_constant : ℕ
rank_constant = 60

-- `setdefault`
abbrev pub set_default : Hit → Dict Hit → Dict Hit
set_default hit by_id = elim (lookup hit.chunk_id by_id) [
  | some h ↦ by_id
  | none ↦ put hit.chunk_id hit by_id
]

abbrev pub by_ids : List Hit → Dict Hit → Dict Hit
by_ids [] by_id = by_id
by_ids (hit ∷ rest) by_id = by_ids rest (set_default hit by_id)

abbrev pub with_hit : Option Hit → Option (List Hit) → Option (List Hit)
with_hit none others = none
with_hit (some h) none = none
with_hit (some h) (some hits) = some (h ∷ hits)

-- `[by_id[chunk_id] for chunk_id in fused_ids]`; `none` is a KeyError
abbrev pub found_hits : Dict Hit → List String → Option (List Hit)
found_hits by_id [] = some []
found_hits by_id (id ∷ rest) = with_hit (lookup id by_id) (found_hits by_id rest)

abbrev pub hit_ids : List Hit → List String
hit_ids hits = map (λ (h : Hit). h.chunk_id) hits

abbrev pub found_ids : Dict Hit → Option (List String) → Option (List Hit)
found_ids by_id none = none
found_ids by_id (some ids) = found_hits by_id ids

abbrev pub graded_by : Option (List Hit → List Hit) → Option (List Hit) → Option (List Hit)
graded_by grader none = none
graded_by none (some hits) = some hits
graded_by (some grade) (some hits) = some (grade hits)

module _ {V N : Type 0} (lib : SearchLib V N) where
  -- the descriptions that are not blank
  abbrev pub described : List (ℕ × String) → List String
  described [] = []
  described ((order, description) ∷ rest) =
      if str_eq (lib.strip description) ""
      then described rest
      else lib.strip description ∷ described rest

  -- `" ".join`
  abbrev pub spaced : List String → String
  spaced [] = ""
  spaced (t ∷ []) = t
  spaced (t ∷ u ∷ rest) = str_append t (str_append " " (spaced (u ∷ rest)))

  -- `build_query`; `none` is the ValueError
  unfoldable pub build_query : String → String → List (ℕ × String) → Option String
  build_query service_name alert_name steps =
      if str_eq (lib.strip service_name) "" || str_eq (lib.strip alert_name) ""
      then none
      else some (
          spaced (
            lib.strip service_name
            ∷ lib.strip alert_name
            ∷ described (order_by (λ (s : ℕ × String). s.0) steps)))

  abbrev pub fused : ℕ → List Hit → List Hit → Option (List Hit)
  fused limit lexical vectorial = found_ids (by_ids (vectorial ++ lexical) []) (
      reciprocal_rank_fusion lib.floats (hit_ids lexical ∷ hit_ids vectorial ∷ []) rank_constant
        (some limit))

  abbrev pub second_leg : ℕ → List Hit → Option (List Hit) → Option (List Hit)
  second_leg limit lexical none = none
  second_leg limit lexical (some vectorial) = fused limit lexical vectorial

  abbrev pub first_leg : ℕ → Option (List Hit) → Option (List Hit) → Option (List Hit)
  first_leg limit none second = none
  first_leg limit (some lexical) second = second_leg limit lexical second

  -- `(vector,) = …`, and what follows it
  abbrev pub with_vector : String → Option String → ℕ → ℕ → Option (List V) → Option (List Hit)
  with_vector query service_name leg_size limit (some (vector ∷ [])) =
      first_leg limit (lib.search_bm25 query service_name leg_size)
        (lib.search_knn vector service_name leg_size)
  with_vector query service_name leg_size limit none = none
  with_vector query service_name leg_size limit (some []) = none
  with_vector query service_name leg_size limit (some (v ∷ w ∷ rest)) = none

  -- `HybridRetriever.retrieve`
  unfoldable pub retrieve :
      Option (List Hit → List Hit) → ℕ → String → Option String → ℕ → Option (List Hit)
  retrieve grader leg_size query service_name limit =
      if str_eq (lib.strip query) ""
      then none
      else graded_by grader (with_vector query service_name leg_size limit (lib.embed (query ∷ [])))
