-- ===== src/Knowledge/Fusion.antt =====
-- apps/knowledge-service/src/radar_knowledge_service/fusion.py: ranked lists of ids, fused into
-- one. The floats are a parameter, `FloatLib`.
use Prim.Native.Nat.{Ordering}
use Prim.Native.String.{compare}
use radar_system.Prelude.{
  ℕ, zero, suc, ◌+◌, String, Bool, true, false, Option, none, some, List, [], ◌∷◌, take, str_eq,
  ltb, if◌then◌else◌,
}

-- `share c p` is 1.0 / (c + p); `higher x y` is -x < -y
pub record FloatLib (N : Type 0) : Type 0 where
  pub zero : N
  pub add : N → N → N
  pub share : ℕ → ℕ → N
  pub higher : N → N → Bool

-- A dict, its keys in the order in which they came.
abbrev pub Dict : Type 0 → Type 0
Dict A = List (String × A)

-- `d.get(key)`
abbrev pub lookup : {A : Type 0} → String → Dict A → Option A
lookup key [] = none
lookup key ((k, v) ∷ rest) = if str_eq k key then some v else lookup key rest

-- `d[key] = value`
abbrev pub put : {A : Type 0} → String → A → Dict A → Dict A
put key value [] = (key, value) ∷ []
put key value ((k, v) ∷ rest) =
    let others = put key value rest in if str_eq k key then (k, value) ∷ rest else (k, v) ∷ others

-- `d.get(key, default)`
abbrev pub get_or : {A : Type 0} → A → Option A → A
get_or default none = default
get_or default (some x) = x

abbrev pub ids_of : {A : Type 0} → Dict A → List String
ids_of [] = []
ids_of ((k, v) ∷ rest) = k ∷ ids_of rest

pub record Tally (N : Type 0) : Type 0 where
  pub scores : Dict N
  pub best_position : Dict ℕ

module _ {N : Type 0} (lib : FloatLib N) where
  -- the body of the inner loop
  abbrev pub count : ℕ → String → ℕ → Tally N → Tally N
  count c identifier position t = record {
    scores =
        put identifier
          (lib.add (get_or lib.zero (lookup identifier t.scores)) (lib.share c position)) t.scores;
    best_position =
        if ltb position (get_or (position + 1) (lookup identifier t.best_position))
        then put identifier position t.best_position
        else t.best_position;
  }

  -- `for position, identifier in enumerate(ranking, start=1)`, from a position on
  abbrev pub count_ranking : ℕ → ℕ → List String → Tally N → Tally N
  count_ranking c position [] t = t
  count_ranking c position (identifier ∷ rest) t =
      count_ranking c (position + 1) rest (count c identifier position t)

  abbrev pub count_rankings : ℕ → List (List String) → Tally N → Tally N
  count_rankings c [] t = t
  count_rankings c (ranking ∷ rest) t = count_rankings c rest (count_ranking c 1 ranking t)

  abbrev pub tallied : ℕ → List (List String) → Tally N
  tallied c rankings = count_rankings c rankings (record { scores = []; best_position = [] })

  abbrev pub precedes_tie : ℕ → ℕ → String → String → Bool
  precedes_tie p q a b =
      if ltb p q
      then true
      else if ltb q p
      then false
      else elim (compare a b) [ Ordering.lt ↦ true | Ordering.eq ↦ false | Ordering.gt ↦ false ]

  -- the order of the keys (-score, best position, id)
  abbrev pub precedes : Tally N → String → String → Bool
  precedes t a b =
      let x = get_or lib.zero (lookup a t.scores) in
      let y = get_or lib.zero (lookup b t.scores) in
      if lib.higher x y
      then true
      else if lib.higher y x
      then false
      else precedes_tie (get_or 0 (lookup a t.best_position)) (get_or 0 (lookup b t.best_position))
          a b

  abbrev pub insert_ranked : Tally N → String → List String → List String
  insert_ranked t a [] = a ∷ []
  insert_ranked t a (b ∷ rest) =
      let later = b ∷ insert_ranked t a rest in if precedes t b a then later else a ∷ b ∷ rest

  abbrev pub sort_ranked : Tally N → List String → List String
  sort_ranked t [] = []
  sort_ranked t (a ∷ rest) = insert_ranked t a (sort_ranked t rest)

  abbrev pub limited_to : Option ℕ → List String → List String
  limited_to none ids = ids
  limited_to (some limit) ids = take limit ids

  -- `none` is the ValueError; a constant of 0 stands for every one that is not positive
  unfoldable pub reciprocal_rank_fusion : List (List String) → ℕ → Option ℕ → Option (List String)
  reciprocal_rank_fusion rankings zero limit = none
  reciprocal_rank_fusion rankings (suc c) limit =
      let t = tallied (suc c) rankings in some (limited_to limit (sort_ranked t (ids_of t.scores)))
