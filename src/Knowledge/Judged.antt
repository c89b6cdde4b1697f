-- ===== src/Knowledge/Judged.antt =====
-- What an empty answer of the grader says.
use radar_system.Prelude.{
  String, ◌≡◌, refl, sym, ap, subst, ◌∙◌, true, false, not, ◌==◌, Option, none, some, List, [], ◌∷◌,
  inl, inr, map, any, All, str_eq, eq_iff, Bool-cases, Option-cases, ==→eq, if◌then◌else◌,
}
use radar_system.Knowledge.Reconciliation.{is_text}
use radar_system.Knowledge.Fusion.{Dict, lookup, put, ids_of}
use radar_system.Knowledge.Positions.{is_there, lookup-put, ids-lookup}
use radar_system.Knowledge.Grading.{
  Grade, insufficient, sufficient, partial, ChunkGrade, Hit, CragLib, Posted, reply, timed_out,
  transport_failed, is_usable, collect, is_graded, covering, collected, apply_grades, fence_cut,
  parse_grades, keep_usable, read_reply, after_call, build_grading_prompt, grade,
}

-- The grade that the entries of a reply give a chunk.
abbrev entry_grade : String → List ChunkGrade → Option Grade
entry_grade id [] = none
entry_grade id (e ∷ rest) = if str_eq e.chunk_id id then some e.grade else entry_grade id rest

abbrev or_else : Option Grade → Option Grade → Option Grade
or_else none o = o
or_else (some g) o = some g

or_else-none : (o : Option Grade) → or_else o none ≡ o
or_else-none none = refl
or_else-none (some g) = refl

collected_grade :
    (id : String) (entries : List ChunkGrade) (before grades : Dict Grade)
    → collect entries before ≡ some grades
    → lookup id grades ≡ or_else (lookup id before) (entry_grade id entries)
collected_grade id [] before grades e =
    ap (λ (o : Option (Dict Grade)). elim o [ some g ↦ lookup id g | none ↦ none ]) (sym e)
    ∙ sym (or_else-none (lookup id before))
collected_grade id (x ∷ rest) before grades e = elim (Option-cases (lookup x.chunk_id before)) [
  | inr (g, q) ↦ cc (rw (collect, q) at e)
  | inl q ↦
      collected_grade id rest (put x.chunk_id x.grade before) grades (rw (collect, q) at e)
      ∙ rw (lookup-put id x.chunk_id x.grade before) (elim (Bool-cases (str_eq x.chunk_id id)) [
        | inl same ↦
            rw (same, sym (ap (λ k. lookup k before) ((eq_iff x.chunk_id id).0 same)), q) refl
        | inr other ↦ rw other refl
      ])
]

-- what an empty selection says of each chunk
unusable :
    (chunks : List Hit) (grades : Dict Grade)
    → apply_grades chunks grades ≡ []
    → All (λ (c : Hit). is_usable (lookup c.chunk_id grades) ≡ false) chunks
unfolding apply_grades
unusable [] grades e = tt
unusable (c ∷ rest) grades e = elim (Option-cases (lookup c.chunk_id grades)) [
  | inl q ↦ (rw q refl, unusable rest grades (rw q at e))
  | inr (g, q) ↦ elim (Bool-cases (is_usable (some g))) [
    | inl t ↦ cc (rw (q, t) at e)
    | inr t ↦ (rw q t, unusable rest grades (rw (q, t) at e))
  ]
]

every_chunk_graded :
    (chunks : List Hit) (grades : Dict Grade)
    → any (λ id. not (is_graded grades id)) (map (λ (c : Hit). c.chunk_id) chunks) ≡ false
    → All (λ (c : Hit). is_there (lookup c.chunk_id grades) ≡ true) chunks
every_chunk_graded [] grades e = tt
every_chunk_graded (c ∷ rest) grades e = elim (Bool-cases (is_graded grades c.chunk_id)) [
  | inl q ↦ (sym (ids-lookup c.chunk_id grades) ∙ q, every_chunk_graded rest grades (rw q at e))
  | inr q ↦ cc (rw q at e)
]

refused_grade : (o : Option Grade) → is_there o ≡ true → is_usable o ≡ false → o ≡ some insufficient
refused_grade none t u = cc
refused_grade (some sufficient) t u = cc
refused_grade (some partial) t u = cc
refused_grade (some insufficient) t u = refl

every_chunk_refused :
    (chunks : List Hit) (grades : Dict Grade) (entries : List ChunkGrade)
    → collect entries [] ≡ some grades
    → All (λ (c : Hit). is_there (lookup c.chunk_id grades) ≡ true) chunks
    → All (λ (c : Hit). is_usable (lookup c.chunk_id grades) ≡ false) chunks
    → All (λ (c : Hit). entry_grade c.chunk_id entries ≡ some insufficient) chunks
every_chunk_refused [] grades entries e t u = tt
every_chunk_refused (c ∷ rest) grades entries e (t, ts) (u, us) = (
  sym (collected_grade c.chunk_id entries [] grades e)
      ∙ refused_grade (lookup c.chunk_id grades) t u,
  every_chunk_refused rest grades entries e ts us,
)

-- The entries cover the chunks, or the reply is refused.
covering_cases :
    (chunks : List Hit) (o : Option (Dict Grade)) (grades : Dict Grade)
    → covering (map (λ (c : Hit). c.chunk_id) chunks) o ≡ some grades
    → (o ≡ some grades) × All (λ (c : Hit). is_there (lookup c.chunk_id grades) ≡ true) chunks
covering_cases chunks none grades e = cc
covering_cases chunks (some g) grades e =
    elim (Bool-cases (any (λ id. not (is_graded g id)) (map (λ (c : Hit). c.chunk_id) chunks))) [
      | inl q ↦ cc (rw q at e)
      | inr q ↦
          elim (Bool-cases (
            any (λ id. not (any (is_text id) (map (λ (c : Hit). c.chunk_id) chunks))) (ids_of g))) [
              | inl t ↦ cc (rw (q, t) at e)
              | inr t ↦
                  let same : g ≡ grades = cc (rw (q, t) at e) in
                  (
                    ap some same,
                    subst (λ x. All (λ (c : Hit). is_there (lookup c.chunk_id x) ≡ true) chunks)
                        same (every_chunk_graded chunks g q),
                  )
            ]
    ]

module _ (lib : CragLib) where
  -- The model has graded every chunk insufficient: the reply is there and can be read, and its
  -- entries say so.
  abbrev pub AllRefused : List Hit → Posted → Type 0
  AllRefused chunks answer =
      (body : String) × (content : String) × (entries : List ChunkGrade) × (answer ≡ reply 200 body)
      × (lib.content body ≡ some content)
      × (lib.validate (fence_cut lib (lib.strip content)) ≡ some entries)
      × All (λ (c : Hit). entry_grade c.chunk_id entries ≡ some insufficient) chunks

  -- what a collected reply says where nothing is kept
  kept_none :
      (c : Hit) (rest : List Hit) (o : Option (List ChunkGrade))
      → keep_usable lib (c ∷ rest) (collected (map (λ (c : Hit). c.chunk_id) (c ∷ rest)) o) ≡ []
      → (entries : List ChunkGrade) × (o ≡ some entries)
        × All (λ (c : Hit). entry_grade c.chunk_id entries ≡ some insufficient) (c ∷ rest)
  kept_none c rest none e = cc
  kept_none c rest (some entries) e =
      let chunks = c ∷ rest in
      let expected = map (λ (c : Hit). c.chunk_id) chunks in
      elim (Option-cases (covering expected (collect entries []))) [
        | inl q ↦ cc (ap (keep_usable lib chunks) (sym q) ∙ e)
        | inr (grades, q) ↦
            let (all_collected, there) = covering_cases chunks (collect entries []) grades q in
            (
              entries,
              refl,
              every_chunk_refused chunks grades entries all_collected there
                  (unusable chunks grades (ap (keep_usable lib chunks) (sym q) ∙ e)),
            )
      ]

  called_none :
      (c : Hit) (rest : List Hit) (answer : Posted)
      → after_call lib (c ∷ rest) answer ≡ []
      → AllRefused (c ∷ rest) answer
  unfolding parse_grades
  called_none c rest timed_out e = cc
  called_none c rest (transport_failed name) e = cc
  called_none c rest (reply status body) e = elim (Bool-cases (status == 200)) [
    | inr q ↦ cc (rw q at e)
    | inl q ↦
        let read : read_reply lib (c ∷ rest) (lib.content body) ≡ [] = rw q at e in
        elim (Option-cases (lib.content body)) [
          | inl t ↦ cc (ap (read_reply lib (c ∷ rest)) (sym t) ∙ read)
          | inr (content, t) ↦
              let (entries, valid, refused) =
                kept_none c rest (lib.validate (fence_cut lib (lib.strip content)))
                  (ap (read_reply lib (c ∷ rest)) (sym t) ∙ read) in
              (
                body,
                content,
                entries,
                ap (λ n. reply n body) (==→eq status 200 q),
                t,
                valid,
                refused,
              )
        ]
  ]

  -- An empty answer on chunks that are there is the model's judgement and never a failed call: the
  -- prompt was built and posted, the reply was a 200 that could be read, and it grades every chunk
  -- insufficient.
  pub empty_is_judgement :
      (post : String → Posted) (query : String) (c : Hit) (rest : List Hit)
      → grade lib post query (c ∷ rest) ≡ []
      → (prompt : String) × (build_grading_prompt query (c ∷ rest) ≡ some prompt)
        × AllRefused (c ∷ rest) (post prompt)
  unfolding grade
  empty_is_judgement post query c rest e = (_, refl, called_none c rest (post _) e)
