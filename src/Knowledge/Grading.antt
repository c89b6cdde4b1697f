-- ===== src/Knowledge/Grading.antt =====
-- apps/knowledge-service/src/radar_knowledge_service/crag.py and crag_client.py: the model's grades
-- of the retrieved chunks, and what is left where the call fails. HTTP, Pydantic and the cuts of a
-- text are parameters.
use Prim.Native.String.{◌++◌ as str_append}
use radar_system.Prelude.{
  ℕ, String, Bool, true, false, not, ◌==◌, Option, none, some, List, [], ◌∷◌, map, any,
  if◌then◌else◌,
}
use radar_system.Knowledge.Reconciliation.{is_text}
use radar_system.Knowledge.Fusion.{Dict, lookup, put, get_or, ids_of}

pub data Grade : Type 0 where
  sufficient : Grade
  partial : Grade
  insufficient : Grade

abbrev pub grade_value : Grade → String
grade_value sufficient = "sufficient"
grade_value partial = "partial"
grade_value insufficient = "insufficient"

-- `ChunkGrade`
pub record ChunkGrade : Type 0 where
  pub chunk_id : String
  pub grade : Grade

-- A retrieved chunk: a dict, of which the fields that the stage reads.
pub record Hit : Type 0 where
  pub chunk_id : String
  pub runbook_id : Option String
  pub section : Option String
  pub text : Option String
  pub grade : Option String

-- `validate` is `CragGrades.model_validate_json`, `content` that of `_CompleteResponse`.
pub record CragLib : Type 0 where
  pub strip : String → String
  pub is_fenced : String → Bool
  pub after_line : String → Option String
  pub before_fence : String → String
  pub validate : String → Option (List ChunkGrade)
  pub content : String → Option String

-- What the call of the gateway comes to.
pub data Posted : Type 0 where
  reply : ℕ → String → Posted
  timed_out : Posted
  transport_failed : String → Posted

abbrev pub is_usable : Option Grade → Bool
is_usable none = false
is_usable (some sufficient) = true
is_usable (some partial) = true
is_usable (some insufficient) = false

abbrev pub excerpt : Hit → String
excerpt c = str_append "--- chunk_id: " (
    str_append c.chunk_id (
      str_append "\nrunbook: " (
        str_append (get_or "?" c.runbook_id) (
          str_append " | section: "
            (str_append (get_or "?" c.section) (str_append "\n" (get_or "" c.text)))))))

-- `"\n\n".join`
abbrev pub joined : List String → String
joined [] = ""
joined (t ∷ []) = t
joined (t ∷ u ∷ rest) = str_append t (str_append "\n\n" (joined (u ∷ rest)))

-- `build_grading_prompt`; `none` is the ValueError
abbrev pub build_grading_prompt : String → List Hit → Option String
build_grading_prompt query [] = none
build_grading_prompt query (c ∷ rest) = some (
    str_append "INCIDENT:\n"
      (str_append query (str_append "\n\nEXCERPTS:\n" (joined (map excerpt (c ∷ rest))))))

-- the loop over the entries; `none` is the error of a chunk graded twice
abbrev pub collect : List ChunkGrade → Dict Grade → Option (Dict Grade)
collect [] grades = some grades
collect (e ∷ rest) grades = elim (lookup e.chunk_id grades) [
  | some g ↦ none
  | none ↦ collect rest (put e.chunk_id e.grade grades)
]

abbrev pub is_graded : Dict Grade → String → Bool
is_graded grades id = any (is_text id) (ids_of grades)

-- nothing missing, nothing unknown
abbrev pub covering : List String → Option (Dict Grade) → Option (Dict Grade)
covering expected none = none
covering expected (some grades) =
    if any (λ id. not (is_graded grades id)) expected
    then none
    else if any (λ id. not (any (is_text id) expected)) (ids_of grades)
    then none
    else some grades

abbrev pub collected : List String → Option (List ChunkGrade) → Option (Dict Grade)
collected expected none = none
collected expected (some entries) = covering expected (collect entries [])

abbrev pub kept_graded : Hit → Option Grade → List Hit → List Hit
kept_graded c none kept = kept
kept_graded c (some g) kept =
    if is_usable (some g) then record c { grade = some (grade_value g) } ∷ kept else kept

-- `apply_grades`
unfoldable pub apply_grades : List Hit → Dict Grade → List Hit
apply_grades [] grades = []
apply_grades (c ∷ rest) grades = kept_graded c (lookup c.chunk_id grades) (apply_grades rest grades)

module _ (lib : CragLib) where
  abbrev pub fence_cut : String → String
  fence_cut text =
      if lib.is_fenced text then lib.before_fence (get_or "" (lib.after_line text)) else text

  -- `parse_grades`; `none` is the CragParseError
  unfoldable pub parse_grades : String → List String → Option (Dict Grade)
  parse_grades payload expected = collected expected (lib.validate (fence_cut (lib.strip payload)))

  abbrev pub keep_usable : List Hit → Option (Dict Grade) → List Hit
  keep_usable chunks none = chunks
  keep_usable chunks (some grades) = apply_grades chunks grades

  abbrev pub read_reply : List Hit → Option String → List Hit
  read_reply chunks none = chunks
  read_reply chunks (some content) =
      keep_usable chunks (parse_grades content (map (λ (c : Hit). c.chunk_id) chunks))

  abbrev pub after_call : List Hit → Posted → List Hit
  after_call chunks timed_out = chunks
  after_call chunks (transport_failed name) = chunks
  after_call chunks (reply status body) =
      if status == 200 then read_reply chunks (lib.content body) else chunks

  -- `GatewayGrader.grade`; `post` sends the rendered prompt
  unfoldable pub grade : (String → Posted) → String → List Hit → List Hit
  grade post query [] = []
  grade post query (c ∷ rest) = elim (build_grading_prompt query (c ∷ rest)) [
    | some prompt ↦ after_call (c ∷ rest) (post prompt)
    | none ↦ c ∷ rest
  ]
