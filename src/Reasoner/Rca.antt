-- ===== src/Reasoner/Rca.antt =====
-- apps/reasoner-agent/src/radar_reasoner_agent/rca.py: the model's text, read as an analysis or
-- refused. `json.loads`, the fence's regular expression, the searches in a text and Pydantic's
-- reading of the fields are parameters; a JSON value that is no text is one of `J`.
use Prim.Native.String.{slice}
use radar_system.Prelude.{
  ℕ, suc, String, Bool, true, false, not, ◌&&◌, Option, none, some, List, [], ◌∷◌, ltb, str_eq,
  if◌then◌else◌,
}
use radar_system.Contracts.{
  Confidence, RecommendedAction, is_action, FailureText, no_json_object, field_errors,
}

pub data RcaParseFailureReason : Type 0 where
  not_json schema_invalid : RcaParseFailureReason

pub record ParsedRca : Type 0 where
  pub root_cause : String
  pub confidence : Confidence
  pub recommended_actions : List RecommendedAction

pub data RcaResult : Type 0 where
  parsed : ParsedRca → RcaResult
  unusable : RcaParseFailureReason → FailureText → RcaResult

pub data Json (J : Type 0) : Type 0 where
  text : String → Json J
  other : J → Json J

abbrev pub Object : Type 0 → Type 0
Object J = List (String × Json J)

-- what `json.loads` gives: an object, another value, or a ValueError
pub data Loaded (J : Type 0) : Type 0 where
  object : Object J → Loaded J
  not_an_object : Loaded J
  unreadable : Loaded J

-- The library calls of the parser. `read_fields` reads the three fields at their types;
-- `none` is a missing field or a value of another type.
pub record RcaLib (J : Type 0) : Type 0 where
  pub strip : String → String
  pub lower : String → String
  pub fenced : String → Option String
  pub loads : String → Loaded J
  pub find_brace : String → Option ℕ
  pub rfind_brace : String → Option ℕ
  pub read_fields : Object J → Option ParsedRca
  pub error_count : Object J → ℕ

abbrev pub all_actions : List RecommendedAction → Bool
all_actions [] = true
all_actions (a ∷ rest) = is_action a && all_actions rest

-- the constraints of `ParsedRCA`: a cause, and at least one action, each well-formed
abbrev pub is_complete : ParsedRca → Bool
is_complete rca =
    not (str_eq rca.root_cause "")
    && elim rca.recommended_actions [ [] ↦ false | a ∷ rest ↦ all_actions (a ∷ rest) ]

module _ {J : Type 0} (py : RcaLib J) where
  -- `_normalize`: a confidence that is a text is stripped and lowered
  abbrev pub normalize : Object J → Object J
  normalize [] = []
  normalize ((k, v) ∷ rest) =
      (
        k,
        if str_eq k "confidence"
            then elim v [ text t ↦ text (py.lower (py.strip t)) | other j ↦ other j ]
            else v,
      )
      ∷ normalize rest

  abbrev pub object_of : Loaded J → Option (Object J)
  object_of (object o) = some (normalize o)
  object_of not_an_object = none
  object_of unreadable = none

  -- the outermost braces of a text that `json.loads` refuses
  abbrev pub carve : String → Option ℕ → Option ℕ → Option (Object J)
  carve t none end = none
  carve t (some start) none = none
  carve t (some start) (some end) =
      if ltb start end then object_of (py.loads (slice t start (suc end))) else none

  abbrev pub extract_loaded : String → Loaded J → Option (Object J)
  extract_loaded t (object o) = some (normalize o)
  extract_loaded t not_an_object = none
  extract_loaded t unreadable = carve t (py.find_brace t) (py.rfind_brace t)

  abbrev pub unfenced : String → Option String → String
  unfenced t none = t
  unfenced t (some body) = py.strip body

  -- `_extract_json_object`
  abbrev pub extract_json_object : String → Option (Object J)
  extract_json_object content =
      let t = py.strip content in
      let body = unfenced t (py.fenced t) in
      if str_eq t "" then none else extract_loaded body (py.loads body)

  -- `ParsedRCA.model_validate`
  abbrev pub validated : Object J → Option ParsedRca → RcaResult
  validated document none =
      unusable RcaParseFailureReason.schema_invalid (field_errors (py.error_count document))
  validated document (some rca) =
      if is_complete rca
      then parsed rca
      else unusable RcaParseFailureReason.schema_invalid (field_errors (py.error_count document))

  abbrev pub parse_document : Option (Object J) → RcaResult
  parse_document none = unusable RcaParseFailureReason.not_json no_json_object
  parse_document (some document) = validated document (py.read_fields document)

  -- `parse_rca`
  unfoldable pub parse_rca : String → RcaResult
  parse_rca content = parse_document (extract_json_object content)
