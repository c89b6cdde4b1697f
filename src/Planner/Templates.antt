-- ===== src/Planner/Templates.antt =====
-- apps/planner-agent/src/radar_planner_agent/templates.py: the exact match, and the default.
use Prim.Native.String.{◌++◌ as str_append}
use radar_system.Prelude.{
  ℕ, String, Bool, true, false, Option, none, some, List, [], ◌∷◌, str_eq, order_by, if◌then◌else◌,
}

abbrev pub default_key : String
default_key = "_default"

-- `template_key`
abbrev pub template_key : String → String → String
template_key service_name alert_name = str_append service_name (str_append ":" alert_name)

pub record PlanStep : Type 0 where
  pub order : ℕ
  pub description : String

pub record InvestigationTemplate : Type 0 where
  pub steps : List PlanStep

-- `ordered_steps`
abbrev pub ordered_steps : InvestigationTemplate → List PlanStep
ordered_steps template = order_by (λ (s : PlanStep). s.order) template.steps

pub record TemplateMatch : Type 0 where
  pub key : String
  pub template : InvestigationTemplate
  pub is_default : Bool

-- `PlanTemplates.templates`, and its `get`
abbrev pub PlanTemplates : Type 0
PlanTemplates = List (String × InvestigationTemplate)

abbrev pub find_template : String → PlanTemplates → Option InvestigationTemplate
find_template key [] = none
find_template key ((k, t) ∷ rest) = if str_eq k key then some t else find_template key rest

abbrev pub or_default : String → PlanTemplates → Option InvestigationTemplate → Option TemplateMatch
or_default key templates (some t) = some (record { key = key; template = t; is_default = false })
or_default key templates none = elim (find_template default_key templates) [
  | some t ↦ some (record { key = default_key; template = t; is_default = true })
  | none ↦ none
]

-- `PlanTemplates.match`; `none` is the KeyError of a document without a default
unfoldable pub match_template : PlanTemplates → String → String → Option TemplateMatch
match_template templates service_name alert_name =
    let key = template_key service_name alert_name in
    or_default key templates (find_template key templates)
