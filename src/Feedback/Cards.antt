-- ===== src/Feedback/Cards.antt =====
-- apps/feedback-service/src/radar_feedback_service/cards.py: the card of a recommendation. A text's
-- length counts characters, as Python's `len` does. `capitalize` and the text of a number or a UUID
-- are the library's.
use Prim.Native.String.{◌++◌ as str_append, slice, len}
use text.Mathlib.Text.{starts_with}
use radar_system.Prelude.{
  ℕ, zero, suc, ◌-◌, String, Bool, Option, none, some, List, [], ◌∷◌, ◌++◌, leb, str_eq, order_by,
  if◌then◌else◌,
}
use radar_system.Contracts.{UuidNumber, RecommendedAction}
use radar_system.Database.Lifecycle.{status_resolved}
use radar_system.Feedback.Callbacks.{
  InteractionAction, feedback_up, feedback_down, resolve, action_value,
}

pub record TextLib : Type 0 where
  pub uuid_text : UuidNumber → String
  pub uuid_of : String → Option UuidNumber
  pub shown : ℕ → String
  pub capitalize : String → String

pub record RcaCardData : Type 0 where
  pub incident_id : UuidNumber
  pub recommendation_id : UuidNumber
  pub service_name : String
  pub title : String
  pub severity : String
  pub status : String
  pub root_cause : String
  pub confidence : String
  pub recommended_actions : List RecommendedAction
  pub is_fallback : Bool

pub record Button : Type 0 where
  pub label : String
  pub action_id : String
  pub value : String
  pub style : Option String

pub data Block : Type 0 where
  header : String → Block
  fields : List String → Block
  divider : Block
  section : String → Block
  actions : List Button → Block
  context : String → Block

-- `len(text)` and `text[:n]`
abbrev pub characters : String → ℕ
characters String.[] = 0
characters (String.◌∷◌ c s) = suc (characters s)

abbrev pub first_characters : ℕ → String → String
first_characters zero s = ""
first_characters (suc n) String.[] = ""
first_characters (suc n) (String.◌∷◌ c s) = String.◌∷◌ c (first_characters n s)

abbrev pub section_text_limit : ℕ
section_text_limit = 2900

abbrev pub truncation_marker : String
truncation_marker = "… (truncated)"

-- `_truncate`
unfoldable pub truncate : String → String
truncate body =
    if leb (characters body) section_text_limit
    then body
    else str_append (first_characters (section_text_limit - characters truncation_marker) body)
        truncation_marker

abbrev pub icon_of : List (String × String) → String → String
icon_of [] value = "⚪"
icon_of ((v, icon) ∷ rest) value = if str_eq v value then icon else icon_of rest value

abbrev pub severity_icons : List (String × String)
severity_icons = ("critical", "🔴") ∷ ("high", "🟠") ∷ ("medium", "🟡") ∷ ("low", "🟢") ∷ []

abbrev pub confidence_icons : List (String × String)
confidence_icons = ("high", "🟢") ∷ ("medium", "🟡") ∷ ("low", "🔴") ∷ []

-- `removeprefix`
abbrev without_prefix : String → String → String
without_prefix prefix s = if starts_with s prefix then slice s (len prefix) (len s) else s

-- `_header_text`
abbrev pub header_text : RcaCardData → String
header_text data_of =
    let alert_name = without_prefix (str_append data_of.service_name " ") data_of.title in
    if data_of.is_fallback
    then str_append "⚠\u{fe0f} RADAR Alert : " (str_append alert_name " — AI Unavailable")
    else str_append "🚨 RADAR Alert : " alert_name

-- `_section`, `_field`
abbrev pub section_of : String → Block
section_of body = section (truncate body)

abbrev pub field_of : String → String → String
field_of label value = str_append "*" (str_append label (str_append "*\n" value))

abbrev pub acknowledged : Option String → List Block
acknowledged none = []
acknowledged (some ack) = context ack ∷ []

module _ (texts : TextLib) where
  -- `_iconize`
  abbrev pub iconize : String → List (String × String) → String
  iconize value icons = str_append (icon_of icons value) (str_append " " (texts.capitalize value))

  abbrev numbered : ℕ → List RecommendedAction → List String
  numbered i [] = []
  numbered i (a ∷ rest) =
      str_append (texts.shown i) (str_append ". " a.action) ∷ numbered (suc i) rest

  abbrev joined : List String → String
  joined [] = ""
  joined (line ∷ []) = line
  joined (line ∷ next ∷ rest) = str_append line (str_append "\n" (joined (next ∷ rest)))

  -- `_format_actions`
  abbrev pub format_actions : List RecommendedAction → String
  format_actions [] = "_No actions recorded._"
  format_actions (a ∷ rest) =
      truncate (joined (numbered 1 (order_by (λ (r : RecommendedAction). r.order) (a ∷ rest))))

  -- `_button`
  abbrev pub button : String → InteractionAction → String → Option String → Button
  button label action value style = record {
    label = label;
    action_id = action_value action;
    value = value;
    style = style;
  }

  -- the elements of `_actions_block`
  unfoldable pub buttons : UuidNumber → Bool → List Button
  buttons recommendation_id resolved =
      let rec = texts.uuid_text recommendation_id in
      button "👍 Helpful" feedback_up rec none
      ∷ button "👎 Not helpful" feedback_down rec none
      ∷ (if resolved then [] else button "✅ Resolve" resolve rec (some "primary") ∷ [])

  -- `format_rca_card`
  unfoldable pub format_rca_card : RcaCardData → Option String → String × List Block
  format_rca_card data_of ack =
      let resolved = str_eq data_of.status status_resolved in
      (
        str_append (header_text data_of) (str_append ": " data_of.title),
        header (header_text data_of)
            ∷ fields (
                field_of "Service" data_of.service_name
                ∷ field_of "Severity" (iconize data_of.severity severity_icons)
                ∷ field_of "Status" (texts.capitalize data_of.status)
                ∷ field_of "Confidence" (iconize data_of.confidence confidence_icons)
                ∷ [])
            ∷ divider
            ∷ section_of (str_append "*Root cause*\n" data_of.root_cause)
            ∷ section_of
                (str_append "*Recommended actions*\n" (format_actions data_of.recommended_actions))
            ∷ actions (buttons data_of.recommendation_id resolved)
            ∷ ((if resolved then context "✅ *Resolved* — no further action needed" ∷ [] else [])
                ++ (if data_of.is_fallback
                    then context
                        "⚠\u{fe0f} Generated without AI — the LLM gateway was unavailable, so these are RADAR's standard investigation steps for this alert."
                      ∷ []
                    else [])
                ++ context
                    (str_append "Incident `" (str_append (texts.uuid_text data_of.incident_id) "`"))
                  ∷ acknowledged ack),
      )
