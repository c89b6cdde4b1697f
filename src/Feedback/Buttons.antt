-- ===== src/Feedback/Buttons.antt =====
-- The buttons of a card are read back as what they mean, and its sections fit.
use Prim.Native.String.{◌++◌ as str_append}
use text.Mathlib.TextLemmas.{nil-append, cons-append}
use radar_system.Prelude.{
  ◌∙◌, ℕ, zero, suc, ◌+◌, ◌-◌, ◌≤◌, String, ◌≡◌, refl, ap, Bool, true, false, Option, none, some,
  [], ◌∷◌, ◌++◌, arith, map, leb, leb→le, All, Bool-cases, inl, inr, str_eq, if◌then◌else◌,
}
use radar_system.Contracts.{UuidNumber}
use radar_system.Database.Lifecycle.{status_resolved}
use radar_system.Feedback.Callbacks.{
  InteractionAction, feedback_up, feedback_down, resolve, action_of_value, NotificationInteraction,
  CallbackResult, callback, parse_callback,
}
use radar_system.Feedback.Cards.{
  TextLib, RcaCardData, Button, Block, header, fields, divider, section, actions, context,
  characters, first_characters, section_text_limit, truncation_marker, truncate, buttons,
  format_actions, acknowledged, format_rca_card,
}

-- the interaction that the click of a button sends
abbrev pub click : String → String → String → Button → NotificationInteraction
click user channel ts b = record {
  action_id = b.action_id;
  value = some b.value;
  user_id = user;
  channel_id = channel;
  message_ts = ts;
}

abbrev pub read_as : String → String → String → UuidNumber → InteractionAction → CallbackResult
read_as user channel ts id action = callback (record {
  action = action;
  recommendation_id = id;
  user_id = user;
  channel_id = channel;
  message_ts = ts;
})

-- Where the text of the recommendation's id reads back as the id, each button of a card is read as
-- its own action on that recommendation: the two ratings always, and the resolution only on the
-- card of an incident that is not resolved.
pub clicks_round_trip :
    (texts : TextLib) (id : UuidNumber) (resolved : Bool) (user channel ts : String)
    → texts.uuid_of (texts.uuid_text id) ≡ some id
    → map (λ b. parse_callback texts.uuid_of (click user channel ts b)) (buttons texts id resolved)
      ≡ map
          (read_as user channel ts id)
          (feedback_up ∷ feedback_down ∷ (if resolved then [] else resolve ∷ []))
unfolding parse_callback buttons action_of_value
clicks_round_trip texts id true user channel ts h = rw h refl
clicks_round_trip texts id false user channel ts h = rw h refl

characters-append : (s t : String) → characters (str_append s t) ≡ characters s + characters t
characters-append String.[] t = ap characters (nil-append t) ∙ omega arith
characters-append (String.◌∷◌ c s) t =
    ap characters (cons-append c s t) ∙ omega (arith, characters-append s t)

first_characters_le : (n : ℕ) (s : String) → characters (first_characters n s) ≤ n
first_characters_le zero s = omega arith
first_characters_le (suc n) String.[] = omega arith
first_characters_le (suc n) (String.◌∷◌ c s) = omega (arith, first_characters_le n s)

pub truncate_fits : (body : String) → characters (truncate body) ≤ section_text_limit
unfolding truncate
truncate_fits body = elim (Bool-cases (leb (characters body) section_text_limit)) [
  | inl e ↦ rw e (leb→le (characters body) section_text_limit e)
  | inr e ↦ rw e (
      omega (
        arith,
        characters-append
            (first_characters (section_text_limit - characters truncation_marker) body)
            truncation_marker,
        first_characters_le (section_text_limit - characters truncation_marker) body,
      ))
]

-- A section with one text is within the limit. The header and the section of fields are not cut by
-- the source, and nothing is asked of them.
abbrev pub IsFitting : Block → Type 0
IsFitting (section body) = characters body ≤ 2900
IsFitting (header h) = Unit
IsFitting (fields f) = Unit
IsFitting divider = Unit
IsFitting (actions b) = Unit
IsFitting (context c) = Unit

foot_fits :
    (resolved fallback : Bool) (done said footer : String) (ack : Option String)
    → All IsFitting (
        (if resolved then context done ∷ [] else [])
        ++ (if fallback then context said ∷ [] else [])
        ++ context footer ∷ acknowledged ack)
foot_fits true true done said footer none = (tt, (tt, (tt, tt)))
foot_fits true true done said footer (some a) = (tt, (tt, (tt, (tt, tt))))
foot_fits true false done said footer none = (tt, (tt, tt))
foot_fits true false done said footer (some a) = (tt, (tt, (tt, tt)))
foot_fits false true done said footer none = (tt, (tt, tt))
foot_fits false true done said footer (some a) = (tt, (tt, (tt, tt)))
foot_fits false false done said footer none = (tt, tt)
foot_fits false false done said footer (some a) = (tt, (tt, tt))

-- Every section of a card that holds one text, not fields, has at most 2900 characters, whatever
-- the recommendation says.
pub card_fits :
    (texts : TextLib) (data_of : RcaCardData) (ack : Option String)
    → All IsFitting (format_rca_card texts data_of ack).1
unfolding format_rca_card
card_fits texts data_of ack =
    let cause = truncate_fits (str_append "*Root cause*\n" data_of.root_cause) in
    let todo =
      truncate_fits
        (str_append "*Recommended actions*\n" (format_actions texts data_of.recommended_actions)) in
    let foot = foot_fits (str_eq data_of.status status_resolved) data_of.is_fallback _ _ _ ack in
    (tt, (tt, (tt, (cause, (todo, (tt, foot))))))
