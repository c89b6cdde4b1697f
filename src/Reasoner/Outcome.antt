-- ===== src/Reasoner/Outcome.antt =====
-- Whatever the call came to, one recommendation comes out of it, and its columns agree.
use Prim.Native.String.{◌++◌ as str_append}
use radar_system.Prelude.{
  ℕ, ◌≤◌, String, ◌≡◌, refl, sym, ◌∙◌, Bool, true, false, not, ◌||◌, Option, none, some, List, [],
  ◌∷◌, inl, inr, arith, any, map, length, All, order_by, insert_by, str_eq, Bool-cases, &&-true,
}
use radar_system.Contracts.{
  Confidence, RecommendedAction, is_action, ContextBundle, FallbackReason, FailureText,
  FallbackMetadata, RetrievalMetadata,
}
use radar_system.Reasoner.Rca.{
  ParsedRca, RcaResult, parsed, unusable, RcaLib, Object, is_complete, all_actions, validated,
  parse_document, extract_json_object, parse_rca,
}
use radar_system.Reasoner.Llm.{LlmFailureReason, LlmSuccess, LlmResult, success, failure}
use radar_system.Reasoner.Fallback.{
  ReasoningOutcome, reason_for_llm_failure, reason_for_parse_failure, actions_of, floored,
  generate_template_rca, from_failure, from_analysis, template_outcome, resolve_parsed, resolve,
}

abbrev to_action : ℕ × String → RecommendedAction
to_action s = record { order = s.0; action = s.1 }

-- A step of which no action can be made: its order is 0 or its description is empty.
abbrev pub is_unusable : ℕ × String → Bool
is_unusable s = not (is_action (to_action s))

-- The steps in their order, as actions, or the generic one where there are none.
abbrev pub checklist : ContextBundle → List RecommendedAction
checklist bundle =
    floored (map to_action (order_by (λ (s : ℕ × String). s.0) bundle.investigation_steps))

any-insert_by :
    {A : Type 0} (p : A → Bool) (key : A → ℕ) (x : A) (xs : List A)
    → any p (insert_by key x xs) ≡ (p x || any p xs)
any-insert_by p key x [] = ground arith
any-insert_by p key x (y ∷ ys) = ground (arith, any-insert_by p key x ys)

any-order_by :
    {A : Type 0} (p : A → Bool) (key : A → ℕ) (xs : List A) → any p (order_by key xs) ≡ any p xs
any-order_by p key [] = refl
any-order_by p key (x ∷ xs) =
    any-insert_by p key x (order_by key xs) ∙ ground (arith, any-order_by p key xs)

actions_of_usable :
    (steps : List (ℕ × String))
    → any is_unusable steps ≡ false
    → actions_of steps ≡ some (map to_action steps)
actions_of_usable [] h = refl
actions_of_usable (s ∷ steps) h = elim (Bool-cases (is_action (to_action s))) [
  | inl e ↦ rw (e, actions_of_usable steps (rw e at h)) refl
  | inr e ↦ cc (rw e at h)
]

actions_of_unusable :
    (steps : List (ℕ × String)) → any is_unusable steps ≡ true → actions_of steps ≡ none
actions_of_unusable [] h = cc
actions_of_unusable (s ∷ steps) h = elim (Bool-cases (is_action (to_action s))) [
  | inl e ↦ rw (e, actions_of_unusable steps (rw e at h)) refl
  | inr e ↦ rw e refl
]

-- At least one action, and each is well-formed.
abbrev pub IsActionable : List RecommendedAction → Type 0
IsActionable actions = (1 ≤ length actions) × All (λ a. is_action a ≡ true) actions

all_actions-All :
    (actions : List RecommendedAction)
    → all_actions actions ≡ true
    → All (λ a. is_action a ≡ true) actions
all_actions-All [] h = tt
all_actions-All (a ∷ rest) h =
    let (first, others) = &&-true (is_action a) (all_actions rest) h in
    (first, all_actions-All rest others)

usable-All :
    (steps : List (ℕ × String))
    → any is_unusable steps ≡ false
    → All (λ a. is_action a ≡ true) (map to_action steps)
usable-All [] h = tt
usable-All (s ∷ steps) h = elim (Bool-cases (is_action (to_action s))) [
  | inl e ↦ (e, usable-All steps (rw e at h))
  | inr e ↦ cc (rw e at h)
]

floored-IsActionable :
    (actions : List RecommendedAction)
    → All (λ a. is_action a ≡ true) actions
    → IsActionable (floored actions)
floored-IsActionable [] h = (omega arith, (refl, tt))
floored-IsActionable (a ∷ rest) h = (omega arith, h)

complete-IsActionable :
    (cause : String) (confidence : Confidence) (actions : List RecommendedAction)
    → is_complete
        (record { root_cause = cause; confidence = confidence; recommended_actions = actions })
      ≡ true
    → IsActionable actions
complete-IsActionable cause confidence [] h = cc (&&-true (not (str_eq cause "")) false h).1
complete-IsActionable cause confidence (a ∷ rest) h = (
  omega arith,
  all_actions-All (a ∷ rest) (&&-true (not (str_eq cause "")) (all_actions (a ∷ rest)) h).1,
)

-- The four columns of the call: all as it reported them, or all empty.
abbrev pub HasColumns : Option LlmSuccess → ReasoningOutcome → Type 0
HasColumns none o =
    (o.raw_llm_response ≡ none)
    × (o.prompt_tokens ≡ none)
    × (o.completion_tokens ≡ none)
    × (o.latency_ms ≡ none)
HasColumns (some call) o =
    (o.raw_llm_response ≡ some call.content)
    × (o.prompt_tokens ≡ some call.prompt_tokens)
    × (o.completion_tokens ≡ call.completion_tokens)
    × (o.latency_ms ≡ some call.latency_ms)

-- The model's analysis, under the provider that gave it.
abbrev pub IsAnalysis : LlmSuccess → ParsedRca → ReasoningOutcome → Type 0
IsAnalysis reply rca o =
    (o.is_fallback ≡ false)
    × (o.context_bundle.fallback ≡ none)
    × (o.root_cause ≡ rca.root_cause)
    × (o.confidence ≡ rca.confidence)
    × (o.recommended_actions ≡ rca.recommended_actions)
    × (o.llm_provider ≡ reply.provider)
    × (o.model_alias ≡ reply.mode)
    × (o.model_id ≡ reply.model)
    × HasColumns (some reply) o

abbrev reason_recorded : ReasoningOutcome → Option FallbackReason
reason_recorded o = elim o.context_bundle.fallback [ some why ↦ some why.reason | none ↦ none ]

-- What a template says where the cause would stand.
abbrev unanalysed : ContextBundle → String
unanalysed bundle = str_append "AI analysis unavailable. Manual investigation required for " (
    str_append bundle.service_name (
      str_append " " (
        str_append bundle.alert_name
          ". The recommended actions below are this incident's investigation plan steps, not a model's analysis.")))

-- The checklist of the plan, under no provider, with the reason and with what the call cost.
abbrev pub IsTemplate :
    ContextBundle → FallbackReason → Option LlmSuccess → ReasoningOutcome → Type 0
IsTemplate bundle reason call o =
    (o.is_fallback ≡ true)
    × (reason_recorded o ≡ some reason)
    × (o.root_cause ≡ unanalysed bundle)
    × (o.confidence ≡ Confidence.low)
    × (o.recommended_actions ≡ checklist bundle)
    × (o.llm_provider ≡ "none")
    × (o.model_alias ≡ "none")
    × (o.model_id ≡ "template-fallback")
    × HasColumns call o

abbrev pub IsFromReply : ContextBundle → LlmSuccess → RcaResult → ReasoningOutcome → Type 0
IsFromReply bundle reply (parsed rca) o = IsAnalysis reply rca o
IsFromReply bundle reply (unusable reason detail) o =
    IsTemplate bundle (reason_for_parse_failure reason) (some reply) o

columns_of :
    (bundle : ContextBundle) (why : FallbackMetadata) (call : Option LlmSuccess)
    (retrieval : Option RetrievalMetadata) (template : ParsedRca)
    → HasColumns call (template_outcome bundle why call retrieval template)
columns_of bundle why none retrieval template = (refl, refl, refl, refl)
columns_of bundle why (some call) retrieval template = (refl, refl, refl, refl)

module _ {J : Type 0} (py : RcaLib J) (bundle : ContextBundle)
    (retrieval : Option RetrievalMetadata) where
  -- The analysis where the call succeeded and its text parsed, the template in every other case.
  abbrev pub IsFrom : LlmResult → ReasoningOutcome → Type 0
  IsFrom (success reply) o = IsFromReply bundle reply (parse_rca py reply.content) o
  IsFrom (failure reason detail elapsed_ms) o =
      IsTemplate bundle (reason_for_llm_failure reason) none o

  validated_complete :
      (document : Object J) (o : Option ParsedRca) (rca : ParsedRca)
      → validated py document o ≡ parsed rca
      → is_complete rca ≡ true
  validated_complete document none rca h = cc
  validated_complete document (some raw) rca h = elim (Bool-cases (is_complete raw)) [
    | inl e ↦ let same : raw ≡ rca = cc (rw e at h) in rw (sym same) e
    | inr e ↦ cc (rw e at h)
  ]

  parse_complete :
      (o : Option (Object J)) (rca : ParsedRca)
      → parse_document py o ≡ parsed rca
      → is_complete rca ≡ true
  parse_complete none rca h = cc
  parse_complete (some document) rca h = validated_complete document (py.read_fields document) rca h

  from_failure-IsTemplate :
      any is_unusable bundle.investigation_steps ≡ false
      → (reason : FallbackReason) (detail : FailureText) (call : Option LlmSuccess)
        (elapsed_ms : Option ℕ)
      → (o : ReasoningOutcome) × (from_failure bundle reason detail call elapsed_ms retrieval
          ≡ some o)
        × IsActionable o.recommended_actions
        × IsTemplate bundle reason call o
  unfolding generate_template_rca
  from_failure-IsTemplate h reason detail call elapsed_ms =
      let sorted = order_by (λ (s : ℕ × String). s.0) bundle.investigation_steps in
      let usable : any is_unusable sorted ≡ false =
        any-order_by is_unusable (λ (s : ℕ × String). s.0) bundle.investigation_steps ∙ h in
      rw (actions_of_usable sorted usable) (
        _,
        refl,
        floored-IsActionable (map to_action sorted) (usable-All sorted usable),
        (refl, refl, refl, refl, refl, refl, refl, refl, columns_of bundle _ call retrieval _),
      )

  reply_resolved :
      any is_unusable bundle.investigation_steps ≡ false
      → (reply : LlmSuccess) (r : RcaResult)
      → ((rca : ParsedRca) → r ≡ parsed rca → is_complete rca ≡ true)
      → (o : ReasoningOutcome) × (resolve_parsed py bundle retrieval reply r ≡ some o)
        × IsActionable o.recommended_actions
        × IsFromReply bundle reply r o
  reply_resolved h reply (parsed rca) complete = (
    from_analysis bundle reply rca retrieval,
    refl,
    complete-IsActionable rca.root_cause rca.confidence rca.recommended_actions (complete rca refl),
    (refl, refl, refl, refl, refl, refl, refl, refl, (refl, refl, refl, refl)),
  )
  reply_resolved h reply (unusable reason detail) complete =
      from_failure-IsTemplate h (reason_for_parse_failure reason) detail (some reply)
        (some reply.latency_ms)

  pub resolve-IsFrom :
      any is_unusable bundle.investigation_steps ≡ false
      → (result : LlmResult)
      → (o : ReasoningOutcome) × (resolve py bundle retrieval result ≡ some o)
        × IsActionable o.recommended_actions
        × IsFrom result o
  unfolding resolve parse_rca
  resolve-IsFrom h (success reply) =
      reply_resolved h reply (parse_rca py reply.content)
        (parse_complete (extract_json_object py reply.content))
  resolve-IsFrom h (failure reason detail elapsed_ms) =
      from_failure-IsTemplate h (reason_for_llm_failure reason) detail none (some elapsed_ms)

  -- Where the plan has a step without a description (or of order 0), a failed call comes to no
  -- recommendation: the template's own action does not validate.
  pub unusable_step_raises :
      any is_unusable bundle.investigation_steps ≡ true
      → (reason : LlmFailureReason) (detail : FailureText) (elapsed_ms : ℕ)
      → resolve py bundle retrieval (failure reason detail elapsed_ms) ≡ none
  unfolding resolve generate_template_rca
  unusable_step_raises h reason detail elapsed_ms =
      rw
        (actions_of_unusable (order_by (λ (s : ℕ × String). s.0) bundle.investigation_steps)
          (any-order_by is_unusable (λ (s : ℕ × String). s.0) bundle.investigation_steps ∙ h))
        refl
