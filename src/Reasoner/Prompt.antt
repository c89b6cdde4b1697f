-- ===== src/Reasoner/Prompt.antt =====
-- What of a retrieved chunk reaches the prompt.
use radar_system.Prelude.{
  String, ◌≡◌, refl, sym, ap, ◌∙◌, Bool, true, false, Option, none, List, [], ◌∷◌, any, str_eq,
  eq_iff, Bool-cases, Option-cases, inl, inr, if◌then◌else◌,
}
use radar_system.Contracts.{Document, Value}
use radar_system.Reasoner.Llm.{prompted_chunk_fields, lookup_field, fields_of, prompted_fields}

abbrev has_name : String → String → Bool
has_name name n = str_eq n name

if_none : (b : Bool) (o : Option Value) → o ≡ none → (if b then o else none) ≡ none
if_none true o h = h
if_none false o h = refl

lookup-fields_of :
    (name : String) (names : List String) (chunk : Document)
    → lookup_field name (fields_of names chunk)
      ≡ (if any (has_name name) names then lookup_field name chunk else none)
lookup-fields_of name [] chunk = refl
lookup-fields_of name (n ∷ names) chunk = elim (Bool-cases (str_eq n name)) [
  | inl e ↦
      let here : lookup_field n chunk ≡ lookup_field name chunk =
        ap (λ k. lookup_field k chunk) ((eq_iff n name).0 e) in
      elim (Option-cases (lookup_field n chunk)) [
        | inl q ↦
            let gone = sym here ∙ q in
            rw (q, e, lookup-fields_of name names chunk)
              (if_none (any (has_name name) names) (lookup_field name chunk) gone ∙ sym gone)
        | inr (v, q) ↦ rw (q, e) (sym q ∙ here)
      ]
  | inr e ↦ elim (Option-cases (lookup_field n chunk)) [
    | inl q ↦ rw (q, e) (lookup-fields_of name names chunk)
    | inr (v, q) ↦ rw (q, e) (lookup-fields_of name names chunk)
  ]
]

-- The prompt shows a chunk's four whitelisted fields as they are, and no other field of it.
prompted_fields_exact :
    (name : String) (chunk : Document)
    → lookup_field name (prompted_fields chunk)
      ≡ (if any (has_name name) prompted_chunk_fields then lookup_field name chunk else none)
unfolding prompted_fields
prompted_fields_exact name chunk = lookup-fields_of name prompted_chunk_fields chunk
