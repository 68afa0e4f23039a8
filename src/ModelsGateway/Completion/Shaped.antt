-- ===== src/ModelsGateway/Completion/Shaped.antt =====
-- When a completion succeeds, and what it then holds.
use fastapi_langgraph_templa.Common.{
  ℕ, String, ◌≡◌, refl, sym, ◌∙◌, ap, List, [], ◌∷◌, Option, none, some, Bool, true, false, ◌↔◌,
  inl, inr, Option-cases, if◌then◌else◌, subst,
}
use fastapi_langgraph_templa.ModelsGateway.Completion.{
  ModelRequest, ModelResult, Call, Response, Answer, responded, raised, success, content_of,
  failed_call, call_of, completed, complete, validated, first_choice, complete_answer,
}

module _ {A : Type 0} (default_model : String) (provider : Call → Answer)
    (parse : String → Option A) (parse_error : String) (request : ModelRequest) where
  abbrev asked : Answer
  asked = provider (call_of default_model provider parse parse_error request)

  -- the result for a content, with what the schema made of it
  abbrev IsParsed : Bool → String → Option A → Type 0
  IsParsed true content structured = (a : A) × (parse content ≡ some a) × (structured ≡ some a)
  IsParsed false content structured = structured ≡ none

  -- The provider responded with a choice, whose content has the schema if one is asked for; the
  -- result holds them.
  pub record Answered (r : ModelResult A) : Type 0 where
    pub response : Response
    pub content : Option String
    pub others : List (Option String)
    pub came : asked ≡ responded response
    pub chosen : response.choices ≡ content ∷ others
    pub parsed : IsParsed request.structured (content_of content) r.structured
    pub text : r.content ≡ content_of content
    pub served : r.served_model ≡ response.model
    pub correlated : r.call_id ≡ request.call_id

  abbrev answer_ : Answer → ModelResult A
  answer_ = complete_answer default_model provider parse parse_error request

  abbrev result_ : Response → String → Option A → ModelResult A
  result_ = completed default_model provider parse parse_error request

  abbrev structured_by : Bool → Response → String → ModelResult A
  structured_by b response content =
      if b
      then validated default_model provider parse parse_error request response content
          (parse content)
      else result_ response content none

  not_failed :
      (name message : String) (status : Option ℕ)
      → success (failed_call {A = A} request name status message) ≡ true
      → ⊥
  unfolding failed_call
  not_failed name message status h = cc

  schema_cases :
      (b : Bool) (response : Response) (content : String)
      → success (structured_by b response content) ≡ true
      → (s : Option A) × (structured_by b response content ≡ result_ response content s)
        × IsParsed b content s
  schema_cases false response content h = (none, refl, refl)
  schema_cases true response content h = elim (Option-cases (parse content)) [
    | inl bad ↦ absurd (not_failed "ValidationError" parse_error none (rw bad at h))
    | inr (a, good) ↦ (some a, rw good refl, (a, good, refl))
  ]

  chosen_cases :
      (response : Response) (choices : List (Option String))
      → asked ≡ responded response
      → response.choices ≡ choices
      → success (first_choice default_model provider parse parse_error request response choices)
        ≡ true
      → Answered (first_choice default_model provider parse parse_error request response choices)
  chosen_cases response [] came chosen h =
      absurd (not_failed "IndexError" "list index out of range" none h)
  chosen_cases response (c ∷ cs) came chosen h =
      let (s, e, p) = schema_cases request.structured response (content_of c) h in
      subst Answered (sym e) (record {
        response = response;
        content = c;
        others = cs;
        came = came;
        chosen = chosen;
        parsed = p;
        text = refl;
        served = refl;
        correlated = refl;
      })

  asked_cases : (a : Answer) → asked ≡ a → success (answer_ a) ≡ true → Answered (answer_ a)
  asked_cases (raised name status message) e h = absurd (not_failed name message status h)
  asked_cases (responded response) e h = chosen_cases response response.choices e refl h

  parsed_success :
      (b : Bool) (response : Response) (content : String) (s : Option A)
      → IsParsed b content s
      → success (structured_by b response content) ≡ true
  parsed_success false response content s p = refl
  parsed_success true response content s (a, good, _) = rw good refl

  asked_success : (r : ModelResult A) → Answered r → success (answer_ asked) ≡ true
  asked_success r a =
      ap (λ x. success (answer_ x)) a.came
      ∙ ap
          (λ cs.
            success (first_choice default_model provider parse parse_error request a.response cs))
          a.chosen
      ∙ parsed_success request.structured a.response (content_of a.content) r.structured a.parsed

  -- A completion succeeds exactly if the provider responds with a choice, and its content has the
  -- schema if the request gives one; then the result has that content, what the schema made of it
  -- (nothing without a schema), the model that served it, and the id of the call.
  pub complete_iff :
      (success (complete default_model provider parse parse_error request) ≡ true)
      ↔ Answered (complete default_model provider parse parse_error request)
  unfolding complete
  complete_iff = (asked_cases asked refl, asked_success _)
