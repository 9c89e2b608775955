-- ===== src/Inference/Structured.antt =====
-- `structured_complete` of structured.py. The model is a function of the number of calls that were
-- made and of the prompt; what it raises is passed on. `json.loads` with the schema's
-- `model_validate` is a parameter, which fails with the text of its error.
use chief_opportunity_intell.Prelude.{
  ap, arith, inr, ◌∙◌, inl, ◌+◌, ◌<◌, Result-cases, sym, ◌≤◌, ◌≡◌, ℕ, zero, suc, String, Option,
  none, some, str_eq, if◌then◌else◌, Result, ok, err, ◌>>=◌, ok-same, refused_ok, refl,
}
use Prim.Native.String.{◌++◌ as ◌<>◌}
use chief_opportunity_intell.Inference.Gateway.{Unavailable}
use chief_opportunity_intell.Inference.Json.{json_text}
use chief_opportunity_intell.Inference.{LlmResponse}

-- What `structured_complete` raises: what the model raised, or `ValueError` with a text.
pub data StructuredError : Type 0 where
  from_model : Unavailable → StructuredError
  value_error : String → StructuredError

-- A schema: its name, and what validates a text of JSON.
pub record Schema (T : Type 0) : Type 0 where
  pub name : String
  pub validate : String → Result String T

-- The last answer and its error.
pub record Attempt : Type 0 where
  pub raw : String
  pub error : String

abbrev pub Model : Type 0
Model = ℕ → String → Result Unavailable LlmResponse

unfoldable pub raised_model : {A : Type 0} → Result Unavailable A → Result StructuredError A
raised_model (ok a) = ok a
raised_model (err e) = err (from_model e)

-- `last_error or "Structured output validation failed"`
unfoldable pub failure_text : Option Attempt → String
failure_text none = "Structured output validation failed"
failure_text (some a) = if str_eq a.error "" then "Structured output validation failed" else a.error

module _ {T : Type 0} (schema : Schema T) where
  unfoldable pub parse_text : Option String → Result String T
  parse_text none = err "No JSON object found in model output"
  parse_text (some text) = schema.validate text

  -- `schema.model_validate(_extract_json(raw))`
  unfoldable pub parse : String → Result String T
  unfolding parse_text json_text
  parse raw = parse_text (json_text raw)

  unfoldable pub repair_prompt : String → Attempt → String
  repair_prompt original a =
      original <> "\n\nYour previous answer failed validation. Return ONLY valid JSON matching the "
      <> schema.name <> " schema.\nValidation error: " <> a.error <> "\nPrevious output:\n" <> a.raw
      <> "\n"

  -- After the loop: the last answer once more.
  unfoldable pub fallback_of : Result String T → Option Attempt → Result StructuredError T
  unfolding failure_text
  fallback_of (ok value) last = ok value
  fallback_of (err e) last = err (value_error (failure_text last))

  unfoldable pub fallback : Option Attempt → Result StructuredError T
  unfolding fallback_of parse failure_text
  fallback none = err (value_error (failure_text none))
  fallback (some a) = fallback_of (parse a.raw) (some a)

  -- One answer: the value, or the attempt that failed.
  unfoldable pub judge : String → Result String T → Result Attempt T
  judge raw (ok value) = ok value
  judge raw (err e) = err (record { raw = raw; error = e })

  -- What follows an answer.
  unfoldable pub follow :
      Result Attempt T → (Attempt → Result StructuredError T) → Result StructuredError T
  follow (ok value) next = ok value
  follow (err a) next = next a

  -- The attempts that are left, from the call with an index on.
  unfoldable pub attempts :
      Model → String → ℕ → ℕ → String → Option Attempt → Result StructuredError T
  unfolding fallback judge follow parse raised_model
  attempts model original zero index current last = fallback last
  attempts model original (suc left) index current last =
      raised_model (model index current) >>= λ response.
      follow (judge response.content (parse response.content))
        (λ a. attempts model original left (suc index) (repair_prompt original a) (some a))

  unfoldable pub structured_complete : Model → String → ℕ → Result StructuredError T
  unfolding attempts
  structured_complete model prompt max_attempts = attempts model prompt max_attempts 1 prompt none

  -- The same without the last look at the last answer.
  unfoldable pub plain_attempts :
      Model → String → ℕ → ℕ → String → Option Attempt → Result StructuredError T
  unfolding judge follow parse raised_model failure_text
  plain_attempts model original zero index current last = err (value_error (failure_text last))
  plain_attempts model original (suc left) index current last =
      raised_model (model index current) >>= λ response.
      follow (judge response.content (parse response.content))
        (λ a. plain_attempts model original left (suc index) (repair_prompt original a) (some a))

  -- An attempt that failed, as it is kept.
  unfoldable pub IsFailed : Option Attempt → Type 0
  IsFailed none = Unit
  IsFailed (some a) = parse a.raw ≡ err a.error

  fallback-IsFailed :
      (last : Option Attempt)
      → IsFailed last
      → fallback last ≡ err (value_error (failure_text last))
  unfolding IsFailed fallback fallback_of
  fallback-IsFailed none h = refl
  fallback-IsFailed (some a) h = rw h refl

  attempts-plain :
      (model : Model) (original : String) (left index : ℕ) (current : String)
      (last : Option Attempt)
      → IsFailed last
      → attempts model original left index current last
        ≡ plain_attempts model original left index current last
  unfolding attempts plain_attempts raised_model judge follow IsFailed
  attempts-plain model original zero index current last h = fallback-IsFailed last h
  attempts-plain model original (suc left) index current last h =
      elim (Result-cases (model index current)) [
        | inl (e, raised) ↦ rw raised refl
        | inr (response, gave) ↦ elim (Result-cases (parse response.content)) [
          | inl (e, bad) ↦
              let a : Attempt = record { raw = response.content; error = e } in
              rw (gave, bad)
                (attempts-plain model original left (suc index) (repair_prompt original a) (some a)
                  bad)
          | inr (value, good) ↦ rw (gave, good) refl
        ]
      ]

  -- The last look at the last answer changes nothing: whatever the model does, the result is that of
  -- the attempts alone.
  pub structured_complete-plain :
      (model : Model) (prompt : String) (max_attempts : ℕ)
      → structured_complete model prompt max_attempts
        ≡ plain_attempts model prompt max_attempts 1 prompt none
  unfolding structured_complete IsFailed
  structured_complete-plain model prompt max_attempts =
      attempts-plain model prompt max_attempts 1 prompt none tt

  -- A value comes from an answer of the model to one of the calls from an index on.
  abbrev pub IsAnswer : Model → ℕ → ℕ → T → Type 0
  IsAnswer model index left value =
      (i : ℕ) × (current : String) × (response : LlmResponse) × (index ≤ i)
      × (i < index + left)
      × (model i current ≡ ok response)
      × (parse response.content ≡ ok value)

  plain_attempts-IsAnswer :
      (model : Model) (original : String) (left index : ℕ) (current : String)
      (last : Option Attempt) (value : T)
      → plain_attempts model original left index current last ≡ ok value
      → IsAnswer model index left value
  unfolding plain_attempts raised_model judge follow
  plain_attempts-IsAnswer model original zero index current last value h =
      absurd (refused_ok _ value h)
  plain_attempts-IsAnswer model original (suc left) index current last value h =
      elim (Result-cases (model index current)) [
        | inl (e, raised) ↦ absurd (refused_ok _ value (rw raised at h))
        | inr (response, gave) ↦ elim (Result-cases (parse response.content)) [
          | inl (e, bad) ↦
              let a : Attempt = record { raw = response.content; error = e } in
              let (i, asked, later, above, below, answered, valid) =
                plain_attempts-IsAnswer model original left (suc index) (repair_prompt original a)
                  (some a) value (rw (gave, bad) at h) in
              (i, asked, later, ground arith, ground arith, answered, valid)
          | inr (v, good) ↦
              let same : v ≡ value = ok-same v value (rw (gave, good) at h) in
              (index, current, response, ground arith, ground arith, gave, good ∙ ap ok same)
        ]
      ]

  -- A value that is returned validates, and is what the model answered in one of the calls 1 to
  -- `max_attempts`.
  pub structured_complete-IsAnswer :
      (model : Model) (prompt : String) (max_attempts : ℕ) (value : T)
      → structured_complete model prompt max_attempts ≡ ok value
      → IsAnswer model 1 max_attempts value
  structured_complete-IsAnswer model prompt max_attempts value h =
      plain_attempts-IsAnswer model prompt max_attempts 1 prompt none value
        (sym (structured_complete-plain model prompt max_attempts) ∙ h)
