-- ===== src/Inference/Answers.antt =====
-- What `complete` answers, and what it counts and charges.
use chief_opportunity_intell.Prelude.{
  arith, arith, arith, arith, arith, arith, ℕ, zero, suc, ◌+◌, String, ◌≡◌, refl, sym, ap, ◌∙◌,
  Option, none, some, List, [], ◌∷◌, arith, Result, ok, err, ok-same, refused_ok,
}
use chief_opportunity_intell.Prelude.Dict
use chief_opportunity_intell.Inference.Gateway.{
  cache_set, Fault, either, key_of, count_failure, cache_get, all_failed, answer, Counters,
  record_cost, Gateway, count_call, Unavailable, accept, Provider, complete, charge, Call,
  try_providers, count_fallback,
}
use chief_opportunity_intell.Inference.{
  estimate_llm_cost, CostLedger, LlmResponse, InferenceSettings,
}
use chief_opportunity_intell.Prelude.Dict.{Dict}

-- The answer of the first provider that does not fail.
unfoldable pub first_answer : Call → List Provider → Option LlmResponse
unfolding either
first_answer call [] = none
first_answer call (provider ∷ providers) =
    let later = first_answer call providers in either (provider call) some later

-- How many providers fail before it.
unfoldable pub failures_before : Call → List Provider → ℕ
unfolding either
failures_before call [] = 0
failures_before call (provider ∷ providers) =
    let later = failures_before call providers in either (provider call) (λ response. 0) (suc later)

unfoldable pub answered : Option LlmResponse → Result Unavailable LlmResponse
answered none = err all_failed
answered (some response) = ok response

-- A ledger that is charged for an answer, where there is one.
unfoldable pub charged_for :
    InferenceSettings → Option CostLedger → Option LlmResponse → Option CostLedger
unfolding charge
charged_for settings ledger none = ledger
charged_for settings ledger (some response) =
    charge ledger response (estimate_llm_cost response settings)

failures-charged :
    (index : ℕ) (ledger : Option CostLedger) (c : Counters)
    → (count_fallback index (count_call ledger c)).llm_provider_failures ≡ c.llm_provider_failures
unfolding count_fallback count_call
failures-charged zero none c = refl
failures-charged zero (some l) c = refl
failures-charged (suc index) none c = refl
failures-charged (suc index) (some l) c = refl

-- The loop's answer, ledger and failures.
abbrev pub IsTold :
    InferenceSettings
    → Gateway
    → Option LlmResponse
    → ℕ
    → Gateway × Result Unavailable LlmResponse
    → Type 0
IsTold settings g first failures told =
    (told.1 ≡ answered first)
    × (told.0.ledger ≡ charged_for settings g.ledger first)
    × (told.0.counters.llm_provider_failures ≡ g.counters.llm_provider_failures + failures)

either-IsTold :
    (settings : InferenceSettings) (key : String) (index : ℕ) (g : Gateway)
    (o : Result Fault LlmResponse) (first : Option LlmResponse) (failures : ℕ)
    (later : Gateway × Result Unavailable LlmResponse)
    → IsTold settings (record g { counters = count_failure g.counters }) first failures later
    → IsTold settings g
        (either o some first)
        (either o (λ response. 0) (suc failures))
        (either o (λ response. (accept settings key index g response, ok response)) later)
unfolding either accept record_cost charged_for count_failure answered
either-IsTold settings key index g (ok response) first failures later told =
    (refl, refl, failures-charged index g.ledger g.counters ∙ omega arith)
either-IsTold settings key index g (err e) first failures later (told, charged, count) =
    (told, charged, ground arith)

try_providers-IsTold :
    (settings : InferenceSettings) (key : String) (call : Call) (index : ℕ) (g : Gateway)
    (providers : List Provider)
    → IsTold settings g
        (first_answer call providers)
        (failures_before call providers)
        (try_providers settings key call index g providers)
unfolding try_providers first_answer failures_before charged_for answered
try_providers-IsTold settings key call index g [] = (refl, refl, omega arith)
try_providers-IsTold settings key call index g (provider ∷ providers) =
    either-IsTold settings key index g (provider call) _ _ _ (
      try_providers-IsTold settings key call (suc index)
        (record g { counters = count_failure g.counters }) providers)

either-remembers :
    (settings : InferenceSettings) (key : String) (index : ℕ) (g : Gateway) (d : Dict LlmResponse)
    (o : Result Fault LlmResponse) (later : Gateway × Result Unavailable LlmResponse)
    (response : LlmResponse)
    → g.cache ≡ some d
    → (later.1 ≡ ok response → cache_get later.0.cache key ≡ some response)
    → (either o (λ r. (accept settings key index g r, ok r)) later).1 ≡ ok response
    → cache_get (either o (λ r. (accept settings key index g r, ok r)) later).0.cache key
      ≡ some response
unfolding either accept record_cost cache_set cache_get
either-remembers settings key index g d (ok r) later response cached ih h =
    let same : r ≡ response = ok-same r response h in
    rw (cached, same) (Dict.get-put_self d key response)
either-remembers settings key index g d (err e) later response cached ih h = ih h

try_providers-remembers :
    (settings : InferenceSettings) (key : String) (call : Call) (index : ℕ) (g : Gateway)
    (d : Dict LlmResponse) (providers : List Provider) (response : LlmResponse)
    → g.cache ≡ some d
    → (try_providers settings key call index g providers).1 ≡ ok response
    → cache_get (try_providers settings key call index g providers).0.cache key ≡ some response
unfolding try_providers
try_providers-remembers settings key call index g d [] response cached h =
    absurd (refused_ok all_failed response h)
try_providers-remembers settings key call index g d (provider ∷ providers) response cached h =
    either-remembers settings key index g d (provider call) _ response cached
      (try_providers-remembers settings key call (suc index)
        (record g { counters = count_failure g.counters }) d providers response cached)
      h

answer-remembers :
    (settings : InferenceSettings) (key : String) (call : Call) (g : Gateway) (d : Dict LlmResponse)
    (providers : List Provider) (found : Option LlmResponse) (response : LlmResponse)
    → g.cache ≡ some d
    → cache_get g.cache key ≡ found
    → (answer settings key call g providers found).1 ≡ ok response
    → cache_get (answer settings key call g providers found).0.cache key ≡ some response
unfolding answer
answer-remembers settings key call g d providers none response cached hit h =
    try_providers-remembers settings key call 0 g d providers response cached h
answer-remembers settings key call g d providers (some r) response cached hit h =
    hit ∙ ap some (ok-same r response h)

module _ (sha256 : String → String) (settings : InferenceSettings) where
  -- Where the cache has nothing for the request, the answer is the one of the first provider that
  -- does not fail, or an error when all fail; the ledger is charged for that answer alone, and every
  -- provider that was asked before it is counted as a failure.
  pub complete-IsTold :
      (g : Gateway) (providers : List Provider) (call : Call)
      → cache_get g.cache (key_of sha256 settings call) ≡ none
      → IsTold settings g
          (first_answer call providers)
          (failures_before call providers)
          (complete sha256 settings g providers call)
  unfolding complete answer
  complete-IsTold g providers call missed =
      rw missed (try_providers-IsTold settings (key_of sha256 settings call) call 0 g providers)

  -- An answer is remembered: where there is a cache, a request that was answered is answered the same
  -- way when it is made again, whatever the providers do then, and the ledger is not charged again.
  pub complete_again :
      (g n : Gateway) (d : Dict LlmResponse) (providers others : List Provider) (call : Call)
      (response : LlmResponse)
      → g.cache ≡ some d
      → complete sha256 settings g providers call ≡ (n, ok response)
      → ((complete sha256 settings n others call).1 ≡ ok response)
        × ((complete sha256 settings n others call).0.ledger ≡ n.ledger)
  unfolding complete answer
  complete_again g n d providers others call response cached h =
      let key = key_of sha256 settings call in
      let kept : cache_get n.cache key ≡ some response =
        ap (λ t. cache_get t.0.cache key) (sym h)
        ∙ answer-remembers settings key call g d providers (cache_get g.cache key) response cached
            refl (ap (λ t. t.1) h) in
      rw kept (refl, refl)
