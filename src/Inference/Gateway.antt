-- ===== src/Inference/Gateway.antt =====
-- `GatewayLLMProvider.complete`.
use chief_opportunity_intell.Prelude.{
  ℕ, zero, suc, ◌+◌, String, Option, none, some, List, [], ◌∷◌, Result, ok, err,
}
use chief_opportunity_intell.Prelude.Dict
use chief_opportunity_intell.Prelude.Dict.{Dict}
use chief_opportunity_intell.Inference.{
  cache_prompt, resolve_model_name, cache_key, estimate_llm_cost, CostLedger, record_llm,
  LlmResponse, InferenceSettings, TaskClass,
}

-- The counters of the metrics registry that the gateway writes.
pub record Counters : Type 0 where
  pub llm_cache_hits : ℕ
  pub llm_provider_failures : ℕ
  pub llm_fallback_success : ℕ
  pub llm_calls : ℕ

pub record Gateway : Type 0 where
  pub cache : Option (Dict LlmResponse)
  pub ledger : Option CostLedger
  pub counters : Counters

pub record Call : Type 0 where
  pub prompt : String
  pub task : TaskClass
  pub system : Option String

-- Any exception of a provider.
pub data Fault : Type 0 where
  fault : String → Fault

-- `try: ... except Exception`: what to do with an answer, and what to do without one.
unfoldable pub either : {A : Type 0} → Result Fault LlmResponse → (LlmResponse → A) → A → A
either (ok response) accepted later = accepted response
either (err e) accepted later = later

-- `DependencyUnavailableError("All LLM providers failed")`
pub data Unavailable : Type 0 where
  all_failed : Unavailable

abbrev pub Provider : Type 0
Provider = Call → Result Fault LlmResponse

unfoldable pub charge : Option CostLedger → LlmResponse → ℕ → Option CostLedger
unfolding record_llm
charge none response cost = none
charge (some l) response cost =
    some (record_llm l response.input_tokens response.output_tokens cost)

-- `registry.increment("llm_calls")` is done by the ledger.
unfoldable pub count_call : Option CostLedger → Counters → Counters
count_call none c = c
count_call (some l) c = record c { llm_calls = c.llm_calls + 1 }

unfoldable pub record_cost : InferenceSettings → Gateway → LlmResponse → Gateway
unfolding charge count_call
record_cost settings g response = record g {
  ledger = charge g.ledger response (estimate_llm_cost response settings);
  counters = count_call g.ledger g.counters;
}

unfoldable pub cache_get : Option (Dict LlmResponse) → String → Option LlmResponse
cache_get none key = none
cache_get (some d) key = Dict.get d key

unfoldable pub cache_set :
    Option (Dict LlmResponse) → String → LlmResponse → Option (Dict LlmResponse)
cache_set none key response = none
cache_set (some d) key response = some (Dict.put d key response)

unfoldable pub count_fallback : ℕ → Counters → Counters
count_fallback zero c = c
count_fallback (suc index) c = record c { llm_fallback_success = c.llm_fallback_success + 1 }

unfoldable pub count_failure : Counters → Counters
count_failure c = record c { llm_provider_failures = c.llm_provider_failures + 1 }

-- What is done with the answer of the provider at an index.
unfoldable pub accept : InferenceSettings → String → ℕ → Gateway → LlmResponse → Gateway
unfolding record_cost cache_set count_fallback
accept settings key index g response =
    let charged = record_cost settings g response in
    record charged {
      cache = cache_set charged.cache key response;
      counters = count_fallback index charged.counters;
    }

-- The loop over the providers, from the one at an index on.
unfoldable pub try_providers :
    InferenceSettings
    → String
    → Call
    → ℕ
    → Gateway
    → List Provider
    → Gateway × Result Unavailable LlmResponse
unfolding accept count_failure either
try_providers settings key call index g [] = (g, err all_failed)
try_providers settings key call index g (provider ∷ providers) =
    let later =
      try_providers settings key call (suc index) (record g { counters = count_failure g.counters })
        providers in
    either (provider call) (λ response. (accept settings key index g response, ok response)) later

unfoldable pub answer :
    InferenceSettings
    → String
    → Call
    → Gateway
    → List Provider
    → Option LlmResponse
    → Gateway × Result Unavailable LlmResponse
unfolding try_providers
answer settings key call g providers (some cached) = (
  record g { counters = record g.counters { llm_cache_hits = g.counters.llm_cache_hits + 1 } },
  ok cached,
)
answer settings key call g providers none = try_providers settings key call 0 g providers

module _ (sha256 : String → String) (settings : InferenceSettings) where
  unfoldable pub key_of : Call → String
  unfolding cache_key resolve_model_name cache_prompt
  key_of call =
      cache_key sha256 call.task (resolve_model_name settings call.task)
        (cache_prompt call.prompt call.system)

  unfoldable pub complete :
      Gateway → List Provider → Call → Gateway × Result Unavailable LlmResponse
  unfolding answer key_of cache_get
  complete g providers call =
      answer settings (key_of call) call g providers (cache_get g.cache (key_of call))
