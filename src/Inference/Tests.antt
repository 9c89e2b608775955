-- ===== src/Inference/Tests.antt =====
-- Worked examples of the gateway and of structured output.
use chief_opportunity_intell.Inference.Answers.{
  IsTold, complete_again, complete-IsTold, first_answer, failures_before,
}
use chief_opportunity_intell.Prelude.Dict
use chief_opportunity_intell.Prelude.{
  zero, suc, String, ◌≡◌, refl, false, none, some, [], ◌∷◌, str_eq, if◌then◌else◌, ok, err,
}
use chief_opportunity_intell.Inference.Structured.{
  structured_complete-plain, plain_attempts, structured_complete, Model, Schema,
}
use chief_opportunity_intell.Inference.Gateway.{
  either, try_providers, answer, fault, Gateway, Provider, complete, Call, cache_get,
}
use chief_opportunity_intell.Inference.{standard, LlmResponse, InferenceSettings, estimate_llm_cost}
use chief_opportunity_intell.Decimal.{half_even}

abbrev settings : InferenceSettings
settings = record {
  model_small = "s";
  model_standard = "m";
  model_reasoning = "r";
  model_extraction = "e";
  finetuning_enabled = false;
  active_extraction = none;
  input_cost_per_1k = 1000;
  output_cost_per_1k = 2000;
}

abbrev hello : Call
hello = record { prompt = "hello"; task = standard; system = none }

abbrev reply : LlmResponse
reply = record { content = "hi"; model = "m"; input_tokens = 1500; output_tokens = 250 }

abbrev down : Provider
down call = err (fault "down")

abbrev up : Provider
up call = ok reply

abbrev fresh : Gateway
fresh = record {
  cache = some [];
  ledger =
      some (record {
        llm_input_tokens = 0;
        llm_output_tokens = 0;
        tool_cost_usd = 0;
        llm_cost_usd = 0;
      });
  counters = record {
    llm_cache_hits = 0;
    llm_provider_failures = 0;
    llm_fallback_success = 0;
    llm_calls = 0;
  };
}

-- 1.5 * 0.001 + 0.25 * 0.002 dollars
price : estimate_llm_cost reply settings ≡ 2000
unfolding estimate_llm_cost half_even
price = refl

complete-IsTold_example :
    IsTold settings fresh
      (first_answer hello (down ∷ up ∷ []))
      (failures_before hello (down ∷ up ∷ []))
      (complete (λ s. s) settings fresh (down ∷ up ∷ []) hello)
unfolding cache_get Dict.get
complete-IsTold_example = complete-IsTold (λ s. s) settings fresh (down ∷ up ∷ []) hello refl

abbrev asked : Gateway
asked = (complete (λ s. s) settings fresh (down ∷ up ∷ []) hello).0

complete_again_example :
    ((complete (λ s. s) settings asked [] hello).1 ≡ ok reply)
    × ((complete (λ s. s) settings asked [] hello).0.ledger ≡ asked.ledger)
unfolding complete answer cache_get try_providers either Dict.get
complete_again_example =
    complete_again (λ s. s) settings fresh asked [] (down ∷ up ∷ []) [] hello reply refl refl

-- A schema that takes one text only.
abbrev braces : Schema String
braces = record {
  name = "Braces";
  validate = λ s. if str_eq s "{}" then ok s else err "not braces";
}

-- A model that answers in prose first, and then with the text between others.
abbrev shy : Model
shy zero prompt = ok (record reply { content = "" })
shy (suc zero) prompt = ok (record reply { content = "let me think" })
shy (suc (suc n)) prompt = ok (record reply { content = "sure: {} ok" })

structured_complete-plain_example :
    structured_complete braces shy "go" 3 ≡ plain_attempts braces shy "go" 3 1 "go" none
structured_complete-plain_example = structured_complete-plain braces shy "go" 3
