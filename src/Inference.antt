-- ===== src/Inference.antt =====
-- backend/app/inference: the gateway in front of the model providers, its cache, prices and ledger;
-- backend/app/agents/llm/structured.py, which asks for output of a schema. A provider is a function
-- of the request that answers or fails. The cache is the one in memory; a cost is in millionths of a
-- dollar, computed exactly and then rounded, where the program rounds a float.
pub mod Gateway
pub mod Answers
pub mod Json
pub mod Structured
mod Tests
use chief_opportunity_intell.Prelude.{
  ℕ, ◌+◌, ◌-◌, ◌*◌, ◌/◌, ◌<◌, String, Bool, true, Option, none, some, ◌++◌, str_eq, if◌then◌else◌,
}
use chief_opportunity_intell.Prelude.Dict
use Prim.Native.String.{◌++◌ as ◌<>◌}
use chief_opportunity_intell.Decimal.{half_even}

pub data TaskClass : Type 0 where
  small standard reasoning extract : TaskClass

unfoldable pub task_value : TaskClass → String
task_value small = "small"
task_value standard = "standard"
task_value reasoning = "reasoning"
task_value extract = "extract"

pub record LlmResponse : Type 0 where
  pub content : String
  pub model : String
  pub input_tokens : ℕ
  pub output_tokens : ℕ

-- The names of the models, and the prices per thousand tokens, in millionths of a dollar.
pub record InferenceSettings : Type 0 where
  pub model_small : String
  pub model_standard : String
  pub model_reasoning : String
  pub model_extraction : String
  pub finetuning_enabled : Bool
  pub active_extraction : Option String
  pub input_cost_per_1k : ℕ
  pub output_cost_per_1k : ℕ

-- `active_extraction_model` of finetuning/registry.py
unfoldable pub active_model : Bool → Option String → String → String
active_model true (some s) base = if str_eq s "" then base else s
active_model _ _ base = base

-- `_resolve_model_name`, with `ModelSettings.for_task`
unfoldable pub resolve_model_name : InferenceSettings → TaskClass → String
unfolding active_model
resolve_model_name settings extract =
    active_model settings.finetuning_enabled settings.active_extraction settings.model_extraction
resolve_model_name settings small = settings.model_small
resolve_model_name settings standard = settings.model_standard
resolve_model_name settings reasoning = settings.model_reasoning

-- `estimate_llm_cost`
unfoldable pub estimate_llm_cost : LlmResponse → InferenceSettings → ℕ
unfolding half_even
estimate_llm_cost response settings =
    half_even
      (response.input_tokens * settings.input_cost_per_1k
        + response.output_tokens * settings.output_cost_per_1k)
      1000

pub record CostLedger : Type 0 where
  pub llm_input_tokens : ℕ
  pub llm_output_tokens : ℕ
  pub tool_cost_usd : ℕ
  pub llm_cost_usd : ℕ

unfoldable pub total_usd : CostLedger → ℕ
total_usd l = l.tool_cost_usd + l.llm_cost_usd

unfoldable pub record_llm : CostLedger → ℕ → ℕ → ℕ → CostLedger
record_llm l input_tokens output_tokens cost_usd = record l {
  llm_input_tokens = l.llm_input_tokens + input_tokens;
  llm_output_tokens = l.llm_output_tokens + output_tokens;
  llm_cost_usd = l.llm_cost_usd + cost_usd;
}

unfoldable pub record_tool : CostLedger → ℕ → CostLedger
record_tool l cost_usd = record l { tool_cost_usd = l.tool_cost_usd + cost_usd }

-- `_cache_prompt`: an empty system text counts as none.
unfoldable pub cache_prompt : String → Option String → String
cache_prompt prompt none = prompt
cache_prompt prompt (some system) =
    if str_eq system "" then prompt else system <> "\n---\n" <> prompt

-- `_cache_key`, with the digest given.
unfoldable pub cache_key : (String → String) → TaskClass → String → String → String
unfolding task_value
cache_key sha256 task model prompt = sha256 (task_value task <> ":" <> model <> ":" <> prompt)
