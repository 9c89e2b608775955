-- ===== src/Tools/Registry.antt =====
-- backend/app/tools/registry.py: tools by name.
pub mod Lookup
use chief_opportunity_intell.Prelude.{
  ◌-◌, ◌/◌, String, none, some, List, [], ◌∷◌, ◌==◌, if◌then◌else◌, length, Result, ok, err,
}
use chief_opportunity_intell.Prelude.Dict
use chief_opportunity_intell.Prelude.Dict.{Dict}
use chief_opportunity_intell.Tools.Types.{BaseTool}

-- `ValueError("Duplicate tool names in registry")` and the `KeyError` of `get`.
pub data RegistryError : Type 0 where
  duplicate_names : RegistryError
  unknown_tool : String → RegistryError

module _ {A V P : Type 0} where
  -- `{tool.name: tool for tool in instances}`, into the dictionary built so far.
  unfoldable pub by_name : Dict (BaseTool A V P) → List (BaseTool A V P) → Dict (BaseTool A V P)
  by_name d [] = d
  by_name d (tool ∷ instances) = by_name (Dict.put d tool.name tool) instances

  unfoldable pub from_instances :
      List (BaseTool A V P) → Result RegistryError (Dict (BaseTool A V P))
  from_instances instances =
      let tools = by_name [] instances in
      if length tools == length instances then ok tools else err duplicate_names

  -- `ToolRegistry.get`
  unfoldable pub find : Dict (BaseTool A V P) → String → Result RegistryError (BaseTool A V P)
  find tools name = elim (Dict.get tools name) [ none ↦ err (unknown_tool name) | some t ↦ ok t ]
