-- ===== src/Inference/Json.antt =====
-- `_extract_json` of structured.py, up to the text that is parsed.
use Prim.Native.Char.{Char, code}
use Prim.Native.String.{String, [], ◌∷◌}
use chief_opportunity_intell.Prelude.{Bool, false, ◌||◌, Option, none, some, ◌==◌, if◌then◌else◌}
use chief_opportunity_intell.Prelude.Texts.{strip}

-- The text from the first opening brace on.
unfoldable pub from_brace : String → String
from_brace [] = []
from_brace (c ∷ s) = let rest = from_brace s in if code c == 123 then c ∷ s else rest

unfoldable pub prepend : Char → Option String → Option String
prepend c (some s) = some (c ∷ s)
prepend c none = if code c == 125 then some (c ∷ []) else none

-- The text up to its last closing brace, where it has one.
unfoldable pub to_brace : String → Option String
unfolding prepend
to_brace [] = none
to_brace (c ∷ s) = prepend c (to_brace s)

-- `_JSON_BLOCK.search`: from the first opening brace to the last closing one behind it.
unfoldable pub json_block : String → Option String
unfolding from_brace to_brace
json_block s = to_brace (from_brace s)

-- `raw.startswith("{") or raw.startswith("[")`
unfoldable pub starts_json : String → Bool
starts_json [] = false
starts_json (c ∷ s) = code c == 123 || code c == 91

-- The text that `json.loads` is given.
unfoldable pub json_text : String → Option String
unfolding starts_json json_block strip
json_text raw = let text = strip raw in if starts_json text then some text else json_block text
