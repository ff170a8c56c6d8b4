-- ===== src/Client/Messages.antt =====
-- `is_terminal_message`, `extract_text` and `extract_tool_names` of runner/client.py.
use yonwork_benchmark.Prelude.{
  String, Bool, true, false, Option, none, some, List, [], ◌∷◌, str_eq, elem, if◌then◌else◌,
  is_blank, concat, has_part, not,
}
use yonwork_benchmark.Json.{Json, Fields, Items, get, is_truthy}

-- `v in words`, for a frozen set of texts: a list or an object cannot be looked up and raises
-- `TypeError`, which is `none`.
unfoldable pub member : List String → Json → Option Bool
unfolding elem
member words (Json.text s) = some (elem s words)
member words (Json.arr items) = none
member words (Json.obj f) = none
member words _ = some false

abbrev pub terminal_phases : List String
terminal_phases = "completed" ∷ "finalized" ∷ "failed" ∷ []

abbrev pub terminal_states : List String
terminal_states = "completed" ∷ "finalized" ∷ "final" ∷ "error" ∷ []

abbrev pub non_terminal_stop_reasons : List String
non_terminal_stop_reasons = "tooluse" ∷ []

abbrev pub non_terminal_streams : List String
non_terminal_streams = "compaction" ∷ []

unfoldable pub is_stop_reason : Json → Bool
unfolding elem
is_stop_reason (Json.text s) = not (elem s non_terminal_stop_reasons)
is_stop_reason _ = false

-- A test that may raise, and what follows if it is false.
abbrev pub or_then : Option Bool → Option Bool → Option Bool
or_then none rest = none
or_then (some true) rest = some true
or_then (some false) rest = rest

unfoldable pub is_terminal_message : Fields → Option Bool
unfolding member is_stop_reason get
is_terminal_message body = elim (member non_terminal_streams (get "stream" body)) [
  | none ↦ none
  | some true ↦ some false
  | some false ↦ or_then (member terminal_phases (get "phase" body)) (
      or_then (member terminal_states (get "state" body))
        (some (is_stop_reason (get "stopReason" body))))
]

-- `_message_body`
unfoldable pub message_body : Fields → Fields
unfolding get
message_body payload = elim (get "message" payload) [ Json.obj inner ↦ inner | _ ↦ payload ]

abbrev is_type : (String → Bool) → Json → Bool
is_type p (Json.text s) = p s
is_type p _ = false

-- The text of one block; a block of another kind, or a text that is no text, adds nothing.
unfoldable pub block_text : Json → String
unfolding get
block_text (Json.obj block) =
    if is_type (λ s. str_eq s "text") (get "type" block)
    then elim (get "text" block) [ Json.text s ↦ s | _ ↦ "" ]
    else ""
block_text _ = ""

unfoldable pub blocks_text : Items → String
unfolding block_text concat
blocks_text Items.nil = ""
blocks_text (Items.cons block rest) = concat (block_text block) (blocks_text rest)

unfoldable pub text_of : Json → String
unfolding blocks_text
text_of (Json.text s) = s
text_of (Json.arr blocks) = blocks_text blocks
text_of _ = ""

unfoldable pub extract_text : Fields → String
unfolding text_of get
extract_text message = text_of (get "content" message)

abbrev or_unknown : Json → String
or_unknown (Json.text s) = if is_blank s then "unknown" else s
or_unknown _ = "unknown"

-- `block.get("name") or block.get("toolName")`
unfoldable pub tool_name : Fields → String
unfolding get is_truthy
tool_name block =
    or_unknown (if is_truthy (get "name" block) then get "name" block else get "toolName" block)

unfoldable pub tools_in : Items → List String
unfolding tool_name has_part get
tools_in Items.nil = []
tools_in (Items.cons (Json.obj block) rest) =
    let others = tools_in rest in
    if is_type (λ s. has_part s "tool") (get "type" block) then tool_name block ∷ others else others
tools_in (Items.cons _ rest) = tools_in rest

unfoldable pub tools_of : Json → List String
unfolding tools_in
tools_of (Json.arr blocks) = tools_in blocks
tools_of _ = []

unfoldable pub extract_tool_names : Fields → List String
unfolding tools_of get
extract_tool_names message = tools_of (get "content" message)
