-- ===== src/Catalog/Load.antt =====
-- `load_catalog` of runner/case_catalog.py: the checks on the value that the YAML file holds. `none`
-- is a `CaseCatalogError`.
use yonwork_benchmark.Prelude.{
  suc, ◌+◌, ℕ, String, Bool, true, false, Option, none, some, List, [], ◌∷◌, str_eq, elem, strip,
  if◌then◌else◌, ◌&&◌, ◌==◌, not, find_first, map,
}
use yonwork_benchmark.Json.{Json, Fields, Items}
use yonwork_benchmark.Models.Cases.{CaseDefinition, Expectations}
use yonwork_benchmark.Catalog.Values.{
  find_field, field_of, ◌>>=◌, guard, mapping, only_keys, text_value, text_or, identifier,
  positive_int, optional_int, optional_seconds, keywords, bool_or, length_or, mapping_or_empty,
}

pub record CaseSetDefinition : Type 0 where
  pub case_set_id : String
  pub name : String
  pub description : String
  pub cases : List CaseDefinition

abbrev pub expectation_keys : List String
expectation_keys =
    "expect" ∷ "forbid" ∷ "min_length" ∷ "json_parsable" ∷ "max_seconds" ∷ "max_total_tokens"
    ∷ "max_input_tokens" ∷ "min_tool_calls" ∷ []

unfoldable pub expectations_in : Fields → Option Expectations
unfolding only_keys find_field field_of keywords optional_int optional_seconds
expectations_in raw = do
  _ ← guard (only_keys expectation_keys raw)
  min_length ← length_or (find_field "min_length" raw)
  json_parsable ← bool_or false (find_field "json_parsable" raw)
  expect ← keywords (field_of "expect" raw)
  forbid ← keywords (field_of "forbid" raw)
  max_seconds ← optional_seconds (field_of "max_seconds" raw)
  max_total ← optional_int (field_of "max_total_tokens" raw)
  max_input ← optional_int (field_of "max_input_tokens" raw)
  min_tools ← optional_int (field_of "min_tool_calls" raw)
  some (record {
    expect_keywords = expect;
    forbid_keywords = forbid;
    min_length = min_length;
    json_parsable = json_parsable;
    max_seconds = max_seconds;
    max_total_tokens = max_total;
    max_input_tokens = max_input;
    min_tool_calls = min_tools;
  })

-- `_expectations`
unfoldable pub expectations : Json → Option Expectations
unfolding expectations_in mapping
expectations v = mapping_or_empty v >>= expectations_in

abbrev pub case_keys : List String
case_keys = "id" ∷ "prompt" ∷ "runs" ∷ "enabled" ∷ "assertions" ∷ []

unfoldable pub case_in : Fields → Option CaseDefinition
unfolding identifier text_value positive_int expectations
case_in raw = do
  _ ← guard (only_keys case_keys raw)
  enabled ← bool_or true (find_field "enabled" raw)
  case_name ← identifier (field_of "id" raw)
  prompt ← text_value (field_of "prompt" raw)
  runs ← positive_int 1 (field_of "runs" raw)
  expected ← expectations (field_of "assertions" raw)
  some (record {
    case_name = case_name;
    prompt = prompt;
    runs = runs;
    enabled = enabled;
    expectations = expected;
  })

-- `_case`
unfoldable pub case_of : Json → Option CaseDefinition
case_of v = mapping v >>= case_in

unfoldable pub cases_of : Items → Option (List CaseDefinition)
cases_of Items.nil = some []
cases_of (Items.cons item rest) = do c ← case_of item; cs ← cases_of rest; some (c ∷ cs)

-- A list that is not empty.
unfoldable pub nonempty_list : Json → Option Items
nonempty_list (Json.arr (Items.cons item rest)) = some (Items.cons item rest)
nonempty_list _ = none

-- No name occurs twice.
unfoldable pub are_unique : List String → Bool
unfolding elem
are_unique [] = true
are_unique (x ∷ xs) = not (elem x xs) && are_unique xs

abbrev pub description_or : Option Json → Option String
description_or none = some ""
description_or (some (Json.text s)) = some s
description_or (some _) = none

abbrev pub set_keys : List String
set_keys = "id" ∷ "name" ∷ "description" ∷ "cases" ∷ []

-- One round of the loop over the case sets, with the ids seen before.
unfoldable pub case_set_in : List String → Fields → Option CaseSetDefinition
unfolding strip
case_set_in seen raw = do
  _ ← guard (only_keys set_keys raw)
  case_set_id ← identifier (field_of "id" raw)
  _ ← guard (not (elem case_set_id seen))
  items ← nonempty_list (field_of "cases" raw)
  cases ← cases_of items
  _ ← guard (are_unique (map (λ c. c.case_name) cases))
  description ← description_or (find_field "description" raw)
  name ← text_or case_set_id (field_of "name" raw)
  some (record {
    case_set_id = case_set_id;
    name = name;
    description = strip description;
    cases = cases;
  })

unfoldable pub case_sets_from : List String → Items → Option (List CaseSetDefinition)
case_sets_from seen Items.nil = some []
case_sets_from seen (Items.cons item rest) = do
  raw ← mapping item
  s ← case_set_in seen raw
  ss ← case_sets_from (s.case_set_id ∷ seen) rest
  some (s ∷ ss)

-- `root.get("version") != CATALOG_VERSION`: 1 and true are equal.
unfoldable pub is_version : Json → Bool
is_version (Json.num n) = n == 1
is_version (Json.bool b) = b
is_version _ = false

abbrev pub root_keys : List String
root_keys = "version" ∷ "case_sets" ∷ []

unfoldable pub load_root : Fields → Option (List CaseSetDefinition)
load_root root = do
  _ ← guard (only_keys root_keys root)
  _ ← guard (is_version (field_of "version" root))
  items ← nonempty_list (field_of "case_sets" root)
  case_sets_from [] items

-- `payload` is what the YAML reader makes of the file, `none` where it cannot be read.
unfoldable pub load_catalog : Option Json → Option (List CaseSetDefinition)
load_catalog payload = payload >>= λ v. mapping v >>= load_root

-- `CaseCatalog.get`
unfoldable pub get_case_set : String → List CaseSetDefinition → Option CaseSetDefinition
get_case_set case_set_id sets = find_first (λ s. str_eq s.case_set_id case_set_id) sets

unfoldable pub enabled_count : List CaseDefinition → ℕ
enabled_count [] = 0
enabled_count (c ∷ cs) = let rest = enabled_count cs in if c.enabled then suc rest else rest

unfoldable pub total_runs : List CaseDefinition → ℕ
total_runs [] = 0
total_runs (c ∷ cs) = let rest = total_runs cs in if c.enabled then c.runs + rest else rest
