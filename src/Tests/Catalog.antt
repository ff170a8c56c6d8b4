-- ===== src/Tests/Catalog.antt =====
-- A small case catalog.
use yonwork_benchmark.Prelude.{none, some, List, [], ◌∷◌, ◌≡◌, refl, true, false}
use yonwork_benchmark.Prelude.{Option, String, if◌then◌else◌, str_eq}
use yonwork_benchmark.Catalog.Resolve.{resolve_case_set}
use yonwork_benchmark.Catalog.Resolve.Filled.{AskAll, resolve_case_set-AskAll}
use yonwork_benchmark.Json.{Json, Fields, Items}
use yonwork_benchmark.Models.Cases.{CaseDefinition}
use yonwork_benchmark.Catalog.Values.{
  text_or, is_identifier, text_value, identifier, field_of, only_keys, mapping, ◌>>=◌,
}
use yonwork_benchmark.Catalog.Load.{
  are_unique, case_in, case_of, cases_of, case_set_in, case_sets_from, nonempty_list, is_version,
  load_root, CaseSetDefinition, load_catalog,
}
use yonwork_benchmark.Catalog.Accepted.{IsCatalog, load_catalog-IsCatalog}

abbrev hello : Fields
hello =
    Fields.field "id" (Json.text "hello") (
      Fields.field "prompt" (Json.text " Say hello. ")
        (Fields.field "runs" (Json.num 3) Fields.end))

abbrev smoke_with : Items → Fields
smoke_with cases =
    Fields.field "id" (Json.text "smoke") (Fields.field "cases" (Json.arr cases) Fields.end)

abbrev file_of : Fields → Json
file_of case_set = Json.obj (
    Fields.field "version" (Json.num 1)
      (Fields.field "case_sets" (Json.arr (Items.cons (Json.obj case_set) Items.nil)) Fields.end))

abbrev hello_case : CaseDefinition
hello_case = record {
  case_name = "hello";
  prompt = "Say hello.";
  runs = 3;
  enabled = true;
  expectations = record {
    expect_keywords = [];
    forbid_keywords = [];
    min_length = 1;
    json_parsable = false;
    max_seconds = none;
    max_total_tokens = none;
    max_input_tokens = none;
    min_tool_calls = none;
  };
}

abbrev smoke : List CaseSetDefinition
smoke =
    record { case_set_id = "smoke"; name = "smoke"; description = ""; cases = hello_case ∷ [] } ∷ []

abbrev good_file : Json
good_file = file_of (smoke_with (Items.cons (Json.obj hello) Items.nil))

loaded : load_catalog (some good_file) ≡ some smoke
unfolding load_catalog ◌>>=◌ mapping load_root only_keys is_version field_of nonempty_list
    case_sets_from case_set_in identifier text_value is_identifier cases_of case_of case_in
    are_unique text_or
loaded = refl

repeated_name :
    load_catalog (
      some (
        file_of (smoke_with (Items.cons (Json.obj hello) (Items.cons (Json.obj hello) Items.nil)))))
    ≡ none
unfolding load_catalog ◌>>=◌ mapping load_root only_keys is_version field_of nonempty_list
    case_sets_from case_set_in identifier text_value is_identifier cases_of case_of case_in
    are_unique
repeated_name = refl

load_catalog-IsCatalog_example : IsCatalog smoke
load_catalog-IsCatalog_example = load_catalog-IsCatalog (some good_file) smoke loaded

abbrev list_case : String → CaseDefinition
list_case asked = record hello_case { case_name = "list"; prompt = asked }

abbrev files_set : String → CaseSetDefinition
files_set asked = record {
  case_set_id = "files";
  name = "files";
  description = "";
  cases = list_case asked ∷ [];
}

abbrev with_dir : String → Option String
with_dir name = if str_eq name "DIR" then some "/tmp" else none

resolved : resolve_case_set with_dir (files_set "ls ${DIR}/$") ≡ some (files_set "ls /tmp/$")
unfolding resolve_case_set
resolved = refl

unresolved : resolve_case_set with_dir (files_set "ls ${HOME}") ≡ none
unfolding resolve_case_set
unresolved = refl

resolve_case_set-AskAll_example :
    (files_set "ls /tmp/$"
      ≡ record (files_set "ls ${DIR}/$") { cases = (files_set "ls /tmp/$").cases })
    × AskAll with_dir (files_set "ls ${DIR}/$").cases (files_set "ls /tmp/$").cases
resolve_case_set-AskAll_example =
    resolve_case_set-AskAll with_dir (files_set "ls ${DIR}/$") (files_set "ls /tmp/$") resolved
