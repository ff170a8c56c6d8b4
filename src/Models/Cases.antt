-- ===== src/Models/Cases.antt =====
-- `Expectations`, `CaseDefinition`, `TaskItem` and `expand_cases` of runner/models.py.
use mathlib.Core.List.{append-nil, append_assoc}
use yonwork_benchmark.Prelude.{
  Bool-cases, inl, inr, ℕ, zero, suc, ◌+◌, String, ◌≡◌, refl, ap, sym, ◌∙◌, Bool, false, Option,
  none, List, [], ◌∷◌, ◌++◌, map, arith, length, if◌then◌else◌,
}

pub record Expectations : Type 0 where
  pub expect_keywords : List String
  pub forbid_keywords : List String
  pub min_length : ℕ
  pub json_parsable : Bool
  pub max_seconds : Option ℕ
  pub max_total_tokens : Option ℕ
  pub max_input_tokens : Option ℕ
  pub min_tool_calls : Option ℕ

-- The defaults of the dataclass.
abbrev pub default_expectations : Expectations
default_expectations = record {
  expect_keywords = [];
  forbid_keywords = [];
  min_length = 1;
  json_parsable = false;
  max_seconds = none;
  max_total_tokens = none;
  max_input_tokens = none;
  min_tool_calls = none;
}

pub record CaseDefinition : Type 0 where
  pub case_name : String
  pub prompt : String
  pub runs : ℕ
  pub enabled : Bool
  pub expectations : Expectations

pub record TaskItem : Type 0 where
  pub position : ℕ
  pub case_name : String
  pub run_no : ℕ
  pub prompt : String
  pub expectations : Expectations

task_item : CaseDefinition → ℕ → ℕ → TaskItem
task_item case run_no position = record {
  position = position;
  case_name = case.case_name;
  run_no = run_no;
  prompt = case.prompt;
  expectations = case.expectations;
}

-- The inner loop, with `left` rounds to go.
expand_runs : CaseDefinition → ℕ → ℕ → List TaskItem → List TaskItem
unfolding task_item
expand_runs case zero run_no items = items
expand_runs case (suc left) run_no items =
    expand_runs case left (run_no + 1) (items ++ task_item case run_no (length items) ∷ [])

expand_from : List CaseDefinition → List TaskItem → List TaskItem
expand_from [] items = items
expand_from (case ∷ cases) items =
    expand_from cases (if case.enabled then expand_runs case case.runs 1 items else items)

unfoldable pub expand_cases : List CaseDefinition → List TaskItem
unfolding expand_from expand_runs
expand_cases cases = expand_from cases []

-- What a case asks for: its rounds in order, apart from their positions in the batch.
abbrev pub Round : Type 0
Round = String × ℕ × String × Expectations

abbrev pub round_of : TaskItem → Round
round_of item = (item.case_name, item.run_no, item.prompt, item.expectations)

abbrev rounds_from : CaseDefinition → ℕ → ℕ → List Round
rounds_from case zero run_no = []
rounds_from case (suc left) run_no =
    (case.case_name, run_no, case.prompt, case.expectations) ∷ rounds_from case left (run_no + 1)

abbrev pub rounds : List CaseDefinition → List Round
rounds [] = []
rounds (case ∷ cases) = (if case.enabled then rounds_from case case.runs 1 else []) ++ rounds cases

-- Each item's position is its index, counted from `n`.
abbrev pub IsNumbered : ℕ → List TaskItem → Type 0
IsNumbered n [] = Unit
IsNumbered n (item ∷ items) = (item.position ≡ n) × IsNumbered (suc n) items

map-append_snoc :
    (items : List TaskItem) (item : TaskItem)
    → map round_of (items ++ item ∷ []) ≡ map round_of items ++ round_of item ∷ []
map-append_snoc [] item = refl
map-append_snoc (x ∷ xs) item = ap (λ r. round_of x ∷ r) (map-append_snoc xs item)

round_of-expand_runs :
    (case : CaseDefinition) (left run_no : ℕ) (items : List TaskItem)
    → map round_of (expand_runs case left run_no items)
      ≡ map round_of items ++ rounds_from case left run_no
unfolding expand_runs
round_of-expand_runs case zero run_no items = sym (append-nil _)
round_of-expand_runs case (suc left) run_no items =
    round_of-expand_runs case left (run_no + 1) (items ++ task_item case run_no (length items) ∷ [])
    ∙ simp (map-append_snoc, append_assoc)

round_of-expand_from :
    (cases : List CaseDefinition) (items : List TaskItem)
    → map round_of (expand_from cases items) ≡ map round_of items ++ rounds cases
unfolding expand_from
round_of-expand_from [] items = sym (append-nil _)
round_of-expand_from (case ∷ cases) items = elim (Bool-cases case.enabled) [
  | inl on ↦ simp on (
      round_of-expand_from cases (expand_runs case case.runs 1 items)
      ∙ simp (round_of-expand_runs, append_assoc))
  | inr off ↦ simp off (round_of-expand_from cases items)
]

-- The batch has the rounds that the enabled cases ask for, in the order of the cases and numbered
-- from 1 within each case, and nothing else.
pub round_of-expand_cases :
    (cases : List CaseDefinition) → map round_of (expand_cases cases) ≡ rounds cases
unfolding expand_cases
round_of-expand_cases cases = round_of-expand_from cases []

IsNumbered-snoc :
    (n : ℕ) (items : List TaskItem) (item : TaskItem)
    → IsNumbered n items
    → item.position ≡ n + length items
    → IsNumbered n (items ++ item ∷ [])
IsNumbered-snoc n [] item h e = (omega (arith, e), tt)
IsNumbered-snoc n (x ∷ xs) item h e = (h.0, IsNumbered-snoc (suc n) xs item h.1 (omega (arith, e)))

IsNumbered-expand_runs :
    (case : CaseDefinition) (left run_no : ℕ) (items : List TaskItem)
    → IsNumbered 0 items
    → IsNumbered 0 (expand_runs case left run_no items)
unfolding expand_runs
IsNumbered-expand_runs case zero run_no items h = h
IsNumbered-expand_runs case (suc left) run_no items h =
    IsNumbered-expand_runs case left (run_no + 1)
      (items ++ task_item case run_no (length items) ∷ [])
      (IsNumbered-snoc 0 items (task_item case run_no (length items)) h
        (unfold task_item in omega arith))

IsNumbered-expand_from :
    (cases : List CaseDefinition) (items : List TaskItem)
    → IsNumbered 0 items
    → IsNumbered 0 (expand_from cases items)
unfolding expand_from
IsNumbered-expand_from [] items h = h
IsNumbered-expand_from (case ∷ cases) items h = elim (Bool-cases case.enabled) [
  | inl on ↦ simp on (
      IsNumbered-expand_from cases (expand_runs case case.runs 1 items)
        (IsNumbered-expand_runs case case.runs 1 items h))
  | inr off ↦ simp off (IsNumbered-expand_from cases items h)
]

-- Every item of the batch stands at its own position, counted from 0 across all cases.
pub expand_cases-IsNumbered : (cases : List CaseDefinition) → IsNumbered 0 (expand_cases cases)
unfolding expand_cases
expand_cases-IsNumbered cases = IsNumbered-expand_from cases [] tt
