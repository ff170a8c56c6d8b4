-- ===== src/Catalog/Resolve.antt =====
-- The environment references of prompts, runner/case_catalog.py: `_ENV_REFERENCE`, `required_env`,
-- `resolve_case_set` and `load_case_set`.
pub mod Laws
pub mod Names
pub mod Filled
use Prim.Native.Char.{Char, code}
use yonwork_benchmark.Prelude.{
  str_eq, ℕ, suc, zero, String, Bool, true, Option, none, some, List, [], ◌∷◌, ◌++◌, leb, ◌&&◌,
  ◌||◌, ◌==◌, if◌then◌else◌, concat, count_chars, map, is_blank, any,
}
use yonwork_benchmark.Json.{Json}
use yonwork_benchmark.Models.Cases.{CaseDefinition}
use yonwork_benchmark.Catalog.Values.{◌>>=◌}
use yonwork_benchmark.Catalog.Load.{CaseSetDefinition, load_catalog, get_case_set}

abbrev is_capital : ℕ → Bool
is_capital c = leb 65 c && leb c 90

abbrev is_name_char : ℕ → Bool
is_name_char c = is_capital c || ((leb 48 c && leb c 57) || c == 95)

-- The name of a reference and what follows it.
pub record Reference : Type 0 where
  pub name : String
  pub rest : String

abbrev with_char : Char → Option Reference → Option Reference
with_char c none = none
with_char c (some r) = some (record { name = String.◌∷◌ c r.name; rest = r.rest })

-- `[A-Z0-9_]*\}`
unfoldable pub name_rest : String → Option Reference
name_rest String.[] = none
name_rest (String.◌∷◌ c s) =
    let more = name_rest s in
    if str_eq (String.◌∷◌ c "") "}"
    then some (record { name = ""; rest = s })
    else if is_name_char (code c)
    then with_char c more
    else none

-- `[A-Z][A-Z0-9_]*\}`
unfoldable pub name_at : String → Option Reference
unfolding name_rest
name_at String.[] = none
name_at (String.◌∷◌ c s) = if is_capital (code c) then with_char c (name_rest s) else none

-- A reference at the start of a text.
unfoldable pub reference_at : String → Option Reference
unfolding name_at
reference_at String.[] = none
reference_at (String.◌∷◌ d String.[]) = none
reference_at (String.◌∷◌ d (String.◌∷◌ b s)) =
    if str_eq (String.◌∷◌ d (String.◌∷◌ b "")) "${" then name_at s else none

-- A prompt is a sequence of characters and references.
pub data Piece : Type 0 where
  plain : Char → Piece
  reference : String → Piece

-- The matches of `_ENV_REFERENCE` from left to right, none overlapping, with the length of the text
-- as fuel.
unfoldable pub pieces_from : ℕ → String → List Piece
unfolding reference_at
pieces_from zero s = []
pieces_from (suc n) String.[] = []
pieces_from (suc n) (String.◌∷◌ c s) = elim (reference_at (String.◌∷◌ c s)) [
  | some r ↦ Piece.reference r.name ∷ pieces_from n r.rest
  | none ↦ Piece.plain c ∷ pieces_from n s
]

unfoldable pub pieces_of : String → List Piece
unfolding pieces_from count_chars
pieces_of s = pieces_from (count_chars s) s

-- `match.group(0)`
unfoldable pub written : String → String
unfolding concat
written name = concat "${" (concat name "}")

-- `values` is the environment's `get`.
abbrev value_or : Option String → String → String
value_or none default = default
value_or (some value) default = value

unfoldable pub fill : (String → Option String) → List Piece → String
unfolding concat written
fill values [] = ""
fill values (Piece.plain c ∷ ps) = String.◌∷◌ c (fill values ps)
fill values (Piece.reference name ∷ ps) =
    concat (value_or (values name) (written name)) (fill values ps)

-- `substitute`
unfoldable pub substitute : (String → Option String) → String → String
unfolding fill pieces_of
substitute values prompt = fill values (pieces_of prompt)

unfoldable pub names_of : List Piece → List String
names_of [] = []
names_of (Piece.plain c ∷ ps) = names_of ps
names_of (Piece.reference name ∷ ps) = name ∷ names_of ps

-- `required_env`, without the order and with repetitions.
unfoldable pub required_env : List CaseDefinition → List String
unfolding names_of pieces_of
required_env [] = []
required_env (c ∷ cs) =
    let rest = required_env cs in if c.enabled then names_of (pieces_of c.prompt) ++ rest else rest

-- `not values.get(name)`
abbrev is_missing : Option String → Bool
is_missing none = true
is_missing (some value) = is_blank value

abbrev resolve_case : (String → Option String) → CaseDefinition → CaseDefinition
resolve_case values c = record c { prompt = substitute values c.prompt }

-- `none` is the error of a missing name.
unfoldable pub resolve_case_set :
    (String → Option String) → CaseSetDefinition → Option CaseSetDefinition
unfolding required_env substitute
resolve_case_set values s =
    if any (λ name. is_missing (values name)) (required_env s.cases)
    then none
    else some (record s { cases = map (resolve_case values) s.cases })

unfoldable pub load_case_set :
    Option Json → String → Bool → (String → Option String) → Option CaseSetDefinition
unfolding load_catalog resolve_case_set get_case_set
load_case_set payload case_set_id resolve_environment values = do
  sets ← load_catalog payload
  case_set ← get_case_set case_set_id sets
  if resolve_environment then resolve_case_set values case_set else some case_set
