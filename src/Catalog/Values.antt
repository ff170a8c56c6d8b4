-- ===== src/Catalog/Values.antt =====
-- The checks on single values of runner/case_catalog.py. `none` is a `CaseCatalogError`.
use Prim.Native.Char.{code}
use Prim.Native.Nat.{◌*◌}
use yonwork_benchmark.Prelude.{
  ℕ, String, Bool, true, false, Option, none, some, List, [], ◌∷◌, str_eq, elem, strip, is_blank,
  if◌then◌else◌, leb, ◌&&◌, ◌||◌, ◌==◌,
}
use yonwork_benchmark.Json.{Json, Fields, Items}

-- A key that is missing is told apart from one whose value is null.
unfoldable pub find_field : String → Fields → Option Json
find_field key Fields.end = none
find_field key (Fields.field k v rest) =
    let later = find_field key rest in if str_eq k key then some v else later

abbrev pub or_null : Option Json → Json
or_null none = Json.null
or_null (some v) = v

-- `raw.get(key)`
unfoldable pub field_of : String → Fields → Json
unfolding find_field
field_of key raw = or_null (find_field key raw)

infixl 5 ◌>>=◌
unfoldable pub ◌>>=◌ {ℓ κ} : {A : Type ℓ} {B : Type κ} → Option A → (A → Option B) → Option B
none >>= next = none
some a >>= next = next a

-- A check that raises if it fails.
abbrev pub guard : Bool → Option Bool
guard true = some true
guard false = none

unfoldable pub mapping : Json → Option Fields
mapping (Json.obj raw) = some raw
mapping _ = none

unfoldable pub only_keys : List String → Fields → Bool
unfolding elem
only_keys allowed Fields.end = true
only_keys allowed (Fields.field k v rest) = elem k allowed && only_keys allowed rest

-- `_text` without a default
unfoldable pub text_value : Json → Option String
unfolding strip
text_value (Json.text s) = if is_blank (strip s) then none else some (strip s)
text_value _ = none

-- `_text` with a default
unfoldable pub text_or : String → Json → Option String
unfolding text_value
text_or default Json.null = some default
text_or default v = text_value v

abbrev pub is_letter_or_digit : ℕ → Bool
is_letter_or_digit c = (leb 48 c && leb c 57) || ((leb 65 c && leb c 90) || (leb 97 c && leb c 122))

unfoldable pub all_id_chars : String → Bool
all_id_chars String.[] = true
all_id_chars (String.◌∷◌ c s) =
    (is_letter_or_digit (code c) || (code c == 95 || (code c == 46 || code c == 45)))
    && all_id_chars s

-- `_ID.fullmatch`
unfoldable pub is_identifier : String → Bool
unfolding all_id_chars
is_identifier String.[] = false
is_identifier (String.◌∷◌ c s) = is_letter_or_digit (code c) && all_id_chars s

unfoldable pub identifier : Json → Option String
identifier v = elim (text_value v) [
  | none ↦ none
  | some s ↦ if is_identifier s then some s else none
]

unfoldable pub positive : Json → Option ℕ
positive (Json.num n) = if leb 1 n then some n else none
positive _ = none

-- `_positive_int`
unfoldable pub positive_int : ℕ → Json → Option ℕ
unfolding positive
positive_int default Json.null = some default
positive_int default v = positive v

-- `_optional_int`
unfoldable pub optional_int : Json → Option (Option ℕ)
unfolding positive
optional_int Json.null = some none
optional_int v = elim (positive v) [ none ↦ none | some n ↦ some (some n) ]

-- `_optional_number` of whole seconds, in milliseconds.
unfoldable pub optional_seconds : Json → Option (Option ℕ)
unfolding positive
optional_seconds Json.null = some none
optional_seconds v = elim (positive v) [ none ↦ none | some n ↦ some (some (n * 1000)) ]

unfoldable pub texts_of : Items → Option (List String)
unfolding text_value
texts_of Items.nil = some []
texts_of (Items.cons item rest) = do s ← text_value item; ss ← texts_of rest; some (s ∷ ss)

unfoldable pub keywords : Json → Option (List String)
unfolding texts_of
keywords Json.null = some []
keywords (Json.arr items) = texts_of items
keywords _ = none

-- A Boolean field with a default for a missing key.
abbrev pub bool_or : Bool → Option Json → Option Bool
bool_or default none = some default
bool_or default (some (Json.bool b)) = some b
bool_or default (some _) = none

-- `min_length`: 1 for a missing key.
abbrev pub length_or : Option Json → Option ℕ
length_or none = some 1
length_or (some v) = positive v

-- `{} if value is None else _mapping(value, where)`
abbrev pub mapping_or_empty : Json → Option Fields
mapping_or_empty Json.null = some Fields.end
mapping_or_empty v = mapping v
