-- ===== src/Json.antt =====
-- JSON values as `json.loads` returns them: `dict` is `Fields`, in which `get` finds a key's value.
-- Numbers are the non-negative integers, all that the code below reads of them.
use yonwork_benchmark.Prelude.{
  ℕ, String, Bool, true, false, Option, none, some, str_eq, if◌then◌else◌, is_blank, ◌==◌, not,
}

mutual
  pub data Json : Type 0 where
    null : Json
    bool : Bool → Json
    num : ℕ → Json
    text : String → Json
    arr : Items → Json
    obj : Fields → Json

  pub data Items : Type 0 where
    nil : Items
    cons : Json → Items → Items

  pub data Fields : Type 0 where
    end : Fields
    field : String → Json → Fields → Fields

-- `d.get(key)`: `None` for a missing key, which is also what JSON's null is read as.
unfoldable pub get : String → Fields → Json
get key end = null
get key (field k v rest) = if str_eq k key then v else get key rest

unfoldable pub as_text : Json → Option String
as_text (text s) = some s
as_text _ = none

unfoldable pub as_object : Json → Option Fields
as_object (obj f) = some f
as_object _ = none

-- `bool(v)`
unfoldable pub is_truthy : Json → Bool
is_truthy null = false
is_truthy (bool b) = b
is_truthy (num n) = not (n == 0)
is_truthy (text s) = not (is_blank s)
is_truthy (arr nil) = false
is_truthy (arr (cons x xs)) = true
is_truthy (obj end) = false
is_truthy (obj (field k v r)) = true
