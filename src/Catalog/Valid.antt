-- ===== src/Catalog/Valid.antt =====
-- What holds of a catalog that `load_catalog` accepts.
use mathlib.Core.Path.{subst}
use mathlib.Core.Option.{some-injective}
use yonwork_benchmark.Prelude.{
  ◌&&◌, [], ◌∷◌, AreDistinct, ℕ, String, Bool, true, false, Option, none, some, ◌≡◌, refl, ◌≤◌, leb,
  All, length, map, Bool-cases, Option-cases, inl, inr, ap, sym, ◌∙◌, is_blank, strip, arith,
}
use yonwork_benchmark.Json.{Items, Json, Fields}
use yonwork_benchmark.Models.Cases.{CaseDefinition, Expectations}
use yonwork_benchmark.Catalog.Values.{
  field_of, find_field, guard, text_value, identifier, is_identifier, positive, positive_int,
  length_or, ◌>>=◌,
}
use yonwork_benchmark.Catalog.Load.{
  expectations, case_in, case_of, cases_of, nonempty_list, case_set_in, CaseSetDefinition,
  expectations_in, are_unique,
}
use yonwork_benchmark.Prelude.{elem, List, not}

pub record IsValidCase (c : CaseDefinition) : Type 0 where
  pub name : is_identifier c.case_name ≡ true
  pub prompt : is_blank c.prompt ≡ false
  pub runs : 1 ≤ c.runs
  pub min_length : 1 ≤ c.expectations.min_length

pub record IsValidSet (s : CaseSetDefinition) : Type 0 where
  pub id : is_identifier s.case_set_id ≡ true
  pub distinct_cases : AreDistinct (map (λ c. c.case_name) s.cases)
  pub some_case : 1 ≤ length s.cases
  pub valid_cases : All IsValidCase s.cases

-- `P` holds of what `o` gives, if it gives anything.
pub record Gives {A : Type 0} (P : A → Type 0) (o : Option A) : Type 0 where
  pub holds : (a : A) → o ≡ some a → P a

-- `P` holds of what a chain gives, if it holds whatever its first part gives.
pub chain :
    {A B : Type 0} {P : B → Type 0} {o : Option A} {f : A → Option B}
    → ((a : A) → o ≡ some a → Gives P (f a))
    → Gives P (o >>= f)
unfolding ◌>>=◌
chain {o = none} h = record { holds = λ a e. absurd (cc (e)) }
chain {o = some a} h = h a refl

pub gives : {A : Type 0} {P : A → Type 0} {a : A} → P a → Gives P (some a)
gives {P = P} {a = a} h = record { holds = λ b e. subst P (some-injective a b e) h }

pub given : {A : Type 0} (P : A → Type 0) (o : Option A) (a : A) → Gives P o → o ≡ some a → P a
given P o a h e = h.holds a e

positive-valid : (v : Json) (n : ℕ) → positive v ≡ some n → 1 ≤ n
unfolding positive
positive-valid (Json.num m) n h = elim (Bool-cases (leb 1 m)) [
  | inl e ↦ let k = some-injective m n (rw (e, positive) at h) in ground (arith, e, k)
  | inr e ↦ absurd (cc (rw (e, positive) at h))
]
positive-valid Json.null n h = absurd (cc (h))
positive-valid (Json.bool b) n h = absurd (cc (h))
positive-valid (Json.text b) n h = absurd (cc (h))
positive-valid (Json.arr b) n h = absurd (cc (h))
positive-valid (Json.obj b) n h = absurd (cc (h))

positive_int-valid : (v : Json) (n : ℕ) → positive_int 1 v ≡ some n → 1 ≤ n
unfolding positive_int
positive_int-valid Json.null n h = let k = some-injective 1 n h in omega (arith, k)
positive_int-valid (Json.num m) n h = positive-valid (Json.num m) n h
positive_int-valid (Json.bool b) n h = positive-valid (Json.bool b) n h
positive_int-valid (Json.text b) n h = positive-valid (Json.text b) n h
positive_int-valid (Json.arr b) n h = positive-valid (Json.arr b) n h
positive_int-valid (Json.obj b) n h = positive-valid (Json.obj b) n h

length_or-valid : (o : Option Json) (n : ℕ) → length_or o ≡ some n → 1 ≤ n
length_or-valid none n h = let k = some-injective 1 n h in omega (arith, k)
length_or-valid (some v) n h = positive-valid v n h

text_value-valid : (v : Json) (s : String) → text_value v ≡ some s → is_blank s ≡ false
unfolding text_value
text_value-valid (Json.text t) s h = elim (Bool-cases (is_blank (strip t))) [
  | inl e ↦ absurd (cc (rw (e, text_value) at h))
  | inr e ↦ ap is_blank (sym (some-injective _ _ (rw (e, text_value) at h))) ∙ e
]
text_value-valid Json.null s h = absurd (cc (h))
text_value-valid (Json.bool b) s h = absurd (cc (h))
text_value-valid (Json.num b) s h = absurd (cc (h))
text_value-valid (Json.arr b) s h = absurd (cc (h))
text_value-valid (Json.obj b) s h = absurd (cc (h))

identifier-valid : (v : Json) (s : String) → identifier v ≡ some s → is_identifier s ≡ true
unfolding identifier
identifier-valid v s h = elim (Option-cases (text_value v)) [
  | inl e ↦ absurd (cc (rw (e, identifier) at h))
  | inr (t, e) ↦ elim (Bool-cases (is_identifier t)) [
    | inl f ↦ ap is_identifier (sym (some-injective _ _ (rw (e, f, identifier) at h))) ∙ f
    | inr f ↦ absurd (cc (rw (e, f, identifier) at h))
  ]
]

guard-valid : (b : Bool) (a : Bool) → guard b ≡ some a → b ≡ true
guard-valid true a h = refl
guard-valid false a h = absurd (cc (h))

is_not : (b : Bool) → not b ≡ true → b ≡ false
is_not false h = refl
is_not true h = absurd (cc (h))

and_true : (a b : Bool) → (a && b) ≡ true → (a ≡ true) × (b ≡ true)
and_true true b h = (refl, h)
and_true false b h = absurd (cc (h))

are_unique-AreDistinct : (xs : List String) → are_unique xs ≡ true → AreDistinct xs
unfolding are_unique
are_unique-AreDistinct [] h = tt
are_unique-AreDistinct (x ∷ xs) h =
    let (p, q) = and_true (not (elem x xs)) (are_unique xs) h in
    (is_not (elem x xs) p, are_unique-AreDistinct xs q)

HasLength : Expectations → Type 0
HasLength x = 1 ≤ x.min_length

expectations_in-HasLength : (raw : Fields) → Gives HasLength (expectations_in raw)
unfolding expectations_in HasLength
expectations_in-HasLength raw = chain λ _ _. chain λ n e. chain λ _ _. chain λ _ _. chain λ _ _.
    chain λ _ _.
      chain
        λ _ _. chain λ _ _. chain λ _ _. gives (length_or-valid (find_field "min_length" raw) n e)

expectations-HasLength : (v : Json) (x : Expectations) → expectations v ≡ some x → 1 ≤ x.min_length
unfolding expectations HasLength
expectations-HasLength v x h =
    given HasLength (expectations v) x (chain λ raw _. expectations_in-HasLength raw) h

case_in-IsValidCase : (raw : Fields) → Gives IsValidCase (case_in raw)
unfolding case_in
case_in-IsValidCase raw = chain λ _ _. chain λ _ _. chain λ name e. chain λ prompt f.
    chain λ runs g. chain λ x h. gives (record {
      name = identifier-valid (field_of "id" raw) name e;
      prompt = text_value-valid (field_of "prompt" raw) prompt f;
      runs = positive_int-valid (field_of "runs" raw) runs g;
      min_length = expectations-HasLength (field_of "assertions" raw) x h;
    })

case_of-IsValidCase : (v : Json) (c : CaseDefinition) → case_of v ≡ some c → IsValidCase c
unfolding case_of
case_of-IsValidCase v c h =
    given IsValidCase (case_of v) c (chain λ raw _. case_in-IsValidCase raw) h

cases_of-valid : (items : Items) → Gives (All IsValidCase) (cases_of items)
unfolding cases_of
cases_of-valid Items.nil = gives tt
cases_of-valid (Items.cons item rest) = chain λ c e. chain λ cs f. gives (
  case_of-IsValidCase item c e,
  given (All IsValidCase) (cases_of rest) cs (cases_of-valid rest) f,
)

HasCase : List CaseDefinition → Type 0
HasCase cs = 1 ≤ length cs

cases_of-HasCase :
    (v : Json) (items : Items) → nonempty_list v ≡ some items → Gives HasCase (cases_of items)
unfolding nonempty_list cases_of HasCase
cases_of-HasCase v (Items.cons item rest) h = chain λ c _. chain λ cs _. gives (omega arith)
cases_of-HasCase Json.null Items.nil h = absurd (cc (h))
cases_of-HasCase (Json.bool b) Items.nil h = absurd (cc (h))
cases_of-HasCase (Json.num b) Items.nil h = absurd (cc (h))
cases_of-HasCase (Json.text b) Items.nil h = absurd (cc (h))
cases_of-HasCase (Json.obj b) Items.nil h = absurd (cc (h))
cases_of-HasCase (Json.arr Items.nil) Items.nil h = absurd (cc (h))
cases_of-HasCase (Json.arr (Items.cons x xs)) Items.nil h = absurd (cc (h))

-- A case set that is valid, and whose id was not seen before.
unfoldable pub IsNew : List String → CaseSetDefinition → Type 0
IsNew seen s = IsValidSet s × (elem s.case_set_id seen ≡ false)

pub case_set_in-IsNew :
    (seen : List String) (raw : Fields) → Gives (IsNew seen) (case_set_in seen raw)
unfolding case_set_in IsNew HasCase
case_set_in-IsNew seen raw = chain λ _ _. chain λ id e. chain λ a new. chain λ items f.
    chain λ cases g. chain λ b unique. chain λ _ _. chain λ _ _. gives (
      record {
        id = identifier-valid (field_of "id" raw) id e;
        distinct_cases =
            are_unique-AreDistinct (map (λ c. c.case_name) cases)
              (guard-valid (are_unique (map (λ c. c.case_name) cases)) b unique);
        some_case =
            given HasCase (cases_of items) cases (cases_of-HasCase (field_of "cases" raw) items f)
              g;
        valid_cases = given (All IsValidCase) (cases_of items) cases (cases_of-valid items) g;
      },
      is_not (elem id seen) (guard-valid (not (elem id seen)) a new),
    )
