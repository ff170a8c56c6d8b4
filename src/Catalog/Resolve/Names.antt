-- ===== src/Catalog/Resolve/Names.antt =====
-- What an environment reference is, as a text, and that `reference_at` finds just these.
use Prim.Native.Char.{Char, code}
use mathlib.Core.Path.{subst}
use mathlib.Core.Option.{some-injective}
use yonwork_benchmark.Prelude.{
  ℕ, String, true, false, Option, none, some, ◌≡◌, ◌≤◌, refl, concat, ◌⊎◌, inl, inr, ap, sym, ◌∙◌,
  Bool-cases, str_eq, eq_iff, arith,
}
use yonwork_benchmark.Catalog.Resolve.{
  Reference, name_rest, name_at, reference_at, with_char, is_name_char, is_capital,
}
use yonwork_benchmark.Catalog.Resolve.Laws.{concat_assoc}
use yonwork_benchmark.Catalog.Resolve.{written}

-- `A` to `Z`
pub record IsCapital (c : Char) : Type 0 where
  pub from_a : 65 ≤ code c
  pub to_z : code c ≤ 90

-- `0` to `9`
pub record IsDigit (c : Char) : Type 0 where
  pub from_zero : 48 ≤ code c
  pub to_nine : code c ≤ 57

-- A capital, a digit or `_`
abbrev pub IsNameChar : Char → Type 0
IsNameChar c = IsCapital c ⊎ (IsDigit c ⊎ (code c ≡ 95))

abbrev pub AllNameChars : String → Type 0
AllNameChars String.[] = Unit
AllNameChars (String.◌∷◌ c s) = IsNameChar c × AllNameChars s

-- The name of an environment variable: a capital and then capitals, digits and `_`.
abbrev pub IsName : String → Type 0
IsName String.[] = ⊥
IsName (String.◌∷◌ c s) = IsCapital c × AllNameChars s

-- The text of a reference, with what follows it.
abbrev pub referring : String → String → String
referring name rest = concat "${" (concat name (concat "}" rest))

-- A text that starts with a reference.
pub record StartsReference (s : String) : Type 0 where
  pub name : String
  pub rest : String
  pub named : IsName name
  pub text : s ≡ referring name rest

capital : (c : Char) → is_capital (code c) ≡ true → IsCapital c
capital c h = record { from_a = ground (arith, h); to_z = ground (arith, h) }

is_capital-true : (c : Char) → IsCapital c → is_capital (code c) ≡ true
is_capital-true c h = ground (arith, h.from_a, h.to_z)

name_char :
    (n : ℕ) → is_name_char n ≡ true → ((65 ≤ n) × (n ≤ 90)) ⊎ (((48 ≤ n) × (n ≤ 57)) ⊎ (n ≡ 95))
name_char n h = ground (arith, h)

is_name_char-IsNameChar : (c : Char) → is_name_char (code c) ≡ true → IsNameChar c
is_name_char-IsNameChar c h = elim (name_char (code c) h) [
  | inl k ↦ inl (record { from_a = k.0; to_z = k.1 })
  | inr (inl k) ↦ inr (inl (record { from_zero = k.0; to_nine = k.1 }))
  | inr (inr k) ↦ inr (inr k)
]

is_name_char-true : (c : Char) → IsNameChar c → is_name_char (code c) ≡ true
is_name_char-true c (inl h) = ground (arith, h.from_a, h.to_z)
is_name_char-true c (inr (inl h)) = ground (arith, h.from_zero, h.to_nine)
is_name_char-true c (inr (inr h)) = ground (arith, h)

IsNameChar-bound : (c : Char) → IsNameChar c → code c ≤ 95
IsNameChar-bound c (inl h) = omega (arith, h.to_z)
IsNameChar-bound c (inr (inl h)) = omega (arith, h.to_nine)
IsNameChar-bound c (inr (inr h)) = omega (arith, h)

first_code : String → ℕ
first_code String.[] = 0
first_code (String.◌∷◌ c s) = code c

not_end : (c : Char) → code c ≤ 95 → str_eq (String.◌∷◌ c "") "}" ≡ false
unfolding first_code
not_end c h = elim (Bool-cases (str_eq (String.◌∷◌ c "") "}")) [
  | inl e ↦
      let same : code c ≡ 125 = ap first_code ((eq_iff (String.◌∷◌ c "") "}").0 e) in
      absurd (omega (arith, h, same))
  | inr e ↦ e
]

-- The name that is found is one.
with_char-AllNameChars :
    (c : Char) (o : Option Reference) (r : Reference)
    → IsNameChar c
    → ((q : Reference) → o ≡ some q → AllNameChars q.name)
    → with_char c o ≡ some r
    → AllNameChars r.name
with_char-AllNameChars c none r k h e = absurd (cc (e))
with_char-AllNameChars c (some q) r k h e =
    subst (λ (x : Reference). AllNameChars x.name) (some-injective _ r e) (k, h q refl)

name_rest-AllNameChars : (s : String) (r : Reference) → name_rest s ≡ some r → AllNameChars r.name
unfolding name_rest
name_rest-AllNameChars String.[] r h = absurd (cc (h))
name_rest-AllNameChars (String.◌∷◌ c s) r h = elim (Bool-cases (str_eq (String.◌∷◌ c "") "}")) [
  | inl e ↦
      subst (λ (x : Reference). AllNameChars x.name)
        (some-injective (record { name = ""; rest = s }) r (rw (e, name_rest) at h)) tt
  | inr e ↦ elim (Bool-cases (is_name_char (code c))) [
    | inl f ↦
        with_char-AllNameChars c (name_rest s) r (is_name_char-IsNameChar c f)
          (name_rest-AllNameChars s) (rw (e, f, name_rest) at h)
    | inr f ↦ absurd (cc (rw (e, f, name_rest) at h))
  ]
]

with_char-IsName :
    (c : Char) (o : Option Reference) (r : Reference)
    → IsCapital c
    → ((q : Reference) → o ≡ some q → AllNameChars q.name)
    → with_char c o ≡ some r
    → IsName r.name
with_char-IsName c none r k h e = absurd (cc (e))
with_char-IsName c (some q) r k h e =
    subst (λ (x : Reference). IsName x.name) (some-injective _ r e) (k, h q refl)

name_at-IsName : (s : String) (r : Reference) → name_at s ≡ some r → IsName r.name
unfolding name_at
name_at-IsName String.[] r h = absurd (cc (h))
name_at-IsName (String.◌∷◌ c s) r h = elim (Bool-cases (is_capital (code c))) [
  | inl f ↦
      with_char-IsName c (name_rest s) r (capital c f) (name_rest-AllNameChars s)
        (rw (f, name_at) at h)
  | inr f ↦ absurd (cc (rw (f, name_at) at h))
]

pub reference_at-IsName : (s : String) (r : Reference) → reference_at s ≡ some r → IsName r.name
unfolding reference_at
reference_at-IsName String.[] r h = absurd (cc (h))
reference_at-IsName (String.◌∷◌ d String.[]) r h = absurd (cc (h))
reference_at-IsName (String.◌∷◌ d (String.◌∷◌ b s)) r h =
    elim (Bool-cases (str_eq (String.◌∷◌ d (String.◌∷◌ b "")) "${")) [
      | inl e ↦ name_at-IsName s r (rw (e, reference_at) at h)
      | inr e ↦ absurd (cc (rw (e, reference_at) at h))
    ]

-- A name with the end of a reference after it is found.
name_rest_found :
    (name rest : String)
    → AllNameChars name
    → name_rest (concat name (concat "}" rest)) ≡ some (record { name = name; rest = rest })
unfolding name_rest concat
name_rest_found String.[] rest h = refl
name_rest_found (String.◌∷◌ c name) rest h =
    rw (not_end c (IsNameChar-bound c h.0), is_name_char-true c h.0)
      (ap (with_char c) (name_rest_found name rest h.1))

name_at_found :
    (name rest : String)
    → IsName name
    → name_at (concat name (concat "}" rest)) ≡ some (record { name = name; rest = rest })
unfolding name_at concat
name_at_found String.[] rest h = absurd h
name_at_found (String.◌∷◌ c name) rest h =
    rw (is_capital-true c h.0) (ap (with_char c) (name_rest_found name rest h.1))

reference_at_found :
    (name rest : String)
    → IsName name
    → reference_at (referring name rest) ≡ some (record { name = name; rest = rest })
unfolding reference_at concat
reference_at_found name rest h = name_at_found name rest h

-- Where reference_at finds nothing, no reference starts.
pub reference_at-none : (s : String) → reference_at s ≡ none → ¬ (StartsReference s)
reference_at-none s h r =
    absurd (cc (sym h ∙ ap reference_at r.text ∙ reference_at_found r.name r.rest r.named))

pub written-referring : (name rest : String) → concat (written name) rest ≡ referring name rest
unfolding concat written
written-referring name rest = ap (concat "${") (concat_assoc name "}" rest)
