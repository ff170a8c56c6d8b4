-- ===== src/Catalog/Resolve/Laws.antt =====
-- What the environment references of a prompt are, and what resolving them keeps.
use Prim.Native.Char.{Char, code}
use mathlib.Core.Path.{subst}
use mathlib.Core.Option.{some-injective}
use yonwork_benchmark.Prelude.{
  ℕ, suc, zero, String, Option, none, some, ◌≡◌, refl, ◌≤◌, concat, count_chars, arith, Bool-cases,
  Option-cases, inl, inr, ap, sym, ◌∙◌, eq_iff, str_eq,
}
use yonwork_benchmark.Catalog.Resolve.{
  Reference, name_rest, name_at, reference_at, pieces_from, pieces_of, fill, written, with_char,
  is_name_char, is_capital, substitute,
}

pub concat_assoc : (a b c : String) → concat (concat a b) c ≡ concat a (concat b c)
unfolding concat
concat_assoc String.[] b c = refl
concat_assoc (String.◌∷◌ x a) b c = ap (λ s. String.◌∷◌ x s) (concat_assoc a b c)

-- A text that is a name, the end of a reference and a shorter text.
record Named (s : String) (r : Reference) : Type 0 where
  pub text : s ≡ concat r.name (concat "}" r.rest)
  pub shorter : suc (count_chars r.rest) ≤ count_chars s

Named-first :
    (c : Char) (s : String) (o : Option Reference) (r : Reference)
    → ((q : Reference) → o ≡ some q → Named s q)
    → with_char c o ≡ some r
    → Named (String.◌∷◌ c s) r
unfolding concat count_chars
Named-first c s none r h e = absurd (cc (e))
Named-first c s (some q) r h e =
    let n = h q refl in
    subst (Named (String.◌∷◌ c s)) (some-injective _ r e)
      (record { text = ap (λ t. String.◌∷◌ c t) n.text; shorter = omega (arith, n.shorter) })

name_rest-Named : (s : String) (r : Reference) → name_rest s ≡ some r → Named s r
unfolding name_rest concat count_chars
name_rest-Named String.[] r h = absurd (cc (h))
name_rest-Named (String.◌∷◌ c s) r h = elim (Bool-cases (str_eq (String.◌∷◌ c "") "}")) [
  | inl e ↦
      subst (Named (String.◌∷◌ c s))
        (some-injective (record { name = ""; rest = s }) r (rw (e, name_rest) at h))
        (record {
          text = ap (λ t. concat t s) ((eq_iff (String.◌∷◌ c "") "}").0 e);
          shorter = omega arith;
        })
  | inr e ↦ elim (Bool-cases (is_name_char (code c))) [
    | inl f ↦ Named-first c s (name_rest s) r (name_rest-Named s) (rw (e, f, name_rest) at h)
    | inr f ↦ absurd (cc (rw (e, f, name_rest) at h))
  ]
]

name_at-Named : (s : String) (r : Reference) → name_at s ≡ some r → Named s r
unfolding name_at
name_at-Named String.[] r h = absurd (cc (h))
name_at-Named (String.◌∷◌ c s) r h = elim (Bool-cases (is_capital (code c))) [
  | inl f ↦ Named-first c s (name_rest s) r (name_rest-Named s) (rw (f, name_at) at h)
  | inr f ↦ absurd (cc (rw (f, name_at) at h))
]

-- A text that starts with a reference is the reference and a shorter text.
pub record Referring (s : String) (r : Reference) : Type 0 where
  pub text : s ≡ concat (written r.name) r.rest
  pub shorter : suc (count_chars r.rest) ≤ count_chars s

pub reference_at-Referring : (s : String) (r : Reference) → reference_at s ≡ some r → Referring s r
unfolding reference_at concat written count_chars
reference_at-Referring String.[] r h = absurd (cc (h))
reference_at-Referring (String.◌∷◌ d String.[]) r h = absurd (cc (h))
reference_at-Referring (String.◌∷◌ d (String.◌∷◌ b s)) r h =
    elim (Bool-cases (str_eq (String.◌∷◌ d (String.◌∷◌ b "")) "${")) [
      | inl e ↦
          let n = name_at-Named s r (rw (e, reference_at) at h) in
          record {
            text =
                ap (λ t. concat t s) ((eq_iff (String.◌∷◌ d (String.◌∷◌ b "")) "${").0 e)
                ∙ ap (concat "${") (n.text ∙ sym (concat_assoc r.name "}" r.rest));
            shorter = omega (arith, n.shorter);
          }
      | inr e ↦ absurd (cc (rw (e, reference_at) at h))
    ]

fill-pieces_from : (n : ℕ) (s : String) → count_chars s ≤ n → fill (λ _. none) (pieces_from n s) ≡ s
unfolding fill pieces_from count_chars
fill-pieces_from zero String.[] h = refl
fill-pieces_from zero (String.◌∷◌ c s) h = absurd (omega (arith, h))
fill-pieces_from (suc n) String.[] h = refl
fill-pieces_from (suc n) (String.◌∷◌ c s) h = elim (Option-cases (reference_at (String.◌∷◌ c s))) [
  | inl e ↦ rw (e, pieces_from) (ap (λ t. String.◌∷◌ c t) (fill-pieces_from n s (omega (arith, h))))
  | inr (r, e) ↦
      let f = reference_at-Referring (String.◌∷◌ c s) r e in
      rw (e, pieces_from)
        (ap (concat (written r.name)) (fill-pieces_from n r.rest (omega (arith, h, f.shorter)))
          ∙ sym f.text)
]

-- Without an environment every prompt is filled with its own text.
substitute_nothing : (s : String) → substitute (λ _. none) s ≡ s
unfolding substitute pieces_of
substitute_nothing s = fill-pieces_from (count_chars s) s (omega arith)
