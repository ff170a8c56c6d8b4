-- ===== src/Catalog/Resolve/Filled.antt =====
-- What a case set that `resolve_case_set` returns asks.
use mathlib.Core.Path.{subst}
use mathlib.Core.Option.{some-injective}
use Prim.Native.Char.{Char}
use yonwork_benchmark.Prelude.{
  ◌∙◌, ℕ, suc, zero, String, Bool, true, false, Option, none, some, List, [], ◌∷◌, ◌++◌, ◌≡◌, refl,
  ◌≤◌, ◌||◌, concat, count_chars, map, arith, Bool-cases, Option-cases, inl, inr, sym, any,
  is_blank,
}
use yonwork_benchmark.Models.Cases.{CaseDefinition}
use yonwork_benchmark.Catalog.Load.{CaseSetDefinition}
use yonwork_benchmark.Catalog.Resolve.{
  reference_at, pieces_from, pieces_of, fill, written, substitute, resolve_case, resolve_case_set,
  required_env, is_missing, names_of, value_or,
}
use yonwork_benchmark.Catalog.Resolve.Names.{
  StartsReference, IsName, referring, reference_at-none, reference_at-IsName, written-referring,
}
use yonwork_benchmark.Catalog.Resolve.Laws.{reference_at-Referring}

either_false : (a b : Bool) → (a || b) ≡ false → (a ≡ false) × (b ≡ false)
either_false false b h = (refl, h)
either_false true b h = absurd (cc (h))

any-append_false :
    (p : String → Bool) (xs ys : List String)
    → any p (xs ++ ys) ≡ false
    → (any p xs ≡ false) × (any p ys ≡ false)
any-append_false p [] ys h = (refl, h)
any-append_false p (x ∷ xs) ys h =
    let (first, later) = either_false (p x) (any p (xs ++ ys)) h in
    let (here, there) = any-append_false p xs ys later in (rw (first) here, there)

module _ (values : String → Option String) where
  -- The second text is the first with every reference, from left to right, replaced by a value that
  -- is not empty, and every other character kept.
  pub data IsFilled : String → String → Type 0 where
    all_filled : IsFilled "" ""
    keeps :
        (c : Char) (s t : String)
        → ¬ (StartsReference (String.◌∷◌ c s))
        → IsFilled s t
        → IsFilled (String.◌∷◌ c s) (String.◌∷◌ c t)
    fills :
        (name value s t : String)
        → IsName name
        → values name ≡ some value
        → is_blank value ≡ false
        → IsFilled s t
        → IsFilled (referring name s) (concat value t)

  fills_reference :
      (name s t : String) (o : Option String)
      → IsName name
      → values name ≡ o
      → is_missing o ≡ false
      → IsFilled s t
      → IsFilled (referring name s) (concat (value_or o (written name)) t)
  fills_reference name s t none n e h f = absurd (cc (h))
  fills_reference name s t (some value) n e h f = IsFilled.fills name value s t n e h f

  missing : String → Bool
  missing name = is_missing (values name)

  fill-IsFilled :
      (n : ℕ) (s : String)
      → count_chars s ≤ n
      → any missing (names_of (pieces_from n s)) ≡ false
      → IsFilled s (fill values (pieces_from n s))
  unfolding fill pieces_from count_chars names_of missing
  fill-IsFilled zero String.[] h m = IsFilled.all_filled
  fill-IsFilled zero (String.◌∷◌ c s) h m = absurd (omega (arith, h))
  fill-IsFilled (suc n) String.[] h m = IsFilled.all_filled
  fill-IsFilled (suc n) (String.◌∷◌ c s) h m = elim (Option-cases (reference_at (String.◌∷◌ c s))) [
    | inl e ↦
        rw (e, pieces_from)
          (IsFilled.keeps c s _ (reference_at-none (String.◌∷◌ c s) e)
            (fill-IsFilled n s (omega (arith, h)) (rw (e, pieces_from) at m)))
    | inr (r, e) ↦
        let f = reference_at-Referring (String.◌∷◌ c s) r e in
        let both = either_false (missing r.name) _ (rw (e, pieces_from) at m) in
        rw (e, pieces_from)
          (subst
            (λ u. IsFilled u (
              concat (value_or (values r.name) (written r.name))
                (fill values (pieces_from n r.rest))))
            (sym (f.text ∙ written-referring r.name r.rest))
            (fills_reference r.name r.rest _ (values r.name)
              (reference_at-IsName (String.◌∷◌ c s) r e) refl both.0
              (fill-IsFilled n r.rest (omega (arith, h, f.shorter)) both.1)))
  ]

  -- The second cases are the first with the prompts of the enabled ones filled.
  pub record Asks (c d : CaseDefinition) : Type 0 where
    pub unchanged : d ≡ record c { prompt = d.prompt }
    pub filled : c.enabled ≡ true → IsFilled c.prompt d.prompt

  abbrev pub AskAll : List CaseDefinition → List CaseDefinition → Type 0
  AskAll [] [] = Unit
  AskAll [] (d ∷ ds) = ⊥
  AskAll (c ∷ cs) [] = ⊥
  AskAll (c ∷ cs) (d ∷ ds) = Asks c d × AskAll cs ds

  required_env-AskAll :
      (cs : List CaseDefinition)
      → any missing (required_env cs) ≡ false
      → AskAll cs (map (resolve_case values) cs)
  unfolding required_env substitute pieces_of
  required_env-AskAll [] h = tt
  required_env-AskAll (c ∷ cs) h = elim (Bool-cases c.enabled) [
    | inl e ↦
        let both =
          any-append_false missing (names_of (pieces_of c.prompt)) (required_env cs)
            (rw (e, required_env) at h) in
        (
          record {
            unchanged = refl;
            filled = λ _. fill-IsFilled (count_chars c.prompt) c.prompt (omega arith) both.0;
          },
          required_env-AskAll cs both.1,
        )
    | inr e ↦ (
      record { unchanged = refl; filled = λ f. absurd (cc (e, f)) },
      required_env-AskAll cs (rw (e, required_env) at h),
    )
  ]

  -- A case set that resolve_case_set returns is the given one with other prompts, and the prompt of
  -- each enabled case is the given prompt with every environment reference `${NAME}`, the name a
  -- capital followed by capitals, digits and underscores, and nothing else, replaced by a value of
  -- the environment that is not empty.
  pub resolve_case_set-AskAll :
      (s resolved : CaseSetDefinition)
      → resolve_case_set values s ≡ some resolved
      → (resolved ≡ record s { cases = resolved.cases }) × AskAll s.cases resolved.cases
  unfolding resolve_case_set missing
  resolve_case_set-AskAll s resolved h = elim (Bool-cases (any missing (required_env s.cases))) [
    | inl e ↦ absurd (cc (rw (e, resolve_case_set) at h))
    | inr e ↦
        subst (λ r. (r ≡ record s { cases = r.cases }) × AskAll s.cases r.cases)
          (some-injective (record s { cases = map (resolve_case values) s.cases }) resolved
            (rw (e, resolve_case_set) at h))
          (refl, required_env-AskAll s.cases e)
  ]
