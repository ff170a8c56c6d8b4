-- ===== src/Models/Severity.antt =====
-- `Verdict`, `_SEVERITY`, `EXIT_CODES` and `worst` of runner/models.py.
use yonwork_benchmark.Prelude.{
  false, true, Bool, any, ap, ℕ, ◌≤◌, ◌≡◌, refl, ◌↔◌, List, [], ◌∷◌, arith, ltb, if◌then◌else◌, All,
  Any, ◌⊎◌, inl, inr, sym, ◌∙◌, All-Any,
}

pub data Verdict : Type 0 where
  pass fail timeout error invalid : Verdict

unfoldable pub severity : Verdict → ℕ
severity Verdict.pass = 0
severity Verdict.fail = 1
severity Verdict.timeout = 2
severity Verdict.error = 3
severity Verdict.invalid = 4

unfoldable pub exit_code : Verdict → ℕ
exit_code Verdict.pass = 0
exit_code Verdict.fail = 1
exit_code Verdict.timeout = 2
exit_code Verdict.error = 3
exit_code Verdict.invalid = 4

-- Python's `max` keeps the first of equals: a later element replaces it only if it is greater.
worse : Verdict → Verdict → Verdict
unfolding severity
worse best v = if ltb (severity best) (severity v) then v else best

max_from : Verdict → List Verdict → Verdict
max_from best [] = best
max_from best (v ∷ vs) = max_from (worse best v) vs

-- `max(verdicts, key=severity, default=PASS)`
unfoldable pub worst : List Verdict → Verdict
unfolding worse max_from
worst [] = Verdict.pass
worst (v ∷ vs) = max_from v vs

severity-worse_left : (u v : Verdict) → severity u ≤ severity (worse u v)
unfolding worse
severity-worse_left u v = ground arith

severity-worse_right : (u v : Verdict) → severity v ≤ severity (worse u v)
unfolding worse
severity-worse_right u v = ground arith

worse_cases : (u v : Verdict) → (worse u v ≡ u) ⊎ (worse u v ≡ v)
unfolding worse
worse_cases u v = ground arith

severity-max_from : (u : Verdict) (vs : List Verdict) → severity u ≤ severity (max_from u vs)
unfolding max_from
severity-max_from u [] = omega arith
severity-max_from u (v ∷ vs) =
    omega (arith, severity-worse_left u v, severity-max_from (worse u v) vs)

max_from_bounds :
    (u : Verdict) (vs : List Verdict) → All (λ v. severity v ≤ severity (max_from u vs)) vs
unfolding max_from
max_from_bounds u [] = tt
max_from_bounds u (v ∷ vs) = (
  omega (arith, severity-worse_right u v, severity-max_from (worse u v) vs),
  max_from_bounds (worse u v) vs,
)

max_from_mem :
    (u : Verdict) (vs : List Verdict) → (max_from u vs ≡ u) ⊎ Any (λ v. v ≡ max_from u vs) vs
unfolding max_from
max_from_mem u [] = inl refl
max_from_mem u (v ∷ vs) = elim (max_from_mem (worse u v) vs) [
  | inl e ↦ elim (worse_cases u v) [ inl d ↦ inl (e ∙ d) | inr d ↦ inr (inl (sym (e ∙ d))) ]
  | inr m ↦ inr (inr m)
]

pub worst_greatest :
    (v : Verdict) (vs : List Verdict)
    → Any (λ u. u ≡ worst (v ∷ vs)) (v ∷ vs)
      × All (λ u. severity u ≤ severity (worst (v ∷ vs))) (v ∷ vs)
unfolding worst
worst_greatest v vs = (
  elim (max_from_mem v vs) [ inl e ↦ inl (sym e) | inr m ↦ inr m ],
  (severity-max_from v vs, max_from_bounds v vs),
)

pub worst_bounds : (vs : List Verdict) → All (λ u. severity u ≤ severity (worst vs)) vs
worst_bounds [] = tt
worst_bounds (v ∷ vs) = (worst_greatest v vs).1

pub worst_mem :
    (P : Verdict → Type 0) (vs : List Verdict) → P Verdict.pass → All P vs → P (worst vs)
unfolding worst
worst_mem P [] h k = h
worst_mem P (v ∷ vs) h k = All-Any P (v ∷ vs) k (worst_greatest v vs).0

abbrev says_invalid : Verdict → Bool
says_invalid Verdict.invalid = true
says_invalid _ = false

abbrev says_error : Verdict → Bool
says_error Verdict.error = true
says_error _ = false

abbrev says_timeout : Verdict → Bool
says_timeout Verdict.timeout = true
says_timeout _ = false

abbrev says_fail : Verdict → Bool
says_fail Verdict.fail = true
says_fail _ = false

-- Invalid if there is one, or else Error if there is one, and so on down to Pass.
unfoldable pub gravest : List Verdict → Verdict
gravest vs =
    if any says_invalid vs
    then Verdict.invalid
    else if any says_error vs
    then Verdict.error
    else if any says_timeout vs
    then Verdict.timeout
    else if any says_fail vs
    then Verdict.fail
    else Verdict.pass

gravest-worse : (v : Verdict) (vs : List Verdict) → gravest (v ∷ vs) ≡ worse v (gravest vs)
unfolding gravest worse severity
gravest-worse v vs = ground arith

worse_assoc : (u v w : Verdict) → worse (worse u v) w ≡ worse u (worse v w)
unfolding worse severity
worse_assoc u v w = ground arith

worse_pass : (v : Verdict) → worse v Verdict.pass ≡ v
unfolding worse severity
worse_pass v = ground arith

max_from-gravest : (u : Verdict) (vs : List Verdict) → max_from u vs ≡ worse u (gravest vs)
unfolding max_from gravest
max_from-gravest u [] = sym (worse_pass u)
max_from-gravest u (v ∷ vs) =
    max_from-gravest (worse u v) vs
    ∙ worse_assoc u v (gravest vs)
    ∙ ap (worse u) (sym (gravest-worse v vs))

-- The worst of some verdicts is Invalid if one of them is, or else Error if one of them is, or else
-- Timeout if one of them is, or else Fail if one of them is, or else, also without any verdict, Pass.
pub worst-gravest : (vs : List Verdict) → worst vs ≡ gravest vs
unfolding worst gravest
worst-gravest [] = refl
worst-gravest (v ∷ vs) = max_from-gravest v vs ∙ sym (gravest-worse v vs)

severity_pass : (v : Verdict) → severity v ≤ 0 → v ≡ Verdict.pass
unfolding severity
severity_pass v h = ground arith

severity_invalid : (v : Verdict) → 4 ≤ severity v → v ≡ Verdict.invalid
unfolding severity
severity_invalid v h = ground arith

All-pass :
    (n : ℕ) (vs : List Verdict)
    → n ≤ 0
    → All (λ u. severity u ≤ n) vs
    → All (λ u. u ≡ Verdict.pass) vs
All-pass n [] z h = tt
All-pass n (v ∷ vs) z h = (severity_pass v (omega (arith, h.0)), All-pass n vs z h.1)

-- The worst of some verdicts is Pass exactly when all of them are.
pub worst_pass : (vs : List Verdict) → (worst vs ≡ Verdict.pass) ↔ All (λ u. u ≡ Verdict.pass) vs
worst_pass vs = (
  λ e. All-pass (severity (worst vs)) vs (rw e (unfold severity in omega arith)) (worst_bounds vs),
  λ h. worst_mem (λ u. u ≡ Verdict.pass) vs refl h,
)

Any-bound :
    (v : Verdict) (n : ℕ) (vs : List Verdict)
    → Any (λ u. u ≡ v) vs
    → All (λ u. severity u ≤ n) vs
    → severity v ≤ n
Any-bound v n [] m h = absurd m
Any-bound v n (u ∷ us) (inl e) h = rw (← e) h.0
Any-bound v n (u ∷ us) (inr m) h = Any-bound v n us m h.1

-- An Invalid among the verdicts decides the worst of them.
pub worst_invalid :
    (vs : List Verdict) → Any (λ u. u ≡ Verdict.invalid) vs → worst vs ≡ Verdict.invalid
worst_invalid vs m =
    severity_invalid (worst vs)
      (unfold severity in Any-bound Verdict.invalid (severity (worst vs)) vs m (worst_bounds vs))
