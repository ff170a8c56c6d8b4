-- ===== src/Assertions/Cost.antt =====
-- runner/assertions/cost.py: time, tokens, and which model and provider answered.
use Prim.Native.Char.{Char}
use yonwork_benchmark.Prelude.{
  true, eq_iff, All-append_iff, ◌⊎◌, false, ◌≤◌, ◌↔◌, arith, ◌≡◌, Given, All, ℕ, String, Option,
  none, some, List, [], ◌∷◌, ◌++◌, ◌&&◌, not, ltb, leb, str_eq, is_blank, has_prefix, casefold,
  count_chars, elem, if◌then◌else◌,
}
use yonwork_benchmark.Models.Severity.{Verdict}
use yonwork_benchmark.Models.Cases.{Expectations}
use yonwork_benchmark.Models.Records.{IsClean, Layer, ChatTurn, UsageSample, Check, skipped, judged}

abbrev pub exact_matches : List String
exact_matches = "run-id" ∷ "idempotency-key" ∷ "session-id" ∷ []

abbrev pub min_provider_prefix : ℕ
min_provider_prefix = 12

abbrev within : String → ℕ → ℕ → Check
within name measured limit =
    judged Layer.cost name (if ltb limit measured then Verdict.fail else Verdict.pass)

duration_check : Option ChatTurn → Option ℕ → Check
duration_check none limit = skipped Layer.cost "duration"
duration_check (some turn) none = skipped Layer.cost "duration"
duration_check (some turn) (some limit) = within "duration" turn.duration_seconds limit

model_checks : Option String → Option String → List Check
model_checks none actual = []
model_checks (some requested) none = skipped Layer.cost "model-match" ∷ []
model_checks (some requested) (some actual) =
    judged Layer.cost "model-match"
      (if not (str_eq actual requested) then Verdict.invalid else Verdict.pass)
    ∷ []

match_checks : String → List Check
match_checks match =
    if not (elem match exact_matches) then skipped Layer.cost "usage-match" ∷ [] else []

input_check : Option ℕ → Option ℕ → Check
input_check none limit = skipped Layer.cost "input-tokens"
input_check (some n) none = skipped Layer.cost "input-tokens"
input_check (some n) (some limit) = within "input-tokens" n limit

total_check : Option ℕ → Option ℕ → Check
total_check n none = skipped Layer.cost "total-tokens"
total_check none (some limit) = skipped Layer.cost "total-tokens"
total_check (some n) (some limit) = within "total-tokens" n limit

requested_model : Option ChatTurn → Option String
requested_model none = none
requested_model (some turn) = turn.requested_model

requested_provider : Option ChatTurn → Option String
requested_provider none = none
requested_provider (some turn) = turn.requested_provider

module _ (fold : Char → String) where
  provider_verdict : String → String → Verdict
  provider_verdict requested actual =
      if str_eq (casefold fold actual) (casefold fold requested)
      then Verdict.pass
      else if leb min_provider_prefix (count_chars actual)
          && has_prefix (casefold fold requested) (casefold fold actual)
      then Verdict.pass
      else Verdict.invalid

  provider_checks : Option String → Option String → List Check
  unfolding provider_verdict
  provider_checks none actual = []
  provider_checks (some requested) none = skipped Layer.cost "provider-match" ∷ []
  provider_checks (some requested) (some actual) =
      if is_blank actual
      then skipped Layer.cost "provider-match" ∷ []
      else judged Layer.cost "provider-match" (provider_verdict requested actual) ∷ []

  usage_checks : Option ChatTurn → UsageSample → Expectations → List Check
  unfolding model_checks provider_checks match_checks input_check total_check requested_model
      requested_provider
  usage_checks turn usage e =
      model_checks (requested_model turn) usage.model
      ++ (provider_checks (requested_provider turn) usage.provider
          ++ (match_checks usage.match
              ++ (input_check usage.input_tokens e.max_input_tokens
                  ∷ total_check usage.total_tokens e.max_total_tokens
                  ∷ [])))

  unfoldable pub check_cost : Option ChatTurn → Option UsageSample → Expectations → List Check
  unfolding duration_check usage_checks
  check_cost turn none e = duration_check turn e.max_seconds ∷ skipped Layer.cost "token-usage" ∷ []
  check_cost turn (some usage) e = duration_check turn e.max_seconds ∷ usage_checks turn usage e

-- Both are there and `P` holds of them, or one is missing.
abbrev pub Given₂ {ℓ} : {A : Type ℓ} → (A → A → Type 0) → Option A → Option A → Type 0
Given₂ P (some a) (some b) = P a b
Given₂ P _ _ = Unit

-- The provider that answered is the one asked for, up to case, or a long enough prefix of it.
abbrev pub IsProvider : (Char → String) → String → String → Type 0
IsProvider fold requested actual =
    (casefold fold actual ≡ casefold fold requested)
    ⊎ ((min_provider_prefix ≤ count_chars actual)
        × (has_prefix (casefold fold requested) (casefold fold actual) ≡ true))

abbrev pub IsMeasured : (Char → String) → ChatTurn → UsageSample → Expectations → Type 0
IsMeasured fold turn usage e =
    Given₂ (λ requested actual. actual ≡ requested) turn.requested_model usage.model
    × Given₂ (λ requested actual. is_blank actual ≡ false → IsProvider fold requested actual)
        turn.requested_provider usage.provider
    × Given₂ (λ n limit. n ≤ limit) usage.input_tokens e.max_input_tokens
    × Given₂ (λ n limit. n ≤ limit) usage.total_tokens e.max_total_tokens

-- What makes a round's cost acceptable, said without the checks.
abbrev pub IsAffordable : (Char → String) → ChatTurn → Option UsageSample → Expectations → Type 0
IsAffordable fold turn usage e =
    Given (λ limit. turn.duration_seconds ≤ limit) e.max_seconds
    × Given (λ u. IsMeasured fold turn u e) usage

duration_check-IsClean :
    (turn : ChatTurn) (limit : Option ℕ)
    → IsClean (duration_check (some turn) limit) ↔ Given (λ n. turn.duration_seconds ≤ n) limit
unfolding duration_check
duration_check-IsClean turn none = ground arith
duration_check-IsClean turn (some n) = ground arith

model_checks-IsClean :
    (r a : Option String)
    → All IsClean (model_checks r a) ↔ Given₂ (λ requested actual. actual ≡ requested) r a
unfolding model_checks
model_checks-IsClean none a = ground arith
model_checks-IsClean (some r) none = ground arith
model_checks-IsClean (some r) (some a) = ground (arith, eq_iff a r)

provider_checks-IsClean :
    (fold : Char → String) (r a : Option String)
    → All IsClean (provider_checks fold r a)
      ↔ Given₂ (λ requested actual. is_blank actual ≡ false → IsProvider fold requested actual) r a
unfolding provider_checks
provider_checks-IsClean fold none a = ground arith
provider_checks-IsClean fold (some r) none = ground arith
provider_checks-IsClean fold (some r) (some a) =
    ground (arith, eq_iff (casefold fold a) (casefold fold r))

match_checks-IsClean : (m : String) → All IsClean (match_checks m)
unfolding match_checks
match_checks-IsClean m = ground arith

input_check-IsClean :
    (n limit : Option ℕ) → IsClean (input_check n limit) ↔ Given₂ (λ k l. k ≤ l) n limit
unfolding input_check
input_check-IsClean none l = ground arith
input_check-IsClean (some n) none = ground arith
input_check-IsClean (some n) (some l) = ground arith

total_check-IsClean :
    (n limit : Option ℕ) → IsClean (total_check n limit) ↔ Given₂ (λ k l. k ≤ l) n limit
unfolding total_check
total_check-IsClean none none = ground arith
total_check-IsClean (some n) none = ground arith
total_check-IsClean none (some l) = ground arith
total_check-IsClean (some n) (some l) = ground arith

usage_checks-IsClean :
    (fold : Char → String) (turn : ChatTurn) (usage : UsageSample) (e : Expectations)
    → All IsClean (usage_checks fold (some turn) usage e) ↔ IsMeasured fold turn usage e
unfolding usage_checks
usage_checks-IsClean fold turn usage e =
    let t =
      input_check usage.input_tokens e.max_input_tokens
      ∷ total_check usage.total_tokens e.max_total_tokens
      ∷ [] in
    let m = match_checks usage.match in
    let p = provider_checks fold turn.requested_provider usage.provider in
    let a =
      All-append_iff IsClean (model_checks turn.requested_model usage.model) (p ++ (m ++ t)) in
    let b = All-append_iff IsClean p (m ++ t) in
    let c = All-append_iff IsClean m t in
    let cm = model_checks-IsClean turn.requested_model usage.model in
    let cp = provider_checks-IsClean fold turn.requested_provider usage.provider in
    let ci = input_check-IsClean usage.input_tokens e.max_input_tokens in
    let ct = total_check-IsClean usage.total_tokens e.max_total_tokens in
    (
      λ k.
          let u = a.0 k in
          let v = b.0 u.1 in let w = (c.0 v.1).1 in (cm.0 u.0, cp.0 v.0, ci.0 w.0, ct.0 w.1.0),
      λ k. a.1 (
        cm.1 k.0,
        b.1 (cp.1 k.1, c.1 (match_checks-IsClean usage.match, (ci.1 k.2, (ct.1 k.3, tt)))),
      ),
    )

pub check_cost-IsClean :
    (fold : Char → String) (turn : ChatTurn) (usage : Option UsageSample) (e : Expectations)
    → All IsClean (check_cost fold (some turn) usage e) ↔ IsAffordable fold turn usage e
unfolding check_cost
check_cost-IsClean fold turn none e =
    let d = duration_check-IsClean turn e.max_seconds in
    (λ k. (d.0 k.0, tt), λ k. (d.1 k.0, (tt, tt)))
check_cost-IsClean fold turn (some usage) e =
    let d = duration_check-IsClean turn e.max_seconds in
    let u = usage_checks-IsClean fold turn usage e in
    (λ k. (d.0 k.0, u.0 k.1), λ k. (d.1 k.0, u.1 k.1))
