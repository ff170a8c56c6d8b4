-- ===== src/Collector/Ledger/Summary.antt =====
-- `summarize` of runner/modelproxy/ledger.py: the counts of a report over the records of requests.
use yonwork_benchmark.Prelude.{
  keep_no, inr, keep_yes, inl, Bool-cases, ◌≤◌, ℕ, ◌+◌, ◌-◌, ◌≡◌, refl, Bool, true, false, Option,
  none, some, List, [], ◌∷◌, keep, length, arith, String, if◌then◌else◌,
}
use yonwork_benchmark.Json.{Json, Fields, get}
use yonwork_benchmark.Collector.Ledger.{ModelRequestRecord, Attribution, Termination, is_counted}

abbrev is_attributed : Attribution → Bool
is_attributed Attribution.attributed = true
is_attributed _ = false

abbrev is_late : Attribution → Bool
is_late Attribution.late = true
is_late _ = false

abbrev is_unattributed : Attribution → Bool
is_unattributed Attribution.unattributed = true
is_unattributed _ = false

abbrev is_rejected : Attribution → Bool
is_rejected Attribution.rejected = true
is_rejected _ = false

abbrev is_incomplete : Option Termination → Bool
is_incomplete (some Termination.incomplete) = true
is_incomplete _ = false

-- `isinstance(value, int)`: a Boolean is an integer too.
abbrev int_value : Json → Option ℕ
int_value (Json.num n) = some n
int_value (Json.bool b) = some (if b then 1 else 0)
int_value _ = none

-- The numbers under a key of a usage that is there and not empty.
abbrev usage_number : String → Option Fields → Option ℕ
usage_number key none = none
usage_number key (some usage) = int_value (get key usage)

abbrev add_number : Option ℕ → Option ℕ → Option ℕ
add_number none total = total
add_number (some n) none = some n
add_number (some n) (some total) = some (n + total)

-- `_sum`
unfoldable pub sum_usage : String → List ModelRequestRecord → Option ℕ
unfolding get
sum_usage key [] = none
sum_usage key (r ∷ rs) = add_number (usage_number key r.usage) (sum_usage key rs)

-- `upstream_attempts` is always unknown.
pub record Summary : Type 0 where
  pub requests : ℕ
  pub attributed : ℕ
  pub late : ℕ
  pub unattributed : ℕ
  pub rejected : ℕ
  pub incomplete : ℕ
  pub usage_observed : ℕ
  pub usage_missing : ℕ
  pub input_tokens_observed : Option ℕ
  pub output_tokens_observed : Option ℕ

unfoldable pub counted_records : List ModelRequestRecord → List ModelRequestRecord
counted_records = keep (λ r. is_counted r.attribution)

unfoldable pub with_usage : List ModelRequestRecord → List ModelRequestRecord
unfolding counted_records
with_usage rs = keep (λ r. r.usage_observed) (counted_records rs)

unfoldable pub summarize : List ModelRequestRecord → Summary
unfolding counted_records with_usage sum_usage
summarize rs = record {
  requests = length rs;
  attributed = length (keep (λ r. is_attributed r.attribution) rs);
  late = length (keep (λ r. is_late r.attribution) rs);
  unattributed = length (keep (λ r. is_unattributed r.attribution) rs);
  rejected = length (keep (λ r. is_rejected r.attribution) rs);
  incomplete = length (keep (λ r. is_incomplete r.termination) rs);
  usage_observed = length (with_usage rs);
  usage_missing = length (counted_records rs) - length (with_usage rs);
  input_tokens_observed = sum_usage "prompt_tokens" (with_usage rs);
  output_tokens_observed = sum_usage "completion_tokens" (with_usage rs);
}

tally : (Attribution → Bool) → List ModelRequestRecord → ℕ
tally p rs = length (keep (λ r. p r.attribution) rs)

abbrev bit : Bool → ℕ
bit true = 1
bit false = 0

tally_first :
    (p : Attribution → Bool) (r : ModelRequestRecord) (rs : List ModelRequestRecord)
    → tally p (r ∷ rs) ≡ bit (p r.attribution) + tally p rs
unfolding tally
tally_first p r rs = elim (Bool-cases (p r.attribution)) [
  | inl e ↦ rw (keep_yes (λ r. p r.attribution) r rs e, e) (omega arith)
  | inr e ↦ rw (keep_no (λ r. p r.attribution) r rs e, e) (omega arith)
]

bits_all :
    (a : Attribution)
    → (bit (is_attributed a) + (bit (is_late a) + (bit (is_unattributed a) + bit (is_rejected a)))
        ≡ 1)
      × (bit (is_attributed a) + bit (is_late a) ≡ bit (is_counted a))
bits_all Attribution.attributed = (refl, refl)
bits_all Attribution.late = (refl, refl)
bits_all Attribution.unattributed = (refl, refl)
bits_all Attribution.rejected = (refl, refl)

-- Each record has one of the four attributions.
tally_all :
    (rs : List ModelRequestRecord)
    → (tally is_attributed rs
          + (tally is_late rs + (tally is_unattributed rs + tally is_rejected rs))
        ≡ length rs)
      × (tally is_attributed rs + tally is_late rs ≡ tally is_counted rs)
tally_all [] = (unfold tally in omega arith, unfold tally in omega arith)
tally_all (r ∷ rs) =
    let a = tally_first is_attributed r rs in
    let l = tally_first is_late r rs in
    let u = tally_first is_unattributed r rs in
    let j = tally_first is_rejected r rs in
    let c = tally_first is_counted r rs in
    let (all, counted) = tally_all rs in
    let (one, same) = bits_all r.attribution in
    (omega (arith, a, l, u, j, all, one), omega (arith, a, l, c, counted, same))

keep_bound :
    (p : ModelRequestRecord → Bool) (rs : List ModelRequestRecord) → length (keep p rs) ≤ length rs
keep_bound p [] = omega arith
keep_bound p (r ∷ rs) = elim (Bool-cases (p r)) [
  | inl e ↦ rw (keep_yes p r rs e) (omega (arith, keep_bound p rs))
  | inr e ↦ rw (keep_no p r rs e) (omega (arith, keep_bound p rs))
]

-- In a summary every request is counted under exactly one attribution, and the attributed and late
-- requests, these alone, are split into those whose usage was observed and those whose usage is
-- missing.
pub summarize_counts :
    (rs : List ModelRequestRecord)
    → ((summarize rs).attributed
          + ((summarize rs).late + ((summarize rs).unattributed + (summarize rs).rejected))
        ≡ (summarize rs).requests)
      × ((summarize rs).usage_observed + (summarize rs).usage_missing
          ≡ (summarize rs).attributed + (summarize rs).late)
unfolding summarize tally
summarize_counts rs =
    let (all, counted) = tally_all rs in
    let b = keep_bound (λ r. r.usage_observed) (counted_records rs) in
    (all, omega (arith, counted, b))
