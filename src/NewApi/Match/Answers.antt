-- ===== src/NewApi/Match/Answers.antt =====
-- What `match_logs` answers, in terms of the buckets of the loop.
use yonwork_benchmark.Prelude.{
  length, ◌+◌, ◌+◌, Option, some, List, [], String, keep, ◌≡◌, Option-cases, inl, inr, ◌∙◌, ap, sym,
}
use mathlib.Core.Option.{some-injective}
use yonwork_benchmark.Json.{Fields}
use yonwork_benchmark.NewApi.Match.{
  type_error, windows_of, type_consume, Run, has_type, ℕ, Bucket, Sorted, place_logs,
}
use yonwork_benchmark.NewApi.Match.Samples.{
  use_times, sum_values, sum_field, samples_of, match_logs, sample_of, BackendSample,
}

abbrev pub nothing : Sorted
nothing = record { buckets = []; unmatched = [] }

-- What `match_logs` answers, in terms of the loop's final state.
pub record Answer (read_int : String → Option ℕ) (s : Sorted) (samples : List BackendSample)
    (stray : List Fields) : Type 0 where
  pub sampled : samples_of read_int s.buckets ≡ some samples
  pub left : stray ≡ s.unmatched

pub match_logs-Answer :
    (read_int : String → Option ℕ) (logs : List Fields) (runs : List Run)
    (samples : List BackendSample) (stray : List Fields)
    → match_logs read_int logs runs ≡ some (samples, stray)
    → Answer read_int (place_logs (windows_of runs) nothing logs) samples stray
unfolding match_logs
match_logs-Answer read_int logs runs samples stray h =
    elim (Option-cases (samples_of read_int (place_logs (windows_of runs) nothing logs).buckets)) [
      | inl e ↦ absurd (cc (rw (e, match_logs) at h))
      | inr (found, e) ↦
          let k = some-injective _ _ (rw (e, match_logs) at h) in
          record { sampled = e ∙ ap (λ x. some x.0) k; left = ap (λ x. x.1) (sym k) }
    ]

-- The rows of either type.
unfoldable pub calls_in : List Fields → ℕ
calls_in rows =
    length (keep (has_type type_consume) rows) + length (keep (has_type type_error) rows)

pub record IsSampleOf (b : Bucket) (s : BackendSample) : Type 0 where
  pub same_id : s.benchmark_id ≡ b.benchmark_id
  pub same_rows : s.raw ≡ b.rows
  pub counted : s.api_calls ≡ calls_in b.rows

pub sample_of-IsSampleOf :
    (read_int : String → Option ℕ) (b : Bucket) (s : BackendSample)
    → sample_of read_int b ≡ some s
    → IsSampleOf b s
unfolding sample_of calls_in
sample_of-IsSampleOf read_int b s h =
    elim (Option-cases (sum_field read_int "prompt_tokens" (keep (has_type type_consume) b.rows))) [
      | inl e ↦ absurd (cc (rw (e, sample_of) at h))
      | inr (input, e) ↦
          elim (Option-cases
            (sum_field read_int "completion_tokens" (keep (has_type type_consume) b.rows))) [
              | inl f ↦ absurd (cc (rw (e, f, sample_of) at h))
              | inr (output, f) ↦
                  elim (Option-cases
                    (sum_values read_int (use_times (keep (has_type type_consume) b.rows)))) [
                      | inl g ↦ absurd (cc (rw (e, f, g, sample_of) at h))
                      | inr (seconds, g) ↦
                          let k = some-injective _ _ (rw (e, f, g, sample_of) at h) in
                          record {
                            same_id = ap (λ x. x.benchmark_id) (sym k);
                            same_rows = ap (λ x. x.raw) (sym k);
                            counted = ap (λ x. x.api_calls) (sym k);
                          }
                    ]
            ]
    ]
