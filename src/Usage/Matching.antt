-- ===== src/Usage/Matching.antt =====
-- Which usage row a round is matched with.
use mathlib.Core.Option.{some-injective}
use yonwork_benchmark.Assertions.Artifacts.{answer_text}
use yonwork_benchmark.Models.Records.{UsageSample, ChatTurn}
use yonwork_benchmark.Json.{Fields, get, text}
use yonwork_benchmark.Prelude.{
  Option, Option-cases, some, none, List, [], ◌∷◌, ℕ, String, Bool, Bool-cases, true, false, inl,
  inr, ◌⊎◌, ◌≡◌, refl, sym, ap, ◌∙◌, All, Any, All-Any, find_first, leb, is_blank,
}
use yonwork_benchmark.Usage.{
  sample, has_run_id, matches_answer, parse_time, in_window, candidates_in, latest, by_window,
  match_rows, match_usage,
}

find_first-some :
    {A : Type 0} (p : A → Bool) (xs : List A) (a : A)
    → find_first p xs ≡ some a
    → Any (λ x. x ≡ a) xs × (p a ≡ true)
find_first-some p [] a h = absurd (cc (h))
find_first-some p (x ∷ xs) a h = elim (Bool-cases (p x)) [
  | inl e ↦
      let same : x ≡ a = some-injective _ _ (rw (e, find_first) at h) in
      (inl same, ap p (sym same) ∙ e)
  | inr e ↦ let (m, q) = find_first-some p xs a (rw (e, find_first) at h) in (inr m, q)
]

find_first-none :
    {A : Type 0} (p : A → Bool) (xs : List A) → find_first p xs ≡ none → All (λ x. p x ≡ false) xs
find_first-none p [] h = tt
find_first-none p (x ∷ xs) h = elim (Bool-cases (p x)) [
  | inl e ↦ absurd (cc (rw (e, find_first) at h))
  | inr e ↦ (e, find_first-none p xs (rw (e, find_first) at h))
]

module _ (from_iso : String → Option ℕ) where
  -- A row of the list whose time is in the window of the round.
  abbrev pub IsNear : ℕ → ℕ → List Fields → Fields → Type 0
  IsNear started ended rows row =
      Any (λ r. r ≡ row) rows
      × ((stamp : ℕ) × (parse_time from_iso (get "timestamp" row) ≡ some stamp)
          × (in_window from_iso started ended stamp ≡ true))

  IsNear-of_tail :
      (started ended : ℕ) (r : Fields) (rows : List Fields) (row : Fields)
      → IsNear started ended rows row
      → IsNear started ended (r ∷ rows) row
  IsNear-of_tail started ended r rows row h = (inr h.0, h.1)

  weaken :
      (started ended : ℕ) (r : Fields) (rows : List Fields) (cs : List (ℕ × Fields))
      → All (λ c. IsNear started ended rows c.1) cs
      → All (λ c. IsNear started ended (r ∷ rows) c.1) cs
  weaken started ended r rows [] h = tt
  weaken started ended r rows (c ∷ cs) h =
      (IsNear-of_tail started ended r rows c.1 h.0, weaken started ended r rows cs h.1)

  IsNear-candidates_in :
      (started ended : ℕ) (rows : List Fields)
      → All (λ c. IsNear started ended rows c.1) (candidates_in from_iso started ended rows)
  unfolding candidates_in
  IsNear-candidates_in started ended [] = tt
  IsNear-candidates_in started ended (row ∷ rows) =
      let rest =
        weaken started ended row rows (candidates_in from_iso started ended rows)
          (IsNear-candidates_in started ended rows) in
      elim (Option-cases (parse_time from_iso (get "timestamp" row))) [
        | inl e ↦ rw (e, candidates_in) rest
        | inr (stamp, e) ↦ elim (Bool-cases (in_window from_iso started ended stamp)) [
          | inl f ↦ rw (e, candidates_in) (simp f ((inl refl, (stamp, e, f)), rest))
          | inr f ↦ rw (e, candidates_in) (simp f rest)
        ]
      ]

  All-latest :
      (P : ℕ × Fields → Type 0) (best : ℕ × Fields) (cs : List (ℕ × Fields))
      → P best
      → All P cs
      → P (latest from_iso best cs)
  unfolding latest
  All-latest P best [] p h = p
  All-latest P best (c ∷ cs) p h = elim (Bool-cases (leb best.0 c.0)) [
    | inl e ↦ simp e (All-latest P c cs h.0 h.1)
    | inr e ↦ simp e (All-latest P best cs p h.1)
  ]

  IsNear-of_mem :
      (started ended : ℕ) (rows : List Fields) (cs : List (ℕ × Fields)) (c : ℕ × Fields)
      → All (λ k. IsNear started ended rows k.1) cs
      → Any (λ k. k ≡ c) cs
      → IsNear started ended rows c.1
  IsNear-of_mem started ended rows cs c h m = All-Any (λ k. IsNear started ended rows k.1) cs h m

  -- A row that the window gave.
  by_window-IsNear :
      (started ended : ℕ) (rows : List Fields) (answer : String) (cs : List (ℕ × Fields))
      (s : UsageSample)
      → All (λ c. IsNear started ended rows c.1) cs
      → by_window from_iso answer cs ≡ some s
      → (row : Fields) × IsNear started ended rows row
        × ((s ≡ sample row "time-window+content") ⊎ (s ≡ sample row "time-window"))
  unfolding by_window
  by_window-IsNear started ended rows answer [] s h e = absurd (cc (e))
  by_window-IsNear started ended rows answer (c ∷ cs) s h e = elim (Bool-cases (is_blank answer)) [
    | inl b ↦ (
      (latest from_iso c cs).1,
      All-latest (λ k. IsNear started ended rows k.1) c cs h.0 h.1,
      inr (sym (some-injective _ _ (rw (b, by_window) at e))),
    )
    | inr b ↦
        elim (Option-cases (find_first (λ (k : ℕ × Fields). matches_answer answer k.1) (c ∷ cs))) [
          | inl f ↦ (
            (latest from_iso c cs).1,
            All-latest (λ k. IsNear started ended rows k.1) c cs h.0 h.1,
            inr (sym (some-injective _ _ (rw (b, f, by_window) at e))),
          )
          | inr (k, f) ↦
              let (m, q) =
                find_first-some (λ (x : ℕ × Fields). matches_answer answer x.1) (c ∷ cs) k f in
              (
                k.1,
                IsNear-of_mem started ended rows (c ∷ cs) k h m,
                inl (sym (some-injective _ _ (rw (b, f, by_window) at e))),
              )
        ]
  ]

  -- Where the sample of a round comes from.
  abbrev pub Origin : List Fields → ChatTurn → UsageSample → Type 0
  Origin rows turn s =
      ((row : Fields) × Any (λ r. r ≡ row) rows
        × (has_run_id turn.benchmark_id row ≡ true)
        × (s ≡ sample row "run-id"))
      ⊎ (All (λ r. has_run_id turn.benchmark_id r ≡ false) rows
          × ((started : ℕ) × (ended : ℕ) × (parse_time from_iso (text turn.started_at)
                ≡ some started)
              × (parse_time from_iso (text turn.ended_at) ≡ some ended)
              × ((row : Fields) × IsNear started ended rows row
                  × ((s ≡ sample row "time-window+content") ⊎ (s ≡ sample row "time-window")))))

  -- A sample that match_usage gives is that of a row with the run id of the round, and marked as
  -- such, or no row has that run id, and it is that of a row whose time is in the window of the
  -- round, and marked as found by time.
  pub match_usage-Origin :
      (rows : List Fields) (turn : ChatTurn) (s : UsageSample)
      → match_usage from_iso rows turn ≡ some s
      → Origin rows turn s
  unfolding match_usage match_rows
  match_usage-Origin rows turn s h =
      elim (Option-cases (parse_time from_iso (text turn.started_at))) [
        | inl e ↦ absurd (cc (rw (e, match_usage) at h))
        | inr (started, e) ↦ elim (Option-cases (parse_time from_iso (text turn.ended_at))) [
          | inl f ↦ absurd (cc (rw (e, f, match_usage) at h))
          | inr (ended, f) ↦ elim (Option-cases (find_first (has_run_id turn.benchmark_id) rows)) [
            | inr (row, g) ↦
                let (m, q) = find_first-some (has_run_id turn.benchmark_id) rows row g in
                inl
                  (row, m, q, sym (some-injective _ _ (rw (e, f, g, match_usage, match_rows) at h)))
            | inl g ↦
                let (row, near, origin) =
                  by_window-IsNear started ended rows (answer_text turn)
                    (candidates_in from_iso started ended rows) s
                    (IsNear-candidates_in started ended rows)
                    (rw (e, f, g, match_usage, match_rows) at h) in
                inr (
                  find_first-none (has_run_id turn.benchmark_id) rows g,
                  (started, ended, e, f, (row, near, origin)),
                )
          ]
        ]
      ]
