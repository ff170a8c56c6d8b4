-- ===== src/Assertions/Content.antt =====
-- runner/assertions/content.py: weak checks on the answer's text.
use yonwork_benchmark.Prelude.{
  All-append_iff, All, ◌≡◌, ◌↔◌, ◌≤◌, refl, arith, ℕ, String, Bool, true, false, Option, none, some,
  List, [], ◌∷◌, ◌++◌, not, ltb, strip, is_blank, has_part, count_chars, keep, is_empty,
  if◌then◌else◌,
}
use yonwork_benchmark.Models.Severity.{Verdict}
use yonwork_benchmark.Models.Cases.{Expectations}
use yonwork_benchmark.Models.Records.{IsClean, Layer, ChatTurn, Check, skipped, judged}
use yonwork_benchmark.Assertions.Artifacts.{answer_text}

-- What `re` and `json` say of a text: the first group of the first code fence, if there is one,
-- and whether `json.loads` accepts a text.
pub record JsonReader : Type 0 where
  pub fenced : String → Option String
  pub parsable : String → Bool

keyword_verdict : List String → Verdict
keyword_verdict offending = if is_empty offending then Verdict.pass else Verdict.fail

forbid_checks : List String → String → List Check
unfolding keyword_verdict
forbid_checks [] answer = []
forbid_checks (w ∷ ws) answer =
    judged Layer.content "forbidden-keywords"
      (keyword_verdict (keep (λ word. has_part answer word) (w ∷ ws)))
    ∷ []

expect_checks : List String → String → List Check
unfolding keyword_verdict
expect_checks [] answer = []
expect_checks (w ∷ ws) answer =
    judged Layer.content "expected-keywords"
      (keyword_verdict (keep (λ word. not (has_part answer word)) (w ∷ ws)))
    ∷ []

length_checks : ℕ → String → List Check
length_checks min_length answer =
    if ltb 1 min_length
    then judged Layer.content "min-length"
        (if ltb (count_chars answer) min_length then Verdict.fail else Verdict.pass)
      ∷ []
    else []

-- `if not checks: checks.append(skipped)`
or_skipped : List Check → List Check
or_skipped [] = skipped Layer.content "content" ∷ []
or_skipped (c ∷ cs) = c ∷ cs

turn_answer : Option ChatTurn → String
turn_answer none = ""
turn_answer (some turn) = answer_text turn

module _ (reader : JsonReader) where
  unfoldable pub json_payload : String → String
  json_payload answer = elim (reader.fenced answer) [
    | some group ↦ strip group
    | none ↦ strip answer
  ]

  json_checks : Bool → String → List Check
  unfolding json_payload
  json_checks false answer = []
  json_checks true answer =
      judged Layer.content "json-parsable"
        (if reader.parsable (json_payload answer) then Verdict.pass else Verdict.fail)
      ∷ []

  content_checks : Expectations → String → List Check
  unfolding forbid_checks expect_checks length_checks json_checks
  content_checks e answer =
      forbid_checks e.forbid_keywords answer
      ++ (expect_checks e.expect_keywords answer
          ++ (length_checks e.min_length answer ++ json_checks e.json_parsable answer))

  unfoldable pub check_content : Option ChatTurn → Expectations → List Check
  unfolding content_checks or_skipped turn_answer
  check_content turn e =
      if is_blank (turn_answer turn)
      then skipped Layer.content "content" ∷ []
      else or_skipped (content_checks e (turn_answer turn))

keep_none :
    (p : String → Bool) (ws : List String)
    → (is_empty (keep p ws) ≡ true) ↔ All (λ w. p w ≡ false) ws
keep_none p [] = (λ h. tt, λ h. refl)
keep_none p (w ∷ ws) = ground (arith, keep_none p ws)

keep_none_not :
    (p : String → Bool) (ws : List String)
    → (is_empty (keep (λ w. not (p w)) ws) ≡ true) ↔ All (λ w. p w ≡ true) ws
keep_none_not p [] = (λ h. tt, λ h. refl)
keep_none_not p (w ∷ ws) = ground (arith, keep_none_not p ws)

forbid_checks-IsClean :
    (words : List String) (answer : String)
    → All IsClean (forbid_checks words answer) ↔ All (λ w. has_part answer w ≡ false) words
unfolding forbid_checks
forbid_checks-IsClean [] answer = ground arith
forbid_checks-IsClean (w ∷ ws) answer =
    ground (arith, keep_none (λ word. has_part answer word) (w ∷ ws))

expect_checks-IsClean :
    (words : List String) (answer : String)
    → All IsClean (expect_checks words answer) ↔ All (λ w. has_part answer w ≡ true) words
unfolding expect_checks
expect_checks-IsClean [] answer = ground arith
expect_checks-IsClean (w ∷ ws) answer =
    ground (arith, keep_none_not (λ word. has_part answer word) (w ∷ ws))

length_checks-IsClean :
    (n : ℕ) (answer : String)
    → is_blank answer ≡ false
    → All IsClean (length_checks n answer) ↔ (n ≤ count_chars answer)
unfolding length_checks count_chars
length_checks-IsClean n String.[] h = cc
length_checks-IsClean n (String.◌∷◌ c s) h = ground arith

json_checks-IsClean :
    (reader : JsonReader) (wanted : Bool) (answer : String)
    → All IsClean (json_checks reader wanted answer)
      ↔ (wanted ≡ true → reader.parsable (json_payload reader answer) ≡ true)
unfolding json_checks
json_checks-IsClean reader true answer = ground arith
json_checks-IsClean reader false answer = ground arith

-- What makes an answer acceptable, said without the checks.
abbrev pub IsContent : JsonReader → Expectations → String → Type 0
IsContent reader e answer =
    All (λ w. has_part answer w ≡ false) e.forbid_keywords
    × All (λ w. has_part answer w ≡ true) e.expect_keywords
    × (e.min_length ≤ count_chars answer)
    × (e.json_parsable ≡ true → reader.parsable (json_payload reader answer) ≡ true)

content_checks-IsClean :
    (reader : JsonReader) (e : Expectations) (answer : String)
    → is_blank answer ≡ false
    → All IsClean (content_checks reader e answer) ↔ IsContent reader e answer
unfolding content_checks
content_checks-IsClean reader e answer h =
    let f = forbid_checks e.forbid_keywords answer in
    let x = expect_checks e.expect_keywords answer in
    let l = length_checks e.min_length answer in
    let j = json_checks reader e.json_parsable answer in
    let cf = forbid_checks-IsClean e.forbid_keywords answer in
    let cx = expect_checks-IsClean e.expect_keywords answer in
    let cl = length_checks-IsClean e.min_length answer h in
    let cj = json_checks-IsClean reader e.json_parsable answer in
    let a = All-append_iff IsClean f (x ++ (l ++ j)) in
    let b = All-append_iff IsClean x (l ++ j) in
    let c = All-append_iff IsClean l j in
    (
      λ k.
          let p = a.0 k in
          let q = b.0 p.1 in let r = c.0 q.1 in (cf.0 p.0, cx.0 q.0, cl.0 r.0, cj.0 r.1),
      λ k. a.1 (cf.1 k.0, b.1 (cx.1 k.1, c.1 (cl.1 k.2, cj.1 k.3))),
    )

or_skipped-IsClean : (cs : List Check) → All IsClean (or_skipped cs) ↔ All IsClean cs
unfolding or_skipped
or_skipped-IsClean [] = (λ h. tt, λ h. (tt, tt))
or_skipped-IsClean (c ∷ cs) = (λ h. h, λ h. h)

pub check_content-IsClean :
    (reader : JsonReader) (turn : ChatTurn) (e : Expectations)
    → is_blank (answer_text turn) ≡ false
    → All IsClean (check_content reader (some turn) e) ↔ IsContent reader e (answer_text turn)
unfolding check_content
check_content-IsClean reader turn e h =
    let o = or_skipped-IsClean (content_checks reader e (answer_text turn)) in
    let c = content_checks-IsClean reader e (answer_text turn) h in
    rw h (λ k. c.0 (o.0 k), λ k. o.1 (c.1 k))
