-- ===== src/Collector/Ledger/Entries.antt =====
-- How the lines of a ledger file are merged, request by request.
use mathlib.Core.Option.{some-injective}
use mathlib.Core.Logic.{◌⊎◌}
use yonwork_benchmark.Prelude.{
  Option, some, none, List, [], ◌∷◌, ◌++◌, String, Bool, Bool-cases, Option-cases, true, false, inl,
  inr, ◌≡◌, refl, sym, ap, ◌∙◌, str_eq, eq_iff, All, All-append, arith, if◌then◌else◌, ◌&&◌,
}
use yonwork_benchmark.Collector.Ledger.{
  ModelRequestRecord, Line, is_closed, replace_at, find_record, merge, merge_lines,
}

abbrev pub first_some :
    Option ModelRequestRecord → Option ModelRequestRecord → Option ModelRequestRecord
first_some none other = other
first_some (some r) other = some r

-- The last closed record of a request, and the first record of it.
abbrev pub last_closed : String → List Line → Option ModelRequestRecord
last_closed id [] = none
last_closed id (Line.entry r ∷ lines) =
    first_some (last_closed id lines)
      (if str_eq r.request_id id && is_closed r.record_status then some r else none)
last_closed id (_ ∷ lines) = last_closed id lines

abbrev pub first_entry : String → List Line → Option ModelRequestRecord
first_entry id [] = none
first_entry id (Line.entry r ∷ lines) =
    if str_eq r.request_id id then some r else first_entry id lines
first_entry id (_ ∷ lines) = first_entry id lines

-- Each request has one record.
abbrev pub AreKeyed : List ModelRequestRecord → Type 0
AreKeyed [] = Unit
AreKeyed (x ∷ xs) = All (λ y. str_eq y.request_id x.request_id ≡ false) xs × AreKeyed xs

-- What one more entry does to the record of a request.
abbrev pub after :
    String → Option ModelRequestRecord → ModelRequestRecord → Option ModelRequestRecord
after id none r = if str_eq r.request_id id then some r else none
after id (some p) r = if str_eq r.request_id id && is_closed r.record_status then some r else some p

abbrev pub after_all : String → Option ModelRequestRecord → List Line → Option ModelRequestRecord
after_all id o [] = o
after_all id o (Line.entry r ∷ lines) = after_all id (after id o r) lines
after_all id o (_ ∷ lines) = after_all id o lines

pub after_all_entries :
    (id : String) (o : Option ModelRequestRecord) (lines : List Line)
    → after_all id o lines ≡ first_some (last_closed id lines) (first_some o (first_entry id lines))
after_all_entries id none [] = refl
after_all_entries id (some p) [] = refl
after_all_entries id o (Line.blank ∷ lines) = after_all_entries id o lines
after_all_entries id o (Line.not_json ∷ lines) = after_all_entries id o lines
after_all_entries id o (Line.no_request_id ∷ lines) = after_all_entries id o lines
after_all_entries id o (Line.bad_record ∷ lines) = after_all_entries id o lines
after_all_entries id none (Line.entry r ∷ lines) =
    after_all_entries id (after id none r) lines
    ∙ new (last_closed id lines) (first_entry id lines) (str_eq r.request_id id)
        (is_closed r.record_status)
  where
    new :
        (l f : Option ModelRequestRecord) (m c : Bool)
        → first_some l (first_some (if m then some r else none) f)
          ≡ first_some (first_some l (if m && c then some r else none)) (if m then some r else f)
    new none f true true = refl
    new none f true false = refl
    new none f false c = refl
    new (some q) f m c = refl
after_all_entries id (some p) (Line.entry r ∷ lines) =
    after_all_entries id (after id (some p) r) lines
    ∙ old (last_closed id lines) (str_eq r.request_id id) (is_closed r.record_status)
  where
    old :
        (l : Option ModelRequestRecord) (m c : Bool)
        → first_some l (first_some (if m && c then some r else some p) (first_entry id lines))
          ≡ first_some (first_some l (if m && c then some r else none)) (some p)
    old none true true = refl
    old none true false = refl
    old none false c = refl
    old (some q) m c = refl

find_record-append :
    (id : String) (xs : List ModelRequestRecord) (r : ModelRequestRecord)
    → find_record id (xs ++ r ∷ [])
      ≡ first_some (find_record id xs) (if str_eq r.request_id id then some r else none)
unfolding find_record
find_record-append id [] r = refl
find_record-append id (x ∷ xs) r = elim (Bool-cases (str_eq x.request_id id)) [
  | inl e ↦ simp e refl
  | inr e ↦ simp e (find_record-append id xs r)
]

find_record-replace_at :
    (id : String) (xs : List ModelRequestRecord) (r p : ModelRequestRecord)
    → find_record r.request_id xs ≡ some p
    → find_record id (replace_at r.request_id r xs)
      ≡ (if str_eq r.request_id id then some r else find_record id xs)
unfolding find_record replace_at
find_record-replace_at id [] r p h = absurd (cc (h))
find_record-replace_at id (x ∷ xs) r p h = elim (Bool-cases (str_eq x.request_id r.request_id)) [
  | inl e ↦ simp e (elim (Bool-cases (str_eq r.request_id id)) [
    | inl f ↦ simp f refl
    | inr f ↦ simp (f, same_key id x r e) refl
  ])
  | inr e ↦ simp e (elim (Bool-cases (str_eq x.request_id id)) [
    | inl f ↦ simp (f, other_key id x r e f) refl
    | inr f ↦ simp f (find_record-replace_at id xs r p (simp e at h))
  ])
]
  where
    same_key :
        (id : String) (x r : ModelRequestRecord)
        → str_eq x.request_id r.request_id ≡ true
        → str_eq x.request_id id ≡ str_eq r.request_id id
    same_key id x r e = ap (λ k. str_eq k id) ((eq_iff x.request_id r.request_id).0 e)

    other_key :
        (id : String) (x r : ModelRequestRecord)
        → str_eq x.request_id r.request_id ≡ false
        → str_eq x.request_id id ≡ true
        → str_eq r.request_id id ≡ false
    other_key id x r e f = ground (
      arith,
      e,
      f,
      eq_iff x.request_id id,
      eq_iff r.request_id id,
      eq_iff x.request_id r.request_id,
    )

pub or_none : (o : Option ModelRequestRecord) → first_some o none ≡ o
or_none none = refl
or_none (some x) = refl

after_other :
    (id : String) (o : Option ModelRequestRecord) (r : ModelRequestRecord)
    → str_eq r.request_id id ≡ false
    → after id o r ≡ o
after_other id none r e = simp e refl
after_other id (some p) r e = simp e refl

find_record-merge :
    (id : String) (merged : List ModelRequestRecord) (r : ModelRequestRecord)
    → find_record id (merge merged r) ≡ after id (find_record id merged) r
unfolding merge
find_record-merge id merged r = elim (Option-cases (find_record r.request_id merged)) [
  | inl e ↦ rw (e, merge) (find_record-append id merged r ∙ fresh (Bool-cases _) e)
  | inr (p, e) ↦
      rw (e, merge)
        (elim (Bool-cases (is_closed r.record_status)) [
          | inl c ↦ simp c (find_record-replace_at id merged r p e ∙ replaced (Bool-cases _) p e c)
          | inr c ↦ simp c (kept (Bool-cases _) p e c)
        ])
]
  where
    here : str_eq r.request_id id ≡ true → find_record id merged ≡ find_record r.request_id merged
    here m = ap (λ k. find_record k merged) (sym ((eq_iff r.request_id id).0 m))

    fresh :
        (str_eq r.request_id id ≡ true) ⊎ (str_eq r.request_id id ≡ false)
        → find_record r.request_id merged ≡ none
        → first_some (find_record id merged) (if str_eq r.request_id id then some r else none)
          ≡ after id (find_record id merged) r
    fresh (inl m) e = rw (here m ∙ e) refl
    fresh (inr m) e = rw (after_other id (find_record id merged) r m) (simp m (or_none _))

    replaced :
        (str_eq r.request_id id ≡ true) ⊎ (str_eq r.request_id id ≡ false)
        → (p : ModelRequestRecord) → find_record r.request_id merged ≡ some p
        → is_closed r.record_status ≡ true
        → (if str_eq r.request_id id then some r else find_record id merged)
          ≡ after id (find_record id merged) r
    replaced (inl m) p e c = rw (here m ∙ e) (simp (m, c) refl)
    replaced (inr m) p e c = rw (after_other id (find_record id merged) r m) (simp m refl)

    kept :
        (str_eq r.request_id id ≡ true) ⊎ (str_eq r.request_id id ≡ false)
        → (p : ModelRequestRecord) → find_record r.request_id merged ≡ some p
        → is_closed r.record_status ≡ false
        → find_record id merged ≡ after id (find_record id merged) r
    kept (inl m) p e c = rw (here m ∙ e) (simp (m, c) refl)
    kept (inr m) p e c = sym (after_other id (find_record id merged) r m)

AreKeyed-append :
    (xs : List ModelRequestRecord) (r : ModelRequestRecord)
    → find_record r.request_id xs ≡ none
    → AreKeyed xs
    → AreKeyed (xs ++ r ∷ [])
unfolding find_record
AreKeyed-append [] r h k = (tt, tt)
AreKeyed-append (x ∷ xs) r h k = elim (Bool-cases (str_eq x.request_id r.request_id)) [
  | inl e ↦ absurd (cc (simp e at h))
  | inr e ↦ (
    All-append (λ y. str_eq y.request_id x.request_id ≡ false) xs (r ∷ []) k.0
        (ground (arith, e, eq_iff x.request_id r.request_id, eq_iff r.request_id x.request_id), tt),
    AreKeyed-append xs r (simp e at h) k.1,
  )
]

All-replace_at :
    (id : String) (r : ModelRequestRecord) (xs : List ModelRequestRecord)
    → All (λ y. str_eq y.request_id id ≡ false) xs
    → All (λ y. str_eq y.request_id id ≡ false) (replace_at r.request_id r xs)
unfolding replace_at
All-replace_at id r [] h = tt
All-replace_at id r (x ∷ xs) h = elim (Bool-cases (str_eq x.request_id r.request_id)) [
  | inl e ↦ simp e (ap (λ k. str_eq k id) (sym ((eq_iff x.request_id r.request_id).0 e)) ∙ h.0, h.1)
  | inr e ↦ simp e (h.0, All-replace_at id r xs h.1)
]

AreKeyed-replace_at :
    (r : ModelRequestRecord) (xs : List ModelRequestRecord)
    → AreKeyed xs
    → AreKeyed (replace_at r.request_id r xs)
unfolding replace_at
AreKeyed-replace_at r [] h = tt
AreKeyed-replace_at r (x ∷ xs) h = elim (Bool-cases (str_eq x.request_id r.request_id)) [
  | inl e ↦ simp e (simp (sym ((eq_iff x.request_id r.request_id).0 e)) h.0, h.1)
  | inr e ↦ simp e (All-replace_at x.request_id r xs h.0, AreKeyed-replace_at r xs h.1)
]

AreKeyed-merge :
    (merged : List ModelRequestRecord) (r : ModelRequestRecord)
    → AreKeyed merged
    → AreKeyed (merge merged r)
unfolding merge
AreKeyed-merge merged r k = elim (Option-cases (find_record r.request_id merged)) [
  | inl e ↦ rw (e, merge) (AreKeyed-append merged r e k)
  | inr (p, e) ↦
      rw (e, merge)
        (elim (Bool-cases (is_closed r.record_status)) [
          | inl c ↦ simp c (AreKeyed-replace_at r merged k)
          | inr c ↦ simp c k
        ])
]

pub merge_lines_replays :
    (merged : List ModelRequestRecord) (lines : List Line) (out : List ModelRequestRecord)
    → merge_lines merged lines ≡ some out
    → AreKeyed merged
    → AreKeyed out
      × ((id : String) → find_record id out ≡ after_all id (find_record id merged) lines)
unfolding merge_lines
merge_lines_replays merged [] out h k =
    let same : merged ≡ out = some-injective _ _ h in
    (rw (← same) k, λ id. ap (find_record id) (sym same))
merge_lines_replays merged (Line.blank ∷ lines) out h k = merge_lines_replays merged lines out h k
merge_lines_replays merged (Line.not_json ∷ lines) out h k = absurd (cc (h))
merge_lines_replays merged (Line.no_request_id ∷ lines) out h k = absurd (cc (h))
merge_lines_replays merged (Line.bad_record ∷ lines) out h k = absurd (cc (h))
merge_lines_replays merged (Line.entry r ∷ lines) out h k =
    let (keyed, rest) =
      merge_lines_replays (merge merged r) lines out h (AreKeyed-merge merged r k) in
    (keyed, λ id. rest id ∙ ap (λ o. after_all id o lines) (find_record-merge id merged r))
