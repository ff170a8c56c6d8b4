-- ===== src/Collector/Ledger/Replay.antt =====
-- What the replay of a ledger file makes of the lines of each request.
use mathlib.Core.Option.{some-injective}
use mathlib.Core.Option
use mathlib.Core.Path.{ap₂}
use mathlib.Core.Logic.{◌⊎◌}
use yonwork_benchmark.Prelude.{
  true, Option, some, none, List, [], ◌∷◌, ◌++◌, String, Bool, Bool-cases, Option-cases, true,
  false, inl, inr, ◌≡◌, refl, sym, ap, ◌∙◌, str_eq, eq_iff, All, arith, if◌then◌else◌, map,
  insert_sorted, sort_by, ◌&&◌,
}
use yonwork_benchmark.Collector.Ledger.{
  ModelRequestRecord, Line, is_closed, find_record, merge_lines, settle, before, load_ledger,
}
use yonwork_benchmark.Collector.Ledger.Entries.{
  or_none, AreKeyed, first_some, last_closed, first_entry, after_all_entries, merge_lines_replays,
}

All-insert_sorted :
    (lt : ModelRequestRecord → ModelRequestRecord → Bool) (P : ModelRequestRecord → Type 0)
    (x : ModelRequestRecord) (xs : List ModelRequestRecord)
    → P x
    → All P xs
    → All P (insert_sorted lt x xs)
unfolding insert_sorted
All-insert_sorted lt P x [] p h = (p, tt)
All-insert_sorted lt P x (y ∷ ys) p h = elim (Bool-cases (lt x y)) [
  | inl e ↦ rw (e, insert_sorted) (p, h)
  | inr e ↦ rw (e, insert_sorted) (h.0, All-insert_sorted lt P x ys p h.1)
]

-- Sorting changes neither which record a request has nor that it has one.
insert_sorted_replays :
    (lt : ModelRequestRecord → ModelRequestRecord → Bool) (x : ModelRequestRecord)
    (xs : List ModelRequestRecord)
    → AreKeyed (x ∷ xs)
    → AreKeyed (insert_sorted lt x xs)
      × ((id : String) → find_record id (insert_sorted lt x xs) ≡ find_record id (x ∷ xs))
unfolding insert_sorted find_record
insert_sorted_replays lt x [] k = (k, λ id. refl)
insert_sorted_replays lt x (y ∷ ys) k = elim (Bool-cases (lt x y)) [
  | inl e ↦ rw (e, insert_sorted) (k, λ id. refl)
  | inr e ↦
      let (keyed, same) = insert_sorted_replays lt x ys (k.0.1, k.1.1) in
      rw (e, insert_sorted)
        (
          (
            All-insert_sorted lt (λ z. str_eq z.request_id y.request_id ≡ false) x ys
                (differs x y k.0.0) k.1.0,
            keyed,
          ),
          λ id. swap x y ys (insert_sorted lt x ys) k.0.0 id (same id) (Bool-cases _),
        )
]
  where
    differs :
        (x y : ModelRequestRecord)
        → str_eq y.request_id x.request_id ≡ false
        → str_eq x.request_id y.request_id ≡ false
    differs x y e =
        ground (arith, e, eq_iff x.request_id y.request_id, eq_iff y.request_id x.request_id)

    differs_from :
        (x y : ModelRequestRecord) (id : String)
        → str_eq y.request_id x.request_id ≡ false
        → str_eq y.request_id id ≡ true
        → str_eq x.request_id id ≡ false
    differs_from x y id e f = ground (
      arith,
      e,
      f,
      eq_iff y.request_id id,
      eq_iff x.request_id id,
      eq_iff y.request_id x.request_id,
    )

    swap :
        (x y : ModelRequestRecord) (ys zs : List ModelRequestRecord)
        → str_eq y.request_id x.request_id ≡ false
        → (id : String) → find_record id zs ≡ find_record id (x ∷ ys)
        → (str_eq y.request_id id ≡ true) ⊎ (str_eq y.request_id id ≡ false)
        → find_record id (y ∷ zs) ≡ find_record id (x ∷ y ∷ ys)
    swap x y ys zs e id same (inl f) = simp (f, differs_from x y id e f) refl
    swap x y ys zs e id same (inr f) = simp f same

sort_by_replays :
    (lt : ModelRequestRecord → ModelRequestRecord → Bool) (xs : List ModelRequestRecord)
    → AreKeyed xs
    → AreKeyed (sort_by lt xs)
      × ((id : String) → find_record id (sort_by lt xs) ≡ find_record id xs)
unfolding sort_by find_record
sort_by_replays lt [] k = (tt, λ id. refl)
sort_by_replays lt (x ∷ xs) k =
    let (keyed, same) = sort_by_replays lt xs k.1 in
    let (keyed', same') =
      insert_sorted_replays lt x (sort_by lt xs) (All-sort_by lt _ xs k.0, keyed) in
    (keyed', λ id. same' id ∙ ap (λ o. if str_eq x.request_id id then some x else o) (same id))
  where
    All-sort_by :
        (lt : ModelRequestRecord → ModelRequestRecord → Bool) (P : ModelRequestRecord → Type 0)
        (xs : List ModelRequestRecord)
        → All P xs
        → All P (sort_by lt xs)
    All-sort_by lt P [] h = tt
    All-sort_by lt P (x ∷ xs) h =
        All-insert_sorted lt P x (sort_by lt xs) h.0 (All-sort_by lt P xs h.1)

request_id-settle : (r : ModelRequestRecord) → (settle r).request_id ≡ r.request_id
unfolding settle
request_id-settle r = elim (Bool-cases (is_closed r.record_status)) [
  | inl e ↦ simp e refl
  | inr e ↦ simp e refl
]

find_record-settle :
    (id : String) (xs : List ModelRequestRecord)
    → find_record id (map settle xs) ≡ Option.map settle (find_record id xs)
unfolding find_record
find_record-settle id [] = refl
find_record-settle id (x ∷ xs) = elim (Bool-cases (str_eq x.request_id id)) [
  | inl e ↦ simp (request_id-settle, e) refl
  | inr e ↦ simp (request_id-settle, e) (find_record-settle id xs)
]

AreKeyed-settle : (xs : List ModelRequestRecord) → AreKeyed xs → AreKeyed (map settle xs)
AreKeyed-settle [] k = tt
AreKeyed-settle (x ∷ xs) k = (differ x xs k.0, AreKeyed-settle xs k.1)
  where
    differ :
        (x : ModelRequestRecord) (xs : List ModelRequestRecord)
        → All (λ y. str_eq y.request_id x.request_id ≡ false) xs
        → All (λ y. str_eq y.request_id (settle x).request_id ≡ false) (map settle xs)
    differ x [] h = tt
    differ x (y ∷ ys) h = (simp request_id-settle h.0, differ x ys h.1)

-- If a ledger file loads, each request that has a line has exactly one record: its last closed
-- line, or else its first line, which is marked as incomplete if it is open. A request without a
-- line has none.
pub load_ledger_replays :
    (lines : List Line) (rs : List ModelRequestRecord)
    → load_ledger (some lines) ≡ some rs
    → AreKeyed rs
      × ((id : String)
          → find_record id rs
            ≡ Option.map settle (first_some (last_closed id lines) (first_entry id lines)))
unfolding load_ledger
load_ledger_replays lines rs h = elim (Option-cases (merge_lines [] lines)) [
  | inl e ↦ absurd (cc (rw (e, load_ledger) at h))
  | inr (merged, e) ↦
      let (keyed, found) = merge_lines_replays [] lines merged e tt in
      let (keyed', found') =
        sort_by_replays before (map settle merged) (AreKeyed-settle merged keyed) in
      let same : sort_by before (map settle merged) ≡ rs =
        some-injective _ _ (rw (e, load_ledger) at h) in
      rw (← same) (
        keyed',
        λ id.
            found' id
            ∙ (find_record-settle id merged
                ∙ ap (Option.map settle) (found id ∙ after_all_entries id none lines)),
      )
]

last_closed-append :
    (id : String) (xs ys : List Line)
    → last_closed id (xs ++ ys) ≡ first_some (last_closed id ys) (last_closed id xs)
last_closed-append id [] ys = sym (or_none (last_closed id ys))
last_closed-append id (Line.blank ∷ xs) ys = last_closed-append id xs ys
last_closed-append id (Line.not_json ∷ xs) ys = last_closed-append id xs ys
last_closed-append id (Line.no_request_id ∷ xs) ys = last_closed-append id xs ys
last_closed-append id (Line.bad_record ∷ xs) ys = last_closed-append id xs ys
last_closed-append id (Line.entry r ∷ xs) ys =
    ap
      (λ o.
        first_some o (if str_eq r.request_id id && is_closed r.record_status then some r else none))
      (last_closed-append id xs ys)
    ∙ first_some_assoc (last_closed id ys) (last_closed id xs) _
  where
    first_some_assoc :
        (a b c : Option ModelRequestRecord)
        → first_some (first_some a b) c ≡ first_some a (first_some b c)
    first_some_assoc none b c = refl
    first_some_assoc (some a) b c = refl

first_entry-append :
    (id : String) (xs ys : List Line)
    → first_entry id (xs ++ ys) ≡ first_some (first_entry id xs) (first_entry id ys)
first_entry-append id [] ys = refl
first_entry-append id (Line.blank ∷ xs) ys = first_entry-append id xs ys
first_entry-append id (Line.not_json ∷ xs) ys = first_entry-append id xs ys
first_entry-append id (Line.no_request_id ∷ xs) ys = first_entry-append id xs ys
first_entry-append id (Line.bad_record ∷ xs) ys = first_entry-append id xs ys
first_entry-append id (Line.entry r ∷ xs) ys = elim (Bool-cases (str_eq r.request_id id)) [
  | inl e ↦ simp e refl
  | inr e ↦ simp e (first_entry-append id xs ys)
]

first_some_same : (o : Option ModelRequestRecord) → first_some o o ≡ o
first_some_same none = refl
first_some_same (some r) = refl

-- If a ledger file and the file with its lines twice both load, each request has the same one record
-- in both.
pub load_ledger_twice :
    (lines : List Line) (rs rs' : List ModelRequestRecord)
    → load_ledger (some lines) ≡ some rs
    → load_ledger (some (lines ++ lines)) ≡ some rs'
    → AreKeyed rs' × ((id : String) → find_record id rs' ≡ find_record id rs)
load_ledger_twice lines rs rs' h h' =
    let (keyed, one) = load_ledger_replays lines rs h in
    let (keyed', two) = load_ledger_replays (lines ++ lines) rs' h' in
    (
      keyed',
      λ id.
          two id
          ∙ (ap (Option.map settle) (
                ap₂ first_some
                  (last_closed-append id lines lines ∙ first_some_same (last_closed id lines))
                  (first_entry-append id lines lines ∙ first_some_same (first_entry id lines)))
              ∙ sym (one id)),
    )
