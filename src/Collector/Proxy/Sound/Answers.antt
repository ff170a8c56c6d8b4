-- ===== src/Collector/Proxy/Sound/Answers.antt =====
-- What `records_for` answers in the states that the threads reach.
use yonwork_benchmark.Prelude.{
  ◌||◌, String, Bool, true, false, none, some, List, [], ◌∷◌, ◌≡◌, refl, arith, Bool-cases, inl,
  inr, ap, sym, ◌∙◌, elem, str_eq, All, eq_iff, ◌&&◌,
}
use Prim.Native.Char.{Char}
use yonwork_benchmark.Collector.Ledger.{ModelRequestRecord, find_record}
use yonwork_benchmark.Collector.Proxy.{Registration, Proxy}
use yonwork_benchmark.Collector.Proxy.Runs.{records_for, records_in, requests_of}
use yonwork_benchmark.Collector.Proxy.Listing.{
  str_eq_self, listed, one, count_text-absent, count_text-present, str_eq-flip,
}
use yonwork_benchmark.Collector.Proxy.Attributions.{IsListed, is_for}
use yonwork_benchmark.Collector.Proxy.Invariant.{ids}
use yonwork_benchmark.Collector.Proxy.Steps.{System, Reach, fresh}
use yonwork_benchmark.Collector.Proxy.Sound.Theorems.{Reach-IsConsistent}

find_record-here :
    (id : String) (x : ModelRequestRecord) (xs : List ModelRequestRecord)
    → str_eq id x.request_id ≡ true
    → find_record id (x ∷ xs) ≡ some x
unfolding find_record
find_record-here id x xs e = rw (str_eq-flip x.request_id id ∙ e) refl

find_record-there :
    (id : String) (x : ModelRequestRecord) (xs : List ModelRequestRecord)
    → str_eq id x.request_id ≡ false
    → find_record id (x ∷ xs) ≡ find_record id xs
unfolding find_record
find_record-there id x xs e = rw (str_eq-flip x.request_id id ∙ e) refl

-- Whether a record with this id is stored.
data Stored (id : String) (rs : List ModelRequestRecord) : Type 0 where
  missing : elem id (ids rs) ≡ false → find_record id rs ≡ none → Stored id rs
  stored :
      (r : ModelRequestRecord)
      → elem id (ids rs) ≡ true
      → find_record id rs ≡ some r
      → r.request_id ≡ id
      → Stored id rs

find_record-Stored : (id : String) (rs : List ModelRequestRecord) → Stored id rs
unfolding find_record elem
find_record-Stored id [] = missing refl refl
find_record-Stored id (x ∷ xs) = elim (Bool-cases (str_eq id x.request_id)) [
  | inl e ↦ stored x (rw e refl) (find_record-here id x xs e) (sym ((eq_iff id x.request_id).0 e))
  | inr e ↦ elim (find_record-Stored id xs) [
    | missing f g ↦ missing (rw e f) (find_record-there id x xs e ∙ g)
    | stored r f g h ↦ stored r (rw e f) (find_record-there id x xs e ∙ g) h
  ]
]

records_in-none :
    (x : String) (rs : List ModelRequestRecord) (xs : List String)
    → find_record x rs ≡ none
    → records_in rs (x ∷ xs) ≡ records_in rs xs
unfolding records_in
records_in-none x rs xs e = rw (e, records_in) refl

records_in-some :
    (x : String) (rs : List ModelRequestRecord) (xs : List String) (r : ModelRequestRecord)
    → find_record x rs ≡ some r
    → records_in rs (x ∷ xs) ≡ r ∷ records_in rs xs
unfolding records_in
records_in-some x rs xs r e = rw (e, records_in) refl

and_nothing : (a b : Bool) {e : Bool} → e ≡ false → (a && e) ≡ (b && e)
and_nothing true true h = refl
and_nothing true false h = h
and_nothing false true h = sym h
and_nothing false false h = refl

elem-records_in :
    (id : String) (rs : List ModelRequestRecord) (xs : List String)
    → elem id (ids (records_in rs xs)) ≡ (elem id xs && elem id (ids rs))
unfolding elem records_in
elem-records_in id rs [] = ap (λ l. elem id (ids l)) none_in
  where
    none_in : records_in rs [] ≡ []
    none_in = refl
elem-records_in id rs (x ∷ xs) = elim (find_record-Stored x rs) [
  | missing f g ↦
      ap (λ l. elem id (ids l)) (records_in-none x rs xs g)
      ∙ elem-records_in id rs xs
      ∙ elim (Bool-cases (str_eq id x)) [
        | inl e ↦
            and_nothing (elem id xs) (elem id (x ∷ xs))
              (ap (λ y. elem y (ids rs)) ((eq_iff id x).0 e) ∙ f)
        | inr e ↦ rw e refl
      ]
  | stored r f g h ↦
      ap (λ l. elem id (ids l)) (records_in-some x rs xs r g)
      ∙ ap (λ y. str_eq id y || elem id (ids (records_in rs xs))) h
      ∙ elim (Bool-cases (str_eq id x)) [
        | inl e ↦ rw e (sym (ap (λ y. elem y (ids rs)) ((eq_iff id x).0 e) ∙ f))
        | inr e ↦ rw e (elem-records_in id rs xs)
      ]
]

is_listed :
    (id run : String) (runs : List Registration) (b : Bool)
    → listed run id runs ≡ one b
    → elem id (requests_of run runs) ≡ b
unfolding listed
is_listed id run runs true h = elim (Bool-cases (elem id (requests_of run runs))) [
  | inl e ↦ e
  | inr e ↦ absurd (omega (arith, h, count_text-absent id (requests_of run runs) e))
]
is_listed id run runs false h = elim (Bool-cases (elem id (requests_of run runs))) [
  | inl e ↦ absurd (omega (arith, h, count_text-present id (requests_of run runs) e))
  | inr e ↦ e
]

-- Of the stored records `rs`: `run` answers for them what they name.
all_answered :
    (p : Proxy) (rs : List ModelRequestRecord)
    → All (λ r. IsListed r p.runs) rs
    → All (λ r. elem r.request_id (ids p.records) ≡ true) rs
    → All
        (λ r. (run : String) → elem r.request_id (ids (records_for run p)) ≡ is_for run r.run_id)
        rs
unfolding records_for IsListed
all_answered p [] h k = tt
all_answered p (r ∷ rs) h k = (
  λ run.
      elem-records_in r.request_id p.records (requests_of run p.runs)
      ∙ ap (λ b. b && elem r.request_id (ids p.records))
          (is_listed r.request_id run p.runs (is_for run r.run_id) (h.0 run))
      ∙ and_true (is_for run r.run_id) k.0,
  all_answered p rs h.1 k.1,
)
  where
    and_true : (a : Bool) {b : Bool} → b ≡ true → (a && b) ≡ a
    and_true true e = e
    and_true false e = refl

all_present : (rs : List ModelRequestRecord) → All (λ r. elem r.request_id (ids rs) ≡ true) rs
unfolding elem
all_present [] = tt
all_present (x ∷ xs) = (first x xs, later x xs xs (all_present xs))
  where
    first :
        (x : ModelRequestRecord) (xs : List ModelRequestRecord)
        → elem x.request_id (ids (x ∷ xs)) ≡ true
    first x xs = rw (str_eq_self x.request_id) refl

    later :
        (x : ModelRequestRecord) (xs ys : List ModelRequestRecord)
        → All (λ r. elem r.request_id (ids xs) ≡ true) ys
        → All (λ r. elem r.request_id (ids (x ∷ xs)) ≡ true) ys
    later x xs [] h = tt
    later x xs (y ∷ ys) h = (
      elim (Bool-cases (str_eq y.request_id x.request_id)) [ inl e ↦ rw e refl | inr e ↦ rw e h.0 ],
      later x xs ys h.1,
    )

-- In every state that the threads of a new proxy reach, `records_for` answers for a round exactly
-- those of the stored requests whose record names the round.
pub records_for_exact :
    (lower_char : Char → String) (proxy_id token ledger : String) (s : System)
    → Reach lower_char (fresh proxy_id token ledger) s
    → All
        (λ r.
          (run : String) → elem r.request_id (ids (records_for run s.proxy)) ≡ is_for run r.run_id)
        s.proxy.records
records_for_exact lower_char proxy_id token ledger s r =
    let c = Reach-IsConsistent lower_char proxy_id token ledger s r in
    all_answered s.proxy s.proxy.records c.right (all_present s.proxy.records)
