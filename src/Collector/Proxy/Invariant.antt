-- ===== src/Collector/Proxy/Invariant.antt =====
-- Every observed request is listed once with its round, and with no other: kept by each operation on
-- the records and the rounds.
use mathlib.Core.Path.{ap₂, subst⁻¹}
use yonwork_benchmark.Prelude.{
  AreDistinct, String, false, List, [], ◌∷◌, str_eq, elem, ◌≡◌, refl, Bool-cases, Option-cases, inl,
  inr, ◌∙◌, ap, sym, All,
}
use Prim.Native.Char.{Char}
use yonwork_benchmark.Collector.Ledger.{ModelRequestRecord}
use yonwork_benchmark.Collector.Proxy.{Registration, TraceBinding}
use yonwork_benchmark.Collector.Proxy.Trace.{
  Key, Applied, apply_binding, Bound, bind_records, carries, keep_record, change_record,
}
use yonwork_benchmark.Collector.Proxy.Listing.{str_eq-flip, listed}
use yonwork_benchmark.Collector.Proxy.Attributions.{IsListed, Relists, apply_binding-Relists}

abbrev pub ids : List ModelRequestRecord → List String
ids [] = []
ids (r ∷ rs) = r.request_id ∷ ids rs

pub elem-there :
    (id x : String) (xs : List String)
    → elem id (x ∷ xs) ≡ false
    → (str_eq id x ≡ false) × (elem id xs ≡ false)
unfolding elem
elem-there id x xs h = elim (Bool-cases (str_eq id x)) [
  | inl e ↦ absurd (cc (rw e at h))
  | inr e ↦ (e, rw e at h)
]

IsListed-others :
    (r : ModelRequestRecord) (runs runs' : List Registration)
    → ((run : String) → listed run r.request_id runs' ≡ listed run r.request_id runs)
    → IsListed r runs
    → IsListed r runs'
unfolding IsListed
IsListed-others r runs runs' e l = λ run. e run ∙ l run

pub All-IsListed :
    (id : String) (rs : List ModelRequestRecord) (runs runs' : List Registration)
    → elem id (ids rs) ≡ false
    → ((x run : String) → str_eq id x ≡ false → listed run x runs' ≡ listed run x runs)
    → All (λ r. IsListed r runs) rs
    → All (λ r. IsListed r runs') rs
All-IsListed id [] runs runs' h o l = tt
All-IsListed id (r ∷ rs) runs runs' h o l =
    let (e, t) = elem-there id r.request_id (ids rs) h in
    (
      IsListed-others r runs runs' (λ run. o r.request_id run e) l.0,
      All-IsListed id rs runs runs' t o l.1,
    )

-- What the loop of `bind_trace` leaves of the records and the rounds.
record Rebinds (rs : List ModelRequestRecord) (runs : List Registration) (out : Bound)
    : Type 0 where
  pub same_ids : ids out.records ≡ ids rs
  pub right : All (λ r. IsListed r out.runs) out.records
  pub others :
      (id run : String) → elem id (ids rs) ≡ false → listed run id out.runs ≡ listed run id runs

keep_record-Rebinds :
    (r : ModelRequestRecord) (rs : List ModelRequestRecord) (runs : List Registration) (out : Bound)
    → elem r.request_id (ids rs) ≡ false
    → IsListed r runs
    → Rebinds rs runs out
    → Rebinds (r ∷ rs) runs (keep_record r out)
unfolding keep_record
keep_record-Rebinds r rs runs out h l b = record {
  same_ids = ap (λ xs. r.request_id ∷ xs) b.same_ids;
  right = (IsListed-others r runs out.runs (λ run. b.others r.request_id run h) l, b.right);
  others = λ id run e. b.others id run (elem-there id r.request_id (ids rs) e).1;
}

change_record-Rebinds :
    (r : ModelRequestRecord) (rs : List ModelRequestRecord) (runs : List Registration) (a : Applied)
    (out : Bound)
    → elem r.request_id (ids rs) ≡ false
    → Relists r runs a
    → Rebinds rs a.1 out
    → Rebinds (r ∷ rs) runs (change_record a.0 out)
unfolding change_record
change_record-Rebinds r rs runs a out h c b = record {
  same_ids = ap₂ ◌∷◌ c.same_id b.same_ids;
  right = (
    IsListed-others a.0 a.1 out.runs
        (λ run. b.others a.0.request_id run (ap (λ x. elem x (ids rs)) c.same_id ∙ h)) c.right,
    b.right,
  );
  others = λ id run e.
      let (s, t) = elem-there id r.request_id (ids rs) e in
      b.others id run t ∙ c.others id run (str_eq-flip r.request_id id ∙ s);
}

module _ (lower_char : Char → String) where
  bind_records-Rebinds :
      (key : Key) (b : TraceBinding) (rs : List ModelRequestRecord) (runs : List Registration)
      → AreDistinct (ids rs)
      → All (λ r. IsListed r runs) rs
      → Rebinds rs runs (bind_records lower_char key b rs runs)
  unfolding bind_records
  bind_records-Rebinds key b [] runs d l = record {
    same_ids = refl;
    right = tt;
    others = λ id run e. refl;
  }
  bind_records-Rebinds key b (r ∷ rs) runs d l = elim (Bool-cases (carries lower_char key r)) [
    | inr e ↦
        rw (e, bind_records)
          (keep_record-Rebinds r rs runs (bind_records lower_char key b rs runs) d.0 l.0
            (bind_records-Rebinds key b rs runs d.1 l.1))
    | inl e ↦ elim (Option-cases (apply_binding b r runs)) [
      | inl f ↦
          rw (e, f, bind_records)
            (keep_record-Rebinds r rs runs (bind_records lower_char key b rs runs) d.0 l.0
              (bind_records-Rebinds key b rs runs d.1 l.1))
      | inr (a, f) ↦
          let c = apply_binding-Relists b r runs a l.0 f in
          rw (e, f, bind_records)
            (change_record-Rebinds r rs runs a (bind_records lower_char key b rs a.1) d.0 c (
              bind_records-Rebinds key b rs a.1 d.1
                (All-IsListed r.request_id rs runs a.1 d.0 c.others l.1)))
    ]
  ]

-- The records and the rounds agree: no two records have the same id, each is listed once with the
-- round that it names, and no other id is listed.
pub record IsConsistent (records : List ModelRequestRecord) (runs : List Registration)
    : Type 0 where
  pub distinct_ids : AreDistinct (ids records)
  pub right : All (λ r. IsListed r runs) records
  pub unknown : (id run : String) → elem id (ids records) ≡ false → listed run id runs ≡ 0

pub IsConsistent-runs :
    (records : List ModelRequestRecord) (runs runs' : List Registration)
    → ((run id : String) → listed run id runs' ≡ listed run id runs)
    → IsConsistent records runs
    → IsConsistent records runs'
IsConsistent-runs records runs runs' e c = record {
  distinct_ids = c.distinct_ids;
  right = all records c.right;
  unknown = λ id run h. e run id ∙ c.unknown id run h;
}
  where
    all :
        (rs : List ModelRequestRecord)
        → All (λ r. IsListed r runs) rs
        → All (λ r. IsListed r runs') rs
    all [] h = tt
    all (r ∷ rs) h = (IsListed-others r runs runs' (λ run. e run r.request_id) h.0, all rs h.1)

pub bind_records-IsConsistent :
    (lower_char : Char → String) (key : Key) (b : TraceBinding) (rs : List ModelRequestRecord)
    (runs : List Registration)
    → IsConsistent rs runs
    → IsConsistent
        (bind_records lower_char key b rs runs).records
        (bind_records lower_char key b rs runs).runs
bind_records-IsConsistent lower_char key b rs runs c =
    let d = bind_records-Rebinds lower_char key b rs runs c.distinct_ids c.right in
    record {
      distinct_ids = subst⁻¹ AreDistinct d.same_ids c.distinct_ids;
      right = d.right;
      unknown = λ id run h.
          let k = ap (elem id) (sym d.same_ids) ∙ h in d.others id run k ∙ c.unknown id run k;
    }

pub bind_records-ids :
    (lower_char : Char → String) (key : Key) (b : TraceBinding) (rs : List ModelRequestRecord)
    (runs : List Registration)
    → IsConsistent rs runs
    → ids (bind_records lower_char key b rs runs).records ≡ ids rs
bind_records-ids lower_char key b rs runs c =
    (bind_records-Rebinds lower_char key b rs runs c.distinct_ids c.right).same_ids
