-- ===== src/Collector/Proxy/Storing.antt =====
-- A new record is stored, and a stored record is changed: the records and the rounds still agree.
use mathlib.Core.Path.{subst⁻¹}
use yonwork_benchmark.Prelude.{
  AreDistinct, Option-cases, String, true, false, none, List, [], ◌∷◌, ◌++◌, str_eq, elem, ◌≡◌,
  refl, Bool-cases, inl, inr, ◌∙◌, ap, sym, All, All-append,
}
use yonwork_benchmark.Collector.Ledger.{ModelRequestRecord}
use yonwork_benchmark.Collector.Proxy.{find_run, Registration, update_record}
use yonwork_benchmark.Collector.Proxy.Trace.{Applied}
use yonwork_benchmark.Collector.Proxy.Requests.{Claim, attribute}
use yonwork_benchmark.Collector.Proxy.Listing.{listed, one, str_eq-flip}
use yonwork_benchmark.Collector.Proxy.Attributions.{IsListed, Relists, attribute-Relists, is_for}
use yonwork_benchmark.Collector.Proxy.Invariant.{ids, elem-there, IsConsistent, All-IsListed}

pub elem-snoc :
    (id x : String) (xs : List String)
    → elem id xs ≡ false
    → str_eq id x ≡ false
    → elem id (xs ++ x ∷ []) ≡ false
unfolding elem
elem-snoc id x [] h e = rw e refl
elem-snoc id x (y ∷ ys) h e = let (f, t) = elem-there id y ys h in rw f (elem-snoc id x ys t e)

AreDistinct-snoc :
    (x : String) (xs : List String)
    → elem x xs ≡ false
    → AreDistinct xs
    → AreDistinct (xs ++ x ∷ [])
unfolding elem
AreDistinct-snoc x [] h d = (refl, tt)
AreDistinct-snoc x (y ∷ ys) h d =
    let (f, t) = elem-there x y ys h in
    (elem-snoc y x ys d.0 (str_eq-flip y x ∙ f), AreDistinct-snoc x ys t d.1)

pub ids-snoc :
    (rs : List ModelRequestRecord) (r : ModelRequestRecord)
    → ids (rs ++ r ∷ []) ≡ ids rs ++ r.request_id ∷ []
ids-snoc [] r = refl
ids-snoc (x ∷ xs) r = ap (λ l. x.request_id ∷ l) (ids-snoc xs r)

elem-snoc_left :
    (id x : String) (xs : List String)
    → elem id (xs ++ x ∷ []) ≡ false
    → (elem id xs ≡ false) × (str_eq id x ≡ false)
unfolding elem
elem-snoc_left id x [] h = (refl, (elem-there id x [] h).0)
elem-snoc_left id x (y ∷ ys) h =
    let (f, t) = elem-there id y (ys ++ x ∷ []) h in
    let (a, b) = elem-snoc_left id x ys t in (rw f a, b)

-- A record that is new, stored in the round that it is attributed to.
snoc-IsConsistent :
    (rs : List ModelRequestRecord) (runs : List Registration) (r : ModelRequestRecord) (a : Applied)
    → IsConsistent rs runs
    → elem r.request_id (ids rs) ≡ false
    → Relists r runs a
    → IsConsistent (rs ++ a.0 ∷ []) a.1
snoc-IsConsistent rs runs r a c h l = record {
  distinct_ids = subst⁻¹ AreDistinct (ids-snoc rs a.0) (
      AreDistinct-snoc a.0.request_id (ids rs) (ap (λ x. elem x (ids rs)) l.same_id ∙ h)
        c.distinct_ids);
  right =
      All-append (λ r. IsListed r a.1) rs (a.0 ∷ [])
        (All-IsListed r.request_id rs runs a.1 h l.others c.right) (l.right, tt);
  unknown = λ id run k.
      let (e, f) =
        elem-snoc_left id a.0.request_id (ids rs) (ap (elem id) (sym (ids-snoc rs a.0)) ∙ k) in
      l.others id run (str_eq-flip r.request_id id ∙ ap (str_eq id) (sym l.same_id) ∙ f)
      ∙ c.unknown id run e;
}

-- A change of a record that leaves its id and its round alone: what `begin`, the handler and
-- `finish` write into it.
pub record Keeps (f : ModelRequestRecord → ModelRequestRecord) : Type 0 where
  pub same_id : (r : ModelRequestRecord) → (f r).request_id ≡ r.request_id
  pub same_run : (r : ModelRequestRecord) → (f r).run_id ≡ r.run_id

IsListed-kept :
    (f : ModelRequestRecord → ModelRequestRecord) (r : ModelRequestRecord)
    (runs : List Registration)
    → Keeps f
    → IsListed r runs
    → IsListed (f r) runs
unfolding IsListed
IsListed-kept f r runs k l = λ run.
    ap (λ x. listed run x runs) (k.same_id r)
    ∙ l run
    ∙ ap (λ o. one (is_for run o)) (sym (k.same_run r))

update_record-here :
    (id : String) (f : ModelRequestRecord → ModelRequestRecord) (r : ModelRequestRecord)
    (rs : List ModelRequestRecord)
    → str_eq r.request_id id ≡ true
    → update_record id f (r ∷ rs) ≡ f r ∷ rs
unfolding update_record
update_record-here id f r rs e = rw e refl

update_record-there :
    (id : String) (f : ModelRequestRecord → ModelRequestRecord) (r : ModelRequestRecord)
    (rs : List ModelRequestRecord)
    → str_eq r.request_id id ≡ false
    → update_record id f (r ∷ rs) ≡ r ∷ update_record id f rs
unfolding update_record
update_record-there id f r rs e = rw e refl

pub ids-update_record :
    (id : String) (f : ModelRequestRecord → ModelRequestRecord) (rs : List ModelRequestRecord)
    → Keeps f
    → ids (update_record id f rs) ≡ ids rs
unfolding update_record
ids-update_record id f [] k = refl
ids-update_record id f (r ∷ rs) k = elim (Bool-cases (str_eq r.request_id id)) [
  | inl e ↦ ap ids (update_record-here id f r rs e) ∙ ap (λ x. x ∷ ids rs) (k.same_id r)
  | inr e ↦
      ap ids (update_record-there id f r rs e)
      ∙ ap (λ l. r.request_id ∷ l) (ids-update_record id f rs k)
]

All-update_record :
    (id : String) (f : ModelRequestRecord → ModelRequestRecord) (rs : List ModelRequestRecord)
    (runs : List Registration)
    → Keeps f
    → All (λ r. IsListed r runs) rs
    → All (λ r. IsListed r runs) (update_record id f rs)
unfolding update_record
All-update_record id f [] runs k h = tt
All-update_record id f (r ∷ rs) runs k h = elim (Bool-cases (str_eq r.request_id id)) [
  | inl e ↦
      subst⁻¹ (All (λ r. IsListed r runs)) (update_record-here id f r rs e)
        (IsListed-kept f r runs k h.0, h.1)
  | inr e ↦
      subst⁻¹ (All (λ r. IsListed r runs)) (update_record-there id f r rs e)
        (h.0, All-update_record id f rs runs k h.1)
]

pub update_record-IsConsistent :
    (id : String) (f : ModelRequestRecord → ModelRequestRecord) (rs : List ModelRequestRecord)
    (runs : List Registration)
    → Keeps f
    → IsConsistent rs runs
    → IsConsistent (update_record id f rs) runs
update_record-IsConsistent id f rs runs k c = record {
  distinct_ids = subst⁻¹ AreDistinct (ids-update_record id f rs k) c.distinct_ids;
  right = All-update_record id f rs runs k c.right;
  unknown = λ x run h. c.unknown x run (ap (elem x) (sym (ids-update_record id f rs k)) ∙ h);
}

-- A record without a round arrives.
pub attribute-IsConsistent :
    (c : Claim) (rs : List ModelRequestRecord) (runs : List Registration) (r : ModelRequestRecord)
    → IsConsistent rs runs
    → elem r.request_id (ids rs) ≡ false
    → r.run_id ≡ none
    → IsConsistent (rs ++ (attribute c runs r).0 ∷ []) (attribute c runs r).1
unfolding IsListed
attribute-IsConsistent c rs runs r k h e = snoc-IsConsistent rs runs r (attribute c runs r) k h (
    attribute-Relists c runs r
      (λ run. k.unknown r.request_id run h ∙ ap (λ o. one (is_for run o)) (sym e)) e)

pub attribute-id :
    (c : Claim) (runs : List Registration) (r : ModelRequestRecord)
    → (attribute c runs r).0.request_id ≡ r.request_id
unfolding attribute
attribute-id Claim.unclaimed runs r = refl
attribute-id Claim.in_conflict runs r = refl
attribute-id (Claim.claimed x source) runs r = elim (Option-cases (find_run x runs)) [
  | inl e ↦ rw e refl
  | inr (g, e) ↦ rw e refl
]
