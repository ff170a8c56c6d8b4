-- ===== src/Collector/Proxy/Attributions.antt =====
-- A request is listed once with the round it is attributed to, and nowhere else: kept by `attribute`
-- and `apply_binding`.
use mathlib.Core.Path.{subst}
use mathlib.Core.Option.{some-injective}
use yonwork_benchmark.Prelude.{
  String, Bool, false, Option, none, some, List, str_eq, ◌≡◌, refl, arith, Bool-cases, inl, inr,
  ◌∙◌, ap, sym, ◌||◌, or_else,
}
use yonwork_benchmark.Collector.Ledger.{ModelRequestRecord}
use yonwork_benchmark.Collector.Proxy.{Registration, TraceBinding, find_run}
use yonwork_benchmark.Collector.Proxy.Trace.{
  put_if_found, apply_to, Applied, apply_binding, put_in_conflict, put_in_run, same_run,
  conflict_source,
}
use yonwork_benchmark.Collector.Proxy.Requests.{attribute_in, attribute, Claim}
use yonwork_benchmark.Collector.Proxy.Listing.{
  listed-drop_request_same, listed-add_request_other, listed-drop_request_other,
  listed-add_request_same, listed-drop_request_none, listed, one, find_run-id,
}

abbrev pub is_for : String → Option String → Bool
is_for run none = false
is_for run (some x) = str_eq x run

-- The record is listed once with its round, and with no other.
unfoldable pub IsListed : ModelRequestRecord → List Registration → Type 0
IsListed r runs = (run : String) → listed run r.request_id runs ≡ one (is_for run r.run_id)

-- From `r` and `runs` to what is made of them: the id stays, the listing is right again, and
-- nothing changes for other requests.
pub record Relists (r : ModelRequestRecord) (runs : List Registration) (a : Applied) : Type 0 where
  pub same_id : a.0.request_id ≡ r.request_id
  pub same_sequence : a.0.sequence ≡ r.sequence
  pub right : IsListed a.0 a.1
  pub others :
      (id run : String) → str_eq r.request_id id ≡ false → listed run id a.1 ≡ listed run id runs

put_in_run-Relists :
    (r : ModelRequestRecord) (source : String) (g : Registration) (runs : List Registration)
    → IsListed r runs
    → r.run_id ≡ none
    → find_run g.run_id runs ≡ some g
    → Relists r runs (put_in_run r source g runs)
unfolding put_in_run IsListed
put_in_run-Relists r source g runs h k f = record {
  same_id = refl;
  same_sequence = refl;
  right = λ run.
      let l : listed run r.request_id runs ≡ 0 = h run ∙ ap (λ o. one (is_for run o)) k in
      listed-add_request_same g.run_id run r.request_id runs g f ∙ omega (arith, l);
  others = λ id run e. listed-add_request_other g.run_id run r.request_id id runs g f e;
}

put_in_conflict-Relists :
    (r : ModelRequestRecord) (runs : List Registration) (o : Option String)
    → r.run_id ≡ o
    → IsListed r runs
    → Relists r runs (put_in_conflict r runs)
unfolding put_in_conflict IsListed
put_in_conflict-Relists r runs none k h = record {
  same_id = refl;
  same_sequence = refl;
  right = λ run.
      listed-drop_request_none (or_else r.run_id "") run r.request_id runs
        (h run ∙ ap (λ o. one (is_for run o)) k);
  others = λ id run e. listed-drop_request_other (or_else r.run_id "") run r.request_id id runs e;
}
put_in_conflict-Relists r runs (some x) k h = record {
  same_id = refl;
  same_sequence = refl;
  right = λ run.
      listed-drop_request_same (or_else r.run_id "") run r.request_id runs
        (λ y. h y ∙ ap (λ o. one (is_for y o)) k ∙ ap (λ o. one (str_eq (or_else o "") y)) (sym k));
  others = λ id run e. listed-drop_request_other (or_else r.run_id "") run r.request_id id runs e;
}

put_if_found-Relists :
    (source id : String) (o : Option Registration) (r : ModelRequestRecord)
    (runs : List Registration) (a : Applied)
    → find_run id runs ≡ o
    → r.run_id ≡ none
    → IsListed r runs
    → put_if_found source o r runs ≡ some a
    → Relists r runs a
unfolding put_if_found
put_if_found-Relists source id none r runs a f k l h = absurd (cc (h))
put_if_found-Relists source id (some g) r runs a f k l h =
    subst (Relists r runs) (some-injective _ _ h) (
      put_in_run-Relists r source g runs l k
        (ap (λ z. find_run z runs) (find_run-id id runs g f) ∙ f))

apply_to-Relists :
    (source : String) (held target : Option String) (r : ModelRequestRecord)
    (runs : List Registration) (a : Applied)
    → r.run_id ≡ held
    → IsListed r runs
    → apply_to source held target r runs ≡ some a
    → Relists r runs a
unfolding apply_to
apply_to-Relists source (some x) target r runs a k l h =
    subst (Relists r runs) (some-injective _ _ h) (put_in_conflict-Relists r runs (some x) k l)
apply_to-Relists source none none r runs a k l h =
    subst (Relists r runs) (some-injective _ _ h) (put_in_conflict-Relists r runs none k l)
apply_to-Relists source none (some id) r runs a k l h =
    put_if_found-Relists source id (find_run id runs) r runs a refl k l h

pub apply_binding-Relists :
    (b : TraceBinding) (r : ModelRequestRecord) (runs : List Registration) (a : Applied)
    → IsListed r runs
    → apply_binding b r runs ≡ some a
    → Relists r runs a
unfolding apply_binding
apply_binding-Relists b r runs a l h =
    elim (Bool-cases (str_eq r.attribution_source conflict_source || same_run r.run_id b.run_id)) [
      | inl e ↦ absurd (cc (rw (e, apply_binding) at h))
      | inr e ↦
          apply_to-Relists b.source r.run_id b.run_id r runs a refl l (rw (e, apply_binding) at h)
    ]

attribute_in-Relists :
    (source : String) (x : String) (o : Option Registration) (runs : List Registration)
    (r : ModelRequestRecord)
    → find_run x runs ≡ o
    → IsListed r runs
    → r.run_id ≡ none
    → Relists r runs (attribute_in source o runs r)
unfolding attribute_in IsListed
attribute_in-Relists source x none runs r e l k = record {
  same_id = refl;
  same_sequence = refl;
  right = l;
  others = λ id run e. refl;
}
attribute_in-Relists source x (some g) runs r e l k =
    let f : find_run g.run_id runs ≡ some g =
      ap (λ z. find_run z runs) (find_run-id x runs g e) ∙ e in
    record {
      same_id = refl;
      same_sequence = refl;
      right = λ run.
          let n : listed run r.request_id runs ≡ 0 = l run ∙ ap (λ o. one (is_for run o)) k in
          listed-add_request_same g.run_id run r.request_id runs g f ∙ omega (arith, n);
      others = λ id run e. listed-add_request_other g.run_id run r.request_id id runs g f e;
    }

pub attribute-Relists :
    (c : Claim) (runs : List Registration) (r : ModelRequestRecord)
    → IsListed r runs
    → r.run_id ≡ none
    → Relists r runs (attribute c runs r)
unfolding attribute IsListed
attribute-Relists Claim.unclaimed runs r l k = record {
  same_id = refl;
  same_sequence = refl;
  right = l;
  others = λ id run e. refl;
}
attribute-Relists Claim.in_conflict runs r l k = record {
  same_id = refl;
  same_sequence = refl;
  right = l;
  others = λ id run e. refl;
}
attribute-Relists (Claim.claimed x source) runs r l k =
    attribute_in-Relists source x (find_run x runs) runs r refl l k
