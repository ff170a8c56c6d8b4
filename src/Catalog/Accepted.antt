-- ===== src/Catalog/Accepted.antt =====
-- The catalogs that `load_catalog` accepts.
use yonwork_benchmark.Prelude.{
  AreDistinct, String, Bool, true, false, Option, some, List, [], ◌∷◌, ◌≡◌, refl, ◌≤◌, All, length,
  arith, elem, str_eq, ◌||◌,
}
use yonwork_benchmark.Collector.Proxy.Listing.{str_eq-flip}
use yonwork_benchmark.Json.{Json, Fields, Items}
use yonwork_benchmark.Catalog.Load.{
  CaseSetDefinition, case_sets_from, load_root, load_catalog, nonempty_list,
}
use yonwork_benchmark.Catalog.Valid.{
  IsValidSet, IsNew, Gives, chain, gives, given, case_set_in-IsNew,
}

or_false : (a b : Bool) → (a || b) ≡ false → (a ≡ false) × (b ≡ false)
or_false false b h = (refl, h)
or_false true b h = absurd (cc (h))

abbrev pub ids_of : List CaseSetDefinition → List String
ids_of [] = []
ids_of (s ∷ sets) = s.case_set_id ∷ ids_of sets

-- No case set has one of the ids.
Avoid : List String → List CaseSetDefinition → Type 0
Avoid seen sets = All (λ s. elem s.case_set_id seen ≡ false) sets

-- The case sets that follow some ids: each is valid, and all ids differ.
record AreValid (seen : List String) (sets : List CaseSetDefinition) : Type 0 where
  pub valid_sets : All IsValidSet sets
  pub distinct_sets : AreDistinct (ids_of sets)
  pub unseen : Avoid seen sets

Avoid-rest :
    (x : String) (seen : List String) (sets : List CaseSetDefinition)
    → Avoid (x ∷ seen) sets
    → Avoid seen sets
unfolding Avoid elem
Avoid-rest x seen [] h = tt
Avoid-rest x seen (s ∷ sets) h = (
  (or_false (str_eq s.case_set_id x) (elem s.case_set_id seen) h.0).1,
  Avoid-rest x seen sets h.1,
)

Avoid-first :
    (x : String) (seen : List String) (sets : List CaseSetDefinition)
    → Avoid (x ∷ seen) sets
    → elem x (ids_of sets) ≡ false
unfolding Avoid elem
Avoid-first x seen [] h = refl
Avoid-first x seen (s ∷ sets) h =
    let e = (or_false (str_eq s.case_set_id x) (elem s.case_set_id seen) h.0).0 in
    rw (str_eq-flip x s.case_set_id, e, Avoid-first x seen sets h.1) refl

case_sets_from-AreValid :
    (seen : List String) (items : Items) → Gives (AreValid seen) (case_sets_from seen items)
unfolding case_sets_from IsNew Avoid
case_sets_from-AreValid seen Items.nil =
    gives (record { valid_sets = tt; distinct_sets = tt; unseen = tt })
case_sets_from-AreValid seen (Items.cons item rest) = chain λ raw _. chain λ s e. chain λ sets f.
    let (valid, new) = given (IsNew seen) _ s (case_set_in-IsNew seen raw) e in
    let v =
      given (AreValid (s.case_set_id ∷ seen)) _ sets
        (case_sets_from-AreValid (s.case_set_id ∷ seen) rest) f in
    gives (record {
      valid_sets = (valid, v.valid_sets);
      distinct_sets = (Avoid-first s.case_set_id seen sets v.unseen, v.distinct_sets);
      unseen = (new, Avoid-rest s.case_set_id seen sets v.unseen);
    })

HasSet : List CaseSetDefinition → Type 0
HasSet sets = 1 ≤ length sets

case_sets_from-HasSet :
    (v : Json) (items : Items)
    → nonempty_list v ≡ some items
    → Gives HasSet (case_sets_from [] items)
unfolding nonempty_list case_sets_from HasSet
case_sets_from-HasSet v (Items.cons item rest) h =
    chain λ _ _. chain λ s _. chain λ sets _. gives (omega arith)
case_sets_from-HasSet Json.null Items.nil h = absurd (cc (h))
case_sets_from-HasSet (Json.bool b) Items.nil h = absurd (cc (h))
case_sets_from-HasSet (Json.num b) Items.nil h = absurd (cc (h))
case_sets_from-HasSet (Json.text b) Items.nil h = absurd (cc (h))
case_sets_from-HasSet (Json.obj b) Items.nil h = absurd (cc (h))
case_sets_from-HasSet (Json.arr Items.nil) Items.nil h = absurd (cc (h))
case_sets_from-HasSet (Json.arr (Items.cons x xs)) Items.nil h = absurd (cc (h))

-- A catalog to run from: at least one case set, each valid, with ids that differ.
pub record IsCatalog (sets : List CaseSetDefinition) : Type 0 where
  pub some_set : 1 ≤ length sets
  pub distinct_sets : AreDistinct (ids_of sets)
  pub valid_sets : All IsValidSet sets

load_root-IsCatalog : (root : Fields) → Gives IsCatalog (load_root root)
unfolding load_root HasSet
load_root-IsCatalog root = chain λ _ _. chain λ _ _. chain λ items e. record {
  holds = λ sets f.
      let v =
        given (AreValid []) (case_sets_from [] items) sets (case_sets_from-AreValid [] items) f in
      record {
        some_set = given HasSet (case_sets_from [] items) sets (case_sets_from-HasSet _ items e) f;
        distinct_sets = v.distinct_sets;
        valid_sets = v.valid_sets;
      };
}

-- Whatever value the file holds, a catalog that is accepted has at least one case set, its case set
-- ids are identifiers and all differ, every case set has at least one case and case names that are
-- identifiers and all differ, and every case has a prompt that is not empty, at least one run and a
-- minimum reply length of at least one.
pub load_catalog-IsCatalog :
    (payload : Option Json) (sets : List CaseSetDefinition)
    → load_catalog payload ≡ some sets
    → IsCatalog sets
unfolding load_catalog
load_catalog-IsCatalog payload sets h =
    given IsCatalog (load_catalog payload) sets
      (chain λ v _. chain λ root _. load_root-IsCatalog root) h
