-- ===== src/Collector/Proxy/Listing.antt =====
-- How often a request is listed with a round, and how the changes of the rounds change that.
use mathlib.Core.Path.{ap₂}
use mathlib.Core.Option.{some-injective}
use yonwork_benchmark.Prelude.{
  ℕ, String, Bool, true, false, Option, none, some, List, [], ◌∷◌, ◌++◌, str_eq, elem, ◌≡◌, refl,
  ◌+◌, ◌≤◌, arith, Bool-cases, inl, inr, eq_iff, ◌∙◌, ap, sym, ◌&&◌,
}
use yonwork_benchmark.Collector.Proxy.{Registration, find_run, update_run}
use yonwork_benchmark.Collector.Proxy.Runs.{requests_in, requests_of}
use yonwork_benchmark.Collector.Proxy.Trace.{remove_text, add_request, drop_request}

abbrev pub one : Bool → ℕ
one true = 1
one false = 0

unfoldable pub count_text : String → List String → ℕ
count_text t [] = 0
count_text t (x ∷ xs) = one (str_eq x t) + count_text t xs

count_text-snoc :
    (t x : String) (xs : List String)
    → count_text t (xs ++ x ∷ []) ≡ count_text t xs + one (str_eq x t)
unfolding count_text
count_text-snoc t x [] = omega arith
count_text-snoc t x (y ∷ ys) = omega (arith, count_text-snoc t x ys)

pub str_eq-flip : (a b : String) → str_eq a b ≡ str_eq b a
str_eq-flip a b = elim (Bool-cases (str_eq a b)) [
  | inl e ↦ e ∙ sym (ground (arith, e, eq_iff a b, eq_iff b a))
  | inr e ↦ e ∙ sym (ground (arith, e, eq_iff a b, eq_iff b a))
]

pub str_eq_left : (a b c : String) → str_eq a b ≡ true → str_eq a c ≡ str_eq b c
str_eq_left a b c e = ap (λ x. str_eq x c) ((eq_iff a b).0 e)

pub str_eq_differ : (a b c : String) → str_eq a b ≡ false → str_eq a c ≡ true → str_eq b c ≡ false
str_eq_differ a b c e f = ground (arith, eq_iff a b, eq_iff a c, eq_iff b c)

pub count_text-absent : (t : String) (xs : List String) → elem t xs ≡ false → count_text t xs ≡ 0
unfolding count_text elem
count_text-absent t [] h = refl
count_text-absent t (x ∷ xs) h = elim (Bool-cases (str_eq t x)) [
  | inl e ↦ absurd (cc (rw e at h))
  | inr e ↦ omega (arith, count_text-absent t xs (rw e at h), ap one (str_eq-flip x t ∙ e))
]

pub count_text-present : (t : String) (xs : List String) → elem t xs ≡ true → 1 ≤ count_text t xs
unfolding count_text elem
count_text-present t [] h = absurd (cc (h))
count_text-present t (x ∷ xs) h = elim (Bool-cases (str_eq t x)) [
  | inl e ↦ omega (arith, ap one (str_eq-flip x t ∙ e))
  | inr e ↦ omega (arith, count_text-present t xs (rw e at h))
]

count_text-remove_text :
    (t u : String) (xs : List String)
    → elem t xs ≡ true
    → count_text u (remove_text t xs) + one (str_eq t u) ≡ count_text u xs
unfolding count_text elem remove_text
count_text-remove_text t u [] h = absurd (cc (h))
count_text-remove_text t u (x ∷ xs) h = elim (Bool-cases (str_eq t x)) [
  | inl e ↦ rw (str_eq-flip x t, e, remove_text) (omega (arith, ap one (str_eq_left t x u e)))
  | inr e ↦
      rw (str_eq-flip x t, e, remove_text)
        (omega (arith, count_text-remove_text t u xs (rw e at h)))
]

-- What a change of one round does to the lists.
requests_after : (Registration → Registration) → Option Registration → List String
requests_after f none = []
requests_after f (some r) = (f r).requests

find_run-here :
    (run : String) (r : Registration) (rs : List Registration)
    → str_eq r.run_id run ≡ true
    → find_run run (r ∷ rs) ≡ some r
unfolding find_run
find_run-here run r rs e = rw e refl

find_run-there :
    (run : String) (r : Registration) (rs : List Registration)
    → str_eq r.run_id run ≡ false
    → find_run run (r ∷ rs) ≡ find_run run rs
unfolding find_run
find_run-there run r rs e = rw e refl

requests_of-here :
    (run : String) (r : Registration) (rs : List Registration)
    → str_eq r.run_id run ≡ true
    → requests_of run (r ∷ rs) ≡ r.requests
unfolding requests_of
requests_of-here run r rs e = ap requests_in (find_run-here run r rs e)

requests_of-there :
    (run : String) (r : Registration) (rs : List Registration)
    → str_eq r.run_id run ≡ false
    → requests_of run (r ∷ rs) ≡ requests_of run rs
unfolding requests_of
requests_of-there run r rs e = ap requests_in (find_run-there run r rs e)

update_run-here :
    (id : String) (f : Registration → Registration) (r : Registration) (rs : List Registration)
    → str_eq r.run_id id ≡ true
    → update_run id f (r ∷ rs) ≡ f r ∷ rs
unfolding update_run
update_run-here id f r rs e = rw e refl

update_run-there :
    (id : String) (f : Registration → Registration) (r : Registration) (rs : List Registration)
    → str_eq r.run_id id ≡ false
    → update_run id f (r ∷ rs) ≡ r ∷ update_run id f rs
unfolding update_run
update_run-there id f r rs e = rw e refl

module _ (f : Registration → Registration) (k : (r : Registration) → (f r).run_id ≡ r.run_id) where
  requests_of-update_same :
      (run_id run : String) (runs : List Registration)
      → str_eq run_id run ≡ true
      → requests_of run (update_run run_id f runs) ≡ requests_after f (find_run run_id runs)
  unfolding requests_of update_run find_run requests_after
  requests_of-update_same run_id run [] h = refl
  requests_of-update_same run_id run (r ∷ rs) h = elim (Bool-cases (str_eq r.run_id run_id)) [
    | inl e ↦
        ap (requests_of run) (update_run-here run_id f r rs e)
        ∙ requests_of-here run (f r) rs
            (ap (λ x. str_eq x run) (k r) ∙ str_eq_left r.run_id run_id run e ∙ h)
        ∙ ap (requests_after f) (sym (find_run-here run_id r rs e))
    | inr e ↦
        ap (requests_of run) (update_run-there run_id f r rs e)
        ∙ requests_of-there run r (update_run run_id f rs)
            (ap (str_eq r.run_id) (sym ((eq_iff run_id run).0 h)) ∙ e)
        ∙ requests_of-update_same run_id run rs h
        ∙ ap (requests_after f) (sym (find_run-there run_id r rs e))
  ]

  requests_of-update_other :
      (run_id run : String) (runs : List Registration)
      → str_eq run_id run ≡ false
      → requests_of run (update_run run_id f runs) ≡ requests_of run runs
  unfolding update_run
  requests_of-update_other run_id run [] h = refl
  requests_of-update_other run_id run (r ∷ rs) h = elim (Bool-cases (str_eq r.run_id run_id)) [
    | inl e ↦
        let g : str_eq r.run_id run ≡ false = str_eq_left r.run_id run_id run e ∙ h in
        ap (requests_of run) (update_run-here run_id f r rs e)
        ∙ requests_of-there run (f r) rs (ap (λ x. str_eq x run) (k r) ∙ g)
        ∙ sym (requests_of-there run r rs g)
    | inr e ↦
        ap (requests_of run) (update_run-there run_id f r rs e)
        ∙ elim (Bool-cases (str_eq r.run_id run)) [
          | inl g ↦
              requests_of-here run r (update_run run_id f rs) g ∙ sym (requests_of-here run r rs g)
          | inr g ↦
              requests_of-there run r (update_run run_id f rs) g
              ∙ requests_of-update_other run_id run rs h
              ∙ sym (requests_of-there run r rs g)
        ]
  ]

-- How often `id` is listed with the round `run`.
unfoldable pub listed : String → String → List Registration → ℕ
listed run id runs = count_text id (requests_of run runs)

requests_of-found :
    (run_id run : String) (runs : List Registration)
    → str_eq run_id run ≡ true
    → requests_of run runs ≡ requests_of run_id runs
requests_of-found run_id run runs h = ap (λ x. requests_of x runs) (sym ((eq_iff run_id run).0 h))

pub listed-add_request :
    (run_id run i id : String) (runs : List Registration) (r : Registration)
    → find_run run_id runs ≡ some r
    → listed run id (update_run run_id (add_request i) runs)
      ≡ listed run id runs + one (str_eq run_id run && str_eq i id)
unfolding listed requests_after requests_of
listed-add_request run_id run i id runs r h = elim (Bool-cases (str_eq run_id run)) [
  | inr e ↦
      ap (count_text id) (requests_of-update_other (add_request i) (λ _. refl) run_id run runs e)
      ∙ rw e (omega arith)
  | inl e ↦
      ap (count_text id) (
        requests_of-update_same (add_request i) (λ _. refl) run_id run runs e
        ∙ ap (requests_after (add_request i)) h)
      ∙ count_text-snoc id i r.requests
      ∙ sym (
          ap (λ xs. count_text id xs + one (str_eq i id))
            (requests_of-found run_id run runs e ∙ ap requests_in h))
      ∙ ap (λ b. count_text id (requests_of run runs) + one (b && str_eq i id)) (sym e)
]

count_text-drop_request :
    (i id : String) (o : Option Registration)
    → count_text id (requests_after (drop_request i) o)
        + one (elem i (requests_in o) && str_eq i id)
      ≡ count_text id (requests_in o)
unfolding requests_after elem count_text
count_text-drop_request i id none = refl
count_text-drop_request i id (some r) = elim (Bool-cases (elem i r.requests)) [
  | inl e ↦ rw e (count_text-remove_text i id r.requests e)
  | inr e ↦ rw e (omega arith)
]

pub listed-drop_request :
    (run_id run i id : String) (runs : List Registration)
    → listed run id (update_run run_id (drop_request i) runs)
        + one (str_eq run_id run && (elem i (requests_of run_id runs) && str_eq i id))
      ≡ listed run id runs
unfolding listed requests_of
listed-drop_request run_id run i id runs = elim (Bool-cases (str_eq run_id run)) [
  | inr e ↦
      rw (e, requests_of-update_other (drop_request i) (λ _. refl) run_id run runs e) (omega arith)
  | inl e ↦
      rw
        (
          e,
          requests_of-update_same (drop_request i) (λ _. refl) run_id run runs e,
          requests_of-found run_id run runs e,
        )
        (count_text-drop_request i id (find_run run_id runs))
]

pub str_eq_self : (a : String) → str_eq a a ≡ true
str_eq_self a = (eq_iff a a).1 refl

pub listed-add_request_same :
    (run_id run i : String) (runs : List Registration) (r : Registration)
    → find_run run_id runs ≡ some r
    → listed run i (update_run run_id (add_request i) runs)
      ≡ listed run i runs + one (str_eq run_id run)
listed-add_request_same run_id run i runs r h =
    listed-add_request run_id run i i runs r h
    ∙ ap (λ b. listed run i runs + one b) (and_true (str_eq run_id run) (str_eq_self i))
  where
    and_true : (a : Bool) {b : Bool} → b ≡ true → (a && b) ≡ a
    and_true true e = e
    and_true false e = refl

and_false : (a : Bool) {b : Bool} → b ≡ false → one (a && b) ≡ 0
and_false true e = ap one e
and_false false e = refl

pub listed-add_request_other :
    (run_id run i id : String) (runs : List Registration) (r : Registration)
    → find_run run_id runs ≡ some r
    → str_eq i id ≡ false
    → listed run id (update_run run_id (add_request i) runs) ≡ listed run id runs
listed-add_request_other run_id run i id runs r h e =
    omega (arith, listed-add_request run_id run i id runs r h, and_false (str_eq run_id run) e)

-- A request that is listed with one round is no longer listed after it is dropped there.
pub listed-drop_request_same :
    (run_id run i : String) (runs : List Registration)
    → ((x : String) → listed x i runs ≡ one (str_eq run_id x))
    → listed run i (update_run run_id (drop_request i) runs) ≡ 0
unfolding listed
listed-drop_request_same run_id run i runs h =
    elim (Bool-cases (elem i (requests_of run_id runs))) [
      | inl e ↦ elim (Bool-cases (str_eq run_id run)) [
        | inl f ↦ omega (
          arith,
          listed-drop_request run_id run i i runs,
          ap one (ap₂ ◌&&◌ f (ap₂ ◌&&◌ e (str_eq_self i))),
          h run,
          ap one f,
        )
        | inr f ↦ omega (arith, listed-drop_request run_id run i i runs, h run, ap one f)
      ]
      | inr e ↦ absurd (
          omega (
            arith,
            count_text-absent i (requests_of run_id runs) e,
            h run_id,
            ap one (str_eq_self run_id),
          ))
    ]

-- A request that is listed nowhere stays so.
pub listed-drop_request_none :
    (run_id run i : String) (runs : List Registration)
    → listed run i runs ≡ 0
    → listed run i (update_run run_id (drop_request i) runs) ≡ 0
listed-drop_request_none run_id run i runs h =
    omega (arith, h, listed-drop_request run_id run i i runs)

pub listed-drop_request_other :
    (run_id run i id : String) (runs : List Registration)
    → str_eq i id ≡ false
    → listed run id (update_run run_id (drop_request i) runs) ≡ listed run id runs
listed-drop_request_other run_id run i id runs e = omega (
  arith,
  listed-drop_request run_id run i id runs,
  nothing (str_eq run_id run) (elem i (requests_of run_id runs)) e,
)
  where
    nothing : (a c : Bool) {b : Bool} → b ≡ false → one (a && (c && b)) ≡ 0
    nothing false c e = refl
    nothing true c e = and_false c e

-- A change that leaves the lists alone.
pub listed-update_run :
    (f : Registration → Registration) (run_id run id : String) (runs : List Registration)
    → ((r : Registration) → (f r).run_id ≡ r.run_id)
    → ((r : Registration) → (f r).requests ≡ r.requests)
    → listed run id (update_run run_id f runs) ≡ listed run id runs
unfolding listed requests_of requests_after
listed-update_run f run_id run id runs k l = elim (Bool-cases (str_eq run_id run)) [
  | inr e ↦ ap (count_text id) (requests_of-update_other f k run_id run runs e)
  | inl e ↦ ap (count_text id) (
      requests_of-update_same f k run_id run runs e
      ∙ unchanged (find_run run_id runs)
      ∙ sym (requests_of-found run_id run runs e))
]
  where
    unchanged : (o : Option Registration) → requests_after f o ≡ requests_in o
    unchanged none = refl
    unchanged (some r) = l r

-- A new round without requests.
pub listed-snoc :
    (run id : String) (runs : List Registration) (r : Registration)
    → r.requests ≡ []
    → listed run id (runs ++ r ∷ []) ≡ listed run id runs
unfolding listed requests_of
listed-snoc run id runs r h = ap (count_text id) (requests_of-snoc run runs r h)
  where
    requests_of-snoc :
        (run : String) (runs : List Registration) (r : Registration)
        → r.requests ≡ []
        → requests_of run (runs ++ r ∷ []) ≡ requests_of run runs
    requests_of-snoc run [] r h = elim (Bool-cases (str_eq r.run_id run)) [
      | inl e ↦ requests_of-here run r [] e ∙ h
      | inr e ↦ requests_of-there run r [] e
    ]
    requests_of-snoc run (x ∷ xs) r h = elim (Bool-cases (str_eq x.run_id run)) [
      | inl e ↦ requests_of-here run x (xs ++ r ∷ []) e ∙ sym (requests_of-here run x xs e)
      | inr e ↦
          requests_of-there run x (xs ++ r ∷ []) e
          ∙ requests_of-snoc run xs r h
          ∙ sym (requests_of-there run x xs e)
    ]

pub find_run-id :
    (run_id : String) (runs : List Registration) (r : Registration)
    → find_run run_id runs ≡ some r
    → r.run_id ≡ run_id
unfolding find_run
find_run-id run_id [] r h = absurd (cc (h))
find_run-id run_id (x ∷ xs) r h = elim (Bool-cases (str_eq x.run_id run_id)) [
  | inl e ↦
      ap (λ z. z.run_id) (sym (some-injective x r (sym (find_run-here run_id x xs e) ∙ h)))
      ∙ (eq_iff x.run_id run_id).0 e
  | inr e ↦ find_run-id run_id xs r (sym (find_run-there run_id x xs e) ∙ h)
]
