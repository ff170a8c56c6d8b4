-- ===== src/Collector/Proxy/Sound.antt =====
-- What holds of every state that the threads of the proxy reach.
pub mod Kept
pub mod Arrivals
pub mod Bindings
pub mod Theorems
pub mod Answers
use mathlib.Core.Path.{subst}
use yonwork_benchmark.Prelude.{
  ℕ, suc, String, true, false, List, [], ◌∷◌, ◌≡◌, ◌≢◌, refl, ◌≤◌, arith, length, Bool-cases, inl,
  inr, ap, sym, ◌∙◌, elem, str_eq, All, ◌==◌, eq_iff,
}
use yonwork_benchmark.Collector.Ledger.{ModelRequestRecord}
use yonwork_benchmark.Collector.Proxy.{Registration, TraceBinding, Proxy}
use yonwork_benchmark.Collector.Proxy.Trace.{max_trace_bindings}
use yonwork_benchmark.Collector.Proxy.Requests.{request_id}
use yonwork_benchmark.Collector.Proxy.Numbers.{read_sequence, read_sequence-request_id}
use yonwork_benchmark.Collector.Proxy.Invariant.{ids, IsConsistent}
use yonwork_benchmark.Collector.Proxy.Steps.{drop_number, is_pending}

-- The part of the state that the invariant is about.
pub record Core : Type 0 where
  pub proxy_id : String
  pub sequence : ℕ
  pub records : List ModelRequestRecord
  pub runs : List Registration
  pub bindings : List TraceBinding

unfoldable pub core : Proxy → Core
core p = record {
  proxy_id = p.proxy_id;
  sequence = p.sequence;
  records = p.records;
  runs = p.runs;
  bindings = p.bindings;
}

abbrev pub AreApart : List ℕ → Type 0
AreApart [] = Unit
AreApart (n ∷ ns) = All (λ m. m ≢ n) ns × AreApart ns

-- The numbers that wait were taken before, each once, and no stored record has one of them.
pub record AreWaiting (c : Core) (pending : List ℕ) : Type 0 where
  pub taken : All (λ n. n ≤ c.sequence) pending
  pub unused : All (λ n. elem (request_id c.proxy_id n) (ids c.records) ≡ false) pending
  pub apart : AreApart pending

pub record IsSoundCore (c : Core) (pending : List ℕ) : Type 0 where
  pub consistent : IsConsistent c.records c.runs
  pub numbered : All (λ id. read_sequence c.proxy_id id ≤ c.sequence) (ids c.records)
  pub waiting : AreWaiting c pending
  pub bounded : length c.bindings ≤ max_trace_bindings

pub All-drop_number : (P : ℕ → Type 0) (n : ℕ) (ns : List ℕ) → All P ns → All P (drop_number n ns)
All-drop_number P n [] h = tt
All-drop_number P n (m ∷ ms) h = elim (Bool-cases (m == n)) [
  | inl e ↦ rw e h.1
  | inr e ↦ rw e (h.0, All-drop_number P n ms h.1)
]

pub AreApart-drop_number : (n : ℕ) (ns : List ℕ) → AreApart ns → AreApart (drop_number n ns)
AreApart-drop_number n [] h = tt
AreApart-drop_number n (m ∷ ms) h = elim (Bool-cases (m == n)) [
  | inl e ↦ rw e h.1
  | inr e ↦ rw e (All-drop_number (λ k. k ≢ m) n ms h.0, AreApart-drop_number n ms h.1)
]

-- What is left of distinct numbers without `n` is not `n`.
pub drop_number-differs :
    (n : ℕ) (ns : List ℕ)
    → AreApart ns
    → is_pending n ns ≡ true
    → All (λ m. m ≢ n) (drop_number n ns)
drop_number-differs n [] h p = tt
drop_number-differs n (m ∷ ms) h p = elim (Bool-cases (m == n)) [
  | inl e ↦ rw e (all m ms e h.0)
  | inr e ↦ rw e (differs e, drop_number-differs n ms h.1 (rw e at p))
]
  where
    differs : m == n ≡ false → m ≢ n
    differs e = ground (arith, e)

    all : (m : ℕ) (ms : List ℕ) → m == n ≡ true → All (λ k. k ≢ m) ms → All (λ k. k ≢ n) ms
    all m [] e h = tt
    all m (k ∷ ks) e h = (ground (arith, e, h.0), all m ks e h.1)

pub pending-All : (P : ℕ → Type 0) (n : ℕ) (ns : List ℕ) → is_pending n ns ≡ true → All P ns → P n
pending-All P n [] h a = absurd (cc (h))
pending-All P n (m ∷ ms) h a = elim (Bool-cases (m == n)) [
  | inl e ↦ subst P (ground (arith, e)) a.0
  | inr e ↦ pending-All P n ms (rw e at h) a.1
]

-- A number above all that were stored is new.
pub above-unused :
    (proxy_id : String) (n m : ℕ) (xs : List String)
    → suc m ≤ n
    → All (λ id. read_sequence proxy_id id ≤ m) xs
    → elem (request_id proxy_id n) xs ≡ false
unfolding elem
above-unused proxy_id n m [] h a = refl
above-unused proxy_id n m (x ∷ xs) h a = elim (Bool-cases (str_eq (request_id proxy_id n) x)) [
  | inl e ↦ absurd (
      omega (
        arith,
        h,
        a.0,
        ap (read_sequence proxy_id) ((eq_iff (request_id proxy_id n) x).0 e),
        read_sequence-request_id proxy_id n,
      ))
  | inr e ↦ rw e (above-unused proxy_id n m xs h a.1)
]

pub request_id-differs :
    (proxy_id : String) (m n : ℕ)
    → m ≢ n
    → str_eq (request_id proxy_id m) (request_id proxy_id n) ≡ false
request_id-differs proxy_id m n d =
    elim (Bool-cases (str_eq (request_id proxy_id m) (request_id proxy_id n))) [
      | inr e ↦ e
      | inl e ↦ absurd (
          d (
            sym (read_sequence-request_id proxy_id m)
            ∙ ap (read_sequence proxy_id)
                ((eq_iff (request_id proxy_id m) (request_id proxy_id n)).0 e)
            ∙ read_sequence-request_id proxy_id n))
    ]
