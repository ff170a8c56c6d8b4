-- ===== src/NewApi/Fetch/Snapshot.antt =====
-- That `fetch_logs` gives a complete snapshot when it gives logs.
use yonwork_benchmark.Prelude.{
  sym, ap, ◌∙◌, ℕ, suc, Option, none, some, List, [], ◌++◌, false, leb, is_empty, length, ◌&&◌, not,
  ◌≡◌, refl, arith, Bool-cases, inl, inr, ◌≤◌,
}
use mathlib.Core.List.{append-nil, append_assoc}
use mathlib.Core.Option.{some-injective}
use yonwork_benchmark.Json.{Json, Fields}
use yonwork_benchmark.NewApi.Fetch.{
  fetched, Page, page, bad_page, stop, turn_page, fetch_from, first_total, read_page, fetch_logs,
  has_changed,
}
use yonwork_benchmark.NewApi.Fetch.Laws.{go_on, Next-cases, has_changed_same}

-- The items of page `p` on, for `n` pages that can be read.
unfoldable pub items_from : (ℕ → Option Json) → ℕ → ℕ → List Fields
unfolding read_page
items_from reply ℕ.zero p = []
items_from reply (suc n) p = elim (read_page (reply p)) [
  | page batch total ↦ batch ++ items_from reply n (suc p)
  | bad_page e ↦ []
]

-- Each of the `n` pages from page `p` on can be read and announces `total`.
unfoldable pub Announces : (ℕ → Option Json) → ℕ → ℕ → ℕ → Type 0
unfolding read_page
Announces reply total ℕ.zero p = Unit
Announces reply total (suc n) p =
    ((batch : List Fields) × (read_page (reply p) ≡ page batch total))
    × Announces reply total n (suc p)

fetched_items : {a b : List Fields} → stop (fetched a) ≡ stop (fetched b) → a ≡ b
fetched_items h = cc

record Finishes (expected : Option ℕ) (items : List Fields) (pg : Page) (result : List Fields)
    : Type 0 where
  batch : List Fields
  total : ℕ
  read : pg ≡ page batch total
  same : has_changed expected total ≡ false
  joined : result ≡ items ++ batch
  full : total ≤ length result

finish_on :
    (expected : Option ℕ) (items : List Fields) (pg : Page) (result : List Fields)
    → turn_page expected items pg ≡ stop (fetched result)
    → Finishes expected items pg result
unfolding turn_page
finish_on expected items (bad_page e) result h = absurd (cc (h))
finish_on expected items (page batch total) result h =
    elim (Bool-cases (has_changed expected total)) [
      | inl e ↦ absurd (cc (rw e at h))
      | inr e ↦ elim (Bool-cases (is_empty batch && not (leb total (length (items ++ batch))))) [
        | inl f ↦ absurd (cc (rw (e, f) at h))
        | inr f ↦ elim (Bool-cases (leb total (length (items ++ batch)))) [
          | inl g ↦
              let same_items : items ++ batch ≡ result = fetched_items (rw (e, f, g) at h) in
              record {
                batch = batch;
                total = total;
                read = refl;
                same = e;
                joined = sym same_items;
                full = rw (← same_items) (ground arith);
              }
          | inr g ↦ absurd (cc (rw (e, f, g) at h))
        ]
      ]
    ]

-- `n + 1` pages from page `p` on were read; all announce the same total, also `expected` if there
-- is one, and what was read comes to at least that total.
pub record Snapshot (reply : ℕ → Option Json) (p : ℕ) (expected : Option ℕ)
    (items result : List Fields) : Type 0 where
  pub pages : ℕ
  pub total : ℕ
  pub same : has_changed expected total ≡ false
  pub announced : Announces reply total (suc pages) p
  pub joined : result ≡ items ++ items_from reply (suc pages) p
  pub full : total ≤ length result

one_page :
    (reply : ℕ → Option Json) (p : ℕ) (batch : List Fields) (total : ℕ)
    → read_page (reply p) ≡ page batch total
    → batch ≡ items_from reply 1 p
unfolding items_from
one_page reply p batch total e = rw (e, items_from) (sym (append-nil batch))

one_more :
    (reply : ℕ → Option Json) (n p : ℕ) (batch : List Fields) (total : ℕ)
    → read_page (reply p) ≡ page batch total
    → batch ++ items_from reply (suc n) (suc p) ≡ items_from reply (suc (suc n)) p
unfolding items_from
one_more reply n p batch total e = rw (e, items_from) refl

fetch_from-Snapshot :
    (reply : ℕ → Option Json) (fuel p : ℕ) (expected : Option ℕ) (items result : List Fields)
    → fetch_from reply fuel p expected items ≡ some (fetched result)
    → Snapshot reply p expected items result
unfolding fetch_from Announces items_from
fetch_from-Snapshot reply ℕ.zero p expected items result h = absurd (cc (h))
fetch_from-Snapshot reply (suc fuel) p expected items result h =
    elim (Next-cases (turn_page expected items (read_page (reply p)))) [
      | inl (r, e) ↦
          let f =
            finish_on expected items (read_page (reply p)) result
              (e ∙ ap stop (some-injective _ _ (rw (e, fetch_from) at h))) in
          record {
            pages = 0;
            total = f.total;
            same = f.same;
            announced = ((f.batch, f.read), tt);
            joined = f.joined ∙ ap (λ b. items ++ b) (one_page reply p f.batch f.total f.read);
            full = f.full;
          }
      | inr (more, t, e) ↦
          let g = go_on expected items (read_page (reply p)) more t e in
          let s =
            fetch_from-Snapshot reply fuel (suc p) (some t) more result (rw (e, fetch_from) at h) in
          let same = has_changed_same t s.total s.same in
          record {
            pages = suc s.pages;
            total = s.total;
            same = rw same g.same;
            announced = ((g.batch, rw same g.read), s.announced);
            joined =
                s.joined
                ∙ ap (λ b. b ++ items_from reply (suc s.pages) (suc p)) g.joined
                ∙ append_assoc items g.batch (items_from reply (suc s.pages) (suc p))
                ∙ ap (λ b. items ++ b) (one_more reply s.pages p g.batch t g.read);
            full = s.full;
          }
    ]

-- The logs that fetch_logs gives are those of the pages from the first on, all of which could be
-- read and announced one and the same total, and they are at least as many as that total.
pub fetch_logs-Snapshot :
    (reply : ℕ → Option Json) (result : List Fields)
    → fetch_logs reply ≡ some (fetched result)
    → Snapshot reply 1 none [] result
unfolding fetch_logs
fetch_logs-Snapshot reply result h =
    fetch_from-Snapshot reply (suc (first_total (read_page (reply 1)))) 1 none [] result h
