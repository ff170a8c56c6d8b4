-- ===== src/NewApi/Fetch/Laws.antt =====
-- That the paging loop ends, and what it has read then.
use yonwork_benchmark.Prelude.{
  is_some, ℕ, suc, Option, none, some, List, [], ◌∷◌, ◌++◌, true, false, leb, is_empty, length,
  length-append, is_some, ◌⊎◌, sym, ◌&&◌, not, ◌≡◌, refl, arith, Bool-cases, inl, inr, ◌≤◌, ◌<◌,
  ◌+◌,
}
use yonwork_benchmark.Json.{Json, Fields}
use yonwork_benchmark.NewApi.Fetch.{
  Fetched, Page, page, bad_page, Next, again, stop, turn_page, fetch_from, first_total, read_page,
  fetch_logs, has_changed,
}

-- A page after which the loop goes on announces what was expected and has an item.
pub record GoesOn (expected : Option ℕ) (items : List Fields) (pg : Page) (next : List Fields)
    (total : ℕ) : Type 0 where
  pub batch : List Fields
  pub read : pg ≡ page batch total
  pub same : has_changed expected total ≡ false
  pub joined : next ≡ items ++ batch
  pub grown : suc (length items) ≤ length next
  pub short : length next < total

grows :
    (items batch : List Fields) (total : ℕ)
    → (is_empty batch && not (leb total (length (items ++ batch)))) ≡ false
    → leb total (length (items ++ batch)) ≡ false
    → suc (length items) ≤ length (items ++ batch)
grows items [] total h k = absurd (cc (rw k at h))
grows items (b ∷ bs) total h k = omega (arith, length-append {A = Fields} items (b ∷ bs))

again-injective : {a b : List Fields} {m n : ℕ} → again a m ≡ again b n → (a ≡ b) × (m ≡ n)
again-injective h = (cc, cc)

pub Next-cases :
    (n : Next)
    → ((r : Fetched) × (n ≡ stop r))
      ⊎ ((items : List Fields) × (total : ℕ) × (n ≡ again items total))
Next-cases (stop r) = inl (r, refl)
Next-cases (again items total) = inr (items, total, refl)

go_on_from :
    (expected : Option ℕ) (items batch next : List Fields) (total t : ℕ)
    → has_changed expected total ≡ false
    → (is_empty batch && not (leb total (length (items ++ batch)))) ≡ false
    → leb total (length (items ++ batch)) ≡ false
    → (items ++ batch ≡ next) × (total ≡ t)
    → GoesOn expected items (page batch total) next t
go_on_from expected items batch next total t e f g (a, b) = record {
  batch = batch;
  read = rw b refl;
  same = rw (← b) e;
  joined = sym a;
  grown = rw (← a) (grows items batch total f g);
  short = rw (← a, ← b) (ground arith);
}

pub go_on :
    (expected : Option ℕ) (items : List Fields) (pg : Page) (next : List Fields) (t : ℕ)
    → turn_page expected items pg ≡ again next t
    → GoesOn expected items pg next t
unfolding turn_page
go_on expected items (bad_page e) next total h = absurd (cc (h))
go_on expected items (page batch total) next t h = elim (Bool-cases (has_changed expected total)) [
  | inl e ↦ absurd (cc (rw e at h))
  | inr e ↦ elim (Bool-cases (is_empty batch && not (leb total (length (items ++ batch))))) [
    | inl f ↦ absurd (cc (rw (e, f) at h))
    | inr f ↦ elim (Bool-cases (leb total (length (items ++ batch)))) [
      | inl g ↦ absurd (cc (rw (e, f, g) at h))
      | inr g ↦
          go_on_from expected items batch next total t e f g (again-injective (rw (e, f, g) at h))
    ]
  ]
]

pub has_changed_same :
    (expected total : ℕ) → has_changed (some expected) total ≡ false → total ≡ expected
unfolding has_changed
has_changed_same expected total h = ground arith

-- A loop that expects `total` items is over once `fuel` is at least what is missing.
fetch_from_ends :
    (reply : ℕ → Option Json) (fuel p total : ℕ) (items : List Fields)
    → total ≤ fuel + length items
    → length items < total
    → is_some (fetch_from reply fuel p (some total) items) ≡ true
unfolding fetch_from
fetch_from_ends reply ℕ.zero p total items h k = absurd (omega (arith, h, k))
fetch_from_ends reply (suc fuel) p total items h k =
    elim (Next-cases (turn_page (some total) items (read_page (reply p)))) [
      | inl (r, e) ↦ rw (e, fetch_from) refl
      | inr (more, t, e) ↦
          let g = go_on (some total) items (read_page (reply p)) more t e in
          let same = has_changed_same total t g.same in
          rw (e, fetch_from, same)
            (fetch_from_ends reply fuel (suc p) total more (omega (arith, h, g.grown))
              (omega (arith, g.short, same)))
    ]

-- The loop of fetch_logs ends: it gives the logs or an error, whatever the gateway answers.
pub fetch_logs_ends : (reply : ℕ → Option Json) → is_some (fetch_logs reply) ≡ true
unfolding fetch_logs fetch_from first_total
fetch_logs_ends reply = elim (Next-cases (turn_page none [] (read_page (reply 1)))) [
  | inl (r, e) ↦ rw (e, fetch_from) refl
  | inr (more, t, e) ↦
      let g = go_on none [] (read_page (reply 1)) more t e in
      rw (e, fetch_from, g.read) (fetch_from_ends reply t 2 t more (omega arith) g.short)
]
