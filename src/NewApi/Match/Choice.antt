-- ===== src/NewApi/Match/Choice.antt =====
-- Which window `match_logs` puts a log into, described by the times alone.
use Prim.Native.Nat.{◌+◌, ◌-◌, ◌≤◌, ◌<◌}
use mathlib.Core.Path.{subst}
use mathlib.Core.Option.{some-injective}
use yonwork_benchmark.Prelude.{
  ℕ, Option, none, some, List, [], ◌∷◌, ◌++◌, true, false, leb, ◌≡◌, refl, keep, keep_yes, keep_no,
  All, ap, sym, ◌∙◌, Bool-cases, Option-cases, inl, inr, arith,
}
use yonwork_benchmark.Json.{Fields}
use yonwork_benchmark.NewApi.Match.{Window, window_for, nearest, in_window, distance, stamp_of}

-- The stamp, in milliseconds, is in the round or at most 15 seconds outside it.
pub record Contains (stamp : ℕ) (w : Window) : Type 0 where
  pub not_early : w.started_at ≤ stamp + 15000
  pub not_late : stamp ≤ w.ended_at + 15000

-- How far the end of the round is from the stamp, on either side.
abbrev pub gap : ℕ → Window → ℕ
gap stamp w = (w.ended_at - stamp) + (stamp - w.ended_at)

-- The window `w` contains the stamp, of the windows before it that do each ends farther from it, and
-- of those after it none ends nearer.
pub record Chosen (stamp : ℕ) (ws : List Window) (w : Window) : Type 0 where
  pub before : List Window
  pub after : List Window
  pub split : ws ≡ before ++ w ∷ after
  pub inside : Contains stamp w
  pub farther : All (λ v. Contains stamp v → gap stamp w < gap stamp v) before
  pub none_nearer : All (λ v. Contains stamp v → gap stamp w ≤ gap stamp v) after

in_window-Contains : (stamp : ℕ) (w : Window) → in_window stamp w ≡ true → Contains stamp w
unfolding in_window
in_window-Contains stamp w h = record {
  not_early = ground (arith, h);
  not_late = ground (arith, h);
}

Contains-in_window : (stamp : ℕ) (w : Window) → Contains stamp w → in_window stamp w ≡ true
unfolding in_window
Contains-in_window stamp w h = ground (arith, h.not_early, h.not_late)

distance-gap : (stamp : ℕ) (w : Window) → distance stamp w ≡ gap stamp w
unfolding distance
distance-gap stamp w = ground arith

-- What the search over the windows that contain a stamp ends with.
IsSearched : ℕ → List Window → Option Window → Type 0
IsSearched stamp ws none = All (λ v. ¬ (Contains stamp v)) ws
IsSearched stamp ws (some w) = Chosen stamp ws w

not_inside :
    (stamp : ℕ) (ws : List Window) (P : Window → Type 0)
    → All (λ v. ¬ (Contains stamp v)) ws
    → All (λ v. Contains stamp v → P v) ws
not_inside stamp [] P h = tt
not_inside stamp (v ∷ ws) P h = (λ c. absurd (h.0 c), not_inside stamp ws P h.1)

All-append :
    (P : Window → Type 0) (xs : List Window) (y : Window) (ys : List Window)
    → All P xs
    → P y
    → All P ys
    → All P (xs ++ y ∷ ys)
All-append P [] y ys h p k = (p, k)
All-append P (x ∷ xs) y ys h p k = (h.0, All-append P xs y ys h.1 p k)

no_nearer :
    (stamp : ℕ) (v b : Window) (ws : List Window)
    → gap stamp v ≤ gap stamp b
    → All (λ u. Contains stamp u → gap stamp b ≤ gap stamp u) ws
    → All (λ u. Contains stamp u → gap stamp v ≤ gap stamp u) ws
no_nearer stamp v b [] l h = tt
no_nearer stamp v b (u ∷ ws) l h = (λ c. omega (arith, l, h.0 c), no_nearer stamp v b ws l h.1)

weaken :
    (stamp : ℕ) (b : Window) (ws : List Window)
    → All (λ u. Contains stamp u → gap stamp b < gap stamp u) ws
    → All (λ u. Contains stamp u → gap stamp b ≤ gap stamp u) ws
weaken stamp b [] h = tt
weaken stamp b (u ∷ ws) h = (λ c. omega (arith, h.0 c), weaken stamp b ws h.1)

-- A window at least as near as the one chosen from the rest is chosen.
first-Chosen :
    (stamp : ℕ) (v b : Window) (ws : List Window)
    → Contains stamp v
    → gap stamp v ≤ gap stamp b
    → Chosen stamp ws b
    → Chosen stamp (v ∷ ws) v
first-Chosen stamp v b ws i l c = record {
  before = [];
  after = ws;
  split = refl;
  inside = i;
  farther = tt;
  none_nearer = no_nearer stamp v b ws l (
      subst (All (λ u. Contains stamp u → gap stamp b ≤ gap stamp u)) (sym c.split) (
        All-append (λ u. Contains stamp u → gap stamp b ≤ gap stamp u) c.before b c.after
          (weaken stamp b c.before c.farther) (λ _. omega arith) c.none_nearer));
}

later-Chosen :
    (stamp : ℕ) (v b : Window) (ws : List Window)
    → (Contains stamp v → gap stamp b < gap stamp v)
    → Chosen stamp ws b
    → Chosen stamp (v ∷ ws) b
later-Chosen stamp v b ws f c = record {
  before = v ∷ c.before;
  after = c.after;
  split = ap (λ r. v ∷ r) c.split;
  inside = c.inside;
  farther = (f, c.farther);
  none_nearer = c.none_nearer;
}

-- A window that does not contain the stamp changes nothing.
skipped-IsSearched :
    (stamp : ℕ) (v : Window) (ws : List Window) (o : Option Window)
    → in_window stamp v ≡ false
    → IsSearched stamp ws o
    → IsSearched stamp (v ∷ ws) o
unfolding IsSearched
skipped-IsSearched stamp v ws none e h = (λ c. absurd (cc (Contains-in_window stamp v c, e)), h)
skipped-IsSearched stamp v ws (some w) e h =
    later-Chosen stamp v w ws (λ c. absurd (cc (Contains-in_window stamp v c, e))) h

found_inside :
    (stamp : ℕ) (v : Window) (ws rest : List Window)
    → Contains stamp v
    → IsSearched stamp ws (nearest stamp rest)
    → IsSearched stamp (v ∷ ws) (nearest stamp (v ∷ rest))
unfolding nearest IsSearched
found_inside stamp v ws rest i h = elim (Option-cases (nearest stamp rest)) [
  | inl f ↦
      rw (f, nearest)
        (record {
          before = [];
          after = ws;
          split = refl;
          inside = i;
          farther = tt;
          none_nearer =
              not_inside stamp ws (λ u. gap stamp v ≤ gap stamp u)
                (subst (IsSearched stamp ws) f h);
        })
  | inr (b, f) ↦
      let c : Chosen stamp ws b = subst (IsSearched stamp ws) f h in
      let d = distance-gap stamp v in
      let g = distance-gap stamp b in
      elim (Bool-cases (leb (distance stamp v) (distance stamp b))) [
        | inl l ↦ rw (f, l, nearest) (first-Chosen stamp v b ws i (ground (arith, l, d, g)) c)
        | inr l ↦ rw (f, l, nearest) (later-Chosen stamp v b ws (λ _. ground (arith, l, d, g)) c)
      ]
]

nearest-IsSearched :
    (stamp : ℕ) (ws : List Window) → IsSearched stamp ws (nearest stamp (keep (in_window stamp) ws))
unfolding nearest IsSearched
nearest-IsSearched stamp [] = tt
nearest-IsSearched stamp (v ∷ ws) = elim (Bool-cases (in_window stamp v)) [
  | inr e ↦
      subst (λ r. IsSearched stamp (v ∷ ws) (nearest stamp r))
        (sym (keep_no (in_window stamp) v ws e))
        (skipped-IsSearched stamp v ws _ e (nearest-IsSearched stamp ws))
  | inl e ↦
      subst (λ r. IsSearched stamp (v ∷ ws) (nearest stamp r))
        (sym (keep_yes (in_window stamp) v ws e))
        (found_inside stamp v ws (keep (in_window stamp) ws) (in_window-Contains stamp v e)
          (nearest-IsSearched stamp ws))
]

-- The place of a log: a window that is chosen for its stamp, or none, if it has no stamp or no window
-- contains it.
pub IsPlaced : List Window → Fields → Option Window → Type 0
IsPlaced ws log none = (stamp : ℕ) → stamp_of log ≡ some stamp → All (λ v. ¬ (Contains stamp v)) ws
IsPlaced ws log (some w) = (stamp : ℕ) × (stamp_of log ≡ some stamp) × Chosen stamp ws w

IsSearched-IsPlaced :
    (ws : List Window) (log : Fields) (stamp : ℕ) (o : Option Window)
    → stamp_of log ≡ some stamp
    → IsSearched stamp ws o
    → IsPlaced ws log o
unfolding IsSearched IsPlaced
IsSearched-IsPlaced ws log stamp none e h =
    λ other f. subst (λ s. All (λ v. ¬ (Contains s v)) ws) (some-injective _ _ (sym e ∙ f)) h
IsSearched-IsPlaced ws log stamp (some w) e h = (stamp, e, h)

pub window_for-IsPlaced : (ws : List Window) (log : Fields) → IsPlaced ws log (window_for ws log)
unfolding window_for
window_for-IsPlaced ws log = elim (Option-cases (stamp_of log)) [
  | inl e ↦ rw (e, window_for) (unfold IsPlaced in λ stamp f. absurd (cc (e, f)))
  | inr (stamp, e) ↦
      rw (e, window_for) (IsSearched-IsPlaced ws log stamp _ e (nearest-IsSearched stamp ws))
]
