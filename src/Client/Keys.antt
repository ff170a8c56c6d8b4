-- ===== src/Client/Keys.antt =====
-- The session keys of runner/client.py: one for each round, told apart without regard to case.
use Prim.Native.Char.{Char}
use yonwork_benchmark.Collector.Proxy.Listing.{str_eq-flip}
use yonwork_benchmark.Prelude.{is_some, true, Bool, refl, ◌∙◌, ◌↔◌, ◌||◌, All, str_eq}
use yonwork_benchmark.Prelude.{
  inr, inl, Bool-cases, false, AreDistinct, ◌≡◌, String, Option, none, some, List, [], ◌∷◌, elem,
  lower, concat, if◌then◌else◌,
}

module _ (lower_char : Char → String) where
  unfoldable pub session_key_for : String → String → String
  unfolding lower concat
  session_key_for benchmark_id agent_id =
      lower lower_char (concat "agent:" (concat agent_id (concat ":" benchmark_id)))

  -- `_claim_session_key`, with the keys used so far: `none` is `SessionKeyReuse`.
  unfoldable pub claim_session_key : String → List String → Option (List String)
  unfolding lower elem
  claim_session_key key used =
      if elem (lower lower_char key) used then none else some (lower lower_char key ∷ used)

  -- The keys of several rounds, one after the other.
  unfoldable pub claim_all : List String → List String → Option (List String)
  claim_all [] used = some used
  claim_all (key ∷ keys) used = elim (claim_session_key key used) [
    | none ↦ none
    | some more ↦ claim_all keys more
  ]

-- The keys that are not in use, each compared in lower case.
abbrev AreFree : List String → List String → Type 0
AreFree used = All (λ key. elem key used ≡ false)

or_false : (a b : Bool) → ((a || b) ≡ false) ↔ ((a ≡ false) × (b ≡ false))
or_false true b = (λ h. absurd (cc (h)), λ h. absurd (cc (h.0)))
or_false false b = (λ h. (refl, h), λ h. h.1)

-- Keys are free beside one more key exactly if they are free and it is none of them.
AreFree-more :
    (key : String) (used keys : List String)
    → AreFree (key ∷ used) keys ↔ ((elem key keys ≡ false) × AreFree used keys)
unfolding elem
AreFree-more key used [] = (λ h. (refl, tt), λ h. tt)
AreFree-more key used (k ∷ keys) =
    let more = AreFree-more key used keys in
    let here = or_false (str_eq k key) (elem k used) in
    let there = or_false (str_eq key k) (elem key keys) in
    (
      λ h.
          let (a, b) = here.0 h.0 in
          let (c, d) = more.0 h.1 in (there.1 (str_eq-flip key k ∙ a, c), (b, d)),
      λ h. let (a, c) = there.0 h.0 in (here.1 (str_eq-flip k key ∙ a, h.1.0), more.1 (c, h.1.1)),
    )

module _ (lower_char : Char → String) where
  abbrev pub lowered : List String → List String
  lowered [] = []
  lowered (key ∷ keys) = lower lower_char key ∷ lowered keys

  claim_all-AreFree :
      (keys used : List String)
      → (is_some (claim_all lower_char keys used) ≡ true)
        ↔ (AreDistinct (lowered keys) × AreFree used (lowered keys))
  unfolding claim_all claim_session_key
  claim_all-AreFree [] used = (λ h. (tt, tt), λ h. refl)
  claim_all-AreFree (key ∷ keys) used = elim (Bool-cases (elem (lower lower_char key) used)) [
    | inl e ↦
        (λ h. absurd (cc (rw (e, claim_all, claim_session_key) at h)), λ h. absurd (cc (e, h.1.0)))
    | inr e ↦
        let rest = claim_all-AreFree keys (lower lower_char key ∷ used) in
        let more = AreFree-more (lower lower_char key) used (lowered keys) in
        (
          λ h.
              let (d, f) = rest.0 (rw (e, claim_all, claim_session_key) at h) in
              let (new, free) = more.0 f in ((new, d), (e, free)),
          λ h. rw (e, claim_all, claim_session_key) (rest.1 (h.0.1, more.1 (h.0.0, h.1.1))),
        )
  ]

  AreFree-none : (keys : List String) → AreFree [] keys
  unfolding elem
  AreFree-none [] = tt
  AreFree-none (key ∷ keys) = (refl, AreFree-none keys)

  -- A client that sends several rounds one after the other is refused none of their session keys
  -- exactly if no two of the keys are the same in lower case.
  pub claim_all_refuses :
      (keys : List String)
      → (is_some (claim_all lower_char keys []) ≡ true) ↔ AreDistinct (lowered keys)
  claim_all_refuses keys =
      let h = claim_all-AreFree keys [] in
      (λ c. (h.0 c).0, λ d. h.1 (d, AreFree-none (lowered keys)))
