-- ===== src/Models/Ids.antt =====
-- `benchmark_id_for` of runner/models.py: a round's id, which is also its idempotency key.
pub mod Decimal
use Prim.Native.Char.{code}
use Prim.Native.Nat.{suc, ◌/◌, ◌%◌}
use yonwork_benchmark.Prelude.{
  inr, inl, Bool-cases, strip, zero, ◌||◌, ◌&&◌, leb, true, ◌==◌, is_blank, ltb, refl, Bool,
  if◌then◌else◌, false, concat, ◌≡◌, arith, is_space, lstrip, rstrip, ℕ, String,
}

-- The characters that `_UNSAFE_ID_CHARS` does not match.
unfoldable pub is_safe : ℕ → Bool
is_safe c =
    (leb 48 c && leb c 57)
    || ((leb 65 c && leb c 90) || ((leb 97 c && leb c 122) || (c == 95 || (c == 46 || c == 45))))

-- `_UNSAFE_ID_CHARS.sub("-", s)`: one dash for each longest run of unsafe characters; `inside` says
-- that the character before was unsafe.
replace_unsafe : Bool → String → String
unfolding is_safe
replace_unsafe inside String.[] = ""
replace_unsafe inside (String.◌∷◌ c s) =
    let kept = replace_unsafe false s in
    let dropped = replace_unsafe true s in
    if is_safe (code c)
    then String.◌∷◌ c kept
    else if inside
    then dropped
    else String.◌∷◌ "-" dropped

-- `s.strip("-")`
lstrip_dash : String → String
lstrip_dash String.[] = ""
lstrip_dash (String.◌∷◌ c s) =
    let rest = lstrip_dash s in if code c == 45 then rest else String.◌∷◌ c s

rstrip_dash : String → String
rstrip_dash String.[] = ""
rstrip_dash (String.◌∷◌ c s) =
    let rest = rstrip_dash s in if is_blank rest && (code c == 45) then "" else String.◌∷◌ c rest

-- `s or default`
or_default : String → String → String
or_default s default = if is_blank s then default else s

safe_part : String → String → String
unfolding replace_unsafe lstrip_dash rstrip_dash or_default
safe_part s default = or_default (rstrip_dash (lstrip_dash (replace_unsafe false s))) default

digit : ℕ → String
digit zero = "0"
digit (suc zero) = "1"
digit (suc (suc zero)) = "2"
digit (suc (suc (suc zero))) = "3"
digit (suc (suc (suc (suc zero)))) = "4"
digit (suc (suc (suc (suc (suc zero))))) = "5"
digit (suc (suc (suc (suc (suc (suc zero)))))) = "6"
digit (suc (suc (suc (suc (suc (suc (suc zero))))))) = "7"
digit (suc (suc (suc (suc (suc (suc (suc (suc zero)))))))) = "8"
digit _ = "9"

-- `str(n)`, on fuel: `n + 1` rounds are enough, since each divides by ten.
decimal_from : ℕ → ℕ → String → String
unfolding digit concat
decimal_from zero n acc = acc
decimal_from (suc fuel) n acc =
    let more = decimal_from fuel (n / 10) (concat (digit (n % 10)) acc) in
    if ltb n 10 then concat (digit n) acc else more

unfoldable pub decimal : ℕ → String
unfolding decimal_from
decimal n = decimal_from (suc n) n ""

unfoldable pub benchmark_id_for : String → String → ℕ → String → String
unfolding safe_part decimal concat
benchmark_id_for prefix case_name run_no stamp = concat (safe_part prefix "bench") (
    concat "-" (
      concat (safe_part case_name "case")
        (concat "-r" (concat (decimal run_no) (concat "-" stamp)))))

-- Every character is safe.
abbrev pub IsSafe : String → Type 0
IsSafe String.[] = Unit
IsSafe (String.◌∷◌ c s) = (is_safe (code c) ≡ true) × IsSafe s

IsSafe-concat : (s t : String) → IsSafe s → IsSafe t → IsSafe (concat s t)
unfolding concat
IsSafe-concat String.[] t h k = k
IsSafe-concat (String.◌∷◌ c s) t h k = (h.0, IsSafe-concat s t h.1 k)

IsSafe-replace_unsafe : (inside : Bool) (s : String) → IsSafe (replace_unsafe inside s)
unfolding replace_unsafe
IsSafe-replace_unsafe inside String.[] = tt
IsSafe-replace_unsafe inside (String.◌∷◌ c s) =
    let kept = IsSafe-replace_unsafe false s in
    let dropped = IsSafe-replace_unsafe true s in ground arith

IsSafe-lstrip_dash : (s : String) → IsSafe s → IsSafe (lstrip_dash s)
unfolding lstrip_dash
IsSafe-lstrip_dash String.[] h = tt
IsSafe-lstrip_dash (String.◌∷◌ c s) h = ground (arith, IsSafe-lstrip_dash s h.1)

IsSafe-rstrip_dash : (s : String) → IsSafe s → IsSafe (rstrip_dash s)
unfolding rstrip_dash
IsSafe-rstrip_dash String.[] h = tt
IsSafe-rstrip_dash (String.◌∷◌ c s) h = ground (arith, IsSafe-rstrip_dash s h.1)

IsSafe-safe_part : (s default : String) → IsSafe default → IsSafe (safe_part s default)
unfolding safe_part
IsSafe-safe_part s default h = ground (
  arith,
  IsSafe-rstrip_dash (lstrip_dash (replace_unsafe false s))
      (IsSafe-lstrip_dash (replace_unsafe false s) (IsSafe-replace_unsafe false s)),
)

IsSafe-digit : (n : ℕ) → IsSafe (digit n)
unfolding digit is_safe
IsSafe-digit zero = (refl, tt)
IsSafe-digit (suc zero) = (refl, tt)
IsSafe-digit (suc (suc zero)) = (refl, tt)
IsSafe-digit (suc (suc (suc zero))) = (refl, tt)
IsSafe-digit (suc (suc (suc (suc zero)))) = (refl, tt)
IsSafe-digit (suc (suc (suc (suc (suc zero))))) = (refl, tt)
IsSafe-digit (suc (suc (suc (suc (suc (suc zero)))))) = (refl, tt)
IsSafe-digit (suc (suc (suc (suc (suc (suc (suc zero))))))) = (refl, tt)
IsSafe-digit (suc (suc (suc (suc (suc (suc (suc (suc zero)))))))) = (refl, tt)
IsSafe-digit _ = (refl, tt)

IsSafe-decimal_from : (fuel n : ℕ) (acc : String) → IsSafe acc → IsSafe (decimal_from fuel n acc)
unfolding decimal_from
IsSafe-decimal_from zero n acc h = h
IsSafe-decimal_from (suc fuel) n acc h =
    let one = IsSafe-concat (digit n) acc (IsSafe-digit n) h in
    let rest =
      IsSafe-decimal_from fuel (n / 10) (concat (digit (n % 10)) acc)
        (IsSafe-concat (digit (n % 10)) acc (IsSafe-digit (n % 10)) h) in
    elim (Bool-cases (ltb n 10)) [ inl e ↦ simp e one | inr e ↦ simp e rest ]

IsSafe-benchmark_id_for :
    (prefix case_name : String) (run_no : ℕ) (stamp : String)
    → IsSafe stamp
    → IsSafe (benchmark_id_for prefix case_name run_no stamp)
unfolding benchmark_id_for is_safe
IsSafe-benchmark_id_for prefix case_name run_no stamp h =
    IsSafe-concat (safe_part prefix "bench") _
      (IsSafe-safe_part prefix "bench" (refl, (refl, (refl, (refl, (refl, tt))))))
      (IsSafe-concat "-" _ (refl, tt)
        (IsSafe-concat (safe_part case_name "case") _
          (IsSafe-safe_part case_name "case" (refl, (refl, (refl, (refl, tt)))))
          (IsSafe-concat "-r" _ (refl, (refl, tt))
            (IsSafe-concat (decimal run_no) _ (IsSafe-decimal_from (suc run_no) run_no "" tt)
              (IsSafe-concat "-" stamp (refl, tt) h)))))

not_space : (c : ℕ) → is_safe c ≡ true → is_space c ≡ false
unfolding is_safe is_space
not_space c h = ground arith

lstrip_safe : (s : String) → IsSafe s → lstrip s ≡ s
unfolding lstrip
lstrip_safe String.[] h = refl
lstrip_safe (String.◌∷◌ c s) h = rw (not_space (code c) h.0)

rstrip_safe : (s : String) → IsSafe s → rstrip s ≡ s
unfolding rstrip
rstrip_safe String.[] h = refl
rstrip_safe (String.◌∷◌ c s) h = ground (arith, not_space (code c) h.0, rstrip_safe s h.1)

strip_safe : (s : String) → IsSafe s → strip s ≡ s
unfolding strip
strip_safe s h = rw (lstrip_safe s h) (rstrip_safe s h)

-- A round's id has only safe characters, whatever the prefix and the case's name are, so the trim
-- that the server applies to an idempotency key leaves it as it is.
pub strip-benchmark_id_for :
    (prefix case_name : String) (run_no : ℕ) (stamp : String)
    → IsSafe stamp
    → IsSafe (benchmark_id_for prefix case_name run_no stamp)
      × (strip (benchmark_id_for prefix case_name run_no stamp)
          ≡ benchmark_id_for prefix case_name run_no stamp)
strip-benchmark_id_for prefix case_name run_no stamp h =
    let safe = IsSafe-benchmark_id_for prefix case_name run_no stamp h in
    (safe, strip_safe (benchmark_id_for prefix case_name run_no stamp) safe)
