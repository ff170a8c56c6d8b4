-- ===== src/Models/Ids/Decimal.antt =====
-- The decimal text of a number, read back.
use yonwork_benchmark.Prelude.{
  ℕ, zero, suc, String, ◌≡◌, refl, ltb, arith, ◌+◌, ◌<◌, concat, ◌-◌, Bool-cases, inl, inr, ◌∙◌, ap,
}
use Prim.Native.Nat.{◌*◌, ◌/◌, ◌%◌}
use Prim.Native.Char.{code}
use yonwork_benchmark.Models.Ids.{digit, decimal_from, decimal}

-- The number that a text of decimal digits goes on to, from `acc`.
unfoldable pub read_decimal : ℕ → String → ℕ
read_decimal acc String.[] = acc
read_decimal acc (String.◌∷◌ c s) = read_decimal (acc * 10 + (code c - 48)) s

read_decimal-digit :
    (acc d : ℕ) (s : String)
    → d < 10
    → read_decimal acc (concat (digit d) s) ≡ read_decimal (acc * 10 + d) s
unfolding read_decimal concat digit
read_decimal-digit acc zero s h = refl
read_decimal-digit acc (suc zero) s h = refl
read_decimal-digit acc (suc (suc zero)) s h = refl
read_decimal-digit acc (suc (suc (suc zero))) s h = refl
read_decimal-digit acc (suc (suc (suc (suc zero)))) s h = refl
read_decimal-digit acc (suc (suc (suc (suc (suc zero))))) s h = refl
read_decimal-digit acc (suc (suc (suc (suc (suc (suc zero)))))) s h = refl
read_decimal-digit acc (suc (suc (suc (suc (suc (suc (suc zero))))))) s h = refl
read_decimal-digit acc (suc (suc (suc (suc (suc (suc (suc (suc zero)))))))) s h = refl
read_decimal-digit acc (suc (suc (suc (suc (suc (suc (suc (suc (suc zero))))))))) s h = refl
read_decimal-digit acc (suc (suc (suc (suc (suc (suc (suc (suc (suc (suc d)))))))))) s h =
    absurd (omega (arith, h))

read_decimal-decimal_from :
    (fuel n : ℕ) (s : String) → n < fuel → read_decimal 0 (decimal_from fuel n s) ≡ read_decimal n s
unfolding decimal_from
read_decimal-decimal_from zero n s h = absurd (omega (arith, h))
read_decimal-decimal_from (suc fuel) n s h = elim (Bool-cases (ltb n 10)) [
  | inl e ↦
      rw e (read_decimal-digit 0 n s (ground (arith, e)) ∙ ap (λ m. read_decimal m s) (omega arith))
  | inr e ↦ rw e (
      read_decimal-decimal_from fuel (n / 10) (concat (digit (n % 10)) s) (ground (arith, e, h))
      ∙ read_decimal-digit (n / 10) (n % 10) s (omega arith)
      ∙ ap (λ m. read_decimal m s) (omega arith))
]

pub read_decimal-decimal : (n : ℕ) → read_decimal 0 (decimal n) ≡ n
unfolding decimal read_decimal
read_decimal-decimal n = read_decimal-decimal_from (suc n) n "" (omega arith)
