-- ===== src/Base/Decimal.antt =====
-- `str(n)` of a number, in decimal digits.
use Prim.Native.String.{[], ◌∷◌}
use Prim.Native.Nat.{◌/◌, ◌%◌}
use serverless_xmpp.Base.{
  ℕ, zero, suc, ◌+◌, ◌-◌, ◌*◌, ◌<◌, String, Char, code, true, false, ◌≡◌, refl, arith, ltb, inl,
  inr,
}
use serverless_xmpp.Base.Tests.{Bool-cases}

pick : ℕ → String → Char
pick n [] = "0"
pick zero (c ∷ s) = c
pick (suc n) (c ∷ s) = pick n s

unfoldable pub digit : ℕ → Char
unfolding pick
digit n = pick n "0123456789"

-- The digits of `n` before those of `after`; the fuel is more than `n`.
unfoldable digits_on : ℕ → ℕ → String → String
digits_on zero n after = after
digits_on (suc fuel) n after = elim (ltb n 10) [
  | true ↦ digit n ∷ after
  | false ↦ digits_on fuel (n / 10) (digit (n % 10) ∷ after)
]

unfoldable pub decimal : ℕ → String
unfolding digits_on digit
decimal n = digits_on (suc n) n []

-- The number that digits after those of `n` stand for.
unfoldable pub read_on : ℕ → String → ℕ
read_on n [] = n
read_on n (c ∷ s) = read_on (n * 10 + (code c - 48)) s

code-digit : (n : ℕ) → n < 10 → code (digit n) - 48 ≡ n
unfolding digit pick
code-digit zero h = refl
code-digit (suc zero) h = refl
code-digit (suc (suc zero)) h = refl
code-digit (suc (suc (suc zero))) h = refl
code-digit (suc (suc (suc (suc zero)))) h = refl
code-digit (suc (suc (suc (suc (suc zero))))) h = refl
code-digit (suc (suc (suc (suc (suc (suc zero)))))) h = refl
code-digit (suc (suc (suc (suc (suc (suc (suc zero))))))) h = refl
code-digit (suc (suc (suc (suc (suc (suc (suc (suc zero)))))))) h = refl
code-digit (suc (suc (suc (suc (suc (suc (suc (suc (suc zero))))))))) h = refl
code-digit (suc (suc (suc (suc (suc (suc (suc (suc (suc (suc n)))))))))) h = absurd (omega arith)

read_on-digits_on :
    (fuel n : ℕ) (after : String) → n < fuel → read_on 0 (digits_on fuel n after) ≡ read_on n after
unfolding digits_on read_on
read_on-digits_on zero n after h = absurd (omega arith)
read_on-digits_on (suc fuel) n after h = elim (Bool-cases (ltb n 10)) [
  | inl e ↦
      let small : n < 10 = ground arith in
      let first : 0 * 10 + n ≡ n = omega arith in rw (digits_on, e, code-digit n small, first) refl
  | inr e ↦
      let large : 9 < n = ground arith in
      let rest : n % 10 < 10 = omega arith in
      let whole : (n / 10) * 10 + n % 10 ≡ n = omega arith in
      rw
        (
          digits_on,
          e,
          read_on-digits_on fuel (n / 10) (digit (n % 10) ∷ after) (omega arith),
          code-digit (n % 10) rest,
          whole,
        )
        refl
]

-- The digits stand for the number.
pub read-decimal : (n : ℕ) → read_on 0 (decimal n) ≡ n
unfolding decimal read_on
read-decimal n = read_on-digits_on (suc n) n [] (omega arith)
