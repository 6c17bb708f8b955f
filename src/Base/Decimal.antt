-- ===== src/Base/Decimal.antt =====
-- Python's `decimal.Decimal` for finite values, under the default context: 28 digits, rounded
-- half to even. NaN, the infinities, signed zero and the limits on the exponent are left out.
use Prim.Native.Nat.{ℕ, zero, suc, ◌+◌, ◌-◌, ◌*◌, ◌/◌, ◌%◌, ◌^◌}
use kospi200_project.Base.Tests.{ltb, eqb, if◌then◌else◌}
use kospi200_project.Base.Int.{
  ℤ, pos, negsuc, pos_part, neg_part, ◌+ℤ◌, ◌-ℤ◌, ◌*ℤ◌, ltb_ℤ, leb_ℤ, eqb_ℤ, abs,
}
use mathlib.Core.Path.{◌≡◌, refl}
use mathlib.Core.Bool.{Bool, true, false, not, ◌&&◌, ◌||◌}

-- The value is `coef * 10 ^ exp`.
pub record Decimal : Type 0 where
  pub coef : ℤ
  pub exp : ℤ

abbrev pub of_int : ℤ → Decimal
of_int n = record { coef = n; exp = pos 0 }

abbrev pub of_ℕ : ℕ → Decimal
of_ℕ n = of_int (pos n)

-- `scaled n k` is `n / 10 ^ k`: `Decimal("0.85")` is `scaled 85 2`.
abbrev pub scaled : ℕ → ℕ → Decimal
scaled n k = record { coef = pos n; exp = pos 0 -ℤ pos k }

-- `n * 10 ^ k` for a signed `n`.
shift_up : ℤ → ℕ → ℤ
shift_up (pos n) k = pos (n * 10 ^ k)
shift_up (negsuc n) k = pos 0 -ℤ pos (suc n * 10 ^ k)

-- The coefficients of two values at their smaller exponent.
left_coef : Decimal → Decimal → ℤ
unfolding shift_up
left_coef a b = shift_up a.coef (pos_part (a.exp -ℤ b.exp))

right_coef : Decimal → Decimal → ℤ
unfolding shift_up
right_coef a b = shift_up b.coef (neg_part (a.exp -ℤ b.exp))

low_exp : Decimal → Decimal → ℤ
low_exp a b = if leb_ℤ a.exp b.exp then a.exp else b.exp

-- The number of decimal digits; the fuel `n` is enough, since each round divides by ten.
digits_from : ℕ → ℕ → ℕ
digits_from zero n = 1
digits_from (suc f) n = elim (ltb n 10) [ true ↦ 1 | false ↦ suc (digits_from f (n / 10)) ]

digits : ℕ → ℕ
unfolding digits_from
digits n = digits_from n n

abbrev precision : ℕ
precision = 28

-- `n / 10 ^ k`, rounded half to even.
round_half_even : ℕ → ℕ → ℕ
round_half_even n k =
    let q = n / 10 ^ k in
    let r = n % 10 ^ k in
    if ltb (10 ^ k) (2 * r) || (eqb (10 ^ k) (2 * r) && eqb (q % 2) 1) then q + 1 else q

-- The magnitude and the exponent after rounding to the precision; a carry into a 29th digit is
-- dropped again.
fix_carry : ℕ → ℤ → ℕ × ℤ
fix_carry n e = if eqb n (10 ^ precision) then (10 ^ (precision - 1), e +ℤ pos 1) else (n, e)

fix_magnitude : ℕ → ℤ → ℕ × ℤ
unfolding digits round_half_even fix_carry ◌+ℤ◌
fix_magnitude n e =
    let k = digits n - precision in
    if eqb k 0 then (n, e) else fix_carry (round_half_even n k) (e +ℤ pos k)

-- `Decimal._fix`
fix : ℤ → ℤ → Decimal
unfolding fix_magnitude ◌-ℤ◌
fix (pos n) e = let (m, e') = fix_magnitude n e in record { coef = pos m; exp = e' }
fix (negsuc n) e =
    let (m, e') = fix_magnitude (suc n) e in record { coef = pos 0 -ℤ pos m; exp = e' }

unfoldable pub add : Decimal → Decimal → Decimal
unfolding fix left_coef right_coef low_exp ◌+ℤ◌ ◌-ℤ◌
add a b = fix (left_coef a b +ℤ right_coef a b) (low_exp a b)

unfoldable pub neg : Decimal → Decimal
unfolding fix ◌-ℤ◌
neg a = fix (pos 0 -ℤ a.coef) a.exp

unfoldable pub sub : Decimal → Decimal → Decimal
unfolding fix left_coef right_coef low_exp ◌+ℤ◌ ◌-ℤ◌
sub a b = fix (left_coef a b -ℤ right_coef a b) (low_exp a b)

unfoldable pub mul : Decimal → Decimal → Decimal
unfolding fix ◌*ℤ◌ ◌+ℤ◌
mul a b = fix (a.coef *ℤ b.coef) (a.exp +ℤ b.exp)

-- The order and equality of the values, exact as in Python.
unfoldable pub ltd : Decimal → Decimal → Bool
unfolding left_coef right_coef ◌-ℤ◌
ltd a b = ltb_ℤ (left_coef a b) (right_coef a b)

unfoldable pub eqd : Decimal → Decimal → Bool
unfolding left_coef right_coef ◌-ℤ◌
eqd a b = eqb_ℤ (left_coef a b) (right_coef a b)

abbrev pub led : Decimal → Decimal → Bool
led a b = not (ltd b a)

-- The comparisons with zero read the sign alone.
abbrev pub is_positive : Decimal → Bool
is_positive a = ltb_ℤ (pos 0) a.coef

abbrev pub is_negative : Decimal → Bool
is_negative a = ltb_ℤ a.coef (pos 0)

unfoldable pub abs_decimal : Decimal → Decimal
unfolding neg
abs_decimal a = if is_negative a then neg a else fix a.coef a.exp

-- `min` and `max` as Python's built-ins: the first argument unless the second is strictly beyond.
abbrev pub min_decimal : Decimal → Decimal → Decimal
min_decimal a b = if ltd b a then b else a

abbrev pub max_decimal : Decimal → Decimal → Decimal
max_decimal a b = if ltd a b then b else a

-- `int(a)`: towards zero.
unfoldable pub truncate : Decimal → ℤ
unfolding ◌-ℤ◌
truncate a =
    let m = (λ (n : ℕ). n * 10 ^ pos_part a.exp / 10 ^ neg_part a.exp) in
    elim a.coef [ pos n ↦ pos (m n) | negsuc n ↦ pos 0 -ℤ pos (m (suc n)) ]

-- Drops trailing zeros of an exact quotient, at most `k` of them.
trim_zeros : ℕ → ℕ → ℤ → ℕ × ℤ
trim_zeros zero q e = (q, e)
trim_zeros (suc k) q e = elim (eqb (q % 10) 0) [
  | true ↦ trim_zeros k (q / 10) (e +ℤ pos 1)
  | false ↦ (q, e)
]

-- The sticky digit of an inexact quotient.
div_magnitude : ℕ → ℕ → ℕ → ℤ → ℕ × ℤ
unfolding trim_zeros ◌+ℤ◌
div_magnitude n d k e =
    if eqb (n % d) 0
    then trim_zeros k (n / d) e
    else (n / d + (if eqb (n / d % 5) 0 then 1 else 0), e)

-- `Decimal.__truediv__` for a divisor that is not zero.
unfoldable pub div : Decimal → Decimal → Decimal
unfolding div_magnitude digits fix ◌+ℤ◌ ◌-ℤ◌
div a b =
    let n = abs a.coef in
    let d = abs b.coef in
    let shift = pos (digits d + precision + 1) -ℤ pos (digits n) in
    let up = pos_part shift in
    let exp = a.exp -ℤ b.exp -ℤ shift in
    let (q, e) =
      if eqb n 0
      then (0, a.exp -ℤ b.exp)
      else div_magnitude (n * 10 ^ up) (d * 10 ^ neg_part shift) up exp in
    if is_negative a
    then if is_negative b then fix (pos q) e else fix (pos 0 -ℤ pos q) e
    else if is_negative b
    then fix (pos 0 -ℤ pos q) e
    else fix (pos q) e

div_exact : div (of_ℕ 1) (of_ℕ 8) ≡ scaled 125 3
unfolding div ◌-ℤ◌
div_exact = refl

div_rounds : div (of_ℕ 2) (of_ℕ 3) ≡ scaled 6666666666666666666666666667 28
unfolding div ◌-ℤ◌
div_rounds = refl
