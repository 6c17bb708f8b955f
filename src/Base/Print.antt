-- ===== src/Base/Print.antt =====
-- Python's `str` of a whole number.
use Prim.Native.Nat.{ℕ, zero, suc, ◌/◌, ◌%◌}
use Prim.Native.String.{String}
use mathlib.Core.Path.{◌≡◌, refl}
use mathlib.Core.Bool.{true, false}
use kospi200_project.Base.Tests.{ltb, eqb, if◌then◌else◌}
use kospi200_project.Base.Int.{ℤ, pos, negsuc}
use kospi200_project.Base.Text.{append}

digit : ℕ → String
digit n =
    if eqb n 0
    then "0"
    else if eqb n 1
    then "1"
    else if eqb n 2
    then "2"
    else if eqb n 3
    then "3"
    else if eqb n 4
    then "4"
    else if eqb n 5
    then "5"
    else if eqb n 6
    then "6"
    else if eqb n 7
    then "7"
    else if eqb n 8
    then "8"
    else "9"

-- The fuel `n` is enough, since each round divides by ten.
print_from : ℕ → ℕ → String
unfolding digit
print_from zero n = digit n
print_from (suc f) n = elim (ltb n 10) [
  | true ↦ digit n
  | false ↦ append (print_from f (n / 10)) (digit (n % 10))
]

unfoldable pub print_ℤ : ℤ → String
unfolding print_from
print_ℤ (pos n) = print_from n n
print_ℤ (negsuc n) = append "-" (print_from (suc n) (suc n))

print_runs : print_ℤ (pos 4096) ≡ "4096"
unfolding print_ℤ
print_runs = refl
