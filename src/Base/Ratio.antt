-- ===== src/Base/Ratio.antt =====
-- A Python `float` that is a quotient of two counts, kept exact. The denominator is never 0 in the
-- values that the programs build.
use Prim.Native.Nat.{ℕ, ◌+◌, ◌*◌, ◌/◌, ◌%◌, ◌^◌}
use mathlib.Core.Bool.{Bool}
use tridb.Base.Tests.{leb, ltb, ◌==◌, if◌then◌else◌}

pub record Ratio : Type 0 where
  pub num : ℕ
  pub den : ℕ

abbrev pub ratio : ℕ → ℕ → Ratio
ratio a b = record { num = a; den = b }

abbrev pub ratio_zero : Ratio
ratio_zero = ratio 0 1

abbrev pub ratio_one : Ratio
ratio_one = ratio 1 1

-- `a <= b` and `a < b`, by cross multiplication.
abbrev pub ratio_leb : Ratio → Ratio → Bool
ratio_leb a b = leb (a.num * b.den) (b.num * a.den)

abbrev pub ratio_ltb : Ratio → Ratio → Bool
ratio_ltb a b = ltb (a.num * b.den) (b.num * a.den)

abbrev pub ratio_add : Ratio → Ratio → Ratio
ratio_add a b = ratio (a.num * b.den + b.num * a.den) (a.den * b.den)

-- `round(x, d)`: to the nearest multiple of 1/10^d, a tie to the even one.
unfoldable pub ratio_round : ℕ → Ratio → Ratio
ratio_round d x =
    let scaled = x.num * 10 ^ d in
    let q = scaled / x.den in
    let r = scaled % x.den in
    ratio
      (if ltb (2 * r) x.den
        then q
        else if ltb x.den (2 * r)
        then q + 1
        else if q % 2 == 0
        then q
        else q + 1)
      (10 ^ d)
