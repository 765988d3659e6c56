-- ===== src/Publication/Conditions.antt =====
-- The conditions of publication_gate in bench/wiki_h2h.py, and the tests that the code makes of them.
use Prim.Native.String.{String}
use text.Mathlib.TextEquality.{eq_iff}
use tridb.Base.{
  sym, ap, ◌∙◌, ℕ, zero, suc, ◌+◌, ◌-◌, ◌*◌, ◌≤◌, ◌<◌, ◌⊎◌, inl, inr, ◌≡◌, ◌↔◌, refl, true, false,
  Option, none, some, arith,
}
use native.Mathlib.Decide.{dec_le}
use native.Mathlib.Nat.{add-mul}
use tridb.Base.Int.{ℤ, pos, negsuc}
use tridb.Base.Ratio.{Ratio}
use tridb.Publication.{is_yes, unmatched, is_unexamined, at_cap}

-- Two recalls at most `eps` apart, as products of the numerators and denominators. A NaN on either
-- side passes, every comparison with it being false.
abbrev pub RecallsMatch : Ratio → Option Ratio → Option Ratio → Type 0
RecallsMatch eps (some t) (some b) =
    (t.num * b.den * eps.den ≤ b.num * t.den * eps.den + eps.num * (t.den * b.den))
    × (b.num * t.den * eps.den ≤ t.num * b.den * eps.den + eps.num * (t.den * b.den))
RecallsMatch eps none b = Unit
RecallsMatch eps (some t) none = Unit

-- More than no candidate was examined, or a NaN.
abbrev pub Examined : Option Ratio → Type 0
Examined none = Unit
Examined (some ex) = 0 < ex.num

-- Below the work cap, as products; a cap of 0 or none is no cap, and a NaN is below any.
abbrev pub BelowCap : Option ℤ → Option Ratio → Type 0
BelowCap none ex = Unit
BelowCap (some cap) none = Unit
BelowCap (some (negsuc n)) (some ex) = ⊥
BelowCap (some (pos n)) (some ex) = (n ≡ 0) ⊎ (ex.num < n * ex.den)

abbrev pub IsYes : String → Type 0
IsYes s = (s ≡ "1") ⊎ (s ≡ "true") ⊎ (s ≡ "yes")

split_product : (a b d : ℕ) → b ≤ a → (a - b) * d + b * d ≡ a * d
split_product a b d h =
    let whole : a - b + b ≡ a = omega (arith, h) in
    sym (add-mul (a - b) b d) ∙ ap (λ n. n * d) whole

gap_at_most :
    (x y d e : ℕ) → ((x - y + (y - x)) * d ≤ e) ↔ ((x * d ≤ y * d + e) × (y * d ≤ x * d + e))
gap_at_most x y d e = elim (dec_le x y) [
  | yes below ↦
      let none_over : x - y ≡ 0 = omega (arith, below) in
      let whole : (y - x) * d + x * d ≡ y * d = split_product y x d below in
      let low : x * d ≤ y * d = omega (arith, whole) in
      rw none_over
        (λ h. (omega (arith, low), omega (arith, h, whole)), λ h. omega (arith, h.1, whole))
  | no above ↦
      let none_over : y - x ≡ 0 = omega (arith, above) in
      let whole : (x - y) * d + y * d ≡ x * d = split_product x y d (omega (arith, above)) in
      let low : y * d ≤ x * d = omega (arith, whole) in
      rw none_over
        (λ h. (omega (arith, h, whole), omega (arith, low)), λ h. omega (arith, h.0, whole))
]

pub unmatched-RecallsMatch :
    (eps : Ratio) (t b : Option Ratio) → (unmatched eps t b ≡ false) ↔ RecallsMatch eps t b
unmatched-RecallsMatch eps (some t) (some b) =
    let gap = gap_at_most (t.num * b.den) (b.num * t.den) eps.den (eps.num * (t.den * b.den)) in
    (λ h. gap.0 (ground (arith, h)), λ h. let small = gap.1 h in ground (arith, small))
unmatched-RecallsMatch eps none b = (λ h. tt, λ h. refl)
unmatched-RecallsMatch eps (some t) none = (λ h. tt, λ h. refl)

pub is_unexamined-Examined : (ex : Option Ratio) → (is_unexamined ex ≡ false) ↔ Examined ex
is_unexamined-Examined none = (λ h. tt, λ h. refl)
is_unexamined-Examined (some ex) = ground arith

pub at_cap-BelowCap :
    (cap : Option ℤ) (ex : Option Ratio) → (at_cap cap ex ≡ false) ↔ BelowCap cap ex
at_cap-BelowCap none ex = (λ h. tt, λ h. refl)
at_cap-BelowCap (some cap) none = (λ h. tt, λ h. refl)
at_cap-BelowCap (some (negsuc n)) (some ex) = (λ h. absurd (cc), λ h. absurd h)
at_cap-BelowCap (some (pos zero)) (some ex) = (λ h. inl refl, λ h. refl)
at_cap-BelowCap (some (pos (suc n))) (some ex) =
    (λ h. inr (ground (arith, h)), λ h. ground (arith, h))

pub is_yes-IsYes : (s : String) → (is_yes s ≡ true) ↔ IsYes s
is_yes-IsYes s =
    let one = eq_iff s "1" in
    let true' = eq_iff s "true" in let yes' = eq_iff s "yes" in ground (arith, one, true', yes')
