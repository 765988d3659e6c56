-- ===== src/Base/Text.antt =====
-- A text as the list of its code points, and dictionaries that are keyed by texts.
use Prim.Native.Nat.{ℕ}
use mathlib.Core.Path.{◌≡◌, refl, ap, ◌∙◌}
use mathlib.Core.Bool.{Bool, true, false, ◌&&◌, ◌||◌}
use mathlib.Core.Option.{Option, none, some}
use mathlib.Core.List.{List, [], ◌∷◌, ◌++◌}
use native.Mathlib.Omega.{arith}
use tridb.Base.Tests.{◌==◌, ltb, if◌then◌else◌}

abbrev pub Text : Type 0
Text = List ℕ

abbrev pub text_eq : Text → Text → Bool
text_eq [] [] = true
text_eq [] (y ∷ ys) = false
text_eq (x ∷ xs) [] = false
text_eq (x ∷ xs) (y ∷ ys) = x == y && text_eq xs ys

-- Code point by code point.
abbrev pub text_ltb : Text → Text → Bool
text_ltb [] [] = false
text_ltb [] (y ∷ ys) = true
text_ltb (x ∷ xs) [] = false
text_ltb (x ∷ xs) (y ∷ ys) = ltb x y || (x == y && text_ltb xs ys)

pub text_eq_self : (a : Text) → text_eq a a ≡ true
text_eq_self [] = refl
text_eq_self (x ∷ xs) = ground (arith, text_eq_self xs)

pub text_eq_sound : (a b : Text) → text_eq a b ≡ true → a ≡ b
text_eq_sound [] [] h = refl
text_eq_sound [] (y ∷ ys) h = cc
text_eq_sound (x ∷ xs) [] h = cc
text_eq_sound (x ∷ xs) (y ∷ ys) h =
    let first : x ≡ y = ground arith in
    let rest = text_eq_sound xs ys (ground arith) in ap (λ c. c ∷ xs) first ∙ ap (λ l. y ∷ l) rest

-- `t in ts`
abbrev pub mem_text : List Text → Text → Bool
mem_text [] t = false
mem_text (x ∷ xs) t = text_eq x t || mem_text xs t

-- `d.get(key)`, the keys of a dictionary being distinct.
abbrev pub get {ℓ} : {A : Type ℓ} → List (Text × A) → Text → Option A
get [] key = none
get ((k, v) ∷ rest) key = let later = get rest key in if text_eq k key then some v else later

-- No text stands twice.
abbrev pub DistinctTexts : List Text → Type 0
DistinctTexts [] = Unit
DistinctTexts (x ∷ xs) = (mem_text xs x ≡ false) × DistinctTexts xs

abbrev pub keys {ℓ} : {A : Type ℓ} → List (Text × A) → List Text
keys [] = []
keys ((k, v) ∷ rest) = k ∷ keys rest

pub mem_text-append :
    (xs ys : List Text) (t : Text) → mem_text (xs ++ ys) t ≡ (mem_text xs t || mem_text ys t)
mem_text-append [] ys t = refl
mem_text-append (x ∷ xs) ys t = ground (arith, mem_text-append xs ys t)

pub keys-append {ℓ} : {A : Type ℓ} (xs ys : List (Text × A)) → keys (xs ++ ys) ≡ keys xs ++ keys ys
keys-append [] ys = refl
keys-append ((k, v) ∷ xs) ys = ap (λ l. k ∷ l) (keys-append xs ys)

pub text_eq_sym : (a b : Text) → text_eq a b ≡ text_eq b a
text_eq_sym [] [] = refl
text_eq_sym [] (y ∷ ys) = refl
text_eq_sym (x ∷ xs) [] = refl
text_eq_sym (x ∷ xs) (y ∷ ys) = ground (arith, text_eq_sym xs ys)

pub DistinctTexts-concat :
    (xs : List Text) (t : Text)
    → DistinctTexts xs
    → mem_text xs t ≡ false
    → DistinctTexts (xs ++ t ∷ [])
DistinctTexts-concat [] t d h = (refl, tt)
DistinctTexts-concat (x ∷ xs) t d h =
    let swapped = text_eq_sym x t in
    let split = mem_text-append xs (t ∷ []) x in
    (ground (arith, split, swapped, d.0, h), DistinctTexts-concat xs t d.1 (ground arith))
