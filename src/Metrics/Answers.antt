-- ===== src/Metrics/Answers.antt =====
-- Sets of answer texts, as bench/metrics.py compares them.
use Prim.Native.String.{String}
use text.Mathlib.Text.{◌==◌}
use mathlib.Core.Bool.{Bool, false, ◌||◌}
use mathlib.Core.List.{List, [], ◌∷◌}
use tridb.Base.{if◌then◌else◌}

abbrev pub mem_str : List String → String → Bool
mem_str [] a = false
mem_str (x ∷ xs) a = x == a || mem_str xs a

-- `set(xs)`, each member once.
abbrev pub unique : List String → List String
unique [] = []
unique (x ∷ xs) = let rest = unique xs in if mem_str rest x then rest else x ∷ rest
