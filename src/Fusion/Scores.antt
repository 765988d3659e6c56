-- ===== src/Fusion/Scores.antt =====
-- A `dict[int, float]` of bench/tjs_open_ref.py: keys with their scores, in the order of insertion.
use tridb.Base.{ℕ, ◌+◌, ◌≤◌, ◌≡◌, refl, List, [], ◌∷◌, ◌==◌, if◌then◌else◌, arith}

abbrev pub Scores : Type 0
Scores = List (ℕ × ℕ)

-- `m.get(k, 0.0)`
abbrev pub score : Scores → ℕ → ℕ
score [] k = 0
score ((j, v) ∷ m) k = if j == k then v else score m k

-- `m[k] = v`
abbrev pub put : Scores → ℕ → ℕ → Scores
put [] k v = (k, v) ∷ []
put ((j, w) ∷ m) k v = if j == k then (j, v) ∷ m else (j, w) ∷ put m k v

-- `sum(m.values())`
abbrev pub total : Scores → ℕ
total [] = 0
total ((j, v) ∷ m) = v + total m

pub score-put : (m : Scores) (k v j : ℕ) → score (put m k v) j ≡ (if k == j then v else score m j)
score-put [] k v j = refl
score-put ((i, w) ∷ m) k v j = ground (arith, score-put m k v j)

pub total-put : (m : Scores) (k v : ℕ) → total (put m k v) + score m k ≡ total m + v
total-put [] k v = omega arith
total-put ((i, w) ∷ m) k v = ground (arith, total-put m k v)

pub score-le-total : (m : Scores) (k : ℕ) → score m k ≤ total m
score-le-total [] k = omega arith
score-le-total ((i, w) ∷ m) k = ground (arith, score-le-total m k)
