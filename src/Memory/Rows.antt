-- ===== src/Memory/Rows.antt =====
-- The rows of the memories table of tools/tridb_mcp.py, keyed by their id.
use Prim.Native.String.{String}
use tridb.Base.{
  ℕ, ◌+◌, ◌≤◌, ◌≡◌, Bool, true, false, Option, none, some, List, [], ◌∷◌, ◌++◌, map, ◌==◌,
  if◌then◌else◌, max, arith, refl, length,
}

pub record Memory : Type 0 where
  pub id : ℕ
  pub kind : String
  pub text : String
  pub embedding : List ℕ

-- The row with an id; ids are a primary key.
abbrev pub find_row : List Memory → ℕ → Option Memory
find_row [] i = none
find_row (m ∷ rest) i = if m.id == i then some m else find_row rest i

abbrev pub known_row : List Memory → ℕ → Bool
known_row rows i = elim (find_row rows i) [ some m ↦ true | none ↦ false ]

-- SELECT COALESCE(max(id) + 1, 0) FROM memories
abbrev pub next_id : List Memory → ℕ
next_id [] = 0
next_id (m ∷ rest) = max (m.id + 1) (next_id rest)

abbrev pub ids : List Memory → List ℕ
ids rows = map (λ m. m.id) rows

pub find_row-next_id : (rows : List Memory) (i : ℕ) → next_id rows ≤ i → find_row rows i ≡ none
find_row-next_id [] i h = refl
find_row-next_id (m ∷ rest) i h = ground (arith, find_row-next_id rest i)

-- The ids count up from `n`, in the order of insertion.
abbrev pub Dense : ℕ → List Memory → Type 0
Dense n [] = Unit
Dense n (m ∷ rest) = (m.id ≡ n) × Dense (n + 1) rest

pub next_id-Dense :
    (n : ℕ) (rows : List Memory)
    → Dense n rows
    → next_id rows ≡ (if length rows == 0 then 0 else n + length rows)
next_id-Dense n [] d = refl
next_id-Dense n (m ∷ []) d = ground (arith, d.0)
next_id-Dense n (m ∷ m' ∷ rest) d = ground (arith, d.0, next_id-Dense (n + 1) (m' ∷ rest) d.1)

pub Dense-concat :
    (n : ℕ) (rows : List Memory) (m : Memory)
    → Dense n rows
    → m.id ≡ n + length rows
    → Dense n (rows ++ m ∷ [])
Dense-concat n [] m d e = (omega arith, tt)
Dense-concat n (m' ∷ rest) m d e = (d.0, Dense-concat (n + 1) rest m d.1 (omega arith))

-- A row that is found has the id that was asked for.
pub id-find_row : (rows : List Memory) (i : ℕ) (m : Memory) → find_row rows i ≡ some m → m.id ≡ i
id-find_row [] i m h = cc
id-find_row (m' ∷ rest) i m h = ground (arith, id-find_row rest i m)
