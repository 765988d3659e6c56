-- ===== src/Fusion/Push/Heap.antt =====
-- The max-heap of (-residue, node) pairs of bench/tjs_open_ref.py: the entries in any order, of
-- which the next to be popped has the largest mass and, among equals, the smallest node.
use tridb.Base.{
  ℕ, suc, ◌≡◌, refl, ap, Bool, false, ◌&&◌, ◌||◌, List, [], ◌∷◌, ltb, ◌==◌, if◌then◌else◌, length,
  arith,
}

pub record Entry : Type 0 where
  pub mass : ℕ
  pub node : ℕ

abbrev pub entry : ℕ → ℕ → Entry
entry m n = record { mass = m; node = n }

abbrev pub before : Entry → Entry → Bool
before a b = ltb b.mass a.mass || (a.mass == b.mass && ltb a.node b.node)

-- heappop: the first entry in the order of `before`, and the others.
unfoldable pub pop_best : Entry → List Entry → Entry × List Entry
pop_best e [] = (e, [])
pop_best e (f ∷ rest) =
    let (best, others) = pop_best (if before f e then f else e) rest in
    (best, (if before f e then e else f) ∷ others)

-- Whether an entry with this mass and node waits.
abbrev pub waits : List Entry → ℕ → ℕ → Bool
waits [] m n = false
waits (e ∷ rest) m n = (e.mass == m && e.node == n) || waits rest m n

pub waits-pop_best :
    (e : Entry) (rest : List Entry) (m n : ℕ)
    → waits ((pop_best e rest).0 ∷ (pop_best e rest).1) m n ≡ waits (e ∷ rest) m n
unfolding pop_best
waits-pop_best e [] m n = refl
waits-pop_best e (f ∷ rest) m n =
    ground (arith, waits-pop_best e rest m n, waits-pop_best f rest m n)

pub length-pop_best : (e : Entry) (rest : List Entry) → length (pop_best e rest).1 ≡ length rest
unfolding pop_best
length-pop_best e [] = refl
length-pop_best e (f ∷ rest) = ap suc (length-pop_best (if before f e then f else e) rest)
