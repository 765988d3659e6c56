-- ===== src/Reader/Paths.antt =====
-- connection_path of tools/wiki_reader.py: the search from both ends for a shortest chain of links.
-- The neighbours of an article are read from the arrays of the undirected index (`Csr`). A parent map
-- has `none` for the code's -1, and -- where it is read -- `none` for a missing key.
pub mod Trees
pub mod Waves
pub mod Sides
pub mod Shortest
pub mod Connection
use tridb.Base.{
  ℕ, zero, suc, ◌+◌, ◌-◌, Bool, true, false, ◌||◌, ◌&&◌, not, Option, none, some, List, [], ◌∷◌,
  ◌++◌, ◌==◌, leb, ltb, if◌then◌else◌, length, take, drop,
}
use tridb.Reader.Pending.{get, put}

-- The parents of the nodes that one side has met.
abbrev pub Parents : Type 0
Parents = List (ℕ × Option ℕ)

-- `x in parents`
abbrev pub has : Parents → ℕ → Bool
has p x = elim (get p x) [ none ↦ false | some y ↦ true ]

-- One side while its frontier is expanded.
pub record Wave : Type 0 where
  pub parent : Parents
  pub nxt : List ℕ
  pub meet : Option ℕ

abbrev pub wave : Parents → Wave
wave p = record { parent = p; nxt = []; meet = none }

-- The neighbours of one node.
unfoldable pub scan : Parents → ℕ → List ℕ → Wave → Wave
scan other node [] w = w
scan other node (nb ∷ rest) w = elim (has w.parent nb) [
  | true ↦ scan other node rest w
  | false ↦ elim (has other nb) [
    | true ↦ record w { parent = put w.parent nb (some node); meet = some nb }
    | false ↦
        scan other node rest
          (record w { parent = put w.parent nb (some node); nxt = w.nxt ++ nb ∷ [] })
  ]
]

-- How the search ends: the sides met, no frontier or no round was left, or too many nodes (with
-- their number) were touched.
pub data Outcome : Type 0 where
  found : ℕ → Parents → Parents → Outcome
  missed : Outcome
  gave_up : ℕ → Outcome

abbrev pub is_over : ℕ → Parents → Parents → Bool
is_over max_expand p q = ltb max_expand (length p + length q)

-- The round of one side, and `go` for the rounds after it.
abbrev pub after_wave : ℕ → Parents → Wave → (ℕ → Parents → Outcome) → Outcome → Outcome
after_wave max_expand other w met rest = elim w.meet [
  | some x ↦ met x w.parent
  | none ↦
      if is_over max_expand w.parent other then gave_up (length w.parent + length other) else rest
]

abbrev pub is_done : List ℕ → Bool
is_done [] = true
is_done (x ∷ xs) = false

module _ (neighbours : ℕ → List ℕ) (max_expand : ℕ) where
  -- The nodes of the frontier, until the sides meet or too many nodes are touched.
  unfoldable pub expand : Parents → List ℕ → Wave → Wave
  unfolding scan
  expand other [] w = w
  expand other (node ∷ rest) w =
      let w' = scan other node (neighbours node) w in
      elim w'.meet [
        | some x ↦ w'
        | none ↦ elim (is_over max_expand w'.parent other) [
          | true ↦ w'
          | false ↦ expand other rest w'
        ]
      ]

  unfoldable pub search : ℕ → Parents → Parents → List ℕ → List ℕ → Outcome
  unfolding expand
  search zero pa pb fa fb = missed
  search (suc rounds) pa pb fa fb = elim (is_done fa || is_done fb) [
    | true ↦ missed
    | false ↦ elim (leb (length fa) (length fb)) [
      | true ↦
          let w = expand pb fa (wave pa) in
          let rest = search rounds w.parent pb w.nxt fb in
          after_wave max_expand pb w (λ x p. found x p pb) rest
      | false ↦
          let w = expand pa fb (wave pb) in
          let rest = search rounds pa w.parent fa w.nxt in
          after_wave max_expand pa w (λ x p. found x pa p) rest
    ]
  ]

-- `while x != -1: out.append(x); x = parent[x]`, on fuel; `none` also where the key is missing.
unfoldable pub trace : Parents → ℕ → Option ℕ → Option (List ℕ)
trace p fuel none = some []
trace p zero (some x) = none
trace p (suc fuel) (some x) = elim (get p x) [
  | none ↦ none
  | some y ↦ elim (trace p fuel y) [ none ↦ none | some l ↦ some (x ∷ l) ]
]

-- `left.reverse()` and then `left + right`
abbrev pub rev_onto : List ℕ → List ℕ → List ℕ
rev_onto [] right = right
rev_onto (x ∷ left) right = rev_onto left (x ∷ right)

-- The chain through the node at which the sides met; the parent maps' sizes are enough fuel.
unfoldable pub chain : ℕ → Parents → Parents → Option (List ℕ)
unfolding trace
chain meet pa pb = elim (trace pa (length pa) (some meet)) [
  | none ↦ none
  | some left ↦ elim (get pb meet) [
    | none ↦ none
    | some x ↦ elim (trace pb (length pb) x) [
      | none ↦ none
      | some right ↦ some (rev_onto left right)
    ]
  ]
]

-- off[i]
abbrev pub at : List ℕ → ℕ → ℕ
at [] i = 0
at (x ∷ xs) zero = x
at (x ∷ xs) (suc i) = at xs i

pub record Csr : Type 0 where
  pub off : List ℕ
  pub dst : List ℕ

-- _undir_neighbors
unfoldable pub undir_neighbors : Csr → ℕ → List ℕ
undir_neighbors c node =
    if leb (length c.off) (node + 1)
    then []
    else take (at c.off (node + 1) - at c.off node) (drop (at c.off node) c.dst)

-- The code's None, and a KeyError that never comes.
pub data Answer : Type 0 where
  no_path : Answer
  path : List ℕ → Answer
  key_error : Answer

abbrev pub answer_of : Outcome → Answer
answer_of (found x pa pb) = elim (chain x pa pb) [ none ↦ key_error | some l ↦ path l ]
answer_of missed = no_path
answer_of (gave_up touched) = no_path

-- The search from both ends, each a root of its side.
abbrev pub search_both : Csr → ℕ → ℕ → ℕ → ℕ → Outcome
search_both c a b max_hops max_expand =
    search (undir_neighbors c) max_expand max_hops ((a, none) ∷ []) ((b, none) ∷ []) (a ∷ [])
      (b ∷ [])

unfoldable pub connection_path : Option Csr → ℕ → ℕ → ℕ → ℕ → Answer
unfolding search chain undir_neighbors
connection_path none a b max_hops max_expand = no_path
connection_path (some c) a b max_hops max_expand =
    if a == b
    then path (a ∷ [])
    else if leb (length c.off - 1) a || leb (length c.off - 1) b
    then no_path
    else answer_of (search_both c a b max_hops max_expand)
