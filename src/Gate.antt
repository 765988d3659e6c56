-- ===== src/Gate.antt =====
-- bench/wiki_ppr_gate.py and `expand` of bench/wiki_h2h.py: the graph that the gate loads, without the
-- edges that it holds out, and what is reachable in it. A set is the list of its members. A line of
-- a shard is what its two numbers say, `none` without a tab; a line whose numbers do not parse, on
-- which the code raises ValueError, is left out.
pub mod Holdouts
pub mod Hop
pub mod Reachable
pub mod Unreachable
pub mod Tests
use tridb.Base.{
  ℕ, zero, suc, ◌+◌, Bool, true, false, not, ◌&&◌, ◌||◌, Option, none, some, List, [], ◌∷◌, ◌++◌,
  map, ltb, leb, ◌==◌, if◌then◌else◌, keep, contains, insert,
}
use tridb.Base.Sort.{sort}

abbrev pub Edge : Type 0
Edge = ℕ × ℕ

abbrev pub edge_eq : Edge → Edge → Bool
edge_eq a b = a.0 == b.0 && a.1 == b.1

abbrev pub has_edge : List Edge → Edge → Bool
has_edge [] e = false
has_edge (x ∷ xs) e = edge_eq x e || has_edge xs e

-- edges.add(e)
abbrev pub add_edge : List Edge → Edge → List Edge
add_edge edges e = if has_edge edges e then edges else edges ++ e ∷ []

-- The adjacency of a slice: each source with its targets.
abbrev pub Adjacency : Type 0
Adjacency = List (ℕ × List ℕ)

-- adj.get(s, ())
abbrev pub neighbours : Adjacency → ℕ → List ℕ
neighbours [] s = []
neighbours ((x, ds) ∷ rest) s = let later = neighbours rest s in if x == s then ds else later

-- adj.setdefault(s, set()).add(d)
abbrev pub set_edge : Adjacency → ℕ → ℕ → Adjacency
set_edge [] s d = (s, d ∷ []) ∷ []
set_edge ((x, ds) ∷ rest) s d =
    let later = set_edge rest s d in if x == s then (x, insert ds d) ∷ rest else (x, ds) ∷ later

abbrev sorted : List ℕ → List ℕ
sorted xs = sort leb xs

abbrev pub parse_lines : ℕ → Adjacency → List (Option Edge) → Adjacency
parse_lines n adj [] = adj
parse_lines n adj (none ∷ rest) = parse_lines n adj rest
parse_lines n adj (some (s, d) ∷ rest) =
    if leb n s
    then parse_lines n adj rest
    else if leb n d || d == s
    then parse_lines n adj rest
    else parse_lines n (set_edge adj s d) rest

-- parse_edge_lines, over the lines of the shards that exist.
unfoldable pub parse_edge_lines : ℕ → List (Option Edge) → Adjacency
parse_edge_lines n lines =
    map (λ (entry : ℕ × List ℕ). (entry.0, sorted entry.1)) (parse_lines n [] lines)

abbrev pub add_both : ℕ → List ℕ → List Edge → List Edge
add_both s [] edges = edges
add_both s (d ∷ ds) edges = add_both s ds (add_edge (add_edge edges (s, d)) (d, s))

abbrev pub load_edges : Adjacency → List Edge → List Edge
load_edges [] edges = edges
load_edges ((s, ds) ∷ rest) edges = load_edges rest (add_both s ds edges)

abbrev pub build_load_edges : Adjacency → List Edge
build_load_edges adj = load_edges adj []

pub record Sample : Type 0 where
  pub qid : ℕ
  pub gold : List ℕ

-- The pairs to remove.
abbrev pub held_out : List Sample → List Edge
held_out [] = []
held_out (s ∷ rest) = add_both s.qid s.gold (held_out rest)

abbrev pub exclude_holdouts : List Edge → List Sample → List Edge
exclude_holdouts edges samples = keep (λ e. not (has_edge (held_out samples) e)) edges

abbrev pub targets_of : ℕ → List Edge → List ℕ
targets_of s [] = []
targets_of s ((a, b) ∷ rest) = let later = targets_of s rest in if a == s then b ∷ later else later

-- adjacency_from_edges, read at one source.
abbrev pub adjacency_from_edges : List Edge → ℕ → List ℕ
adjacency_from_edges edges s = sorted (targets_of s edges)

abbrev pub insert_all : List ℕ → List ℕ → List ℕ
insert_all acc [] = acc
insert_all acc (d ∷ ds) = insert_all (insert acc d) ds

-- One hop: the targets of the frontier.
abbrev pub hop : (ℕ → List ℕ) → List ℕ → List ℕ → List ℕ
hop adj nxt [] = nxt
hop adj nxt (s ∷ rest) = hop adj (insert_all nxt (adj s)) rest

unfoldable pub expand_from : (ℕ → List ℕ) → ℕ → List ℕ → List ℕ → List ℕ
expand_from adj zero frontier seen = seen
expand_from adj (suc hops) frontier seen =
    elim (keep (λ d. not (contains seen d)) (hop adj [] frontier)) [
      | [] ↦ seen
      | d ∷ ds ↦ expand_from adj hops (d ∷ ds) (insert_all seen (d ∷ ds))
    ]

-- expand
abbrev pub expand : (ℕ → List ℕ) → List ℕ → ℕ → List ℕ
expand adj seeds hops = let start = insert_all [] seeds in expand_from adj hops start start

-- reachable_within_hops
abbrev pub reachable_within_hops : (ℕ → List ℕ) → ℕ → ℕ → List ℕ
reachable_within_hops adj src hops = keep (λ d. not (d == src)) (expand adj (src ∷ []) hops)
