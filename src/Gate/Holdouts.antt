-- ===== src/Gate/Holdouts.antt =====
-- The loaded graph of bench/wiki_ppr_gate.py.
use tridb.Base.{
  sym, ap, ◌∙◌, ℕ, ◌≡◌, refl, Bool, true, false, not, ◌&&◌, ◌||◌, List, [], ◌∷◌, ◌++◌, ◌==◌, leb,
  keep, contains, arith, Bool-cases, inl, inr,
}
use tridb.Base.Sort.{contains-sort}
use tridb.Gate.{
  Edge, edge_eq, has_edge, add_edge, Adjacency, add_both, load_edges, build_load_edges, Sample,
  held_out, exclude_holdouts, targets_of, adjacency_from_edges,
}

has_edge-append :
    (xs ys : List Edge) (e : Edge) → has_edge (xs ++ ys) e ≡ (has_edge xs e || has_edge ys e)
has_edge-append [] ys e = refl
has_edge-append (x ∷ xs) ys e = ground (arith, has_edge-append xs ys e)

has_edge-same :
    (edges : List Edge) (a e : Edge) → edge_eq a e ≡ true → has_edge edges a ≡ has_edge edges e
has_edge-same [] a e h = refl
has_edge-same (x ∷ xs) a e h = ground (arith, has_edge-same xs a e h)

has_edge-add_edge :
    (edges : List Edge) (a e : Edge)
    → has_edge (add_edge edges a) e ≡ (edge_eq a e || has_edge edges e)
has_edge-add_edge edges a e = elim (Bool-cases (has_edge edges a)) [
  | inl old ↦ rw old (elim (Bool-cases (edge_eq a e)) [
    | inl same ↦ rw same (sym (has_edge-same edges a e same) ∙ old)
    | inr other ↦ rw other refl
  ])
  | inr new ↦ rw new (ground (arith, has_edge-append edges (a ∷ []) e))
]

has_edge-add_both :
    (s : ℕ) (ds : List ℕ) (edges : List Edge) (a b : ℕ)
    → has_edge (add_both s ds edges) (a, b)
      ≡ (has_edge edges (a, b) || (s == a && contains ds b) || (s == b && contains ds a))
has_edge-add_both s [] edges a b = ground arith
has_edge-add_both s (d ∷ ds) edges a b =
    let later = has_edge-add_both s ds (add_edge (add_edge edges (s, d)) (d, s)) a b in
    let outer = has_edge-add_edge (add_edge edges (s, d)) (d, s) (a, b) in
    let inner = has_edge-add_edge edges (s, d) (a, b) in ground (arith, later, outer, inner)

-- Some entry of the slice links `a` to `b`.
abbrev pub links : Adjacency → ℕ → ℕ → Bool
links [] a b = false
links ((s, ds) ∷ rest) a b = (s == a && contains ds b) || links rest a b

-- Some sample holds out the pair, in one direction or the other.
abbrev pub holds_out : List Sample → ℕ → ℕ → Bool
holds_out [] a b = false
holds_out (s ∷ rest) a b =
    (s.qid == a && contains s.gold b) || (s.qid == b && contains s.gold a) || holds_out rest a b

has_edge-load_edges :
    (adj : Adjacency) (edges : List Edge) (a b : ℕ)
    → has_edge (load_edges adj edges) (a, b)
      ≡ (has_edge edges (a, b) || links adj a b || links adj b a)
has_edge-load_edges [] edges a b = ground arith
has_edge-load_edges ((s, ds) ∷ rest) edges a b =
    let later = has_edge-load_edges rest (add_both s ds edges) a b in
    ground (arith, later, has_edge-add_both s ds edges a b)

has_edge-held_out :
    (samples : List Sample) (a b : ℕ) → has_edge (held_out samples) (a, b) ≡ holds_out samples a b
has_edge-held_out [] a b = refl
has_edge-held_out (s ∷ rest) a b =
    ground (arith, has_edge-add_both s.qid s.gold (held_out rest) a b, has_edge-held_out rest a b)

has_edge-keep :
    (removed edges : List Edge) (e : Edge)
    → has_edge (keep (λ x. not (has_edge removed x)) edges) e
      ≡ (has_edge edges e && not (has_edge removed e))
has_edge-keep removed [] e = refl
has_edge-keep removed (x ∷ xs) e =
    let later = has_edge-keep removed xs e in
    elim (Bool-cases (edge_eq x e)) [
      | inl same ↦ ground (arith, later, has_edge-same removed x e same)
      | inr other ↦ ground (arith, later)
    ]

-- The graph that is loaded has the edge from `a` to `b` exactly when the slice links one of the two
-- to the other and no sample holds the pair out, in either direction.
pub has_edge-exclude_holdouts :
    (adj : Adjacency) (samples : List Sample) (a b : ℕ)
    → has_edge (exclude_holdouts (build_load_edges adj) samples) (a, b)
      ≡ ((links adj a b || links adj b a) && not (holds_out samples a b))
has_edge-exclude_holdouts adj samples a b =
    has_edge-keep (held_out samples) (build_load_edges adj) (a, b)
    ∙ ap (λ h. h && not (has_edge (held_out samples) (a, b))) (has_edge-load_edges adj [] a b)
    ∙ ap (λ h. (links adj a b || links adj b a) && not h) (has_edge-held_out samples a b)

contains-targets_of :
    (s d : ℕ) (edges : List Edge) → contains (targets_of s edges) d ≡ has_edge edges (s, d)
contains-targets_of s d [] = refl
contains-targets_of s d ((a, b) ∷ rest) = ground (arith, contains-targets_of s d rest)

pub contains-adjacency_from_edges :
    (edges : List Edge) (s d : ℕ)
    → contains (adjacency_from_edges edges s) d ≡ has_edge edges (s, d)
contains-adjacency_from_edges edges s d =
    contains-sort leb (targets_of s edges) d ∙ contains-targets_of s d edges
