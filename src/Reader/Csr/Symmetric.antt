-- ===== src/Reader/Csr/Symmetric.antt =====
-- In the undirected index, links go both ways; so the connection finder needs no assumption on it.
use tridb.Base.{
  sym, ap, ◌∙◌, ℕ, ◌≤◌, ◌<◌, ◌≡◌, refl, inl, inr, true, false, ◌||◌, some, List, [], ◌∷◌, ◌++◌,
  length, contains, arith, Bool-cases, max,
}
use native.Mathlib.Decide.{dec_lt}
use tridb.Reader.Paths.{Csr, undir_neighbors, connection_path}
use tridb.Reader.Paths.Connection.{Promises, connection_path-Promises}
use tridb.Reader.Csr.{sources_from, pairs, largest, sort_pairs, build_undirected_csr}
use tridb.Reader.Csr.Slices.{IsIndex, is_link, has_pair-is_link, length-sources}
use tridb.Reader.Csr.Groups.{
  Edges, has_pair, sort_pairs-Rising, has_pair-sort_pairs, contains-index_of, beyond-index_of,
}

-- The pairs of the index of the links.
abbrev links : Csr → Edges
links c = pairs (sources_from 0 c.off) c.dst

has_pair-append :
    (us vs us' vs' : List ℕ) (x y : ℕ)
    → length us ≡ length vs
    → has_pair (pairs (us ++ us') (vs ++ vs')) x y
      ≡ (has_pair (pairs us vs) x y || has_pair (pairs us' vs') x y)
has_pair-append [] [] us' vs' x y h = refl
has_pair-append [] (v ∷ vs) us' vs' x y h = absurd (omega arith)
has_pair-append (u ∷ us) [] us' vs' x y h = absurd (omega arith)
has_pair-append (u ∷ us) (v ∷ vs) us' vs' x y h =
    ground (arith, has_pair-append us vs us' vs' x y (omega arith))

has_pair_swapped :
    (us vs : List ℕ) (x y : ℕ) → has_pair (pairs us vs) x y ≡ has_pair (pairs vs us) y x
has_pair_swapped [] [] x y = refl
has_pair_swapped [] (v ∷ vs) x y = refl
has_pair_swapped (u ∷ us) [] x y = refl
has_pair_swapped (u ∷ us) (v ∷ vs) x y = ground (arith, has_pair_swapped us vs x y)

has_pair-largest : (us vs : List ℕ) (x y : ℕ) → has_pair (pairs us vs) x y ≡ true → x ≤ largest us
has_pair-largest [] vs x y h = absurd (cc)
has_pair-largest (u ∷ us) [] x y h = absurd (cc)
has_pair-largest (u ∷ us) (v ∷ vs) x y h = ground (arith, has_pair-largest us vs x y)

-- In the undirected index two nodes are neighbours exactly when one of them links to the other.
contains-undir_neighbors :
    (c : Csr) (x y : ℕ)
    → IsIndex c
    → contains (undir_neighbors (build_undirected_csr c) x) y ≡ (is_link c x y || is_link c y x)
unfolding build_undirected_csr
contains-undir_neighbors c x y index =
    let src = sources_from 0 c.off in
    let u = src ++ c.dst in
    let v = c.dst ++ src in
    let es = pairs u v in
    let max_id = max (largest u) (largest v) in
    let joined : has_pair es x y ≡ (is_link c x y || is_link c y x) =
      has_pair-append src c.dst c.dst src x y (length-sources c index)
      ∙ ap (λ e. has_pair (links c) x y || e) (has_pair_swapped c.dst src x y)
      ∙ ap (λ e. e || has_pair (links c) y x) (has_pair-is_link c x y index)
      ∙ ap (λ e. is_link c x y || e) (has_pair-is_link c y x index) in
    elim (dec_lt max_id x) [
      | no inside ↦
          contains-index_of (sort_pairs es) max_id x y (sort_pairs-Rising es)
            (omega (arith, inside))
          ∙ (has_pair-sort_pairs es x y ∙ joined)
      | yes beyond ↦
          beyond-index_of (sort_pairs es) max_id x y beyond
          ∙ (sym (not_listed u v x y (omega (arith, beyond))) ∙ joined)
    ]
  where
    not_listed : (us vs : List ℕ) (x y : ℕ) → largest us < x → has_pair (pairs us vs) x y ≡ false
    not_listed us vs x y h = elim (Bool-cases (has_pair (pairs us vs) x y)) [
      | inl listed ↦ absurd (omega (arith, has_pair-largest us vs x y listed))
      | inr other ↦ other
    ]

both_ways :
    (c : Csr) (x y : ℕ)
    → IsIndex c
    → contains (undir_neighbors (build_undirected_csr c) x) y ≡ true
    → contains (undir_neighbors (build_undirected_csr c) y) x ≡ true
both_ways c x y index h =
    ground (arith, contains-undir_neighbors c x y index, contains-undir_neighbors c y x index, h)

-- For the index of any links, whose offsets climb from 0 to the number of its targets: in the
-- undirected index that is built of it, two nodes are neighbours exactly when one of them links to
-- the other; and over it connection_path answers with a chain of links, in either direction, from
-- `a` to `b`, of at most `max_hops` links, that no other way undercuts; or with None, and then
-- every way is longer than `max_hops`, or the search has touched more than `max_expand` nodes.
-- Reading a parent never fails.
pub connection_path-build_undirected_csr :
    (c : Csr) (a b max_hops max_expand : ℕ)
    → IsIndex c
    → let index = build_undirected_csr c in
      ((x y : ℕ) → contains (undir_neighbors index x) y ≡ (is_link c x y || is_link c y x))
      × Promises index a b max_hops max_expand
          (connection_path (some index) a b max_hops max_expand)
connection_path-build_undirected_csr c a b max_hops max_expand index = (
  λ x y. contains-undir_neighbors c x y index,
  connection_path-Promises (build_undirected_csr c) (λ x y. both_ways c x y index) a b max_hops
      max_expand,
)
