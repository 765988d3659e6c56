-- ===== src/Dense/Parity.antt =====
-- The graph that tools/wikidata_engine_load.py loads beside the one that bench/wikidata_h2h.py
-- measures.
use tridb.Base.{
  sym, ap, ◌∙◌, ℕ, ◌≡◌, refl, Option, none, some, List, [], ◌∷◌, ◌++◌, ◌==◌, if◌then◌else◌, arith,
  Bool-cases, inl, inr, append_assoc, append_nil,
}
use tridb.Base.Text.{Text}
use tridb.Dense.{
  Lookup, EdgeRow, rows_in, yielded, append_ends, kept_edges, iter_kept_edges, Adjacency,
  append_edge, adj_rows, load_typed_adj, out_edges,
}

-- The edges of one source, in order.
abbrev pub edges_from : ℕ → List (ℕ × ℕ × ℕ) → List (ℕ × ℕ)
edges_from src [] = []
edges_from src ((s, p, d) ∷ rest) =
    let later = edges_from src rest in if s == src then (p, d) ∷ later else later

edges_from-append :
    (src : ℕ) (xs ys : List (ℕ × ℕ × ℕ))
    → edges_from src (xs ++ ys) ≡ edges_from src xs ++ edges_from src ys
edges_from-append src [] ys = refl
edges_from-append src ((s, p, d) ∷ xs) ys = elim (Bool-cases (s == src)) [
  | inl here ↦ rw here (ap (λ l. (p, d) ∷ l) (edges_from-append src xs ys))
  | inr there ↦ rw there (edges_from-append src xs ys)
]

out_edges-append_edge :
    (adj : Adjacency) (s : ℕ) (e : ℕ × ℕ) (src : ℕ)
    → out_edges (append_edge adj s e) src
      ≡ (if s == src then out_edges adj src ++ e ∷ [] else out_edges adj src)
out_edges-append_edge [] s e src = refl
out_edges-append_edge ((x, es) ∷ rest) s e src = ground (arith, out_edges-append_edge rest s e src)

next_edge :
    (src s : ℕ) (e : ℕ × ℕ) (es : List (ℕ × ℕ))
    → (if s == src then es ++ e ∷ [] else es) ≡ es ++ (if s == src then e ∷ [] else [])
next_edge src s e es = elim (Bool-cases (s == src)) [
  | inl here ↦ rw here refl
  | inr there ↦ rw there (sym (append_nil es))
]

out_edges-append_ends :
    (s d : Option ℕ) (p : ℕ) (adj : Adjacency) (src : ℕ)
    → out_edges (append_ends s d p adj) src ≡ out_edges adj src ++ edges_from src (yielded s d p)
out_edges-append_ends none d p adj src = sym (append_nil (out_edges adj src))
out_edges-append_ends (some s) none p adj src = sym (append_nil (out_edges adj src))
out_edges-append_ends (some s) (some d) p adj src =
    out_edges-append_edge adj s (p, d) src ∙ next_edge src s (p, d) (out_edges adj src)

-- What is already there stays before what comes.
grown :
    (src : ℕ) (es fs : List (ℕ × ℕ)) (here later : List (ℕ × ℕ × ℕ))
    → fs ≡ es ++ edges_from src here
    → fs ++ edges_from src later ≡ es ++ edges_from src (here ++ later)
grown src es fs here later h =
    ap (λ l. l ++ edges_from src later) h
    ∙ append_assoc es (edges_from src here) (edges_from src later)
    ∙ ap (λ l. es ++ l) (sym (edges_from-append src here later))

out_edges-adj_rows :
    (qmap : Lookup) (rows : List EdgeRow) (adj : Adjacency) (src : ℕ)
    → out_edges (adj_rows qmap rows adj) src
      ≡ out_edges adj src ++ edges_from src (kept_edges qmap rows)
out_edges-adj_rows qmap [] adj src = sym (append_nil (out_edges adj src))
out_edges-adj_rows qmap (none ∷ rest) adj src = out_edges-adj_rows qmap rest adj src
out_edges-adj_rows qmap (some (s, p, d) ∷ rest) adj src =
    let adj' = append_ends (qmap s) (qmap d) p adj in
    out_edges-adj_rows qmap rest adj' src
    ∙ grown src (out_edges adj src) (out_edges adj' src) (yielded (qmap s) (qmap d) p)
        (kept_edges qmap rest) (out_edges-append_ends (qmap s) (qmap d) p adj src)

out_edges-load_typed_adj' :
    (read : Text → Option (List EdgeRow)) (qmap : Lookup) (paths : List Text) (adj : Adjacency)
    (src : ℕ)
    → out_edges (load_typed_adj read qmap paths adj) src
      ≡ out_edges adj src ++ edges_from src (iter_kept_edges read qmap paths)
unfolding load_typed_adj iter_kept_edges
out_edges-load_typed_adj' read qmap [] adj src = sym (append_nil (out_edges adj src))
out_edges-load_typed_adj' read qmap (path ∷ rest) adj src =
    let rows = rows_in (read path) in
    let adj' = adj_rows qmap rows adj in
    out_edges-load_typed_adj' read qmap rest adj' src
    ∙ grown src (out_edges adj src) (out_edges adj' src) (kept_edges qmap rows)
        (iter_kept_edges read qmap rest) (out_edges-adj_rows qmap rows adj src)

-- From every entity, the graph that the benchmark measures has the edges that the loader loads, with
-- their properties, their repetitions and their order.
pub out_edges-load_typed_adj :
    (read : Text → Option (List EdgeRow)) (qmap : Lookup) (paths : List Text) (src : ℕ)
    → out_edges (load_typed_adj read qmap paths []) src
      ≡ edges_from src (iter_kept_edges read qmap paths)
out_edges-load_typed_adj read qmap paths src = out_edges-load_typed_adj' read qmap paths [] src
