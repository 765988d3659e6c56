-- ===== src/Baseline/Parity.antt =====
-- The answers of bench/harness.py's baseline beside those of bench/driver.py's stub.
use tridb.Base.{
  sym, ap, ◌∙◌, ℕ, zero, suc, ◌*◌, ◌≤◌, ◌<◌, ◌≡◌, List, [], ◌∷◌, map, length, take, All, Distinct,
  arith, take_whole, length-map,
}
use tridb.Base.Sort.{length-sort}
use tridb.Driver.{Corpus, size, adjacency, ranked_src, distance_of, run_query}
use tridb.Driver.Laws.{every_chunk, chunks-run_query}
use tridb.Baseline.{vector_hits, collect, baseline_query_inprocess, ann_fanout}
use tridb.Baseline.Order.{Rising, Rising-sort, groups}
use tridb.Baseline.Groups.{sorted-groups}
use tridb.Baseline.Merge.{take-collect, fresh-groups}

All-take : (P : ℕ → Type 0) (n : ℕ) (xs : List ℕ) → All P xs → All P (take n xs)
All-take P zero xs h = tt
All-take P (suc n) [] h = tt
All-take P (suc n) (x ∷ xs) h = (h.0, All-take P n xs h.1)

Rising-take : (f : ℕ → ℕ) (n : ℕ) (xs : List ℕ) → Rising f xs → Rising f (take n xs)
Rising-take f zero xs h = tt
Rising-take f (suc n) [] h = tt
Rising-take f (suc n) (x ∷ xs) h = (All-take (λ y. f x < f y) n xs h.0, Rising-take f n xs h.1)

-- Where no two sources are equally far and no source names a target twice, the baseline returns, for
-- `k` of at least 1, the first `k` chunks that the query asks for from the sources it fetched.
chunks-baseline_query_inprocess :
    (c : Corpus) (qid k ms : ℕ) (q_emb range : List ℕ)
    → 0 < k
    → Distinct (map (distance_of c q_emb) (map (λ e. e.id) c.entities))
    → ((src : ℕ) → Distinct (adjacency c src))
    → (baseline_query_inprocess c qid q_emb range k ms).result_chunks
      ≡ take k (every_chunk c range [] (vector_hits c q_emb k))
unfolding baseline_query_inprocess
chunks-baseline_query_inprocess c qid k ms q_emb range h apart single =
    let hits = vector_hits c q_emb k in
    let rising =
      Rising-take (distance_of c q_emb) _ (ranked_src c q_emb)
        (Rising-sort (distance_of c q_emb) (map (λ e. e.id) c.entities) apart) in
    ap (λ l. take k (collect c k [] [] l)) (sorted-groups c q_emb range hits c.edges rising)
    ∙ take-collect c k (groups c q_emb range hits c.edges) [] [] h
    ∙ ap (take k) (fresh-groups c q_emb range hits [] single)

all-vector_hits :
    (c : Corpus) (q_emb : List ℕ) (k : ℕ)
    → size c ≤ k * ann_fanout
    → vector_hits c q_emb k ≡ ranked_src c q_emb
all-vector_hits c q_emb k h =
    let ranked = ranked_src c q_emb in
    let n : length ranked ≡ size c =
      length-sort _ (map (λ e. e.id) c.entities) ∙ length-map (λ e. e.id) c.entities in
    ap (λ m. take m ranked) (omega (arith, n, h)) ∙ take_whole (length ranked) ranked (omega arith)

-- When k is at least 1, the over-fetch covers the corpus, all entities lie at different distances
-- from the query and no source has two edges to one target, both systems return the same chunks in
-- the same order.
pub baseline_query_inprocess-run_query :
    (c : Corpus) (qid k ms ms' : ℕ) (q_emb range : List ℕ)
    → 0 < k
    → size c ≤ k * ann_fanout
    → Distinct (map (distance_of c q_emb) (map (λ e. e.id) c.entities))
    → ((src : ℕ) → Distinct (adjacency c src))
    → (baseline_query_inprocess c qid q_emb range k ms).result_chunks
      ≡ (run_query c qid q_emb range k ms').result_chunks
baseline_query_inprocess-run_query c qid k ms ms' q_emb range h small apart single =
    chunks-baseline_query_inprocess c qid k ms q_emb range h apart single
    ∙ ap (λ l. take k (every_chunk c range [] l)) (all-vector_hits c q_emb k small)
    ∙ sym (chunks-run_query c qid k ms' q_emb range h)
