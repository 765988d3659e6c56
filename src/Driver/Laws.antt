-- ===== src/Driver/Laws.antt =====
-- What the early-terminating walk of bench/driver.py returns and costs.
use Prim.Native.String.{String}
use tridb.Base.{
  sym, ap, ◌∙◌, ℕ, ◌+◌, ◌≤◌, ◌<◌, ◌≡◌, refl, true, false, not, ◌&&◌, List, [], ◌∷◌, ◌++◌, map, leb,
  length, take, contains, insert, arith, length-take, length-map, Bool-cases, inl, inr,
  count-le-length, length-keep, append_assoc, append_nil, take_enough,
}
use tridb.Base.Sort.{length-sort}
use tridb.Driver.{
  Corpus, adjacency, ranked_src, chunk_of, Walk, working_of, gather, enter, walk, fresh_walk,
  run_query, in_range,
}

-- All the chunks that the query asks for, source by source, without a limit.
abbrev pub mark : List ℕ → List ℕ → List ℕ
mark seen [] = seen
mark seen (dst ∷ rest) = mark (insert seen dst) rest

abbrev pub every_chunk : Corpus → List ℕ → List ℕ → List ℕ → List String
every_chunk c time_range seen [] = []
every_chunk c time_range seen (src ∷ rest) =
    let working = working_of c time_range seen src in
    map (chunk_of c) working ++ every_chunk c time_range (mark seen working) rest

-- What the second inner loop leaves: either everything was taken and the walk goes on, or `k`
-- chunks are there and they are the first `k`.
record Gathered (c : Corpus) (k : ℕ) (working : List ℕ) (w t : Walk) : Type 0 where
  pub goes_on :
      leb k (length t.chunks) ≡ false
      → (t.chunks ≡ w.chunks ++ map (chunk_of c) working) × (t.seen_dst ≡ mark w.seen_dst working)
  pub stops :
      leb k (length t.chunks) ≡ true
      → (rest : List String)
      → take k t.chunks ≡ take k (w.chunks ++ (map (chunk_of c) working ++ rest))
  pub counters :
      (t.sources_examined ≡ w.sources_examined) × (t.peak_working_set ≡ w.peak_working_set)

gather-Gathered :
    (c : Corpus) (k : ℕ) (working : List ℕ) (w : Walk)
    → length w.chunks < k
    → Gathered c k working w (gather c k working w)
unfolding gather
gather-Gathered c k [] w h = record {
  goes_on = λ e. (sym (append_nil w.chunks), refl);
  stops = λ e. absurd (ground arith);
  counters = (refl, refl);
}
gather-Gathered c k (dst ∷ rest) w h =
    let more = w.chunks ++ chunk_of c dst ∷ [] in
    let w' : Walk = record w { seen_dst = insert w.seen_dst dst; chunks = more } in
    elim (Bool-cases (leb k (length more))) [
      | inl full ↦ rw full (record {
        goes_on = λ e. absurd (cc);
        stops = λ e ys.
            sym (take_enough k more (map (chunk_of c) rest ++ ys) (ground arith))
            ∙ ap (take k)
                (append_assoc w.chunks (chunk_of c dst ∷ []) (map (chunk_of c) rest ++ ys));
        counters = (refl, refl);
      })
      | inr room ↦ rw room (
          let ih = gather-Gathered c k rest w' (ground arith) in
          record {
            goes_on = λ e. (
              (ih.goes_on e).0
                  ∙ append_assoc w.chunks (chunk_of c dst ∷ []) (map (chunk_of c) rest),
              (ih.goes_on e).1,
            );
            stops = λ e ys.
                ih.stops e ys
                ∙ ap (take k)
                    (append_assoc w.chunks (chunk_of c dst ∷ []) (map (chunk_of c) rest ++ ys));
            counters = ih.counters;
          })
    ]

chunks-walk :
    (c : Corpus) (range : List ℕ) (k : ℕ) (srcs : List ℕ) (w : Walk)
    → length w.chunks < k
    → take k (walk c range k srcs w).chunks
      ≡ take k (w.chunks ++ every_chunk c range w.seen_dst srcs)
unfolding walk
chunks-walk c range k [] w h = ap (take k) (sym (append_nil w.chunks))
chunks-walk c range k (src ∷ rest) w h =
    let working = working_of c range w.seen_dst src in
    let g = gather-Gathered c k working (enter working w) h in
    let w' = gather c k working (enter working w) in
    elim (Bool-cases (leb k (length w'.chunks))) [
      | inl full ↦ rw full (g.stops full _)
      | inr room ↦ rw room (
          let (taken, marked) = g.goes_on room in
          chunks-walk c range k rest w' (ground arith)
          ∙ ap (take k) (
              ap (λ l. l ++ every_chunk c range w'.seen_dst rest) taken
              ∙ append_assoc w.chunks (map (chunk_of c) working) _
              ∙ ap (λ seen. w.chunks ++ (map (chunk_of c) working ++ every_chunk c range seen rest))
                  marked))
    ]

working-adjacency :
    (c : Corpus) (range seen : List ℕ) (src : ℕ)
    → length (working_of c range seen src) ≤ length (adjacency c src)
working-adjacency c range seen src = omega (
  arith,
  length-keep (λ dst. not (contains seen dst) && in_range c range dst) (adjacency c src),
  count-le-length (λ dst. not (contains seen dst) && in_range c range dst) (adjacency c src),
)

cost-walk :
    (c : Corpus) (range : List ℕ) (k degree : ℕ) (srcs : List ℕ) (w : Walk)
    → ((src : ℕ) → length (adjacency c src) ≤ degree)
    → length w.chunks < k
    → w.peak_working_set < k + degree
    → let t = walk c range k srcs w in
      (t.sources_examined ≤ w.sources_examined + length srcs) × (t.peak_working_set < k + degree)
unfolding walk
cost-walk c range k degree [] w d h p = (omega arith, p)
cost-walk c range k degree (src ∷ rest) w d h p =
    let working = working_of c range w.seen_dst src in
    let small = working-adjacency c range w.seen_dst src in
    let fan = d src in
    let g = gather-Gathered c k working (enter working w) h in
    let (seen, peak) = g.counters in
    let w' = gather c k working (enter working w) in
    let under : w'.peak_working_set < k + degree = omega (arith, peak, small, fan, h, p) in
    elim (Bool-cases (leb k (length w'.chunks))) [
      | inl full ↦ rw full (omega (arith, seen), under)
      | inr room ↦ rw room (
          let (examined, most) = cost-walk c range k degree rest w' d (ground arith) under in
          (omega (arith, examined, seen), most))
    ]

-- For `k` of at least 1 the walk that stops early returns the first `k` of all the chunks that the
-- query asks for, source by source in order of similarity.
pub chunks-run_query :
    (c : Corpus) (qid k ms : ℕ) (q_emb range : List ℕ)
    → 0 < k
    → (run_query c qid q_emb range k ms).result_chunks
      ≡ take k (every_chunk c range [] (ranked_src c q_emb))
unfolding run_query
chunks-run_query c qid k ms q_emb range h = chunks-walk c range k (ranked_src c q_emb) fresh_walk h

-- For `k` of at least 1 and fan-outs of at most `degree`, the walk holds fewer than `k + degree`
-- rows at once, examines at most every entity, and returns at most `k` chunks.
run_query_cost :
    (c : Corpus) (qid k ms degree : ℕ) (q_emb range : List ℕ)
    → 0 < k
    → ((src : ℕ) → length (adjacency c src) ≤ degree)
    → let s = run_query c qid q_emb range k ms in
      (s.peak_intermediate_rows < k + degree)
      × (s.corpus_examined ≤ s.corpus_size)
      × (length s.result_chunks ≤ k)
unfolding run_query
run_query_cost c qid k ms degree q_emb range h d =
    let (examined, most) =
      cost-walk c range k degree (ranked_src c q_emb) fresh_walk d h (omega arith) in
    (
      most,
      omega (
        arith,
        examined,
        length-sort _ (map (λ e. e.id) c.entities),
        length-map (λ e. e.id) c.entities,
      ),
      omega (arith, length-take k (walk c range k (ranked_src c q_emb) fresh_walk).chunks),
    )
