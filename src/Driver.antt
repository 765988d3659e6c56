-- ===== src/Driver.antt =====
-- bench/driver.py: the corpus, and the stub driver that walks the sources in order of similarity and
-- stops once `k` chunks are found. Embeddings are fixed-point coordinates; the latency that the
-- clock measures is an argument.
pub mod Laws
pub mod Tests
use Prim.Native.String.{String}
use tridb.Base.{
  ℕ, zero, suc, ◌+◌, ◌-◌, ◌*◌, Bool, true, false, not, ◌&&◌, Option, none, some, List, [], ◌∷◌,
  ◌++◌, map, ◌==◌, leb, if◌then◌else◌, length, take, keep, contains, insert, max,
}
use tridb.Base.Sort.{sort}
use tridb.Metrics.{QuerySample}

pub record Entity : Type 0 where
  pub id : ℕ
  pub timestamp : ℕ
  pub chunk : String
  pub embedding : List ℕ

pub record Corpus : Type 0 where
  pub entities : List Entity
  pub edges : List (ℕ × ℕ)

abbrev pub size : Corpus → ℕ
size c = length c.entities

-- Corpus.adjacency, read at one source; the cache keeps what is computed.
abbrev pub targets : List (ℕ × ℕ) → ℕ → List ℕ
targets [] src = []
targets ((s, d) ∷ rest) src = if s == src then d ∷ targets rest src else targets rest src

abbrev pub adjacency : Corpus → ℕ → List ℕ
adjacency c src = targets c.edges src

-- corpus.entities.get(dst)
abbrev pub entity_of : List Entity → ℕ → Option Entity
entity_of [] i = none
entity_of (e ∷ rest) i = if e.id == i then some e else entity_of rest i

-- _l2_sq
abbrev pub l2_sq : List ℕ → List ℕ → ℕ
l2_sq [] b = 0
l2_sq (x ∷ a) [] = 0
l2_sq (x ∷ a) (y ∷ b) = let gap = (x - y) + (y - x) in gap * gap + l2_sq a b

abbrev pub distance_of : Corpus → List ℕ → ℕ → ℕ
distance_of c q_emb i = elim (entity_of c.entities i) [
  | none ↦ 0
  | some e ↦ l2_sq e.embedding q_emb
]

abbrev pub ranked_src : Corpus → List ℕ → List ℕ
ranked_src c q_emb =
    sort (λ i j. leb (distance_of c q_emb i) (distance_of c q_emb j)) (map (λ e. e.id) c.entities)

abbrev pub in_range : Corpus → List ℕ → ℕ → Bool
in_range c time_range dst = elim (entity_of c.entities dst) [
  | none ↦ false
  | some e ↦ contains time_range e.timestamp
]

-- corpus.entities[dst]["chunk"] of an id that is in range.
abbrev pub chunk_of : Corpus → ℕ → String
chunk_of c dst = elim (entity_of c.entities dst) [ none ↦ "" | some e ↦ e.chunk ]

-- The walk's state.
pub record Walk : Type 0 where
  pub chunks : List String
  pub seen_dst : List ℕ
  pub sources_examined : ℕ
  pub peak_working_set : ℕ

-- The first inner loop: the neighbours not seen from an earlier source, in the time range.
abbrev pub working_of : Corpus → List ℕ → List ℕ → ℕ → List ℕ
working_of c time_range seen src =
    keep (λ dst. not (contains seen dst) && in_range c time_range dst) (adjacency c src)

-- The second inner loop.
unfoldable pub gather : Corpus → ℕ → List ℕ → Walk → Walk
gather c k [] w = w
gather c k (dst ∷ rest) w =
    let w' = record w {
      seen_dst = insert w.seen_dst dst;
      chunks = w.chunks ++ chunk_of c dst ∷ [];
    } in
    let more = gather c k rest w' in if leb k (length w'.chunks) then w' else more

-- One source, up to its second loop.
abbrev pub enter : List ℕ → Walk → Walk
enter working w = record w {
  sources_examined = w.sources_examined + 1;
  peak_working_set = max w.peak_working_set (length working + length w.chunks);
}

unfoldable pub walk : Corpus → List ℕ → ℕ → List ℕ → Walk → Walk
unfolding gather
walk c time_range k [] w = w
walk c time_range k (src ∷ rest) w =
    let working = working_of c time_range w.seen_dst src in
    let w' = gather c k working (enter working w) in
    let more = walk c time_range k rest w' in if leb k (length w'.chunks) then w' else more

abbrev pub fresh_walk : Walk
fresh_walk = record { chunks = []; seen_dst = []; sources_examined = 0; peak_working_set = 0 }

-- StubDriver.run_query
unfoldable pub run_query : Corpus → ℕ → List ℕ → List ℕ → ℕ → ℕ → QuerySample
unfolding walk
run_query c qid q_emb time_range k latency_ms =
    let w = walk c time_range k (ranked_src c q_emb) fresh_walk in
    record {
      qid = qid;
      system = "tridb";
      k = k;
      latency_ms = latency_ms;
      peak_intermediate_rows = w.peak_working_set;
      corpus_examined = w.sources_examined;
      corpus_size = size c;
      result_chunks = take k w.chunks;
      txn_atomic = true;
    }
