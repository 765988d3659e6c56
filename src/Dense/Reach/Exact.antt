-- ===== src/Dense/Reach/Exact.antt =====
-- typed_reach ends, and finds exactly what the edges of the property reach.
use tridb.Base.{
  sym, ap, ◌∙◌, ℕ, suc, ◌+◌, ◌≤◌, ◌<◌, ◌≡◌, refl, inl, inr, true, Option, List, [], ◌∷◌, ◌++◌, ◌==◌,
  if◌then◌else◌, length, length-append, contains, contains-append, insert_known, arith, Bool-cases,
  map,
}
use tridb.Dense.{Adjacency, out_edges}
use tridb.Dense.Reach.{Queue, Search, matches, take_target, take_edges, all_targets}
use tridb.Dense.Reach.Queue.{
  queued, nodes-queued, queued-append, unvisited, unvisited-insert, Inv, discover, met_before,
  Taken,
}

-- The targets of the edges that have the property.
abbrev pub typed_targets : Option ℕ → List (ℕ × ℕ) → List ℕ
typed_targets p_id [] = []
typed_targets p_id ((pe, dst) ∷ rest) =
    let later = typed_targets p_id rest in if matches p_id pe then dst ∷ later else later

abbrev pub typed_links : Adjacency → Option ℕ → ℕ → List ℕ
typed_links adj p_id s = typed_targets p_id (out_edges adj s)

pub typed_targets-le :
    (p_id : Option ℕ) (es : List (ℕ × ℕ)) (y : ℕ)
    → contains (typed_targets p_id es) y ≡ true
    → contains (map (λ (e : ℕ × ℕ). e.1) es) y ≡ true
typed_targets-le p_id [] y h = absurd (cc)
typed_targets-le p_id ((pe, dst) ∷ rest) y h = ground (arith, typed_targets-le p_id rest y)

pub all_targets-out_edges :
    (adj : Adjacency) (s y : ℕ)
    → contains (map (λ (e : ℕ × ℕ). e.1) (out_edges adj s)) y ≡ true
    → contains (all_targets adj) y ≡ true
all_targets-out_edges [] s y h = absurd (cc)
all_targets-out_edges ((x, es) ∷ rest) s y h =
    let split = contains-append (map (λ (e : ℕ × ℕ). e.1) es) (all_targets rest) y in
    elim (Bool-cases (x == s)) [
      | inl same ↦
          let picked : out_edges ((x, es) ∷ rest) s ≡ es = rw same refl in
          let here : contains (map (λ (e : ℕ × ℕ). e.1) es) y ≡ true =
            ap (λ l. contains (map (λ (e : ℕ × ℕ). e.1) l) y) (sym picked) ∙ h in
          ground (arith, split, here)
      | inr other ↦
          let passed : out_edges ((x, es) ∷ rest) s ≡ out_edges rest s = rw other refl in
          let there : contains (map (λ (e : ℕ × ℕ). e.1) (out_edges rest s)) y ≡ true =
            ap (λ l. contains (map (λ (e : ℕ × ℕ). e.1) l) y) (sym passed) ∙ h in
          ground (arith, split, all_targets-out_edges rest s y there)
    ]

module _ (src hops : ℕ) (p_id : Option ℕ) (links : ℕ → List ℕ) (all : List ℕ) where
  Taken-next :
      (found now q : Queue) (cur k y : ℕ) (ys : List ℕ) (s v s' : Search)
      → ((x d : ℕ) → queued found x d ≡ true → queued now x d ≡ true)
      → ((e : ℕ) × (queued now y e ≡ true) × (e ≤ suc k))
      → unvisited all v.visited + length v.queue ≤ unvisited all s.visited + length s.queue
      → Taken src hops links all now cur k ys v s'
      → Taken src hops links all found cur k (y ∷ ys) s s'
  Taken-next found now q cur k y ys s v s' more here cost t = record {
    now = t.now;
    inv = t.inv;
    grown = λ x d h. t.grown x d (more x d h);
    reached = λ z h. elim (Bool-cases (y == z)) [
      | inl same ↦
          let (e, f, l) = here in
          let one : y ≡ z = ground arith in
          (e, ap (λ i. queued t.now i e) (sym one) ∙ t.grown y e f, l)
      | inr other ↦ t.reached z (ground arith)
    ];
    paid = omega (arith, cost, t.paid);
  }

  -- One target.
  record Stepped (found : Queue) (cur k y : ℕ) (s v : Search) : Type 0 where
    now : Queue
    inv : Inv src hops links now ((cur, k) ∷ v.queue) k v.seen v.visited
    more : (x d : ℕ) → queued found x d ≡ true → queued now x d ≡ true
    here : (e : ℕ) × (queued now y e ≡ true) × (e ≤ suc k)
    cost : unvisited all v.visited + length v.queue ≤ unvisited all s.visited + length s.queue

  take_target-Stepped :
      (found : Queue) (cur k y : ℕ) (s : Search)
      → Inv src hops links found ((cur, k) ∷ s.queue) k s.seen s.visited
      → k < hops
      → contains (links cur) y ≡ true
      → contains all y ≡ true
      → Stepped found cur k y s (take_target src k y s)
  take_target-Stepped found cur k y s inv few link listed =
      elim (Bool-cases (contains s.visited y)) [
        | inl old ↦
            let (e, f) = nodes-queued found y (sym (inv.known y) ∙ old) in
            record {
              now = found;
              inv = met_before src hops links found s.queue cur k y s.seen s.visited inv old;
              more = λ x d h. h;
              here = (e, f, (inv.walks y e f).2);
              cost = ground (arith, old, insert_known s.visited y old);
            }
        | inr new ↦
            let last : Queue = (y, k + 1) ∷ [] in
            record {
              now = found ++ last;
              inv = discover src hops links found s.queue cur k y s.seen s.visited inv few link new;
              more = λ x d h. ground (arith, queued-append found last x d, h);
              here = (k + 1, ground (arith, queued-append found last y (k + 1)), omega arith);
              cost = ground (
                arith,
                new,
                unvisited-insert all s.visited y listed new,
                length-append s.queue last,
              );
            }
      ]

  pub take_edges-Taken :
      (found : Queue) (cur k : ℕ) (es : List (ℕ × ℕ)) (s : Search)
      → Inv src hops links found ((cur, k) ∷ s.queue) k s.seen s.visited
      → k < hops
      → ((y : ℕ) → contains (typed_targets p_id es) y ≡ true → contains (links cur) y ≡ true)
      → ((y : ℕ) → contains (typed_targets p_id es) y ≡ true → contains all y ≡ true)
      → Taken src hops links all found cur k (typed_targets p_id es) s (take_edges src p_id k es s)
  unfolding take_edges
  take_edges-Taken found cur k [] s inv few ok listed = record {
    now = found;
    inv = inv;
    grown = λ x d h. h;
    reached = λ y h. absurd (cc);
    paid = omega arith;
  }
  take_edges-Taken found cur k ((pe, dst) ∷ rest) s inv few ok listed =
      elim (Bool-cases (matches p_id pe)) [
        | inr other ↦
            rw (take_edges, other)
              (take_edges-Taken found cur k rest s inv few (λ y h. ok y (ground (arith, other, h)))
                (λ y h. listed y (ground (arith, other, h))))
        | inl typed ↦
            rw (take_edges, typed)
              (let v = take_target src k dst s in
                let t =
                  take_target-Stepped found cur k dst s inv few (ok dst (ground (arith, typed)))
                    (listed dst (ground (arith, typed))) in
                Taken-next found t.now s.queue cur k dst (typed_targets p_id rest) s v _ t.more
                  t.here t.cost
                  (take_edges-Taken t.now cur k rest v t.inv few
                    (λ y h. ok y (ground (arith, typed, h)))
                    (λ y h. listed y (ground (arith, typed, h)))))
      ]
