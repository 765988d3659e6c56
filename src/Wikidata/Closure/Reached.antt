-- ===== src/Wikidata/Closure/Reached.antt =====
-- What `bfs_closure` of tools/wikidata_ingest.py returns, beside what can be reached.
use tridb.Base.{
  ℕ, zero, suc, ◌+◌, ◌≤◌, ◌<◌, ◌≡◌, refl, ap, ◌∙◌, true, false, some, List, [], ◌∷◌, ◌==◌, ==_self,
  length, contains, arith, Bool-cases, List-cases, ◌⊎◌, inl, inr, Distinct,
}
use tridb.Wikidata.Closure.{Search, discover, bfs_loop, bfs_closure}
use tridb.Wikidata.Closure.Discover.{Room, discover_lem}

-- Where the adjacency leads from the seeds.
pub data Reach (adjacency : ℕ → List ℕ) (seeds : List ℕ) : ℕ → Type 0 where
  seed : (v : ℕ) → contains seeds v ≡ true → Reach adjacency seeds v
  step :
      (u v : ℕ)
      → Reach adjacency seeds u
      → contains (adjacency u) v ≡ true
      → Reach adjacency seeds v

module _ (adjacency : ℕ → List ℕ) (seeds : List ℕ) (target : ℕ) where
  -- Between two rounds. While the search goes on, the seeds are kept, and of the kept ids only those
  -- in the queue may have neighbours that are not kept.
  record IsSearch (s : Search) : Type 0 where
    pub reached : (v : ℕ) → contains s.kept v ≡ true → Reach adjacency seeds v
    pub once : Distinct s.kept
    pub room : Room target s
    pub backed : length s.queue ≤ length s.kept
    pub seeded : s.full ≡ false → (v : ℕ) → contains seeds v ≡ true → contains s.kept v ≡ true
    pub closed :
        s.full ≡ false
        → (u v : ℕ) → contains s.kept u ≡ true
        → contains s.queue u ≡ false
        → contains (adjacency u) v ≡ true
        → contains s.kept v ≡ true
    pub inside : (v : ℕ) → contains s.queue v ≡ true → contains s.kept v ≡ true

  -- What the search returns.
  pub record IsClosure (kept : List ℕ) : Type 0 where
    pub reached : (v : ℕ) → contains kept v ≡ true → Reach adjacency seeds v
    pub once : Distinct kept
    pub complete :
        (target ≤ length kept) ⊎ ((v : ℕ) → Reach adjacency seeds v → contains kept v ≡ true)

  all_reached :
      (s : Search)
      → IsSearch s
      → s.full ≡ false
      → s.queue ≡ []
      → (v : ℕ) → Reach adjacency seeds v
      → contains s.kept v ≡ true
  all_reached s i on empty v (seed v' h) = i.seeded on v' h
  all_reached s i on empty v (step u v' r h) =
      i.closed on u v' (all_reached s i on empty u r) (ground arith) h

  IsSearch-round :
      (cur : ℕ) (rest : List ℕ) (s : Search)
      → IsSearch s
      → s.full ≡ false
      → s.queue ≡ cur ∷ rest
      → IsSearch (discover target (adjacency cur) (record s { queue = rest }))
  IsSearch-round cur rest s i on q =
      let popped : Search = record s { queue = rest } in
      let d = discover_lem target (adjacency cur) popped on i.room in
      let t = discover target (adjacency cur) popped in
      let here : contains s.kept cur ≡ true = i.inside cur (ground (arith, ==_self cur)) in
      let rest_in : (v : ℕ) → contains rest v ≡ true → contains s.kept v ≡ true =
        λ v h. i.inside v (ground arith) in
      let back : length rest < length s.kept = ground (arith, i.backed) in
      record {
        reached = λ v h. elim (d.members v h) [
          | inl old ↦ i.reached v old
          | inr new ↦ step cur v (i.reached cur here) new
        ];
        once = d.once i.once;
        room = d.room;
        backed = omega (arith, d.balance, back);
        seeded = λ e v h. d.grows v (i.seeded on v h);
        closed = λ e u v k w h. elim (Bool-cases (u == cur)) [
          | inl same ↦ ground (arith, d.all_new e v)
          | inr other ↦
              d.grows v
                (i.closed on u v (ground (arith, d.queued u k)) (ground (arith, d.waiting u)) h)
        ];
        inside = λ v h. ground (arith, d.inside v h, d.grows v, rest_in v);
      }

  loop_full : (fuel : ℕ) (s : Search) → s.full ≡ true → bfs_loop adjacency target fuel s ≡ some s
  unfolding bfs_loop
  loop_full zero s h = ground arith
  loop_full (suc fuel) s h = ground arith

  loop_empty :
      (fuel : ℕ) (s : Search)
      → s.full ≡ false
      → s.queue ≡ []
      → bfs_loop adjacency target fuel s ≡ some s
  unfolding bfs_loop
  loop_empty zero s h q = ground arith
  loop_empty (suc fuel) s h q = ground arith

  loop_pop :
      (fuel cur : ℕ) (rest : List ℕ) (s : Search)
      → s.full ≡ false
      → s.queue ≡ cur ∷ rest
      → bfs_loop adjacency target (suc fuel) s
        ≡ bfs_loop adjacency target fuel
            (discover target (adjacency cur) (record s { queue = rest }))
  unfolding bfs_loop
  loop_pop fuel cur rest s h q = ground arith

  -- The loop returns a closure.
  abbrev Returns : ℕ → Search → Type 0
  Returns fuel s = (t : Search) × (bfs_loop adjacency target fuel s ≡ some t) × IsClosure t.kept

  -- A search that is full, or has nothing left to expand, is returned.
  Returns-ended :
      (fuel : ℕ) (s : Search)
      → IsSearch s
      → (s.full ≡ true) ⊎ ((s.full ≡ false) × (s.queue ≡ []))
      → Returns fuel s
  Returns-ended fuel s i (inl full) = (
    s,
    loop_full fuel s full,
    record { reached = i.reached; once = i.once; complete = inl (i.room.1 full) },
  )
  Returns-ended fuel s i (inr (on, empty)) = (
    s,
    loop_empty fuel s on empty,
    record { reached = i.reached; once = i.once; complete = inr (all_reached s i on empty) },
  )

  Search-cases :
      (s : Search)
      → ((s.full ≡ true) ⊎ ((s.full ≡ false) × (s.queue ≡ [])))
        ⊎ ((s.full ≡ false) × ((cur : ℕ) × (rest : List ℕ) × (s.queue ≡ cur ∷ rest)))
  Search-cases s = elim (Bool-cases s.full) [
    | inl full ↦ inl (inl full)
    | inr on ↦ elim (List-cases s.queue) [
      | inl empty ↦ inl (inr (on, empty))
      | inr more ↦ inr (on, more)
    ]
  ]

  closure_lem :
      (fuel : ℕ) (s : Search)
      → IsSearch s
      → target + length s.queue ≤ fuel + length s.kept
      → Returns fuel s
  closure_lem zero s i h = elim (Search-cases s) [
    | inl ended ↦ Returns-ended zero s i ended
    | inr (on, (cur, rest, q)) ↦ absurd (ground (arith, i.room.0 on, i.backed, h, ap length q))
  ]
  closure_lem (suc fuel) s i h = elim (Search-cases s) [
    | inl ended ↦ Returns-ended (suc fuel) s i ended
    | inr (on, (cur, rest, q)) ↦
        let d = discover_lem target (adjacency cur) (record s { queue = rest }) on i.room in
        let (t, done, c) =
          closure_lem fuel (discover target (adjacency cur) (record s { queue = rest }))
            (IsSearch-round cur rest s i on q) (omega (arith, d.balance, h, ap length q)) in
        (t, loop_pop fuel cur rest s on q ∙ done, c)
  ]

-- The search that the loop over the seeds leaves.
seeded-IsSearch :
    (adjacency : ℕ → List ℕ) (seeds : List ℕ) (target : ℕ)
    → IsSearch adjacency seeds target
        (discover target seeds (record { kept = []; queue = []; full = false }))
seeded-IsSearch adjacency seeds target =
    let empty : Search = record { kept = []; queue = []; full = false } in
    let d = discover_lem target seeds empty refl (λ e. inl refl, λ e. absurd (cc)) in
    record {
      reached = λ v h. elim (d.members v h) [ inl old ↦ absurd (cc) | inr new ↦ seed v new ];
      once = d.once tt;
      room = d.room;
      backed = omega (arith, d.balance);
      seeded = d.all_new;
      closed =
          λ e u v k w h. elim (d.queued u k) [ inl old ↦ absurd (cc) | inr in_queue ↦ absurd (cc) ];
      inside = λ v h. elim (d.inside v h) [ inl old ↦ absurd (cc) | inr kept ↦ kept ];
    }

-- With fuel for `target` rounds bfs_closure returns, for any seeds and adjacency: every id is
-- reachable from the seeds and stands once, and there are at least `target` of them, or else all the reachable
-- ones.
pub bfs_closure_total :
    (seeds : List ℕ) (adjacency : ℕ → List ℕ) (target fuel : ℕ)
    → target ≤ fuel
    → (kept : List ℕ) × (bfs_closure seeds adjacency target fuel ≡ some kept)
      × IsClosure adjacency seeds target kept
unfolding bfs_closure
bfs_closure_total seeds adjacency target fuel h =
    let empty : Search = record { kept = []; queue = []; full = false } in
    let d = discover_lem target seeds empty refl (λ e. inl refl, λ e. absurd (cc)) in
    let (t, done, c) =
      closure_lem adjacency seeds target fuel (discover target seeds empty)
        (seeded-IsSearch adjacency seeds target) (omega (arith, d.balance, h)) in
    (t.kept, ground arith, c)
