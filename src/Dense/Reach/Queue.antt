-- ===== src/Dense/Reach/Queue.antt =====
-- What the queue of typed_reach keeps while the targets of one entity are taken.
use mathlib.Core.Path.{subst}
use tridb.Base.{
  ap, ◌∙◌, ℕ, suc, ◌+◌, ◌≤◌, ◌<◌, ◌≡◌, refl, inl, inr, Bool, true, false, not, ◌&&◌, ◌||◌, List, [],
  ◌∷◌, ◌++◌, ◌==◌, if◌then◌else◌, length, count, contains, insert, contains-insert, insert_known,
  arith, All, All-append, Bool-cases,
}
use tridb.Gate.Reachable.{Walks, onwards}
use tridb.Dense.Reach.{Queue, Search, take_target}

-- The entry is in the queue.
abbrev pub queued : Queue → ℕ → ℕ → Bool
queued [] x d = false
queued (e ∷ rest) x d = (e.0 == x && e.1 == d) || queued rest x d

abbrev pub nodes : Queue → List ℕ
nodes [] = []
nodes (e ∷ rest) = e.0 ∷ nodes rest

-- The depths do not fall.
abbrev pub Climbing : Queue → Type 0
Climbing [] = Unit
Climbing (e ∷ rest) = All (λ (f : ℕ × ℕ). e.1 ≤ f.1) rest × Climbing rest

pub queued-append : (q r : Queue) (x d : ℕ) → queued (q ++ r) x d ≡ (queued q x d || queued r x d)
queued-append [] r x d = refl
queued-append (e ∷ q) r x d = ground (arith, queued-append q r x d)

contains-nodes :
    (q r : Queue) (x : ℕ)
    → contains (nodes (q ++ r)) x ≡ (contains (nodes q) x || contains (nodes r) x)
contains-nodes [] r x = refl
contains-nodes (e ∷ q) r x = ground (arith, contains-nodes q r x)

pub queued-nodes : (q : Queue) (x d : ℕ) → queued q x d ≡ true → contains (nodes q) x ≡ true
queued-nodes [] x d h = absurd (cc)
queued-nodes (e ∷ q) x d h = ground (arith, queued-nodes q x d)

pub nodes-queued :
    (q : Queue) (x : ℕ) → contains (nodes q) x ≡ true → (d : ℕ) × (queued q x d ≡ true)
nodes-queued [] x h = absurd (cc)
nodes-queued (e ∷ q) x h = elim (Bool-cases (e.0 == x)) [
  | inl here ↦ (e.1, ground arith)
  | inr there ↦ let (d, known) = nodes-queued q x (ground arith) in (d, ground (arith, known))
]

Climbing-concat :
    (q : Queue) (x d : ℕ)
    → Climbing q
    → All (λ (f : ℕ × ℕ). f.1 ≤ d) q
    → Climbing (q ++ (x, d) ∷ [])
Climbing-concat [] x d c h = (tt, tt)
Climbing-concat (e ∷ q) x d c h = (
  All-append (λ (f : ℕ × ℕ). e.1 ≤ f.1) q ((x, d) ∷ []) c.0 (h.0, tt),
  Climbing-concat q x d c.1 h.1,
)

-- The nodes of `all` that are not visited, which the fuel counts.
abbrev pub unvisited : List ℕ → List ℕ → ℕ
unvisited all visited = count (λ x. not (contains visited x)) all

unvisited-insert-le :
    (all visited : List ℕ) (d : ℕ) → unvisited all (insert visited d) ≤ unvisited all visited
unvisited-insert-le [] visited d = omega arith
unvisited-insert-le (x ∷ rest) visited d =
    ground (arith, unvisited-insert-le rest visited d, contains-insert visited d x)

pub unvisited-insert :
    (all visited : List ℕ) (d : ℕ)
    → contains all d ≡ true
    → contains visited d ≡ false
    → unvisited all (insert visited d) < unvisited all visited
unvisited-insert [] visited d h new = absurd (cc)
unvisited-insert (x ∷ rest) visited d h new = elim (Bool-cases (x == d)) [
  | inl here ↦
      let gone : not (contains (insert visited d) x) ≡ false =
        ground (arith, contains-insert visited d x) in
      let same : x ≡ d = ground arith in
      let was : not (contains visited x) ≡ true =
        ap (λ i. not (contains visited i)) same ∙ ap not new in
      ground (arith, gone, was, unvisited-insert-le rest visited d)
  | inr there ↦
      ground
        (arith, unvisited-insert rest visited d (ground arith) new, contains-insert visited d x)
]

module _ (src hops : ℕ) (links : ℕ → List ℕ) where
  -- After some rounds: `found` is every entry that was ever queued, `pending` those whose targets
  -- have not been taken, `k` the depth of the last one taken.
  pub record Inv (found pending : Queue) (k : ℕ) (seen visited : List ℕ) : Type 0 where
    pub known : (x : ℕ) → contains visited x ≡ contains (nodes found) x
    pub noted : (x : ℕ) → contains seen x ≡ (contains visited x && not (x == src))
    pub walks :
        (x d : ℕ) → queued found x d ≡ true → Walks links (src ∷ []) d x × (d ≤ hops) × (d ≤ suc k)
    pub low : All (λ (f : ℕ × ℕ). k ≤ f.1) pending
    pub high : All (λ (f : ℕ × ℕ). f.1 ≤ suc k) pending
    pub climbing : Climbing pending
    pub inside : (x d : ℕ) → queued pending x d ≡ true → queued found x d ≡ true
    pub served :
        (x d y : ℕ)
        → queued found x d ≡ true
        → queued pending x d ≡ false
        → d < hops
        → contains (links x) y ≡ true
        → (e : ℕ) × (queued found y e ≡ true) × (e ≤ suc d)
    pub rooted : queued found src 0 ≡ true

  -- A target of `cur` is met for the first time.
  pub discover :
      (found q : Queue) (cur k y : ℕ) (seen visited : List ℕ)
      → Inv found ((cur, k) ∷ q) k seen visited
      → k < hops
      → contains (links cur) y ≡ true
      → contains visited y ≡ false
      → let s = take_target src k y (record { seen = seen; visited = visited; queue = q }) in
        Inv (found ++ (y, k + 1) ∷ []) ((cur, k) ∷ s.queue) k s.seen s.visited
  discover found q cur k y seen visited inv few link new =
      let n = k + 1 in
      let last : Queue = (y, n) ∷ [] in
      let (walk, near, close) = inv.walks cur k (inv.inside cur k (ground arith)) in
      rw new (record {
        known = λ x.
            ground (arith, contains-insert visited y x, contains-nodes found last x, inv.known x);
        noted =
            λ x. ground (arith, contains-insert seen y x, contains-insert visited y x, inv.noted x);
        walks = λ x d h. elim (Bool-cases (queued found x d)) [
          | inl old ↦ inv.walks x d old
          | inr fresh ↦
              let here : y ≡ x = ground (arith, queued-append found last x d) in
              let deep : suc k ≡ d = ground (arith, queued-append found last x d) in
              (
                subst (λ i. Walks links (src ∷ []) i x) deep
                    (subst (λ i. Walks links (src ∷ []) (suc k) i) here (onwards walk link)),
                omega (arith, deep),
                omega (arith, deep),
              )
        ];
        low = (omega arith, All-append (λ (f : ℕ × ℕ). k ≤ f.1) q last inv.low.1 (omega arith, tt));
        high = (
          omega arith,
          All-append (λ (f : ℕ × ℕ). f.1 ≤ suc k) q last inv.high.1 (omega arith, tt),
        );
        climbing = (
          All-append (λ (f : ℕ × ℕ). k ≤ f.1) q last inv.low.1 (omega arith, tt),
          Climbing-concat q y n inv.climbing.1
              (subst (λ i. All (λ (f : ℕ × ℕ). f.1 ≤ i) q) (omega arith) inv.high.1),
        );
        inside = λ x d h.
            ground (arith, queued-append q last x d, queued-append found last x d, inv.inside x d);
        served = λ x d z h out small lk.
            let old : queued found x d ≡ true =
              ground (arith, queued-append q last x d, queued-append found last x d, h, out) in
            let before : queued ((cur, k) ∷ q) x d ≡ false =
              ground (arith, queued-append q last x d, out) in
            let (e, f, l) = inv.served x d z old before small lk in
            (e, ground (arith, queued-append found last z e, f), l);
        rooted = ground (arith, queued-append found last src 0, inv.rooted);
      })

  -- A target that was met before changes nothing.
  pub met_before :
      (found q : Queue) (cur k y : ℕ) (seen visited : List ℕ)
      → Inv found ((cur, k) ∷ q) k seen visited
      → contains visited y ≡ true
      → let s = take_target src k y (record { seen = seen; visited = visited; queue = q }) in
        Inv found ((cur, k) ∷ s.queue) k s.seen s.visited
  met_before found q cur k y seen visited inv old =
      let same_seen : (if y == src then seen else insert seen y) ≡ seen =
        elim (Bool-cases (y == src)) [
          | inl root ↦ rw root refl
          | inr other ↦ rw other (insert_known seen y (ground (arith, inv.noted y)))
        ] in
      rw old (rw same_seen (rw (insert_known visited y old) inv))

  module _ (all : List ℕ) where
    -- The targets `ys` of `cur` have been taken.
    pub record Taken (found : Queue) (cur k : ℕ) (ys : List ℕ) (s s' : Search) : Type 0 where
      pub now : Queue
      pub inv : Inv now ((cur, k) ∷ s'.queue) k s'.seen s'.visited
      pub grown : (x d : ℕ) → queued found x d ≡ true → queued now x d ≡ true
      pub reached : (y : ℕ) → contains ys y ≡ true → (e : ℕ) × (queued now y e ≡ true) × (e ≤ suc k)
      pub paid :
          unvisited all s'.visited + length s'.queue ≤ unvisited all s.visited + length s.queue
