-- ===== src/Dense/Reach/Reached.antt =====
-- typed_reach and candidates end, and return exactly what the edges of the property reach.
use mathlib.Core.Path.{subst, fun_ext}
use mathlib.Core.Option.{some-injective, none-ne-some}
use tridb.Base.{
  sym, ap, ◌∙◌, ℕ, zero, suc, ◌+◌, ◌≤◌, ◌<◌, ◌≡◌, ◌≢◌, ◌↔◌, refl, inl, inr, true, not, ◌&&◌, Option,
  Option-cases, none, map, some, List, [], ◌∷◌, ◌==◌, leb, length, count-le-length, contains, keep,
  arith, All, Bool-cases,
}
use tridb.Base.Sort.{sort, contains-sort}
use tridb.Gate.Hop.{contains-keep}
use tridb.Gate.Reachable.{Walks, at_seed, onwards, Reaches}
use tridb.Dense.{Adjacency, out_edges, find}
use tridb.Dense.Types.{TypeMap}
use tridb.Dense.Reach.{
  Queue, Search, take_edges, reach_loop, all_targets, typed_reach, has_type, candidates,
}
use tridb.Dense.Reach.Queue.{queued, unvisited, Inv, nodes-queued, queued-nodes}
use tridb.Dense.Reach.Exact.{
  typed_targets, typed_links, typed_targets-le, all_targets-out_edges, take_edges-Taken,
}

-- The targets of the edges of a property, or of all the edges.
abbrev pub property_targets : Option ℕ → List (ℕ × ℕ) → List ℕ
property_targets none es = map (λ (e : ℕ × ℕ). e.1) es
property_targets (some p) es = map (λ (e : ℕ × ℕ). e.1) (keep (λ (e : ℕ × ℕ). e.0 == p) es)

abbrev pub property_links : Adjacency → Option ℕ → ℕ → List ℕ
property_links adj p_id s = property_targets p_id (out_edges adj s)

-- The entity is listed with the type; with no type, any entity.
abbrev pub HasType : TypeMap → Option ℕ → ℕ → Type 0
HasType types none x = Unit
HasType types (some t) x = (ts : List ℕ) × (find types x ≡ some ts) × (contains ts t ≡ true)

module _ (src hops : ℕ) (links : ℕ → List ℕ) where
  -- The depth of the head is the depth to go on with.
  rebase :
      (found q : Queue) (cur d k : ℕ) (seen visited : List ℕ)
      → Inv src hops links found ((cur, d) ∷ q) k seen visited
      → Inv src hops links found ((cur, d) ∷ q) d seen visited
  rebase found q cur d k seen visited inv = record {
    known = inv.known;
    noted = inv.noted;
    walks =
        λ x e h. let (w, small, near) = inv.walks x e h in (w, small, omega (arith, near, inv.low));
    low = (omega arith, inv.climbing.0);
    high = (omega arith, deeper q inv.high.1);
    climbing = inv.climbing;
    inside = inv.inside;
    served = inv.served;
    rooted = inv.rooted;
  }
    where
      deeper : (q : Queue) → All (λ (f : ℕ × ℕ). f.1 ≤ suc k) q → All (λ (f : ℕ × ℕ). f.1 ≤ suc d) q
      deeper [] h = tt
      deeper (f ∷ rest) h = (omega (arith, h.0, inv.low), deeper rest h.1)

  -- The head has been dealt with.
  drop_head :
      (found q : Queue) (cur d : ℕ) (seen visited : List ℕ)
      → Inv src hops links found ((cur, d) ∷ q) d seen visited
      → ((y : ℕ)
          → d < hops
          → contains (links cur) y ≡ true
          → (e : ℕ) × (queued found y e ≡ true) × (e ≤ suc d))
      → Inv src hops links found q d seen visited
  drop_head found q cur d seen visited inv done = record {
    known = inv.known;
    noted = inv.noted;
    walks = inv.walks;
    low = inv.low.1;
    high = inv.high.1;
    climbing = inv.climbing.1;
    inside = λ x e h. inv.inside x e (ground (arith, h));
    served = λ x e y h out small link. elim (Bool-cases (cur == x && d == e)) [
      | inl this ↦
          let one : x ≡ cur = ground arith in
          let deep : d ≡ e = ground arith in
          let (i, f, l) = done y (omega arith) (ap (λ z. contains (links z) y) (sym one) ∙ link) in
          (i, f, omega (arith, l))
      | inr other ↦ inv.served x e y h (ground (arith, other, out)) small link
    ];
    rooted = inv.rooted;
  }

  -- Nothing is left to take.
  walked :
      (found : Queue) (k : ℕ) (seen visited : List ℕ)
      → Inv src hops links found [] k seen visited
      → (n x : ℕ) → Walks links (src ∷ []) n x
      → n ≤ hops
      → (e : ℕ) × (queued found x e ≡ true) × (e ≤ n)
  walked found k seen visited inv n x (at_seed seed) few =
      let here : src ≡ x = ground arith in
      (0, ap (λ i. queued found i 0) (sym here) ∙ inv.rooted, omega arith)
  walked found k seen visited inv n x (onwards {n = m} {s = z} walk link) few =
      let (e, f, l) = walked found k seen visited inv m z walk (omega (arith, few)) in
      let (i, g, j) = inv.served z e x f refl (omega (arith, l, few)) link in
      (i, g, omega (arith, j, l))

  abbrev pub Found : List ℕ → Type 0
  Found r = (x : ℕ) → (contains r x ≡ true) ↔ ((x ≢ src) × Reaches links (src ∷ []) hops x)

  seen-Found :
      (found : Queue) (k : ℕ) (seen visited : List ℕ)
      → Inv src hops links found [] k seen visited
      → Found seen
  seen-Found found k seen visited inv x = (
    λ h.
        let (e, f) = nodes-queued found x (ground (arith, inv.noted x, inv.known x, h)) in
        let (w, small, near) = inv.walks x e f in
        ((λ same. ground (arith, inv.noted x, h, same)), (e, small, w)),
    λ (differs, (n, few, w)).
        let (e, f, l) = walked found k seen visited inv n x w few in
        ground (arith, inv.noted x, inv.known x, queued-nodes found x e f, differs),
  )

module _ (adj : Adjacency) (src : ℕ) (p_id : Option ℕ) (hops : ℕ) where
  abbrev links : ℕ → List ℕ
  links = typed_links adj p_id

  loop-Found :
      (fuel : ℕ) (found pending : Queue) (k : ℕ) (seen visited : List ℕ)
      → Inv src hops links found pending k seen visited
      → unvisited (all_targets adj) visited + length pending ≤ fuel
      → (r : List ℕ) × (reach_loop adj src p_id hops fuel seen visited pending ≡ some r)
        × Found src hops links r
  unfolding reach_loop
  loop-Found fuel found [] k seen visited inv enough =
      (seen, refl, seen-Found src hops links found k seen visited inv)
  loop-Found zero found (x ∷ q) k seen visited inv enough = absurd (omega (arith, enough))
  loop-Found (suc fuel) found ((cur, d) ∷ q) k seen visited inv enough =
      let here = rebase src hops links found q cur d k seen visited inv in
      elim (Bool-cases (leb hops d)) [
        | inl deep ↦
            let rest =
              drop_head src hops links found q cur d seen visited here
                (λ y few link. absurd (ground (arith, deep, few))) in
            let (r, e, ok) = loop-Found fuel found q d seen visited rest (omega (arith, enough)) in
            (r, rw (reach_loop, deep) e, ok)
        | inr shallow ↦
            let s : Search = record { seen = seen; visited = visited; queue = q } in
            let s' = take_edges src p_id d (out_edges adj cur) s in
            let t =
              take_edges-Taken src hops p_id links (all_targets adj) found cur d (out_edges adj cur)
                s here (ground (arith, shallow)) (λ y h. h)
                (λ y h.
                  all_targets-out_edges adj cur y
                    (typed_targets-le p_id (out_edges adj cur) y h)) in
            let rest =
              drop_head src hops links t.now s'.queue cur d s'.seen s'.visited t.inv
                (λ y few link. t.reached y link) in
            let (r, e, ok) =
              loop-Found fuel t.now s'.queue d s'.seen s'.visited rest
                (omega (arith, enough, t.paid)) in
            (r, rw (reach_loop, shallow) e, ok)
      ]

  start-Inv : Inv src hops links ((src, 0) ∷ []) ((src, 0) ∷ []) 0 [] (src ∷ [])
  start-Inv = record {
    known = λ x. refl;
    noted = λ x. ground arith;
    walks = λ x d h.
        let here : src ≡ x = ground (arith, h) in
        let flat : 0 ≡ d = ground (arith, h) in
        (
          subst (λ i. Walks links (src ∷ []) i x) flat (at_seed (ground (arith, here))),
          omega (arith, flat),
          omega (arith, flat),
        );
    low = (omega arith, tt);
    high = (omega arith, tt);
    climbing = (tt, tt);
    inside = λ x d h. h;
    served = λ x d y h out small link. absurd (cc);
    rooted = ground arith;
  }

  typed_reach-Found :
      (r : List ℕ) × (typed_reach adj src p_id hops ≡ some r) × Found src hops links r
  unfolding typed_reach
  typed_reach-Found =
      loop-Found (suc (length (all_targets adj))) ((src, 0) ∷ []) ((src, 0) ∷ []) 0 [] (src ∷ [])
        start-Inv
        (omega (arith, count-le-length (λ x. not (contains (src ∷ []) x)) (all_targets adj)))

  property_targets-typed :
      (p_id : Option ℕ) (es : List (ℕ × ℕ)) → typed_targets p_id es ≡ property_targets p_id es
  property_targets-typed none [] = refl
  property_targets-typed none (e ∷ rest) = ap (λ l. e.1 ∷ l) (property_targets-typed none rest)
  property_targets-typed (some p) [] = refl
  property_targets-typed (some p) (e ∷ rest) = elim (Bool-cases (e.0 == p)) [
    | inl typed ↦ rw typed (ap (λ l. e.1 ∷ l) (property_targets-typed (some p) rest))
    | inr other ↦ rw other (property_targets-typed (some p) rest)
  ]

  has_type-HasType :
      (types : TypeMap) (t_id : Option ℕ) (x : ℕ)
      → (has_type types t_id x ≡ true) ↔ HasType types t_id x
  has_type-HasType types none x = (λ h. tt, λ h. refl)
  has_type-HasType types (some t) x = elim (Option-cases (find types x)) [
    | inl missing ↦ (
      λ h. absurd (ground (arith, missing, h)),
      λ (ts, known, listed). absurd (none-ne-some ts (sym missing ∙ known)),
    )
    | inr (us, there) ↦ (
      λ h. (us, there, ground (arith, there, h)),
      λ (ts, known, listed).
          let same : us ≡ ts = some-injective us ts (sym there ∙ known) in
          rw (has_type, there) (ap (λ l. contains l t) same ∙ listed),
    )
  ]

  -- typed_reach ends, and candidates returns exactly the entities that are listed with the type,
  -- other than `src`, that some walk of at most `hops` edges of the property reaches; with no
  -- property every edge counts, and with no type every entity.
  pub candidates-Reaches :
      (types : TypeMap) (t_id : Option ℕ)
      → (r : List ℕ) × (candidates adj types src p_id t_id hops ≡ some r)
        × ((x : ℕ)
            → (contains r x ≡ true) ↔ (
                (x ≢ src)
                × Reaches (property_links adj p_id) (src ∷ []) hops x
                × HasType types t_id x))
  unfolding candidates
  candidates-Reaches types t_id =
      let (r, e, found) = typed_reach-Found in
      let kept = keep (has_type types t_id) r in
      let member = λ (x : ℕ). contains-sort leb kept x ∙ contains-keep (has_type types t_id) r x in
      let same : links ≡ property_links adj p_id =
        fun_ext (λ s. property_targets-typed p_id (out_edges adj s)) in
      (
        sort leb kept,
        rw (candidates, e) refl,
        λ x. (
          λ h.
              let (differs, way) = (found x).0 (ground (arith, member x, h)) in
              (
                differs,
                subst (λ l. Reaches l (src ∷ []) hops x) same way,
                (has_type-HasType types t_id x).0 (ground (arith, member x, h)),
              ),
          λ (differs, way, typed).
              let back = subst (λ l. Reaches l (src ∷ []) hops x) (sym same) way in
              let known = (has_type-HasType types t_id x).1 typed in
              ground (arith, member x, (found x).1 (differs, back), known),
        ),
      )
