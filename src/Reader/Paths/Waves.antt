-- ===== src/Reader/Paths/Waves.antt =====
-- What the expansion of a frontier keeps, and what one side of the search knows after some rounds.
use tridb.Base.{
  ap, ◌∙◌, ℕ, suc, ◌≤◌, ◌<◌, ◌≡◌, refl, ◌⊎◌, inl, inr, true, false, ◌||◌, none, some, List, [], ◌∷◌,
  ◌++◌, ◌==◌, length, contains, contains-append, arith, Bool-cases,
}
use tridb.Reader.Pending.{put}
use tridb.Reader.Pending.Laws.{get-put}
use tridb.Reader.Paths.{Parents, has, Wave, scan, is_over, expand}
use tridb.Reader.Paths.Trees.{Back, up, IsTree, has-put, put-Back, length-put}

module _ (neighbours : ℕ → List ℕ) (a : ℕ) where
  -- A parent map whose ways back are at most `r` long and no longer than the map.
  pub record Grown (r : ℕ) (p : Parents) : Type 0 where
    pub tree : IsTree neighbours a p
    pub back : (x : ℕ) → has p x ≡ true → (d : ℕ) × (d ≤ r) × (d < length p) × Back p d x

  put-Grown :
      (r d node nb : ℕ) (p : Parents)
      → Grown (suc r) p
      → has p nb ≡ false
      → contains (neighbours node) nb ≡ true
      → d ≤ r
      → d < length p
      → Back p d node
      → Grown (suc r) (put p nb (some node))
  put-Grown r d node nb p g new link small short back = record {
    tree = record {
      top = λ x h. ground (arith, get-put p nb (some node) x, g.tree.top x);
      linked = λ x y h. elim (Bool-cases (nb == x)) [
        | inl same ↦ ground (arith, get-put p nb (some node) x, link)
        | inr differs ↦ ground (arith, get-put p nb (some node) x, g.tree.linked x y)
      ];
    };
    back = λ x h. elim (Bool-cases (nb == x)) [
      | inl same ↦ (
        suc d,
        omega arith,
        omega (arith, length-put p nb (some node) new),
        up node (ground (arith, get-put p nb (some node) x)) (put-Back p nb (some node) new back),
      )
      | inr differs ↦
          let (e, few, within, b) = g.back x (ground (arith, has-put p nb x (some node))) in
          (e, few, omega (arith, length-put p nb (some node) new), put-Back p nb (some node) new b)
    ];
  }

module _ (neighbours : ℕ → List ℕ) (a : ℕ) (other : Parents) where
  -- The map `p` of the side before, the map and the new nodes now; `apart` says that the sides have not met.
  pub record Growing (r : ℕ) (p : Parents) (w : Wave) : Type 0 where
    pub grown : Grown neighbours a (suc r) w.parent
    pub near :
        (x : ℕ) → has p x ≡ true → (d : ℕ) × (d ≤ r) × (d < length w.parent) × Back w.parent d x
    pub news : (x : ℕ) → has w.parent x ≡ true → (has p x || contains w.nxt x) ≡ true
    pub inside : (x : ℕ) → contains w.nxt x ≡ true → has w.parent x ≡ true
    pub apart : (x : ℕ) → has w.parent x ≡ true → has other x ≡ false

  -- The sides have met.
  pub record Met (r : ℕ) (w : Wave) (x : ℕ) : Type 0 where
    pub at : w.meet ≡ some x
    pub grown : Grown neighbours a (suc r) w.parent
    pub this : has w.parent x ≡ true
    pub that : has other x ≡ true

  put-Growing :
      (r node nb : ℕ) (p : Parents) (w : Wave)
      → Growing r p w
      → has p node ≡ true
      → contains (neighbours node) nb ≡ true
      → has w.parent nb ≡ false
      → has other nb ≡ false
      → Growing r p (record w { parent = put w.parent nb (some node); nxt = w.nxt ++ nb ∷ [] })
  put-Growing r node nb p w g known link new far =
      let (d, small, short, back) = g.near node known in
      record {
        grown = put-Grown neighbours a r d node nb w.parent g.grown new link small short back;
        near = λ x h.
            let (e, few, within, b) = g.near x h in
            (
              e,
              few,
              omega (arith, length-put w.parent nb (some node) new),
              put-Back w.parent nb (some node) new b,
            );
        news = λ x h.
            ground (
              arith,
              has-put w.parent nb x (some node),
              contains-append w.nxt (nb ∷ []) x,
              g.news x,
            );
        inside = λ x h. ground (
          arith,
          has-put w.parent nb x (some node),
          contains-append w.nxt (nb ∷ []) x,
          g.inside x,
        );
        apart = λ x h. elim (Bool-cases (nb == x)) [
          | inl same ↦ ground (arith, far)
          | inr differs ↦ g.apart x (ground (arith, has-put w.parent nb x (some node)))
        ];
      }

  -- After a part of the expansion that has not met the other side: what is known stays known.
  pub record Continues (r : ℕ) (p : Parents) (w w' : Wave) : Type 0 where
    pub unmet : w'.meet ≡ none
    pub growing : Growing r p w'
    pub more : (x : ℕ) → has w.parent x ≡ true → has w'.parent x ≡ true

  abbrev pub Scanned : ℕ → Parents → List ℕ → Wave → Wave → Type 0
  Scanned r p nbs w w' =
      ((x : ℕ) × Met r w' x)
      ⊎ (Continues r p w w' × ((y : ℕ) → contains nbs y ≡ true → has w'.parent y ≡ true))

  widen :
      (r nb : ℕ) (p : Parents) (rest : List ℕ) (w v w' : Wave)
      → has v.parent nb ≡ true
      → ((x : ℕ) → has w.parent x ≡ true → has v.parent x ≡ true)
      → Scanned r p rest v w'
      → Scanned r p (nb ∷ rest) w w'
  widen r nb p rest w v w' here wider (inl met) = inl met
  widen r nb p rest w v w' here wider (inr (c, seen)) = inr (
    record { unmet = c.unmet; growing = c.growing; more = λ x h. c.more x (wider x h) },
    λ y h. elim (Bool-cases (nb == y)) [
      | inl same ↦ c.more y (ground (arith, here))
      | inr differs ↦ seen y (ground arith)
    ],
  )

  scan-Scanned :
      (r node : ℕ) (p : Parents) (nbs : List ℕ) (w : Wave)
      → ((y : ℕ) → contains nbs y ≡ true → contains (neighbours node) y ≡ true)
      → has p node ≡ true
      → w.meet ≡ none
      → Growing r p w
      → Scanned r p nbs w (scan other node nbs w)
  unfolding scan
  scan-Scanned r node p [] w links known unmet g =
      inr (record { unmet = unmet; growing = g; more = λ x h. h }, λ y h. absurd (cc))
  scan-Scanned r node p (nb ∷ rest) w links known unmet g =
      let later : (y : ℕ) → contains rest y ≡ true → contains (neighbours node) y ≡ true =
        λ y h. links y (ground (arith, h)) in
      let link = links nb (ground arith) in
      elim (Bool-cases (has w.parent nb)) [
        | inl old ↦
            rw (scan, old)
              (widen r nb p rest w w _ old (λ x h. h)
                (scan-Scanned r node p rest w later known unmet g))
        | inr new ↦ elim (Bool-cases (has other nb)) [
          | inl there ↦
              rw (scan, new)
                (rw there (
                  let (d, small, short, back) = g.near node known in
                  inl (
                    nb,
                    record {
                      at = refl;
                      grown =
                          put-Grown neighbours a r d node nb w.parent g.grown new link small short
                            back;
                      this = ground (arith, has-put w.parent nb nb (some node));
                      that = there;
                    },
                  )))
          | inr far ↦
              rw (scan, new)
                (rw far (
                  let v : Wave = record w {
                    parent = put w.parent nb (some node);
                    nxt = w.nxt ++ nb ∷ [];
                  } in
                  widen r nb p rest w v _ (ground (arith, has-put w.parent nb nb (some node)))
                    (λ x h. ground (arith, has-put w.parent nb x (some node), h))
                    (scan-Scanned r node p rest v later known unmet
                      (put-Growing r node nb p w g known link new far))))
        ]
      ]

  module _ (max_expand : ℕ) where
    abbrev pub Expanded : ℕ → Parents → List ℕ → Wave → Wave → Type 0
    Expanded r p frontier w w' =
        ((x : ℕ) × Met r w' x)
        ⊎ (((w'.meet ≡ none) × (is_over max_expand w'.parent other ≡ true))
            ⊎ (Continues r p w w'
                × ((s y : ℕ)
                    → contains frontier s ≡ true
                    → contains (neighbours s) y ≡ true
                    → has w'.parent y ≡ true)))

    extend :
        (r node : ℕ) (p : Parents) (rest : List ℕ) (w v w' : Wave)
        → Continues r p w v
        → ((y : ℕ) → contains (neighbours node) y ≡ true → has v.parent y ≡ true)
        → Expanded r p rest v w'
        → Expanded r p (node ∷ rest) w w'
    extend r node p rest w v w' c here (inl met) = inl met
    extend r node p rest w v w' c here (inr (inl over)) = inr (inl over)
    extend r node p rest w v w' c here (inr (inr (c', seen))) = inr (
        inr (
          record { unmet = c'.unmet; growing = c'.growing; more = λ x h. c'.more x (c.more x h) },
          λ s y h link. elim (Bool-cases (node == s)) [
            | inl same ↦
                let one : node ≡ s = ground arith in
                c'.more y (here y (ap (λ i. contains (neighbours i) y) one ∙ link))
            | inr differs ↦ seen s y (ground arith) link
          ],
        ))

    pub expand-Expanded :
        (r : ℕ) (p : Parents) (frontier : List ℕ) (w : Wave)
        → ((s : ℕ) → contains frontier s ≡ true → has p s ≡ true)
        → w.meet ≡ none
        → Growing r p w
        → Expanded r p frontier w (expand neighbours max_expand other frontier w)
    unfolding expand
    expand-Expanded r p [] w known unmet g =
        inr (inr (record { unmet = unmet; growing = g; more = λ x h. h }, λ s y h. absurd (cc)))
    expand-Expanded r p (node ∷ rest) w known unmet g =
        let v = scan other node (neighbours node) w in
        elim (scan-Scanned r node p (neighbours node) w (λ y h. h) (known node (ground arith)) unmet
          g) [
            | inl (x, met) ↦ rw (expand, met.at) (inl (x, met))
            | inr (c, here) ↦
                rw (expand, c.unmet)
                  (elim (Bool-cases (is_over max_expand v.parent other)) [
                    | inl over ↦ rw over (inr (inl (c.unmet, over)))
                    | inr under ↦ rw under (
                        extend r node p rest w v _ c here (
                          expand-Expanded r p rest v (λ s h. known s (ground (arith, h))) c.unmet
                            c.growing))
                  ])
          ]
