-- ===== src/Gate/Reachable.antt =====
-- The breadth-first expansion of bench/wiki_h2h.py and bench/wiki_ppr_gate.py.
use tridb.Base.{
  sym, ap, ◌∙◌, ℕ, zero, suc, ◌+◌, ◌≤◌, ◌≡◌, ◌↔◌, refl, true, false, not, ◌||◌, List, [], ◌∷◌, keep,
  contains, arith, Bool-cases, List-cases, inl, inr,
}
use mathlib.Core.Path.{subst}
use tridb.Gate.Hop.{contains-insert_all, contains-keep, hop_sound, hop_complete}
use tridb.Gate.{insert_all, hop, expand_from, expand}

module _ (adj : ℕ → List ℕ) (seeds : List ℕ) where
  -- A walk of `n` hops from a seed.
  pub data Walks : ℕ → ℕ → Type 0 where
    at_seed : {s : ℕ} → contains seeds s ≡ true → Walks zero s
    onwards : {n s d : ℕ} → Walks n s → contains (adj s) d ≡ true → Walks (suc n) d

  abbrev pub Reaches : ℕ → ℕ → Type 0
  Reaches hops d = (n : ℕ) × (n ≤ hops) × Walks n d

  record IsRound (r : ℕ) (frontier seen : List ℕ) : Type 0 where
    pub sound : (d : ℕ) → contains seen d ≡ true → Reaches r d
    pub complete : (d : ℕ) → Reaches r d → contains seen d ≡ true
    pub closed :
        (s d : ℕ)
        → contains seen s ≡ true
        → contains frontier s ≡ false
        → contains (adj s) d ≡ true
        → contains seen d ≡ true
    pub inside : (d : ℕ) → contains frontier d ≡ true → contains seen d ≡ true

  abbrev next_frontier : List ℕ → List ℕ → List ℕ
  next_frontier frontier seen = keep (λ d. not (contains seen d)) (hop adj [] frontier)

  contains-next :
      (frontier seen : List ℕ) (d : ℕ)
      → contains (insert_all seen (next_frontier frontier seen)) d
        ≡ (contains seen d || contains (hop adj [] frontier) d)
  contains-next frontier seen d = ground (
    arith,
    contains-insert_all seen (next_frontier frontier seen) d,
    contains-keep (λ x. not (contains seen x)) (hop adj [] frontier) d,
  )

  one_hop :
      (r : ℕ) (frontier seen : List ℕ) (s d : ℕ)
      → IsRound r frontier seen
      → contains seen s ≡ true
      → contains (adj s) d ≡ true
      → contains (insert_all seen (next_frontier frontier seen)) d ≡ true
  one_hop r frontier seen s d h s_seen link =
      let out = contains-next frontier seen d in
      elim (Bool-cases (contains frontier s)) [
        | inl front ↦ ground (arith, out, hop_complete adj [] frontier s d front link)
        | inr back ↦ ground (arith, out, h.closed s d s_seen back link)
      ]

  reached-next :
      (r : ℕ) (frontier seen : List ℕ)
      → IsRound r frontier seen
      → (d n : ℕ) → n ≤ suc r
      → Walks n d
      → contains (insert_all seen (next_frontier frontier seen)) d ≡ true
  reached-next r frontier seen h d n few (at_seed seed) =
      ground (arith, contains-next frontier seen d, h.complete d (0, omega arith, at_seed seed))
  reached-next r frontier seen h d n few (onwards {n = m} {s = s} walk link) =
      one_hop r frontier seen s d h (h.complete s (m, omega (arith, few), walk)) link

  next-IsRound :
      (r : ℕ) (frontier seen : List ℕ)
      → IsRound r frontier seen
      → IsRound
          (suc r)
          (next_frontier frontier seen)
          (insert_all seen (next_frontier frontier seen))
  next-IsRound r frontier seen h =
      let nxt = next_frontier frontier seen in
      record {
        sound = λ d e. elim (Bool-cases (contains seen d)) [
          | inl old ↦ let (n, few, walk) = h.sound d old in (n, omega (arith, few), walk)
          | inr new ↦
              let hopped : contains (hop adj [] frontier) d ≡ true =
                ground (arith, contains-next frontier seen d, e, new) in
              let (s, front, link) = hop_sound adj [] frontier d hopped refl in
              let (n, few, walk) = h.sound s (h.inside s front) in
              (suc n, omega (arith, few), onwards walk link)
        ];
        complete = λ d w. reached-next r frontier seen h d w.0 w.1 w.2;
        closed = λ s d e out link.
            one_hop r frontier seen s d h (ground (arith, contains-insert_all seen nxt s, e, out))
              link;
        inside = λ d e. ground (arith, contains-insert_all seen nxt d, e);
      }

  turn-done :
      (hops : ℕ) (frontier seen : List ℕ)
      → next_frontier frontier seen ≡ []
      → expand_from adj (suc hops) frontier seen ≡ seen
  unfolding expand_from
  turn-done hops frontier seen e = rw (expand_from, e) refl

  turn-on :
      (hops x : ℕ) (xs frontier seen : List ℕ)
      → next_frontier frontier seen ≡ x ∷ xs
      → expand_from adj (suc hops) frontier seen
        ≡ expand_from adj hops
            (next_frontier frontier seen)
            (insert_all seen (next_frontier frontier seen))
  unfolding expand_from
  turn-on hops x xs frontier seen e = rw (expand_from, e) refl

  -- Once nothing is new, everything reachable is seen.
  all_seen :
      (r : ℕ) (frontier seen : List ℕ)
      → IsRound r frontier seen
      → next_frontier frontier seen ≡ []
      → (n d : ℕ) → Walks n d
      → contains seen d ≡ true
  all_seen r frontier seen h e n d (at_seed seed) = h.complete d (0, omega arith, at_seed seed)
  all_seen r frontier seen h e n d (onwards {n = m} {s = s} walk link) =
      let before = all_seen r frontier seen h e m s walk in
      ap (λ nxt. contains (insert_all seen nxt) d) (sym e)
      ∙ one_hop r frontier seen s d h before link

  expand_from-Reaches :
      (hops r : ℕ) (frontier seen : List ℕ) (d : ℕ)
      → IsRound r frontier seen
      → (contains (expand_from adj hops frontier seen) d ≡ true) ↔ Reaches (r + hops) d
  unfolding expand_from
  expand_from-Reaches zero r frontier seen d h =
      subst (λ m. (contains seen d ≡ true) ↔ Reaches m d) (omega arith) (h.sound d, h.complete d)
  expand_from-Reaches (suc hops) r frontier seen d h =
      elim (List-cases (next_frontier frontier seen)) [
        | inl e ↦
            let same = ap (λ l. contains l d) (turn-done hops frontier seen e) in
            (
              λ c. let (n, few, walk) = h.sound d (sym same ∙ c) in (n, omega (arith, few), walk),
              λ w. same ∙ all_seen r frontier seen h e w.0 d w.2,
            )
        | inr (x, xs, e) ↦
            let same = ap (λ l. contains l d) (turn-on hops x xs frontier seen e) in
            let more =
              expand_from-Reaches hops (suc r) (next_frontier frontier seen)
                (insert_all seen (next_frontier frontier seen)) d
                (next-IsRound r frontier seen h) in
            (
              λ c. let (n, few, walk) = more.0 (sym same ∙ c) in (n, omega (arith, few), walk),
              λ w. same ∙ more.1 (w.0, omega (arith, w.1), w.2),
            )
      ]

  reached-start : (d n : ℕ) → n ≤ 0 → Walks n d → contains (insert_all [] seeds) d ≡ true
  reached-start d n few (at_seed seed) = contains-insert_all [] seeds d ∙ seed
  reached-start d n few (onwards walk link) = absurd (omega (arith, few))

  start-IsRound : IsRound 0 (insert_all [] seeds) (insert_all [] seeds)
  start-IsRound =
      let start = insert_all [] seeds in
      record {
        sound = λ d e. (0, omega arith, at_seed (sym (contains-insert_all [] seeds d) ∙ e));
        complete = λ d w. reached-start d w.0 w.1 w.2;
        closed = λ s d e f link. absurd (cc);
        inside = λ d e. e;
      }

  -- Within `hops` hops of the seeds, `expand` finds exactly what some walk of at most `hops` edges
  -- reaches.
  pub contains-expand : (hops d : ℕ) → (contains (expand adj seeds hops) d ≡ true) ↔ Reaches hops d
  contains-expand hops d =
      subst (λ m. (contains (expand adj seeds hops) d ≡ true) ↔ Reaches m d) (omega arith)
        (expand_from-Reaches hops 0 (insert_all [] seeds) (insert_all [] seeds) d start-IsRound)
