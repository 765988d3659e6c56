-- ===== src/Fusion/Merge/Correct.antt =====
-- `nra_fr_merge` of bench/tjs_open_ref.py from its first pull to its answer.
use mathlib.Core.Path.{subst, sym}
use mathlib.Core.Logic.{⊎_elim}
use tridb.Base.{
  ℕ, zero, suc, ◌+◌, ◌≤◌, ◌<◌, ◌≡◌, refl, ap, true, false, ◌||◌, none, some, List, [], ◌∷◌, leb,
  length, arith, contains, Bool-cases, Option-cases, ◌⊎◌, inl, inr,
}
use tridb.Fusion.Scores.{Scores, score}
use tridb.Fusion.Merge.{
  Seen, ids, see_vec, see_ppr, Frontier, settled, frontier_after, or_go_on, Answer, merge_loop,
  first_score, nra_fr_merge,
}
use tridb.Fusion.Merge.Bounds.{
  contains-change, has, Stream, final, IsBounded, final-see_vec, final-see_ppr, IsBounded-see_vec,
  IsBounded-see_ppr,
}
use tridb.Fusion.Merge.Answer.{Top, IsAnswer, IsAnswer-settled, IsAnswer-drained}

-- An answer for the state after a pull is one for the state before.
IsAnswer-back :
    (k : ℕ) (vs ps vs' ps' : Scores) (s s' : Seen) (res : List ℕ)
    → ((j : ℕ) → final vs' ps' s' j ≡ final vs ps s j)
    → ((j : ℕ)
        → (contains (ids s) j || (has vs j || has ps j)) ≡ true
        → (contains (ids s') j || (has vs' j || has ps' j)) ≡ true)
    → IsAnswer k vs' ps' s' res
    → IsAnswer k vs ps s res
IsAnswer-back k vs ps vs' ps' s s' res same more ans = record {
  top = λ a b p q. omega (arith, same a, same b, ans.top a b p q);
  full = ⊎_elim inl (λ h. inr (λ i m. h i (more i m))) ans.full;
}

goes_on :
    (k : ℕ) (f : Frontier) (s : Seen) (rest : Answer)
    → settled k f s ≡ none
    → or_go_on k f s rest ≡ rest
goes_on k f s rest h = ground arith

stops :
    (k : ℕ) (f : Frontier) (s : Seen) (rest : Answer) (top : List ℕ)
    → settled k f s ≡ some top
    → or_go_on k f s rest ≡ (top, length (ids s))
stops k f s rest top h = ground arith

-- One round: the early answer, or that of the rest.
IsAnswer-round :
    (k : ℕ) (vs ps : Scores) (f : Frontier) (s : Seen) (rest : Answer)
    → IsBounded vs ps f s
    → IsAnswer (suc k) vs ps s rest.0
    → IsAnswer (suc k) vs ps s (or_go_on (suc k) f s rest).0
IsAnswer-round k vs ps f s rest b h = elim (Option-cases (settled (suc k) f s)) [
  | inl on ↦
      subst (IsAnswer (suc k) vs ps s)
        (ap (λ (r : Answer). r.0) (sym (goes_on (suc k) f s rest on))) h
  | inr (top, stop) ↦
      subst (IsAnswer (suc k) vs ps s)
        (ap (λ (r : Answer). r.0) (sym (stops (suc k) f s rest top stop)))
        (IsAnswer-settled k vs ps f s top b stop)
]

-- A pulled item is in `seen` afterwards.
pulled_vec :
    (i x : ℕ) (vs ps : Scores) (s : Seen) (j : ℕ)
    → (contains (ids s) j || (has ((i, x) ∷ vs) j || has ps j)) ≡ true
    → (contains (ids (see_vec s i x)) j || (has vs j || has ps j)) ≡ true
pulled_vec i x vs ps s j h = ground (arith, contains-change s i (λ p. record p { vec = some x }) j)

pulled_ppr :
    (i x : ℕ) (vs ps : Scores) (s : Seen) (j : ℕ)
    → (contains (ids s) j || (has vs j || has ((i, x) ∷ ps) j)) ≡ true
    → (contains (ids (see_ppr s i x)) j || (has vs j || has ps j)) ≡ true
pulled_ppr i x vs ps s j h = ground (arith, contains-change s i (λ p. record p { ppr = some x }) j)

module _ (k : ℕ) where
  -- The round that pulls from the vector stream, given the rest of the loop.
  vec_round :
      (i x : ℕ) (vs ps : Scores) (f : Frontier) (s : Seen)
      → IsBounded ((i, x) ∷ vs) ps f s
      → (rest : Answer) → IsAnswer (suc k) vs ps (see_vec s i x) rest.0
      → IsAnswer
          (suc k)
          ((i, x) ∷ vs)
          ps
          s
          (or_go_on (suc k) (frontier_after vs ps x f.ppr) (see_vec s i x) rest).0
  vec_round i x vs ps f s b rest h =
      IsAnswer-back (suc k) ((i, x) ∷ vs) ps vs ps s (see_vec s i x) _
        (λ j. final-see_vec i x vs ps f s j b) (pulled_vec i x vs ps s)
        (IsAnswer-round k vs ps _ (see_vec s i x) rest (IsBounded-see_vec i x vs ps f s b) h)

  ppr_round :
      (i x : ℕ) (vs ps : Scores) (f : Frontier) (s : Seen)
      → IsBounded vs ((i, x) ∷ ps) f s
      → (rest : Answer) → IsAnswer (suc k) vs ps (see_ppr s i x) rest.0
      → IsAnswer
          (suc k)
          vs
          ((i, x) ∷ ps)
          s
          (or_go_on (suc k) (frontier_after vs ps f.vec x) (see_ppr s i x) rest).0
  ppr_round i x vs ps f s b rest h =
      IsAnswer-back (suc k) vs ((i, x) ∷ ps) vs ps s (see_ppr s i x) _
        (λ j. final-see_ppr i x vs ps f s j b) (pulled_ppr i x vs ps s)
        (IsAnswer-round k vs ps _ (see_ppr s i x) rest (IsBounded-see_ppr i x vs ps f s b) h)

  loop_higher :
      (i x j y : ℕ) (vs ps : Scores) (f : Frontier) (s : Seen)
      → leb y x ≡ true
      → merge_loop (suc k) ((i, x) ∷ vs) ((j, y) ∷ ps) f s ≡ (
          let f' = frontier_after vs ((j, y) ∷ ps) x f.ppr in
          or_go_on
            (suc k)
            f'
            (see_vec s i x)
            (merge_loop (suc k) vs ((j, y) ∷ ps) f' (see_vec s i x)))
  unfolding merge_loop
  loop_higher i x j y vs ps f s h = rw (h, merge_loop)

  loop_lower :
      (i x j y : ℕ) (vs ps : Scores) (f : Frontier) (s : Seen)
      → leb y x ≡ false
      → merge_loop (suc k) ((i, x) ∷ vs) ((j, y) ∷ ps) f s ≡ (
          let f' = frontier_after ((i, x) ∷ vs) ps f.vec y in
          or_go_on
            (suc k)
            f'
            (see_ppr s j y)
            (merge_loop (suc k) ((i, x) ∷ vs) ps f' (see_ppr s j y)))
  unfolding merge_loop
  loop_lower i x j y vs ps f s h = rw (h, merge_loop)

  IsAnswer-loop :
      (vs ps : Scores) (f : Frontier) (s : Seen)
      → IsBounded vs ps f s
      → IsAnswer (suc k) vs ps s (merge_loop (suc k) vs ps f s).0
  unfolding merge_loop
  IsAnswer-loop [] [] f s b = IsAnswer-drained (suc k) s
  IsAnswer-loop ((i, x) ∷ vs) [] f s b =
      vec_round i x vs [] f s b _ (IsAnswer-loop vs [] _ _ (IsBounded-see_vec i x vs [] f s b))
  IsAnswer-loop [] ((j, y) ∷ ps) f s b =
      ppr_round j y [] ps f s b _ (IsAnswer-loop [] ps _ _ (IsBounded-see_ppr j y [] ps f s b))
  IsAnswer-loop ((i, x) ∷ vs) ((j, y) ∷ ps) f s b = elim (Bool-cases (leb y x)) [
    | inl higher ↦
        subst (λ (r : Answer). IsAnswer (suc k) ((i, x) ∷ vs) ((j, y) ∷ ps) s r.0)
          (sym (loop_higher i x j y vs ps f s higher))
          (vec_round i x vs ((j, y) ∷ ps) f s b _
            (IsAnswer-loop vs ((j, y) ∷ ps) _ _ (IsBounded-see_vec i x vs ((j, y) ∷ ps) f s b)))
    | inr lower ↦
        subst (λ (r : Answer). IsAnswer (suc k) ((i, x) ∷ vs) ((j, y) ∷ ps) s r.0)
          (sym (loop_lower i x j y vs ps f s lower))
          (ppr_round j y ((i, x) ∷ vs) ps f s b _
            (IsAnswer-loop ((i, x) ∷ vs) ps _ _ (IsBounded-see_ppr j y ((i, x) ∷ vs) ps f s b)))
  ]

-- The score that the code ranks by: the sum over the two streams, an absent leg counting 0.
abbrev pub fused_score : Scores → Scores → ℕ → ℕ
fused_score vec_stream ppr_stream i = score vec_stream i + score ppr_stream i

under_first : (m : Scores) → Stream m → (i : ℕ) → score m i ≤ first_score m
under_first [] h i = omega arith
under_first ((j, x) ∷ rest) h i = ground (arith, h.1 i)

IsBounded-start :
    (vs ps : Scores)
    → Stream vs
    → Stream ps
    → IsBounded vs ps (record { vec = first_score vs; ppr = first_score ps }) []
IsBounded-start vs ps v p = record {
  vec_stream = v;
  ppr_stream = p;
  vec_open = λ i h. refl;
  ppr_open = λ i h. refl;
  vec_under = under_first vs v;
  ppr_under = under_first ps p;
}

-- For streams of falling scores without repeated ids and k of at least 1, the merge, stopping early
-- or not, returns ids such that no id left out has a higher sum of its two scores than an id
-- returned, and it returns k ids unless it returns every id of the streams.
pub nra_fr_merge_top :
    (vec_stream ppr_stream : Scores) (k : ℕ)
    → Stream vec_stream
    → Stream ppr_stream
    → 0 < k
    → let top = (nra_fr_merge vec_stream ppr_stream k).0 in
      Top (fused_score vec_stream ppr_stream) top
      × ((length top ≡ k)
          ⊎ ((i : ℕ) → (has vec_stream i || has ppr_stream i) ≡ true → contains top i ≡ true))
unfolding nra_fr_merge
nra_fr_merge_top vs ps zero v p h = elim h [ ]
nra_fr_merge_top vs ps (suc k) v p h =
    let ans = IsAnswer-loop k vs ps _ [] (IsBounded-start vs ps v p) in (ans.top, ans.full)
