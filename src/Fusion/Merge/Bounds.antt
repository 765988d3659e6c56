-- ===== src/Fusion/Merge/Bounds.antt =====
-- The bookkeeping of `nra_fr_merge` in bench/tjs_open_ref.py: what a candidate's partial scores and
-- the rest of the streams say of its final score.
use tridb.Base.{
  ℕ, ◌+◌, ◌≤◌, ◌≡◌, refl, Bool, true, false, ◌||◌, Option, none, some, [], ◌∷◌, ◌==◌, if◌then◌else◌,
  arith, contains,
}
use tridb.Fusion.Scores.{Scores, score}
use tridb.Fusion.Merge.{
  Partial, unseen, Seen, ids, partial_of, change, see_vec, see_ppr, Frontier, worst, best, ceiling,
  frontier_after,
}

pub partial_of-change :
    (s : Seen) (i : ℕ) (f : Partial → Partial) (j : ℕ)
    → partial_of (change s i f) j ≡ (if i == j then f (partial_of s i) else partial_of s j)
partial_of-change [] i f j = ground arith
partial_of-change ((m, p) ∷ rest) i f j = ground (arith, partial_of-change rest i f j)

pub contains-change :
    (s : Seen) (i : ℕ) (f : Partial → Partial) (j : ℕ)
    → contains (ids (change s i f)) j ≡ (i == j || contains (ids s) j)
contains-change [] i f j = refl
contains-change ((m, p) ∷ rest) i f j = ground (arith, contains-change rest i f j)

pub partial_of-unseen : (s : Seen) (i : ℕ) → contains (ids s) i ≡ false → partial_of s i ≡ unseen
partial_of-unseen [] i h = refl
partial_of-unseen ((m, p) ∷ rest) i h = ground (arith, partial_of-unseen rest i)

-- An id is in a stream.
abbrev pub has : Scores → ℕ → Bool
has [] i = false
has ((j, x) ∷ rest) i = j == i || has rest i

pub score-absent : (m : Scores) (i : ℕ) → has m i ≡ false → score m i ≡ 0
score-absent [] i h = refl
score-absent ((j, x) ∷ rest) i h = ground (arith, score-absent rest i)

-- A stream: each id once, scores falling.
abbrev pub Stream : Scores → Type 0
Stream [] = Unit
Stream ((i, x) ∷ rest) = (has rest i ≡ false) × ((j : ℕ) → score rest j ≤ x) × Stream rest

-- The score that the candidate ends with on one leg: what is known, or what the stream still has.
abbrev pub final_leg : Option ℕ → Scores → ℕ → ℕ
final_leg none rest i = score rest i
final_leg (some x) rest i = x

abbrev pub final : Scores → Scores → Seen → ℕ → ℕ
final vs ps s i = final_leg (partial_of s i).vec vs i + final_leg (partial_of s i).ppr ps i

-- The rest of the streams speaks only of legs that are still open, and stays under the frontier.
pub record IsBounded (vs ps : Scores) (f : Frontier) (s : Seen) : Type 0 where
  pub vec_stream : Stream vs
  pub ppr_stream : Stream ps
  pub vec_open : (i : ℕ) → has vs i ≡ true → (partial_of s i).vec ≡ none
  pub ppr_open : (i : ℕ) → has ps i ≡ true → (partial_of s i).ppr ≡ none
  pub vec_under : (i : ℕ) → score vs i ≤ f.vec
  pub ppr_under : (i : ℕ) → score ps i ≤ f.ppr

-- Worst and best bracket the final score.
pub worst-le-final : (vs ps : Scores) (s : Seen) (i : ℕ) → worst s i ≤ final vs ps s i
worst-le-final vs ps s i = ground arith

pub final-le-best :
    (vs ps : Scores) (f : Frontier) (s : Seen) (i : ℕ)
    → IsBounded vs ps f s
    → final vs ps s i ≤ best f s i
final-le-best vs ps f s i b = ground (arith, b.vec_under i, b.ppr_under i)

-- Pulling an item changes no final score.
pub final-see_vec :
    (i x : ℕ) (vs ps : Scores) (f : Frontier) (s : Seen) (j : ℕ)
    → IsBounded ((i, x) ∷ vs) ps f s
    → final vs ps (see_vec s i x) j ≡ final ((i, x) ∷ vs) ps s j
final-see_vec i x vs ps f s j b =
    ground (arith, partial_of-change s i (λ p. record p { vec = some x }) j, b.vec_open i)

pub final-see_ppr :
    (i x : ℕ) (vs ps : Scores) (f : Frontier) (s : Seen) (j : ℕ)
    → IsBounded vs ((i, x) ∷ ps) f s
    → final vs ps (see_ppr s i x) j ≡ final vs ((i, x) ∷ ps) s j
final-see_ppr i x vs ps f s j b =
    ground (arith, partial_of-change s i (λ p. record p { ppr = some x }) j, b.ppr_open i)

ceiling_under : (m : Scores) (x : ℕ) → ((j : ℕ) → score m j ≤ x) → (j : ℕ) → score m j ≤ ceiling m x
ceiling_under [] x h j = omega arith
ceiling_under (e ∷ m) x h j = h j

pub IsBounded-see_vec :
    (i x : ℕ) (vs ps : Scores) (f : Frontier) (s : Seen)
    → IsBounded ((i, x) ∷ vs) ps f s
    → IsBounded vs ps (frontier_after vs ps x f.ppr) (see_vec s i x)
IsBounded-see_vec i x vs ps f s b = record {
  vec_stream = b.vec_stream.2;
  ppr_stream = b.ppr_stream;
  vec_open = λ j h. ground (
    arith,
    partial_of-change s i (λ p. record p { vec = some x }) j,
    b.vec_open j,
    b.vec_stream.0,
  );
  ppr_open =
      λ j h. ground (arith, partial_of-change s i (λ p. record p { vec = some x }) j, b.ppr_open j);
  vec_under = ceiling_under vs x b.vec_stream.1;
  ppr_under = ceiling_under ps f.ppr b.ppr_under;
}

pub IsBounded-see_ppr :
    (i x : ℕ) (vs ps : Scores) (f : Frontier) (s : Seen)
    → IsBounded vs ((i, x) ∷ ps) f s
    → IsBounded vs ps (frontier_after vs ps f.vec x) (see_ppr s i x)
IsBounded-see_ppr i x vs ps f s b = record {
  vec_stream = b.vec_stream;
  ppr_stream = b.ppr_stream.2;
  vec_open =
      λ j h. ground (arith, partial_of-change s i (λ p. record p { ppr = some x }) j, b.vec_open j);
  ppr_open = λ j h. ground (
    arith,
    partial_of-change s i (λ p. record p { ppr = some x }) j,
    b.ppr_open j,
    b.ppr_stream.0,
  );
  vec_under = ceiling_under vs f.vec b.vec_under;
  ppr_under = ceiling_under ps x b.ppr_stream.1;
}
