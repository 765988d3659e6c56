-- ===== src/Reader/Paths/Trees.antt =====
-- The parent maps of the search: from every node they lead back to the root.
use mathlib.Core.Path.{subst}
use tridb.Base.{
  sym, ap, ◌∙◌, ℕ, zero, suc, ◌+◌, ◌≤◌, ◌≡◌, refl, true, false, ◌||◌, Option, none, some, List, [],
  ◌∷◌, ◌==◌, length, contains, arith,
}
use tridb.Reader.Pending.{get, put}
use tridb.Reader.Pending.Laws.{get-put}
use tridb.Reader.Paths.{Parents, has, trace, rev_onto}

module _ (neighbours : ℕ → List ℕ) where
  -- A walk of `n` links.
  pub data Walks (a : ℕ) : ℕ → ℕ → Type 0 where
    at_start : {x : ℕ} → a ≡ x → Walks a zero x
    onwards : {n x y : ℕ} → Walks a n x → contains (neighbours x) y ≡ true → Walks a (suc n) y

  -- A chain of linked nodes from `a` to `b`.
  abbrev pub Route : ℕ → ℕ → List ℕ → Type 0
  Route a b [] = ⊥
  Route a b (x ∷ []) = (a ≡ x) × (x ≡ b)
  Route a b (x ∷ y ∷ rest) = (a ≡ x) × (contains (neighbours x) y ≡ true) × Route y b (y ∷ rest)

-- The map leads from `x` back to the root in `d` steps.
pub data Back (p : Parents) : ℕ → ℕ → Type 0 where
  root : {x : ℕ} → get p x ≡ some none → Back p zero x
  up : {d x : ℕ} (y : ℕ) → get p x ≡ some (some y) → Back p d y → Back p (suc d) x

has-get : (p : Parents) (x : ℕ) (o : Option ℕ) → get p x ≡ some o → has p x ≡ true
has-get p x o h = rw (has, h) refl

pub has-put : (p : Parents) (x k : ℕ) (o : Option ℕ) → has (put p x o) k ≡ (x == k || has p k)
has-put p x k o = ground (arith, get-put p x o k)

-- A node that is new leaves the ways back alone.
pub put-Back :
    (p : Parents) (x : ℕ) (o : Option ℕ)
    → has p x ≡ false
    → {d k : ℕ} → Back p d k
    → Back (put p x o) d k
put-Back p x o new {k = k} (root h) = root (ground (arith, get-put p x o k, has-get p k none h))
put-Back p x o new {k = k} (up y h back) =
    up y (ground (arith, get-put p x o k, has-get p k (some y) h)) (put-Back p x o new back)

pub length-put :
    (p : Parents) (x : ℕ) (o : Option ℕ) → has p x ≡ false → length (put p x o) ≡ suc (length p)
length-put [] x o h = refl
length-put ((k, v) ∷ rest) x o h = ground (arith, length-put rest x o)

-- The nodes from `x` back to the root, with the parents as they stand in the map.
abbrev pub Climbs : Parents → Option ℕ → List ℕ → Type 0
Climbs p o [] = o ≡ none
Climbs p o (x ∷ rest) = (o ≡ some x) × ((o' : Option ℕ) × (get p x ≡ some o') × Climbs p o' rest)

pub trace-Climbs :
    (p : Parents) (fuel d x : ℕ)
    → Back p d x
    → suc d ≤ fuel
    → (l : List ℕ) × (trace p fuel (some x) ≡ some (x ∷ l))
      × (length l ≡ d)
      × Climbs p (some x) (x ∷ l)
unfolding trace
trace-Climbs p zero d x b h = absurd (omega arith)
trace-Climbs p (suc fuel) d x (root e) h = ([], rw (trace, e) refl, refl, (refl, (none, e, refl)))
trace-Climbs p (suc fuel) d x (up y e back) h =
    let (l, t, n, c) = trace-Climbs p fuel _ y back (omega arith) in
    (y ∷ l, rw (trace, e) (rw t refl), ap suc n, (refl, (some y, e, c)))

-- Every node but the root is a neighbour of its parent.
pub record IsTree (neighbours : ℕ → List ℕ) (a : ℕ) (p : Parents) : Type 0 where
  pub top : (x : ℕ) → get p x ≡ some none → a ≡ x
  pub linked : (x y : ℕ) → get p x ≡ some (some y) → contains (neighbours y) x ≡ true

module _ (neighbours : ℕ → List ℕ) where
  -- The way back to the root, turned round, in front of a chain.
  pub rev_onto-Route :
      (a b : ℕ) (p : Parents) (x : ℕ) (l r : List ℕ)
      → IsTree neighbours a p
      → Climbs p (some x) (x ∷ l)
      → Route neighbours x b (x ∷ r)
      → Route neighbours a b (rev_onto (x ∷ l) r)
  rev_onto-Route a b p x [] r t (e, (o, g, stop)) route =
      subst (λ i. Route neighbours i b (x ∷ r)) (sym (t.top x (g ∙ ap (λ i. some i) stop))) route
  rev_onto-Route a b p x (y ∷ l) r t (e, (o, g, (same, more))) route =
      let link = t.linked x y (g ∙ ap (λ i. some i) same) in
      rev_onto-Route a b p y l (x ∷ r) t (refl, more) (refl, link, route)

  -- The way back to the other root, as the end of a chain, where links go both ways.
  pub Climbs-Route :
      ((x y : ℕ) → contains (neighbours x) y ≡ true → contains (neighbours y) x ≡ true)
      → (b : ℕ) (p : Parents) (x : ℕ) (o : Option ℕ) (r : List ℕ) → IsTree neighbours b p
      → get p x ≡ some o
      → Climbs p o r
      → Route neighbours x b (x ∷ r)
  Climbs-Route both b p x o [] t g stop = (refl, sym (t.top x (g ∙ ap (λ i. some i) stop)))
  Climbs-Route both b p x o (y ∷ r) t g (same, (o', g', more)) =
      let link = t.linked x y (g ∙ ap (λ i. some i) same) in
      (refl, both y x link, Climbs-Route both b p y o' r t g' more)

pub length-rev_onto : (l r : List ℕ) → length (rev_onto l r) ≡ length l + length r
length-rev_onto [] r = omega arith
length-rev_onto (x ∷ l) r = omega (arith, length-rev_onto l (x ∷ r))
