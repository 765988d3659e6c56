-- ===== src/Reader/Csr/Groups.antt =====
-- The slices of an index are the groups of its edges.
use tridb.Base.{
  sym, ap, ◌∙◌, ℕ, zero, suc, ◌+◌, ◌-◌, ◌≤◌, ◌<◌, ◌≡◌, refl, inl, inr, Bool, false, ◌||◌, ◌&&◌,
  List, [], ◌∷◌, map, ◌==◌, leb, ltb, length, keep, take, drop, contains, arith, All, Bool-cases,
}
use tridb.Reader.Paths.{at, undir_neighbors}
use tridb.Reader.Csr.{place_pair, sort_pairs, searchsorted, offsets, index_of}

abbrev pub Edges : Type 0
Edges = List (ℕ × ℕ)

-- The edge from `x` to `y` is listed.
abbrev pub has_pair : Edges → ℕ → ℕ → Bool
has_pair [] x y = false
has_pair (e ∷ rest) x y = (e.0 == x && e.1 == y) || has_pair rest x y

-- The sources do not fall.
abbrev pub Rising : Edges → Type 0
Rising [] = Unit
Rising (e ∷ rest) = All (λ (f : ℕ × ℕ). e.0 ≤ f.0) rest × Rising rest

place-All :
    (n : ℕ) (e : ℕ × ℕ) (es : Edges)
    → n ≤ e.0
    → All (λ (f : ℕ × ℕ). n ≤ f.0) es
    → All (λ (f : ℕ × ℕ). n ≤ f.0) (place_pair e es)
place-All n e [] h hs = (h, tt)
place-All n e (f ∷ rest) h hs = elim (Bool-cases (leb e.0 f.0)) [
  | inl first ↦ rw first (h, hs)
  | inr later ↦ rw later (hs.0, place-All n e rest h hs.1)
]

All-lower :
    (m n : ℕ) (es : Edges)
    → m ≤ n
    → All (λ (f : ℕ × ℕ). n ≤ f.0) es
    → All (λ (f : ℕ × ℕ). m ≤ f.0) es
All-lower m n [] h hs = tt
All-lower m n (f ∷ rest) h hs = (omega (arith, hs.0), All-lower m n rest h hs.1)

place-Rising : (e : ℕ × ℕ) (es : Edges) → Rising es → Rising (place_pair e es)
place-Rising e [] h = (tt, tt)
place-Rising e (f ∷ rest) h = elim (Bool-cases (leb e.0 f.0)) [
  | inl first ↦ rw first ((ground arith, All-lower e.0 f.0 rest (ground arith) h.0), h)
  | inr later ↦ rw later (place-All f.0 e rest (ground arith) h.0, place-Rising e rest h.1)
]

pub sort_pairs-Rising : (es : Edges) → Rising (sort_pairs es)
unfolding sort_pairs
sort_pairs-Rising [] = tt
sort_pairs-Rising (e ∷ rest) = place-Rising e (sort_pairs rest) (sort_pairs-Rising rest)

has_pair-place :
    (e : ℕ × ℕ) (es : Edges) (x y : ℕ)
    → has_pair (place_pair e es) x y ≡ ((e.0 == x && e.1 == y) || has_pair es x y)
has_pair-place e [] x y = refl
has_pair-place e (f ∷ rest) x y = ground (arith, has_pair-place e rest x y)

pub has_pair-sort_pairs : (es : Edges) (x y : ℕ) → has_pair (sort_pairs es) x y ≡ has_pair es x y
unfolding sort_pairs
has_pair-sort_pairs [] x y = refl
has_pair-sort_pairs (e ∷ rest) x y =
    ground (arith, has_pair-place e (sort_pairs rest) x y, has_pair-sort_pairs rest x y)

abbrev targets : Edges → List ℕ
targets es = map (λ (e : ℕ × ℕ). e.1) es

abbrev of_source : ℕ → Edges → Edges
of_source x es = keep (λ (e : ℕ × ℕ). e.0 == x) es

none_below : (x : ℕ) (es : Edges) → All (λ (f : ℕ × ℕ). x ≤ f.0) es → searchsorted es x ≡ 0
none_below x [] h = refl
none_below x (e ∷ rest) h = ground (arith, none_below x rest h.1, h.0)

none_of : (x : ℕ) (es : Edges) → All (λ (f : ℕ × ℕ). suc x ≤ f.0) es → of_source x es ≡ []
none_of x [] h = refl
none_of x (e ∷ rest) h = ground (arith, none_of x rest h.1, h.0)

first_group :
    (x : ℕ) (es : Edges)
    → Rising es
    → All (λ (f : ℕ × ℕ). x ≤ f.0) es
    → take (searchsorted es (suc x)) (targets es) ≡ targets (of_source x es)
first_group x [] r h = refl
first_group x (e ∷ rest) r h = elim (Bool-cases (e.0 == x)) [
  | inl same ↦
      let counted : searchsorted (e ∷ rest) (suc x) ≡ suc (searchsorted rest (suc x)) =
        ground arith in
      rw counted (rw same (ap (λ l. e.1 ∷ l) (first_group x rest r.1 h.1)))
  | inr above ↦
      let larger : suc x ≤ e.0 = ground (arith, h.0) in
      let all_larger : All (λ (f : ℕ × ℕ). suc x ≤ f.0) (e ∷ rest) =
        (larger, All-lower (suc x) e.0 rest larger r.0) in
      rw (none_below (suc x) (e ∷ rest) all_larger)
        (ap targets (sym (none_of x (e ∷ rest) all_larger)))
]

sub_zero : (n : ℕ) → n - 0 ≡ n
sub_zero n = omega arith

suc-sub-suc : (n m : ℕ) → suc n - suc m ≡ n - m
suc-sub-suc n m = omega arith

group :
    (x : ℕ) (es : Edges)
    → Rising es
    → take (searchsorted es (suc x) - searchsorted es x) (drop (searchsorted es x) (targets es))
      ≡ targets (of_source x es)
group x [] r = refl
group x (e ∷ rest) r = elim (Bool-cases (ltb e.0 x)) [
  | inl before ↦
      let here : searchsorted (e ∷ rest) x ≡ suc (searchsorted rest x) = ground arith in
      let next : searchsorted (e ∷ rest) (suc x) ≡ suc (searchsorted rest (suc x)) = ground arith in
      let other : (e.0 == x) ≡ false = ground arith in
      rw here (rw next (rw suc-sub-suc (rw other (group x rest r.1))))
  | inr from_here ↦
      let larger : x ≤ e.0 = ground arith in
      let all_larger : All (λ (f : ℕ × ℕ). x ≤ f.0) (e ∷ rest) =
        (larger, All-lower x e.0 rest larger r.0) in
      rw (none_below x (e ∷ rest) all_larger)
        (rw (sub_zero (searchsorted (e ∷ rest) (suc x))) (first_group x (e ∷ rest) r all_larger))
]

at-offsets : (es : Edges) (i n k : ℕ) → k < n → at (offsets es i n) k ≡ searchsorted es (i + k)
at-offsets es i zero k h = absurd (omega arith)
at-offsets es i (suc n) zero h = ap (searchsorted es) (omega arith)
at-offsets es i (suc n) (suc k) h =
    at-offsets es (suc i) n k (omega arith) ∙ ap (searchsorted es) (omega arith)

length-offsets : (es : Edges) (i n : ℕ) → length (offsets es i n) ≡ n
length-offsets es i zero = refl
length-offsets es i (suc n) = ap suc (length-offsets es (suc i) n)

contains-of_source :
    (es : Edges) (x y : ℕ) → contains (targets (of_source x es)) y ≡ has_pair es x y
contains-of_source [] x y = refl
contains-of_source (e ∷ rest) x y = ground (arith, contains-of_source rest x y)

-- In an index of sorted edges, the neighbours of a node that it has are the targets of its edges.
pub contains-index_of :
    (es : Edges) (max_id x y : ℕ)
    → Rising es
    → x ≤ max_id
    → contains (undir_neighbors (index_of es max_id) x) y ≡ has_pair es x y
unfolding undir_neighbors
contains-index_of es max_id x y r h =
    let off = offsets es 0 (max_id + 2) in
    let known : leb (length off) (x + 1) ≡ false =
      ground (arith, length-offsets es 0 (max_id + 2)) in
    let low : at off x ≡ searchsorted es x =
      at-offsets es 0 (max_id + 2) x (omega arith) ∙ ap (searchsorted es) (omega arith) in
    let high : at off (x + 1) ≡ searchsorted es (suc x) =
      at-offsets es 0 (max_id + 2) (x + 1) (omega arith) ∙ ap (searchsorted es) (omega arith) in
    rw (undir_neighbors, known)
      (rw high (rw low (ap (λ l. contains l y) (group x es r) ∙ contains-of_source es x y)))

pub beyond-index_of :
    (es : Edges) (max_id x y : ℕ)
    → max_id < x
    → contains (undir_neighbors (index_of es max_id) x) y ≡ false
unfolding undir_neighbors
beyond-index_of es max_id x y h = ground (arith, length-offsets es 0 (max_id + 2))
