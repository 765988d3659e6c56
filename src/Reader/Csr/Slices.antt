-- ===== src/Reader/Csr/Slices.antt =====
-- The links of an index, read by its offsets, are the pairs of sources and targets.
use tridb.Base.{
  sym, ap, ◌∙◌, ℕ, zero, suc, ◌+◌, ◌-◌, ◌≤◌, ◌<◌, ◌≡◌, refl, Bool, false, ◌||◌, ◌&&◌, List, [], ◌∷◌,
  ◌==◌, ltb, length, take, drop, contains, arith,
}
use tridb.Reader.Paths.{Csr, at}
use tridb.Reader.Csr.{repeat, sources_from, pairs}
use tridb.Reader.Csr.Groups.{has_pair}

-- From `lo` on the offsets do not fall, and the last one is `n`.
abbrev pub Climbs : ℕ → List ℕ → ℕ → Type 0
Climbs lo [] n = lo ≡ n
Climbs lo (x ∷ off) n = (lo ≤ x) × Climbs x off n

-- The offsets climb from 0 to the number of targets.
abbrev pub IsIndex : Csr → Type 0
IsIndex c = (at c.off 0 ≡ 0) × Climbs 0 c.off (length c.dst)

-- The targets between the offset of `x` and the next one.
abbrev pub row : List ℕ → List ℕ → ℕ → List ℕ
row off dst x = take (at off (x + 1) - at off x) (drop (at off x) dst)

-- `x` has a row, and `y` stands in it.
abbrev pub is_link : Csr → ℕ → ℕ → Bool
is_link c x y = ltb (x + 1) (length c.off) && contains (row c.off c.dst x) y

Climbs-le : (lo : ℕ) (off : List ℕ) (n : ℕ) → Climbs lo off n → lo ≤ n
Climbs-le lo [] n h = omega (arith, h)
Climbs-le lo (x ∷ off) n h = omega (arith, h.0, Climbs-le x off n h.1)

length-repeat : (i n : ℕ) (rest : List ℕ) → length (repeat i n rest) ≡ n + length rest
length-repeat i zero rest = omega arith
length-repeat i (suc n) rest = omega (arith, length-repeat i n rest)

length-sources_from :
    (i a : ℕ) (off : List ℕ) (n : ℕ) → Climbs a off n → length (sources_from i (a ∷ off)) + a ≡ n
length-sources_from i a [] n h = omega (arith, h)
length-sources_from i a (b ∷ off) n h = omega (
  arith,
  h.0,
  length-repeat i (b - a) (sources_from (suc i) (b ∷ off)),
  length-sources_from (suc i) b off n h.1,
)

length-drop : (n : ℕ) (ds : List ℕ) → length (drop n ds) ≡ length ds - n
length-drop zero ds = omega arith
length-drop (suc n) [] = omega arith
length-drop (suc n) (d ∷ ds) = omega (arith, length-drop n ds)

drop_nil : (n : ℕ) → drop {A = ℕ} n [] ≡ []
drop_nil zero = refl
drop_nil (suc n) = refl

drop-drop : (n m : ℕ) (ds : List ℕ) → drop n (drop m ds) ≡ drop (m + n) ds
drop-drop n zero ds = ap (λ k. drop k ds) (omega arith)
drop-drop n (suc m) [] = drop_nil n ∙ sym (drop_nil (suc m + n))
drop-drop n (suc m) (d ∷ ds) =
    let next : suc m + n ≡ suc (m + n) = omega arith in rw next (drop-drop n m ds)

has_pair-repeat :
    (i n : ℕ) (rest ds : List ℕ) (z y : ℕ)
    → n ≤ length ds
    → has_pair (pairs (repeat i n rest) ds) z y
      ≡ ((i == z && contains (take n ds) y) || has_pair (pairs rest (drop n ds)) z y)
has_pair-repeat i zero rest ds z y h = ground arith
has_pair-repeat i (suc n) rest [] z y h = absurd (omega (arith, h))
has_pair-repeat i (suc n) rest (d ∷ ds) z y h =
    ground (arith, has_pair-repeat i n rest ds z y (omega (arith, h)))

-- A row and the pairs of the rows after it.
has_pair-row :
    (i a b : ℕ) (off dst : List ℕ) (z y : ℕ)
    → Climbs a (b ∷ off) (length dst)
    → has_pair (pairs (sources_from i (a ∷ b ∷ off)) (drop a dst)) z y ≡ (
        (i == z && contains (take (b - a) (drop a dst)) y)
        || has_pair (pairs (sources_from (suc i) (b ∷ off)) (drop b dst)) z y)
has_pair-row i a b off dst z y h =
    let rest = sources_from (suc i) (b ∷ off) in
    let up = Climbs-le b off (length dst) h.1 in
    let next : drop (b - a) (drop a dst) ≡ drop b dst =
      drop-drop (b - a) a dst ∙ ap (λ k. drop k dst) (omega (arith, h.0)) in
    has_pair-repeat i (b - a) rest (drop a dst) z y (omega (arith, length-drop a dst, up))
    ∙ ap (λ l. (i == z && contains (take (b - a) (drop a dst)) y) || has_pair (pairs rest l) z y)
        next

has_pair-below :
    (i a : ℕ) (off dst : List ℕ) (z y : ℕ)
    → Climbs a off (length dst)
    → z < i
    → has_pair (pairs (sources_from i (a ∷ off)) (drop a dst)) z y ≡ false
has_pair-below i a [] dst z y h less = refl
has_pair-below i a (b ∷ off) dst z y h less =
    let later = has_pair-below (suc i) b off dst z y h.1 (omega (arith, less)) in
    ground (arith, has_pair-row i a b off dst z y h, later, less)

has_pair-rows :
    (i a : ℕ) (off dst : List ℕ) (k y : ℕ)
    → Climbs a off (length dst)
    → has_pair (pairs (sources_from i (a ∷ off)) (drop a dst)) (i + k) y
      ≡ (ltb (k + 1) (length (a ∷ off)) && contains (row (a ∷ off) dst k) y)
has_pair-rows i a [] dst k y h = ground arith
has_pair-rows i a (b ∷ off) dst zero y h = ground (
  arith,
  has_pair-row i a b off dst (i + 0) y h,
  has_pair-below (suc i) b off dst (i + 0) y h.1 (omega arith),
)
has_pair-rows i a (b ∷ off) dst (suc k) y h =
    let here : i + suc k ≡ suc i + k = omega arith in
    let next : suc k + 1 ≡ suc (k + 1) = omega arith in
    let other : (i == (suc i + k)) ≡ false = ground arith in
    let later = has_pair-rows (suc i) b off dst k y h.1 in
    rw (here, next) (has_pair-row i a b off dst (suc i + k) y h ∙ ground (arith, other, later))

-- The pairs of an index are its links.
pub has_pair-is_link :
    (c : Csr) (x y : ℕ)
    → IsIndex c
    → has_pair (pairs (sources_from 0 c.off) c.dst) x y ≡ is_link c x y
has_pair-is_link c x y (start, climbs) = go c.off c.dst start climbs
  where
    go :
        (off dst : List ℕ)
        → at off 0 ≡ 0
        → Climbs 0 off (length dst)
        → has_pair (pairs (sources_from 0 off) dst) x y
          ≡ (ltb (x + 1) (length off) && contains (row off dst x) y)
    go [] dst start climbs = ground arith
    go (a ∷ off) dst start climbs =
        let up : Climbs a off (length dst) = climbs.1 in
        let whole : drop a dst ≡ dst = ap (λ k. drop k dst) start in
        let i : 0 + x ≡ x = omega arith in
        ap (λ l. has_pair (pairs (sources_from 0 (a ∷ off)) l) x y) (sym whole)
        ∙ ap (λ z. has_pair (pairs (sources_from 0 (a ∷ off)) (drop a dst)) z y) (sym i)
        ∙ has_pair-rows 0 a off dst x y up

pub length-sources : (c : Csr) → IsIndex c → length (sources_from 0 c.off) ≡ length c.dst
length-sources c (start, climbs) = go c.off start climbs
  where
    go :
        (off : List ℕ)
        → at off 0 ≡ 0
        → Climbs 0 off (length c.dst)
        → length (sources_from 0 off) ≡ length c.dst
    go [] start climbs = climbs
    go (a ∷ off) start climbs =
        omega (arith, start, length-sources_from 0 a off (length c.dst) climbs.1)
