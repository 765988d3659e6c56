-- ===== src/Reader/Csr.antt =====
-- build_undirected_csr of tools/wiki_reader.py: the index that the connection finder reads, from the
-- index of the links. An array is a list of numbers.
pub mod Groups
pub mod Slices
pub mod Symmetric
use tridb.Base.{
  ℕ, zero, suc, ◌+◌, ◌-◌, Bool, true, false, Option, none, some, List, [], ◌∷◌, ◌++◌, map, ◌==◌,
  leb, ltb, if◌then◌else◌, length, count, max,
}
use tridb.Reader.Paths.{Csr}

-- np.repeat(np.arange(i, ...), np.diff(off))
abbrev pub repeat : ℕ → ℕ → List ℕ → List ℕ
repeat i zero rest = rest
repeat i (suc n) rest = i ∷ repeat i n rest

abbrev pub sources_from : ℕ → List ℕ → List ℕ
sources_from i [] = []
sources_from i (x ∷ []) = []
sources_from i (x ∷ y ∷ off) = repeat i (y - x) (sources_from (suc i) (y ∷ off))

-- zip(u, v); the arrays have the same length.
abbrev pub pairs : List ℕ → List ℕ → List (ℕ × ℕ)
pairs [] vs = []
pairs (u ∷ us) [] = []
pairs (u ∷ us) (v ∷ vs) = (u, v) ∷ pairs us vs

-- np.argsort(u, kind="stable"), applied to both arrays.
abbrev pub place_pair : ℕ × ℕ → List (ℕ × ℕ) → List (ℕ × ℕ)
place_pair e [] = e ∷ []
place_pair e (f ∷ rest) =
    let later = place_pair e rest in if leb e.0 f.0 then e ∷ f ∷ rest else f ∷ later

unfoldable pub sort_pairs : List (ℕ × ℕ) → List (ℕ × ℕ)
sort_pairs [] = []
sort_pairs (e ∷ rest) = place_pair e (sort_pairs rest)

-- np.searchsorted(us, i, side="left"), of an array that does not fall.
abbrev pub searchsorted : List (ℕ × ℕ) → ℕ → ℕ
searchsorted es i = count (λ (e : ℕ × ℕ). ltb e.0 i) es

-- The indices from `i` on, `n` of them, each looked up.
abbrev pub offsets : List (ℕ × ℕ) → ℕ → ℕ → List ℕ
offsets es i zero = []
offsets es i (suc n) = searchsorted es i ∷ offsets es (suc i) n

abbrev pub largest : List ℕ → ℕ
largest [] = 0
largest (x ∷ xs) = max x (largest xs)

-- The sorted edges as an index.
abbrev pub index_of : List (ℕ × ℕ) → ℕ → Csr
index_of es max_id = record { off = offsets es 0 (max_id + 2); dst = map (λ (e : ℕ × ℕ). e.1) es }

unfoldable pub build_undirected_csr : Csr → Csr
unfolding sort_pairs
build_undirected_csr c =
    let src = sources_from 0 c.off in
    let u = src ++ c.dst in
    let v = c.dst ++ src in index_of (sort_pairs (pairs u v)) (max (largest u) (largest v))
