-- ===== src/Baseline/Merge.antt =====
-- The merge of bench/harness.py: its loop over the sorted candidates, beside the walk of
-- bench/driver.py.
use Prim.Native.String.{String}
use tridb.Base.{
  sym, ap, ◌∙◌, ℕ, ◌<◌, ◌≡◌, refl, Bool, false, not, ◌&&◌, List, [], ◌∷◌, ◌++◌, map, leb,
  if◌then◌else◌, length, take, keep, contains, insert, Distinct, arith, Bool-cases, inl, inr,
  append_assoc, append_nil, take_enough, contains-insert, insert_known,
}
use tridb.Driver.{Corpus, chunk_of, in_range, targets, working_of}
use tridb.Driver.Laws.{mark, every_chunk}
use tridb.Baseline.{collect}
use tridb.Baseline.Order.{group, groups}

-- The chunks of the targets not seen before, without a limit.
abbrev pub fresh : Corpus → List ℕ → List (ℕ × ℕ) → List String
fresh c seen [] = []
fresh c seen ((dist, d) ∷ rest) =
    let more = fresh c (insert seen d) rest in if contains seen d then more else chunk_of c d ∷ more

pub take-collect :
    (c : Corpus) (k : ℕ) (l : List (ℕ × ℕ)) (seen : List ℕ) (chunks : List String)
    → length chunks < k
    → take k (collect c k seen chunks l) ≡ take k (chunks ++ fresh c seen l)
unfolding collect
take-collect c k [] seen chunks h = ap (take k) (sym (append_nil chunks))
take-collect c k ((dist, d) ∷ rest) seen chunks h = elim (Bool-cases (contains seen d)) [
  | inl old ↦
      let room : leb k (length chunks) ≡ false = ground arith in
      rw (old, room) (take-collect c k rest (insert seen d) chunks h)
  | inr new ↦ rw new (
      let more = chunks ++ chunk_of c d ∷ [] in
      let further = append_assoc chunks (chunk_of c d ∷ []) (fresh c (insert seen d) rest) in
      elim (Bool-cases (leb k (length more))) [
        | inl full ↦ rw full (
            sym (take_enough k more (fresh c (insert seen d) rest) (ground arith))
            ∙ ap (take k) further)
        | inr room ↦
            rw room
              (take-collect c k rest (insert seen d) more (ground arith) ∙ ap (take k) further)
      ])
]

module _ (c : Corpus) (q_emb time_range : List ℕ) where
  abbrev wanted : List ℕ → ℕ → Bool
  wanted seen d = not (contains seen d) && in_range c time_range d

  keep-insert :
      (seen : List ℕ) (d : ℕ) (ds : List ℕ)
      → contains ds d ≡ false
      → keep (wanted (insert seen d)) ds ≡ keep (wanted seen) ds
  keep-insert seen d [] h = refl
  keep-insert seen d (x ∷ xs) h =
      let same : contains (insert seen d) x ≡ contains seen x =
        ground (arith, contains-insert seen d x) in
      let rest = keep-insert seen d xs (ground arith) in
      elim (Bool-cases (wanted seen x)) [
        | inl w ↦ rw (same, w) (ap (λ l. x ∷ l) rest)
        | inr w ↦ rw (same, w) rest
      ]

  fresh-group :
      (src : ℕ) (ds seen : List ℕ) (more : List (ℕ × ℕ))
      → Distinct ds
      → fresh c seen (group c q_emb time_range src ds ++ more)
        ≡ map (chunk_of c) (keep (wanted seen) ds)
          ++ fresh c (mark seen (keep (wanted seen) ds)) more
  fresh-group src [] seen more h = refl
  fresh-group src (d ∷ ds) seen more h = elim (Bool-cases (in_range c time_range d)) [
    | inr out ↦ elim (Bool-cases (contains seen d)) [
      | inl old ↦ rw (out, old) (fresh-group src ds seen more h.1)
      | inr new ↦ rw (out, new) (fresh-group src ds seen more h.1)
    ]
    | inl inside ↦ elim (Bool-cases (contains seen d)) [
      | inl old ↦
          rw (inside, old)
            (ap (λ s. fresh c s (group c q_emb time_range src ds ++ more)) (insert_known seen d old)
              ∙ fresh-group src ds seen more h.1)
      | inr new ↦
          rw (inside, new)
            (ap (λ l. chunk_of c d ∷ l)
              (fresh-group src ds (insert seen d) more h.1
                ∙ ap (λ l. map (chunk_of c) l ++ fresh c (mark (insert seen d) l) more)
                    (keep-insert seen d ds h.0)))
    ]
  ]

  pub fresh-groups :
      (srcs seen : List ℕ)
      → ((src : ℕ) → Distinct (targets c.edges src))
      → fresh c seen (groups c q_emb time_range srcs c.edges) ≡ every_chunk c time_range seen srcs
  fresh-groups [] seen h = refl
  fresh-groups (r ∷ rs) seen h =
      let working = working_of c time_range seen r in
      fresh-group r (targets c.edges r) seen (groups c q_emb time_range rs c.edges) (h r)
      ∙ ap (λ l. map (chunk_of c) working ++ l) (fresh-groups rs (mark seen working) h)
