-- ===== src/Gate/Hop.antt =====
-- One hop of the expansion in bench/wiki_h2h.py.
use tridb.Base.{
  ap, ◌∙◌, ℕ, ◌≡◌, refl, Bool, true, false, ◌&&◌, ◌||◌, List, [], ◌∷◌, ◌==◌, keep, contains,
  contains-insert, insert, arith, Bool-cases, inl, inr, ==_iff,
}
use tridb.Gate.{insert_all, hop}

pub contains-insert_all :
    (acc ds : List ℕ) (d : ℕ) → contains (insert_all acc ds) d ≡ (contains acc d || contains ds d)
contains-insert_all acc [] d = ground arith
contains-insert_all acc (x ∷ xs) d =
    ground (arith, contains-insert_all (insert acc x) xs d, contains-insert acc x d)

pub contains-keep :
    (p : ℕ → Bool) (xs : List ℕ) (d : ℕ) → contains (keep p xs) d ≡ (contains xs d && p d)
contains-keep p [] d = refl
contains-keep p (x ∷ xs) d = elim (Bool-cases (x == d)) [
  | inl same ↦ let e = ap p ((==_iff x d).0 same) in ground (arith, contains-keep p xs d, e)
  | inr other ↦ ground (arith, contains-keep p xs d)
]

module _ (adj : ℕ → List ℕ) where
  -- A target of the hop is the target of a member of the frontier.
  pub hop_sound :
      (nxt frontier : List ℕ) (d : ℕ)
      → contains (hop adj nxt frontier) d ≡ true
      → contains nxt d ≡ false
      → (s : ℕ) × (contains frontier s ≡ true) × (contains (adj s) d ≡ true)
  hop_sound nxt [] d h new = absurd (cc)
  hop_sound nxt (s ∷ rest) d h new = elim (Bool-cases (contains (adj s) d)) [
    | inl here ↦ (s, ground arith, here)
    | inr there ↦
        let (t, inside, link) =
          hop_sound (insert_all nxt (adj s)) rest d h
            (contains-insert_all nxt (adj s) d ∙ (rw (new, there) refl)) in
        (t, ground arith, link)
  ]

  hop_mono :
      (nxt frontier : List ℕ) (d : ℕ)
      → contains nxt d ≡ true
      → contains (hop adj nxt frontier) d ≡ true
  hop_mono nxt [] d h = h
  hop_mono nxt (s ∷ rest) d h =
      hop_mono (insert_all nxt (adj s)) rest d (contains-insert_all nxt (adj s) d ∙ (rw h refl))

  pub hop_complete :
      (nxt frontier : List ℕ) (s d : ℕ)
      → contains frontier s ≡ true
      → contains (adj s) d ≡ true
      → contains (hop adj nxt frontier) d ≡ true
  hop_complete nxt [] s d f h = absurd (cc)
  hop_complete nxt (x ∷ rest) s d f h = elim (Bool-cases (x == s)) [
    | inl here ↦
        let e = (==_iff x s).0 here in
        hop_mono (insert_all nxt (adj x)) rest d
          (contains-insert_all nxt (adj x) d ∙ ground (arith, ap (λ t. contains (adj t) d) e))
    | inr there ↦ hop_complete (insert_all nxt (adj x)) rest s d (ground arith) h
  ]
