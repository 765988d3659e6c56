-- ===== src/Extract/Edges.antt =====
-- The edges that second_pass of tools/wiki_extract.py takes from an article's links.
use tridb.Base.{
  sym, ap, ◌∙◌, ℕ, ◌≡◌, refl, Bool, false, not, ◌&&◌, ◌||◌, Option, none, some, List, [], ◌∷◌, ◌++◌,
  ◌==◌, if◌then◌else◌, arith, Bool-cases, Option-cases, inl, inr, contains, contains-append,
  Distinct, Distinct-concat, firsts, keep, append_nil, append_assoc,
}
use mathlib.Core.Path.{subst}
use tridb.Base.Text.{Text}
use tridb.Extract.{Unicode, is_empty, resolve_link_target, link_targets}

module _ (u : Unicode) (resolve : Text → Option ℕ) where
  -- The article that a raw link names.
  abbrev names : Text → Option ℕ
  names raw = let tkey = resolve_link_target u raw in if is_empty tkey then none else resolve tkey

  abbrev is_at : Option ℕ → ℕ → Bool
  is_at none d = false
  is_at (some dst) d = dst == d

  abbrev pub links_to : List Text → ℕ → Bool
  links_to [] d = false
  links_to (raw ∷ rest) d = is_at (names raw) d || links_to rest d

  -- One link, by what it names.
  abbrev add_target : ℕ → List ℕ → Option ℕ → List ℕ
  add_target aid seen none = seen
  add_target aid seen (some dst) =
      if dst == aid || contains seen dst then seen else seen ++ dst ∷ []

  next-link_targets :
      (aid : ℕ) (seen : List ℕ) (raw : Text) (rest : List Text)
      → link_targets u resolve aid seen (raw ∷ rest)
        ≡ link_targets u resolve aid (add_target aid seen (names raw)) rest
  unfolding link_targets
  next-link_targets aid seen raw rest =
      let tkey = resolve_link_target u raw in
      elim (Bool-cases (is_empty tkey)) [
        | inl empty ↦ rw empty refl
        | inr full ↦ elim (Option-cases (resolve tkey)) [
          | inl red ↦ rw (full, red) refl
          | inr (dst, hit) ↦ elim (Bool-cases (dst == aid || contains seen dst)) [
            | inl known ↦ rw (full, hit, known) refl
            | inr new ↦ rw (full, hit, new) refl
          ]
        ]
      ]

  contains-add_target :
      (aid : ℕ) (seen : List ℕ) (o : Option ℕ) (d : ℕ)
      → contains (add_target aid seen o) d ≡ (contains seen d || (not (d == aid) && is_at o d))
  contains-add_target aid seen none d = ground arith
  contains-add_target aid seen (some dst) d = ground (arith, contains-append seen (dst ∷ []) d)

  add_target-Distinct :
      (aid : ℕ) (seen : List ℕ) (o : Option ℕ) → Distinct seen → Distinct (add_target aid seen o)
  add_target-Distinct aid seen none h = h
  add_target-Distinct aid seen (some dst) h = elim (Bool-cases (dst == aid || contains seen dst)) [
    | inl known ↦ rw known h
    | inr new ↦ rw new (Distinct-concat seen dst h (ground arith))
  ]

  contains-link_targets' :
      (aid : ℕ) (seen : List ℕ) (raws : List Text) (d : ℕ)
      → contains (link_targets u resolve aid seen raws) d
        ≡ (contains seen d || (not (d == aid) && links_to raws d))
  unfolding link_targets
  contains-link_targets' aid seen [] d = ground arith
  contains-link_targets' aid seen (raw ∷ rest) d =
      let seen' = add_target aid seen (names raw) in
      let later = contains-link_targets' aid seen' rest d in
      let added = contains-add_target aid seen (names raw) d in
      ap (λ l. contains l d) (next-link_targets aid seen raw rest) ∙ ground (arith, later, added)

  link_targets-Distinct' :
      (aid : ℕ) (seen : List ℕ) (raws : List Text)
      → Distinct seen
      → Distinct (link_targets u resolve aid seen raws)
  unfolding link_targets
  link_targets-Distinct' aid seen [] h = h
  link_targets-Distinct' aid seen (raw ∷ rest) h =
      subst Distinct (sym (next-link_targets aid seen raw rest)) (
        link_targets-Distinct' aid (add_target aid seen (names raw)) rest
          (add_target-Distinct aid seen (names raw) h))

  -- An article's edges go, once each, to exactly the articles other than itself that some link of
  -- it names.
  contains-link_targets :
      (aid : ℕ) (raws : List Text) (d : ℕ)
      → Distinct (link_targets u resolve aid [] raws)
        × (contains (link_targets u resolve aid [] raws) d ≡ (not (d == aid) && links_to raws d))
  contains-link_targets aid raws d =
      (link_targets-Distinct' aid [] raws tt, contains-link_targets' aid [] raws d)

  -- What the raw links name, in their order.
  abbrev pub named : List Text → List ℕ
  named [] = []
  named (raw ∷ rest) = elim (names raw) [ none ↦ named rest | some dst ↦ dst ∷ named rest ]

  -- The targets are the articles that the links name, the article itself left out, each where it
  -- stands first.
  pub link_targets-firsts :
      (aid : ℕ) (seen : List ℕ) (raws : List Text)
      → link_targets u resolve aid seen raws
        ≡ seen ++ firsts contains seen (keep (λ d. not (d == aid)) (named raws))
  unfolding link_targets
  link_targets-firsts aid seen [] = sym (append_nil seen)
  link_targets-firsts aid seen (raw ∷ rest) =
      next-link_targets aid seen raw rest
      ∙ go (names raw) (λ seen. link_targets-firsts aid seen rest)
    where
      go :
          (o : Option ℕ)
          → ((seen : List ℕ)
              → link_targets u resolve aid seen rest
                ≡ seen ++ firsts contains seen (keep (λ d. not (d == aid)) (named rest)))
          → link_targets u resolve aid (add_target aid seen o) rest
            ≡ seen
              ++ firsts contains seen (
                  keep
                    (λ d. not (d == aid))
                    (elim o [ none ↦ named rest | some dst ↦ dst ∷ named rest ]))
      go none ih = ih seen
      go (some dst) ih = elim (Bool-cases (dst == aid)) [
        | inl self ↦ rw self (ih seen)
        | inr other ↦ elim (Bool-cases (contains seen dst)) [
          | inl known ↦ rw (other, known) (ih seen)
          | inr new ↦
              rw (other, new)
                (ih (seen ++ dst ∷ [])
                  ∙ append_assoc seen (dst ∷ []) (
                      firsts contains (seen ++ dst ∷ []) (keep (λ d. not (d == aid)) (named rest))))
        ]
      ]
