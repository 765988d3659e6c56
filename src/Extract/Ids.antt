-- ===== src/Extract/Ids.antt =====
-- The dictionaries that first_pass of tools/wiki_extract.py builds.
use tridb.Base.{
  sym, ℕ, suc, ◌+◌, ◌≤◌, ◌≡◌, true, false, ◌&&◌, ◌||◌, Option, none, some, List, [], ◌∷◌, ◌++◌,
  if◌then◌else◌, length, firsts, arith, Bool-cases, inl, inr, length-append, max,
}
use mathlib.Core.Path.{subst}
use tridb.Base.Text.{Text, mem_text, keys, keys-append, DistinctTexts, DistinctTexts-concat}
use tridb.Extract.Order.{article_titles, bounded, keys-first_pass}
use tridb.Extract.{
  Unicode, RawPage, Index, no_pages, has_key, is_empty, is_main, add_redirect, add_article,
  index_page, first_pass, reached, normalize_title,
}

-- 0, 1, ... in the order of the entries.
abbrev pub Numbered : ℕ → List (Text × ℕ) → Type 0
Numbered n [] = Unit
Numbered n ((key, i) ∷ rest) = (i ≡ n) × Numbered (suc n) rest

Numbered-concat :
    (n : ℕ) (key : Text) (d : List (Text × ℕ))
    → Numbered n d
    → Numbered n (d ++ (key, n + length d) ∷ [])
Numbered-concat n key [] h = (omega arith, tt)
Numbered-concat n key ((k, i) ∷ rest) h = (
  h.0,
  subst (λ m. Numbered (suc n) (rest ++ (key, m) ∷ [])) (omega arith)
      (Numbered-concat (suc n) key rest h.1),
)

abbrev pub AtMost : Option ℕ → ℕ → Type 0
AtMost none n = Unit
AtMost (some most) n = n ≤ max most 1

pub record IsIndex (max_articles : Option ℕ) (x : Index) : Type 0 where
  pub numbered : Numbered 0 x.title_to_id
  pub titles : DistinctTexts (keys x.title_to_id)
  pub sources : DistinctTexts (keys x.redirects)
  pub few : AtMost max_articles (length x.title_to_id)

DistinctTexts-new :
    {A : Type 0} (d : List (Text × A)) (key : Text) (v : A)
    → DistinctTexts (keys d)
    → has_key d key ≡ false
    → DistinctTexts (keys (d ++ (key, v) ∷ []))
DistinctTexts-new d key v h new =
    subst DistinctTexts (sym (keys-append d ((key, v) ∷ [])))
      (DistinctTexts-concat (keys d) key h new)

module _ (u : Unicode) (max_articles : Option ℕ) where
  redirect-IsIndex :
      (key target : Text) (x : Index)
      → IsIndex max_articles x
      → IsIndex max_articles (add_redirect key target x)
  redirect-IsIndex key target x h = elim (Bool-cases (is_empty target || has_key x.redirects key)) [
    | inl known ↦ rw known h
    | inr new ↦ rw new (record {
      numbered = h.numbered;
      titles = h.titles;
      sources = DistinctTexts-new x.redirects key target h.sources (ground arith);
      few = h.few;
    })
  ]

  -- Room for one more: not yet at `max_articles`.
  article-few : (most : Option ℕ) (n : ℕ) → reached most n ≡ false → AtMost most (suc n)
  article-few none n h = tt
  article-few (some most) n h = ground arith

  article-IsIndex :
      (key : Text) (x : Index)
      → IsIndex max_articles x
      → has_key x.title_to_id key ≡ false
      → AtMost max_articles (suc (length x.title_to_id))
      → IsIndex max_articles (add_article key x)
  article-IsIndex key x h new room = record {
    numbered =
        subst (λ n. Numbered 0 (x.title_to_id ++ (key, n) ∷ [])) (omega arith)
          (Numbered-concat 0 key x.title_to_id h.numbered);
    titles = DistinctTexts-new x.title_to_id key (length x.title_to_id) h.titles new;
    sources = h.sources;
    few =
        subst (AtMost max_articles)
          (omega (arith, length-append x.title_to_id ((key, length x.title_to_id) ∷ []))) room;
  }

  abbrev HasRoom : Index → Type 0
  HasRoom x = AtMost max_articles (suc (length x.title_to_id))

  redirect-room : (key target : Text) (x : Index) → HasRoom x → HasRoom (add_redirect key target x)
  redirect-room key target x room = elim (Bool-cases (is_empty target || has_key x.redirects key)) [
    | inl known ↦ rw known room
    | inr new ↦ rw new room
  ]

  index_page-IsIndex :
      (page : RawPage) (x : Index)
      → IsIndex max_articles x
      → HasRoom x
      → let step = index_page u max_articles page x in
        IsIndex max_articles step.0 × (step.1 ≡ false → HasRoom step.0)
  unfolding normalize_title
  index_page-IsIndex page x h room =
      let key = normalize_title u page.title in
      elim (Bool-cases (is_main page.ns && (if is_empty key then false else true))) [
        | inr out ↦ rw out (h, λ e. room)
        | inl counted ↦ elim (Bool-cases page.is_redirect) [
          | inl moved ↦
              rw (counted, moved)
                (
                  redirect-IsIndex key page.redirect_target x h,
                  λ e. redirect-room key page.redirect_target x room,
                )
          | inr article ↦ elim (Bool-cases (has_key x.title_to_id key)) [
            | inl known ↦ rw (counted, article, known) (h, λ e. room)
            | inr new ↦
                rw (counted, article, new)
                  (
                    article-IsIndex key x h new room,
                    λ e.
                        subst (AtMost max_articles)
                          (omega
                            (arith, length-append x.title_to_id ((key, length x.title_to_id) ∷ [])))
                          (article-few max_articles (suc (length x.title_to_id)) e),
                  )
          ]
        ]
      ]

  first_pass-IsIndex' :
      (pages : List RawPage) (x : Index)
      → IsIndex max_articles x
      → AtMost max_articles (suc (length x.title_to_id))
      → IsIndex max_articles (first_pass u max_articles pages x)
  unfolding first_pass
  first_pass-IsIndex' [] x h room = h
  first_pass-IsIndex' (page ∷ rest) x h room =
      let x' : Index = record x { pages_scanned = x.pages_scanned + 1 } in
      let (h', room') =
        index_page-IsIndex page x'
          (record { numbered = h.numbered; titles = h.titles; sources = h.sources; few = h.few })
          room in
      let step = index_page u max_articles page x' in
      elim (Bool-cases step.1) [
        | inl last ↦ rw last h'
        | inr on ↦ rw on (first_pass-IsIndex' rest step.0 h' (room' on))
      ]

empty-AtMost : (most : Option ℕ) (n : ℕ) → n ≤ 1 → AtMost most n
empty-AtMost none n h = tt
empty-AtMost (some most) n h = omega (arith, h)

-- Whatever the dump holds, first_pass numbers the normalized, non-empty titles of the pages of
-- namespace 0 that are no redirects, 0, 1, ... in the order in which they first stand in the dump,
-- and ends after `max_articles` of them, or after one when `max_articles` is 0; it gives no title
-- two ids and no redirect two targets.
pub first_pass-IsIndex :
    (u : Unicode) (max_articles : Option ℕ) (pages : List RawPage)
    → let x = first_pass u max_articles pages no_pages in
      (keys x.title_to_id ≡ bounded max_articles (firsts mem_text [] (article_titles u pages)))
      × IsIndex max_articles x
first_pass-IsIndex u max_articles pages = (
  keys-first_pass u max_articles pages,
  first_pass-IsIndex' u max_articles pages no_pages
      (record {
        numbered = tt;
        titles = tt;
        sources = tt;
        few = empty-AtMost max_articles 0 (omega arith);
      })
      (empty-AtMost max_articles 1 (omega arith)),
)
