-- ===== src/Extract/Shards/Rows.antt =====
-- The rows that second_pass of tools/wiki_extract.py writes for the pages of a dump.
use tridb.Extract.Edges.{named, link_targets-firsts}
use tridb.Base.{
  contains, firsts, keep, ◌==◌, sym, ap, ◌∙◌, ◌&&◌, not, arith, max, take, ◌-◌, Option-cases, ℕ,
  suc, ◌≤◌, ◌≡◌, refl, Option, none, some, List, [], ◌∷◌, ◌++◌, map, if◌then◌else◌, Bool-cases, inl,
  inr,
}
use tridb.Base.Text.{Text, get}
use tridb.Extract.Order.{
  is_article, in_main-is_main, bounded, left_of, left_nil, left_last, left_more, Room, Room-next,
}
use tridb.Extract.{
  Unicode, RawPage, Wikitext, reached, is_main, normalize_title, parse_article, resolve_edge,
}
use tridb.Extract.Shards.{Output, output_of}
use tridb.Extract.Shards.Laws.{Row, row_of}

module _ (u : Unicode) (wikitext : Wikitext) (title_to_id : List (Text × ℕ))
    (redirects : List (Text × Text)) where
  abbrev pub listed : Option Output → List Output
  listed none = []
  listed (some o) = o ∷ []

  -- What the pages give to write, were there no bound.
  abbrev pub outputs_of : List RawPage → List Output
  outputs_of [] = []
  outputs_of (page ∷ rest) =
      listed (output_of u wikitext title_to_id redirects page) ++ outputs_of rest

-- The row of a page of namespace 0 that is no redirect and whose title has an id: the article, and an
-- edge for each article that its links name, itself left out, where it is named first.
module _ (u : Unicode) (wikitext : Wikitext) (title_to_id : List (Text × ℕ))
    (redirects : List (Text × Text)) where
  abbrev pub targets_of : ℕ → Text → List ℕ
  targets_of aid text = firsts contains [] (
      keep (λ d. not (d == aid))
        (named u (resolve_edge title_to_id redirects) (parse_article u wikitext text).1))

  abbrev pub row_of_page : RawPage → List Row
  row_of_page page =
      let found = get title_to_id (normalize_title u page.title) in
      if is_article page
      then (elim found [
        | none ↦ []
        | some aid ↦
            (
              record {
                id = aid;
                title = page.title;
                text = (parse_article u wikitext page.text).0;
                ts = page.timestamp;
              },
              map (λ dst. (aid, dst)) (targets_of aid page.text),
            )
            ∷ []
      ])
      else []

  abbrev pub rows_of : List RawPage → List Row
  rows_of [] = []
  rows_of (page ∷ rest) = row_of_page page ++ rows_of rest

-- The ids of the articles do not fall.
abbrev pub AscendingIds : ℕ → List Row → Type 0
AscendingIds i [] = Unit
AscendingIds i (r ∷ rest) = (i ≤ r.0.id) × AscendingIds r.0.id rest

-- The ids do not fall.
abbrev pub Ascending : ℕ → List Output → Type 0
Ascending i [] = Unit
Ascending i (o ∷ rest) = (i ≤ o.article.id) × Ascending o.article.id rest

-- The first `max_articles`, or one where that is 0.
abbrev pub taken : Option ℕ → ℕ → List Output → List Output
taken max_articles emitted [] = []
taken max_articles emitted (o ∷ rest) =
    let more = taken max_articles (suc emitted) rest in
    o ∷ (if reached max_articles (suc emitted) then [] else more)

module _ (u : Unicode) (wikitext : Wikitext) (title_to_id : List (Text × ℕ))
    (redirects : List (Text × Text)) where
  listed-row_of :
      (page : RawPage)
      → map row_of (
          listed u wikitext title_to_id redirects (output_of u wikitext title_to_id redirects page))
        ≡ row_of_page u wikitext title_to_id redirects page
  unfolding output_of
  listed-row_of page =
      let raws = (parse_article u wikitext page.text).1 in
      elim (Bool-cases (is_main page.ns && not page.is_redirect)) [
        | inr other ↦ rw (in_main-is_main page.ns, other) refl
        | inl main ↦ elim (Option-cases (get title_to_id (normalize_title u page.title))) [
          | inl missing ↦ rw (in_main-is_main page.ns, main, missing) refl
          | inr (aid, found) ↦
              rw (in_main-is_main page.ns, main, found)
                (rw (link_targets-firsts u (resolve_edge title_to_id redirects) aid [] raws) refl)
        ]
      ]

  map-listed :
      (o : Option Output) (rest : List Output)
      → map row_of (listed u wikitext title_to_id redirects o ++ rest)
        ≡ map row_of (listed u wikitext title_to_id redirects o) ++ map row_of rest
  map-listed none rest = refl
  map-listed (some o) rest = refl

  pub outputs-rows :
      (pages : List RawPage)
      → map row_of (outputs_of u wikitext title_to_id redirects pages)
        ≡ rows_of u wikitext title_to_id redirects pages
  outputs-rows [] = refl
  outputs-rows (page ∷ rest) =
      map-listed (output_of u wikitext title_to_id redirects page)
        (outputs_of u wikitext title_to_id redirects rest)
      ∙ rw (listed-row_of page, outputs-rows rest) refl

pub Ascending-outputs :
    (i : ℕ) (outs : List Output) → AscendingIds i (map row_of outs) → Ascending i outs
Ascending-outputs i [] h = tt
Ascending-outputs i (o ∷ rest) h = (h.0, Ascending-outputs o.article.id rest h.1)

taken-left_of :
    (max_articles : Option ℕ) (n : ℕ) (outs : List Output)
    → Room max_articles n
    → map row_of (taken max_articles n outs) ≡ left_of max_articles n (map row_of outs)
taken-left_of max_articles n [] room = sym (left_nil max_articles n)
taken-left_of max_articles n (o ∷ rest) room = elim (Bool-cases (reached max_articles (suc n))) [
  | inl last ↦ rw last (sym (left_last max_articles n (row_of o) (map row_of rest) room last))
  | inr on ↦ rw on (
      ap (λ l. row_of o ∷ l) (taken-left_of max_articles (suc n) rest (Room-next max_articles n on))
      ∙ sym (left_more max_articles n (row_of o) (map row_of rest) room))
]

pub taken-bounded :
    (most : Option ℕ) (outs : List Output)
    → map row_of (taken most 0 outs) ≡ bounded most (map row_of outs)
taken-bounded none outs = taken-left_of none 0 outs tt
taken-bounded (some most) outs =
    let whole : max most 1 - 0 ≡ max most 1 = omega arith in
    taken-left_of (some most) 0 outs (omega arith) ∙ ap (λ n. take n (map row_of outs)) whole
