-- ===== src/Extract/Order.antt =====
-- The titles that first_pass of tools/wiki_extract.py numbers, in their order.
use mathlib.Core.Path.{subst}
use tridb.Base.{
  sym, ap, ◌∙◌, ℕ, zero, suc, ◌+◌, ◌-◌, ◌≤◌, ◌≡◌, refl, Bool, true, false, not, ◌&&◌, ◌||◌, Option,
  none, some, List, [], ◌∷◌, ◌++◌, ◌==◌, ltb, if◌then◌else◌, length, length-append, take, keep, map,
  firsts, arith, Bool-cases, inl, inr, append_assoc, append_nil, max,
}
use tridb.Base.Int.{ℤ, pos, negsuc}
use tridb.Base.Text.{Text, keys, keys-append, mem_text}
use tridb.Extract.{
  Unicode, RawPage, Index, no_pages, has_key, is_empty, is_main, add_redirect, add_article,
  first_pass, reached, normalize_title,
}

-- A page of the namespace 0 that is not a redirect.
abbrev pub in_main : ℤ → Bool
in_main (pos n) = n == 0
in_main (negsuc n) = false

abbrev pub is_article : RawPage → Bool
is_article page = in_main page.ns && not page.is_redirect

-- The normalized titles of the articles, empty ones left out.
abbrev pub article_titles : Unicode → List RawPage → List Text
article_titles u pages =
    keep (λ t. ltb 0 (length t))
      (map (λ (page : RawPage). normalize_title u page.title) (keep is_article pages))

-- The first `max_articles`, or one where that is 0.
abbrev pub bounded : {A : Type 0} → Option ℕ → List A → List A
bounded none titles = titles
bounded (some most) titles = take (max most 1) titles

-- What `n` titles leave room for.
abbrev pub left_of : {A : Type 0} → Option ℕ → ℕ → List A → List A
left_of none n titles = titles
left_of (some most) n titles = take (max most 1 - n) titles

abbrev pub Room : Option ℕ → ℕ → Type 0
Room none n = Unit
Room (some most) n = suc n ≤ max most 1

pub in_main-is_main : (n : ℤ) → in_main n ≡ is_main n
in_main-is_main (pos zero) = refl
in_main-is_main (pos (suc n)) = ground arith
in_main-is_main (negsuc n) = refl

some_title : (t : Text) → ltb 0 (length t) ≡ (if is_empty t then false else true)
some_title [] = refl
some_title (c ∷ t) = ground arith

article_titles_cons :
    (u : Unicode) (page : RawPage) (rest : List RawPage)
    → let key = normalize_title u page.title in
      let later = article_titles u rest in
      article_titles u (page ∷ rest) ≡ (
        if (is_main page.ns && (if is_empty key then false else true)) && not page.is_redirect
        then key ∷ later
        else later)
article_titles_cons u page rest =
    let key = normalize_title u page.title in
    ground (arith, in_main-is_main page.ns, some_title key)

pub left_last :
    {A : Type 0} (most : Option ℕ) (n : ℕ) (key : A) (more : List A)
    → Room most n
    → reached most (suc n) ≡ true
    → left_of most n (key ∷ more) ≡ key ∷ []
left_last none n key more room h = absurd (cc)
left_last (some most) n key more room h =
    let one : max most 1 - n ≡ 1 = ground (arith, room, h) in rw one refl

pub left_more :
    {A : Type 0} (most : Option ℕ) (n : ℕ) (key : A) (more : List A)
    → Room most n
    → left_of most n (key ∷ more) ≡ key ∷ left_of most (suc n) more
left_more none n key more room = refl
left_more (some most) n key more room =
    let one : max most 1 - n ≡ suc (max most 1 - suc n) = omega (arith, room) in rw one refl

pub Room-next : (most : Option ℕ) (n : ℕ) → reached most (suc n) ≡ false → Room most (suc n)
Room-next none n h = tt
Room-next (some most) n h = ground (arith, h)

take_nil : {A : Type 0} (n : ℕ) → take {A = A} n [] ≡ []
take_nil zero = refl
take_nil (suc n) = refl

pub left_nil : {A : Type 0} (most : Option ℕ) (n : ℕ) → left_of {A = A} most n [] ≡ []
left_nil none n = refl
left_nil (some most) n = take_nil (max most 1 - n)

module _ (u : Unicode) (max_articles : Option ℕ) where
  -- What stands in the index once the titles are numbered.
  abbrev grown : List (Text × ℕ) → List Text → List Text
  grown d titles = keys d ++ left_of max_articles (length d) (firsts mem_text (keys d) titles)

  titles-add_redirect :
      (key target : Text) (x : Index) → (add_redirect key target x).title_to_id ≡ x.title_to_id
  titles-add_redirect key target x =
      elim (Bool-cases (is_empty target || has_key x.redirects key)) [
        | inl known ↦ rw known refl
        | inr new ↦ rw new refl
      ]

  -- What a new title and the later ones add.
  abbrev grown_by : Text → List (Text × ℕ) → List Text → List Text
  grown_by key d titles =
      keys d ++ left_of max_articles (length d) (key ∷ firsts mem_text (keys d ++ key ∷ []) titles)

  grown_last :
      (key : Text) (d : List (Text × ℕ)) (titles : List Text)
      → Room max_articles (length d)
      → reached max_articles (suc (length d)) ≡ true
      → keys (d ++ (key, length d) ∷ []) ≡ grown_by key d titles
  grown_last key d titles room last =
      let more = firsts mem_text (keys d ++ key ∷ []) titles in
      keys-append d ((key, length d) ∷ [])
      ∙ ap (λ l. keys d ++ l) (sym (left_last max_articles (length d) key more room last))

  grown_more :
      (key : Text) (d : List (Text × ℕ)) (titles : List Text)
      → Room max_articles (length d)
      → grown (d ++ (key, length d) ∷ []) titles ≡ grown_by key d titles
  grown_more key d titles room =
      let listed = keys-append d ((key, length d) ∷ []) in
      let longer : length (d ++ (key, length d) ∷ []) ≡ suc (length d) =
        omega (arith, length-append d ((key, length d) ∷ [])) in
      let more = firsts mem_text (keys d ++ key ∷ []) titles in
      rw (listed, longer)
        (append_assoc (keys d) (key ∷ []) (left_of max_articles (suc (length d)) more)
          ∙ ap (λ l. keys d ++ l) (sym (left_more max_articles (length d) key more room)))

  pub keys-first_pass' :
      (pages : List RawPage) (x : Index)
      → Room max_articles (length x.title_to_id)
      → keys (first_pass u max_articles pages x).title_to_id
        ≡ grown x.title_to_id (article_titles u pages)
  unfolding first_pass
  keys-first_pass' [] x room = sym (
      ap (λ l. keys x.title_to_id ++ l) (left_nil max_articles (length x.title_to_id))
      ∙ append_nil (keys x.title_to_id))
  keys-first_pass' (page ∷ rest) x room =
      let x' : Index = record x { pages_scanned = x.pages_scanned + 1 } in
      let d = x.title_to_id in
      let key = normalize_title u page.title in
      let titles = article_titles_cons u page rest in
      elim (Bool-cases (is_main page.ns && (if is_empty key then false else true))) [
        | inr out ↦ rw (titles, first_pass) (rw out (keys-first_pass' rest x' room))
        | inl counted ↦ elim (Bool-cases page.is_redirect) [
          | inl moved ↦
              let same = titles-add_redirect key page.redirect_target x' in
              rw (titles, first_pass)
                (rw (counted, moved)
                  (keys-first_pass' rest (add_redirect key page.redirect_target x')
                      (subst (λ d. Room max_articles (length d)) (sym same) room)
                    ∙ ap (λ d. grown d (article_titles u rest)) same))
          | inr article ↦ elim (Bool-cases (has_key d key)) [
            | inl known ↦
                rw (titles, first_pass)
                  (rw (counted, article, known) (keys-first_pass' rest x' room))
            | inr new ↦ elim (Bool-cases (reached max_articles (suc (length d)))) [
              | inl last ↦
                  rw (titles, first_pass)
                    (rw (counted, article, new, last)
                      (grown_last key d (article_titles u rest) room last))
              | inr on ↦
                  let d' = d ++ (key, length d) ∷ [] in
                  let longer : length d' ≡ suc (length d) =
                    omega (arith, length-append d ((key, length d) ∷ [])) in
                  rw (titles, first_pass)
                    (rw (counted, article, new, on)
                      (keys-first_pass' rest (add_article key x') (
                          subst (Room max_articles) (sym longer)
                            (Room-next max_articles (length d) on))
                        ∙ grown_more key d (article_titles u rest) room))
            ]
          ]
        ]
      ]

-- The titles are numbered in the order in which they first stand in the dump, as far as the bound.
pub keys-first_pass :
    (u : Unicode) (max_articles : Option ℕ) (pages : List RawPage)
    → keys (first_pass u max_articles pages no_pages).title_to_id
      ≡ bounded max_articles (firsts mem_text [] (article_titles u pages))
keys-first_pass u none pages = keys-first_pass' u none pages no_pages tt
keys-first_pass u (some most) pages =
    let whole : max most 1 - 0 ≡ max most 1 = omega arith in
    keys-first_pass' u (some most) pages no_pages (omega arith)
    ∙ ap (λ n. take n (firsts mem_text [] (article_titles u pages))) whole
