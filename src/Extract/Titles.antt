-- ===== src/Extract/Titles.antt =====
-- The titles, links and categories of tools/wiki_extract.py.
use tridb.Base.{
  ℕ, Bool, true, false, ◌&&◌, Option, none, some, List, [], ◌∷◌, ◌++◌, map, ◌==◌, if◌then◌else◌,
}
use tridb.Base.Text.{Text, text_eq}

-- str.isspace, str.upper and str.lower, at one character.
pub record Unicode : Type 0 where
  pub is_space : ℕ → Bool
  pub upper : ℕ → Text
  pub lower : ℕ → Text

-- title.replace("_", " ")
abbrev pub spaced : ℕ → ℕ
spaced c = if c == b'_' then b' ' else c

-- _WS.sub(" ", t): `after` tells that the run's space is written already.
abbrev pub squeeze : Unicode → Bool → Text → Text
squeeze u after [] = []
squeeze u after (c ∷ rest) =
    let in_run = squeeze u true rest in
    let out = squeeze u false rest in
    if u.is_space c then (if after then in_run else b' ' ∷ in_run) else c ∷ out

-- t.strip()
abbrev pub lstrip : Unicode → Text → Text
lstrip u [] = []
lstrip u (c ∷ rest) = let later = lstrip u rest in if u.is_space c then later else c ∷ rest

unfoldable pub rstrip : Unicode → Text → Text
rstrip u [] = []
rstrip u (c ∷ rest) = elim (rstrip u rest) [
  | [] ↦ if u.is_space c then [] else c ∷ []
  | d ∷ ds ↦ c ∷ d ∷ ds
]

abbrev pub strip : Unicode → Text → Text
strip u t = rstrip u (lstrip u t)

abbrev pub capitalised : Unicode → Text → Text
capitalised u [] = []
capitalised u (c ∷ rest) = u.upper c ++ rest

unfoldable pub normalize_title : Unicode → Text → Text
unfolding rstrip
normalize_title u title = capitalised u (strip u (squeeze u false (map spaced title)))

abbrev pub without_colon : Text → Text
without_colon [] = []
without_colon (c ∷ rest) = if c == b':' then rest else c ∷ rest

-- t.split("#", 1)[0]
abbrev pub before_hash : Text → Text
before_hash [] = []
before_hash (c ∷ rest) = let later = before_hash rest in if c == b'#' then [] else c ∷ later

unfoldable pub resolve_link_target : Unicode → Text → Text
unfolding normalize_title
resolve_link_target u raw = normalize_title u (before_hash (without_colon (strip u raw)))

-- t.partition(":"), `none` where there is no colon.
abbrev pub split_colon : Text → Option (Text × Text)
split_colon [] = none
split_colon (c ∷ rest) =
    if c == b':'
    then some ([], rest)
    else (elim (split_colon rest) [ none ↦ none | some parts ↦ some (c ∷ parts.0, parts.1) ])

abbrev pub lowered : Unicode → Text → Text
lowered u [] = []
lowered u (c ∷ rest) = u.lower c ++ lowered u rest

abbrev pub category_prefix : Text
category_prefix = b'c' ∷ b'a' ∷ b't' ∷ b'e' ∷ b'g' ∷ b'o' ∷ b'r' ∷ b'y' ∷ []

abbrev pub is_empty : Text → Bool
is_empty [] = true
is_empty (c ∷ rest) = false

abbrev pub starts_with_colon : Text → Bool
starts_with_colon [] = false
starts_with_colon (c ∷ rest) = c == b':'

unfoldable pub category_name : Unicode → Text → Option Text
unfolding normalize_title
category_name u raw =
    let t = strip u raw in
    if starts_with_colon t then none else (elim (split_colon t) [
      | none ↦ none
      | some parts ↦
          let name = normalize_title u (before_hash parts.1) in
          if text_eq (lowered u (strip u parts.0)) category_prefix
            && (if is_empty name then false else true)
          then some name
          else none
    ])

-- mwparserfromhell: the titles of a text's links, and its plain text once some of the links are
-- removed.
pub record Wikitext : Type 0 where
  pub wikilinks : Text → List Text
  pub plain : Text → List Text → Text

-- The loop over the links: the targets, the categories, and the links that were removed.
abbrev pub sort_links : Unicode → List Text → List Text × List Text × List Text
sort_links u [] = ([], [], [])
sort_links u (raw ∷ rest) =
    let (targets, categories, removed) = sort_links u rest in
    elim (category_name u raw) [
      | none ↦ (raw ∷ targets, categories, removed)
      | some cat ↦ (targets, cat ∷ categories, raw ∷ removed)
    ]

unfoldable pub parse_article : Unicode → Wikitext → Text → Text × List Text × List Text
unfolding category_name
parse_article u wikitext text =
    let (targets, categories, removed) = sort_links u (wikitext.wikilinks text) in
    (strip u (wikitext.plain text removed), targets, categories)
