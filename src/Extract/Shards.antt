-- ===== src/Extract/Shards.antt =====
-- _ShardWriter and second_pass of tools/wiki_extract.py. The directory holds no shard yet, as
-- `open("x")` asks; the lines of a shard are kept as the rows that they are written from.
pub mod Laws
pub mod Rows
pub mod Emitted
use tridb.Base.{
  ℕ, zero, suc, ◌+◌, ◌/◌, Bool, true, false, not, ◌&&◌, Option, none, some, List, [], ◌∷◌, ◌++◌,
  map, ◌==◌, if◌then◌else◌, length, sum, contains,
}
use tridb.Base.Result.{Error, value_error, zero_division, Result, ok, raised, ◌>>=◌}
use tridb.Base.Text.{Text, get, mem_text, text_ltb}
use tridb.Extract.{
  Unicode, RawPage, is_main, normalize_title, link_targets, resolve_edge, reached, Wikitext,
  parse_article,
}

pub record Article : Type 0 where
  pub id : ℕ
  pub title : Text
  pub text : Text
  pub ts : Text

-- One call of `write`.
pub record Output : Type 0 where
  pub article : Article
  pub edges : List (ℕ × ℕ)
  pub categories : List Text

-- A shard's three files, and the rows that its descriptors say.
pub record Shard : Type 0 where
  pub index : ℕ
  pub articles : List Article
  pub edges : List (ℕ × ℕ)
  pub categories : List (ℕ × Text)
  pub arows : ℕ
  pub erows : ℕ
  pub crows : ℕ

-- The shards that are closed, and the open one with its counters.
pub record ShardWriter : Type 0 where
  pub closed : List Shard
  pub current : Option Shard

abbrev pub new_writer : ShardWriter
new_writer = record { closed = []; current = none }

abbrev pub open_shard : ℕ → Shard
open_shard i = record {
  index = i;
  articles = [];
  edges = [];
  categories = [];
  arows = 0;
  erows = 0;
  crows = 0;
}

-- _close_current: the counters become the descriptors.
abbrev pub close_current : ShardWriter → List Shard
close_current w = elim w.current [ none ↦ w.closed | some s ↦ w.closed ++ s ∷ [] ]

abbrev pub opened_shards : ShardWriter → List ℕ
opened_shards w = map (λ s. s.index) (close_current w)

abbrev pub rotate : ℕ → ShardWriter → Result ShardWriter
rotate i w =
    if contains (opened_shards w) i
    then raised value_error
    else ok (record { closed = close_current w; current = some (open_shard i) })

-- The shard that `write` writes to.
abbrev pub shard_for : ℕ → ShardWriter → Result ShardWriter
shard_for i w = elim w.current [
  | none ↦ rotate i w
  | some s ↦ if s.index == i then ok w else rotate i w
]

abbrev pub append_output : Output → Shard → Shard
append_output o s = record s {
  articles = s.articles ++ o.article ∷ [];
  edges = s.edges ++ o.edges;
  categories = s.categories ++ map (λ cat. (o.article.id, cat)) o.categories;
  arows = s.arows + 1;
  erows = s.erows + length o.edges;
  crows = s.crows + length o.categories;
}

abbrev pub append_current : Output → ShardWriter → ShardWriter
append_current o w = record w {
  current = elim w.current [ none ↦ none | some s ↦ some (append_output o s) ];
}

unfoldable pub write : ℕ → Output → ShardWriter → Result ShardWriter
write shard_size o w =
    if shard_size == 0
    then raised zero_division
    else shard_for (o.article.id / shard_size) w >>= λ w'. ok (append_current o w')

-- `totals`, of the descriptors.
abbrev pub totals : List Shard → ℕ × ℕ × ℕ
totals shards = (
  sum (map (λ s. s.arows) shards),
  sum (map (λ s. s.erows) shards),
  sum (map (λ s. s.crows) shards),
)

-- sorted(set(raw_cats))
abbrev pub place_text : Text → List Text → List Text
place_text x [] = x ∷ []
place_text x (y ∷ ys) = let rest = place_text x ys in if text_ltb y x then y ∷ rest else x ∷ y ∷ ys

abbrev pub sorted_set : List Text → List Text
sorted_set [] = []
sorted_set (x ∷ xs) =
    let rest = sorted_set xs in if mem_text rest x then rest else place_text x rest

module _ (u : Unicode) (wikitext : Wikitext) (title_to_id : List (Text × ℕ))
    (redirects : List (Text × Text)) where
  -- What a page gives to write.
  unfoldable pub output_of : RawPage → Option Output
  unfolding parse_article
  output_of page =
      if is_main page.ns && not page.is_redirect
      then (elim (get title_to_id (normalize_title u page.title)) [
        | none ↦ none
        | some aid ↦
            let (plain, raw_links, raw_cats) = parse_article u wikitext page.text in
            let targets = link_targets u (resolve_edge title_to_id redirects) aid [] raw_links in
            some (record {
              article = record { id = aid; title = page.title; text = plain; ts = page.timestamp };
              edges = map (λ dst. (aid, dst)) targets;
              categories = sorted_set raw_cats;
            })
      ])
      else none

  module _ (max_articles : Option ℕ) (shard_size : ℕ) where
    -- One turn of the loop over the pages: `more` is what the pages after this one do.
    unfoldable pub emit_output :
        Option Output
        → ℕ
        → (ℕ → ShardWriter → Result ShardWriter)
        → ShardWriter
        → Result ShardWriter
    unfolding write
    emit_output none emitted more w = more emitted w
    emit_output (some o) emitted more w = write shard_size o w >>= λ w'.
        let later = more (suc emitted) w' in
        if reached max_articles (suc emitted) then ok w' else later

    unfoldable pub emit_pages : List RawPage → ℕ → ShardWriter → Result ShardWriter
    unfolding emit_output output_of
    emit_pages [] emitted w = ok w
    emit_pages (page ∷ rest) emitted w =
        emit_output (output_of page) emitted (λ n w'. emit_pages rest n w') w

    -- second_pass: the shards, closed.
    unfoldable pub second_pass : List RawPage → Result (List Shard)
    unfolding emit_pages
    second_pass pages = emit_pages pages 0 new_writer >>= λ w. ok (close_current w)
