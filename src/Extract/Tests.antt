-- ===== src/Extract/Tests.antt =====
-- The theorems on tools/wiki_extract.py at a small dump, and runs of its functions.
use tridb.Base.{
  ℕ, ◌+◌, ◌-◌, ◌<◌, ◌≡◌, ◌↔◌, refl, Bool, true, false, ◌&&◌, ◌||◌, Option, none, some, List, [],
  ◌∷◌, ◌++◌, map, ◌==◌, leb, if◌then◌else◌, arith, All, firsts,
}
use tridb.Base.Int.{pos}
use tridb.Base.Result.{ok, raised, value_error}
use tridb.Base.Text.{Text, keys, mem_text}
use tridb.Extract.{
  Unicode, Wikitext, category_name, RawPage, Index, no_pages, first_pass, normalize_title,
  resolve_link_target, resolve_edge, link_targets, max_redirect_hops,
}
use tridb.Extract.Order.{article_titles, bounded}
use tridb.Extract.Ids.{IsIndex, first_pass-IsIndex}
use tridb.Extract.Resolve.{Follows, resolve_edge-Follows}
use tridb.Extract.Escape.{
  copy_text_escape, copy_text_read, IsPlain, copy_text_read-copy_text_escape,
}
use tridb.Extract.Shards.{Shard, second_pass}
use tridb.Extract.Shards.Laws.{Row, articles_in, edges_in, written, written_edges, IsAligned}
use tridb.Extract.Shards.Rows.{rows_of, AscendingIds}
use tridb.Extract.Shards.Emitted.{articles-second_pass}

-- The part of Unicode that is ASCII.
abbrev ascii : Unicode
ascii = record {
  is_space = λ c. c == b' ' || (leb 9 c && leb c 13);
  upper = λ c. (if leb b'a' c && leb c b'z' then c - 32 else c) ∷ [];
  lower = λ c. (if leb b'A' c && leb c b'Z' then c + 32 else c) ∷ [];
}

abbrev a_b : Text
a_b = b' ' ∷ b'a' ∷ b'_' ∷ b' ' ∷ b'b' ∷ b'_' ∷ []

underscores : normalize_title ascii a_b ≡ b'A' ∷ b' ' ∷ b'b' ∷ []
unfolding normalize_title
underscores = refl

anchor : resolve_link_target ascii (b':' ∷ b'a' ∷ b'#' ∷ b'x' ∷ []) ≡ b'A' ∷ []
unfolding resolve_link_target
anchor = refl

abbrev category_link : Text
category_link =
    b'C' ∷ b'a' ∷ b't' ∷ b'e' ∷ b'g' ∷ b'o' ∷ b'r' ∷ b'y' ∷ b' ' ∷ b':' ∷ b'x' ∷ b'|' ∷ []

membership : category_name ascii category_link ≡ some (b'X' ∷ b'|' ∷ [])
unfolding category_name
membership = refl

no_membership : category_name ascii (b':' ∷ category_link) ≡ none
unfolding category_name
no_membership = refl

abbrev page_at : Text → Bool → Text → Text → RawPage
page_at title is_redirect target text = record {
  title = title;
  ns = pos 0;
  is_redirect = is_redirect;
  redirect_target = target;
  timestamp = [];
  text = text;
}

-- Articles A and C; B redirects to A.
abbrev pages : List RawPage
pages =
    page_at (b'a' ∷ []) false [] (b'b' ∷ b'c' ∷ b'a' ∷ b'c' ∷ [])
    ∷ page_at (b'b' ∷ []) true (b'A' ∷ []) []
    ∷ page_at (b'c' ∷ []) false [] (b'b' ∷ b'z' ∷ [])
    ∷ []

abbrev index : Index
index = record {
  title_to_id = (b'A' ∷ [], 0) ∷ (b'C' ∷ [], 1) ∷ [];
  redirects = (b'B' ∷ [], b'A' ∷ []) ∷ [];
  pages_scanned = 3;
}

indexed : first_pass ascii none pages no_pages ≡ index
unfolding first_pass
indexed = refl

first_pass-IsIndex_example :
    let x = first_pass ascii (some 1) pages no_pages in
    (keys x.title_to_id ≡ bounded (some 1) (firsts mem_text [] (article_titles ascii pages)))
    × IsIndex (some 1) x
first_pass-IsIndex_example = first_pass-IsIndex ascii (some 1) pages

resolve_edge-Follows_example :
    (resolve_edge index.title_to_id index.redirects (b'B' ∷ []) ≡ some 0) ↔ (
      (n : ℕ) × (n < max_redirect_hops) × Follows index.title_to_id index.redirects n (b'B' ∷ []) 0)
resolve_edge-Follows_example = resolve_edge-Follows index.title_to_id index.redirects (b'B' ∷ []) 0

-- A chain of eight redirects reaches its article one hop too late.
abbrev chain : List (Text × Text)
chain =
    (1 ∷ [], 2 ∷ [])
    ∷ (2 ∷ [], 3 ∷ [])
    ∷ (3 ∷ [], 4 ∷ [])
    ∷ (4 ∷ [], 5 ∷ [])
    ∷ (5 ∷ [], 6 ∷ [])
    ∷ (6 ∷ [], 7 ∷ [])
    ∷ (7 ∷ [], 8 ∷ [])
    ∷ (8 ∷ [], 9 ∷ [])
    ∷ []

eight_hops : resolve_edge ((9 ∷ [], 0) ∷ []) chain (1 ∷ []) ≡ none
unfolding tridb.Extract.resolve_hops
eight_hops = refl

seven_hops : resolve_edge ((9 ∷ [], 0) ∷ []) chain (2 ∷ []) ≡ some 0
unfolding tridb.Extract.resolve_hops
seven_hops = refl

abbrev resolve : Text → Option ℕ
resolve key = resolve_edge index.title_to_id index.redirects key

abbrev raws : List Text
raws = (b'b' ∷ []) ∷ (b'c' ∷ []) ∷ (b'a' ∷ []) ∷ (b'c' ∷ []) ∷ []

copy_text_read-copy_text_escape_example :
    (copy_text_read false (copy_text_escape (b'\\' ∷ b'\t' ∷ b'C' ∷ []))
      ≡ b'\\' ∷ b'\t' ∷ b'C' ∷ [])
    × All IsPlain (copy_text_escape (b'\\' ∷ b'\t' ∷ b'C' ∷ []))
copy_text_read-copy_text_escape_example =
    copy_text_read-copy_text_escape (b'\\' ∷ b'\t' ∷ b'C' ∷ [])

-- Each character of the text is a link.
abbrev wikitext : Wikitext
wikitext = record { wikilinks = λ text. map (λ c. c ∷ []) text; plain = λ text removed. text }

abbrev rows : List Row
rows = rows_of ascii wikitext index.title_to_id index.redirects pages

ascending : AscendingIds 0 rows
unfolding tridb.Extract.normalize_title
ascending = (omega arith, (omega arith, tt))

articles-second_pass_example :
    (shards : List Shard) × (second_pass ascii wikitext index.title_to_id index.redirects none 1
        pages
      ≡ ok shards)
    × All (IsAligned 1) shards
    × ((written shards ≡ articles_in rows) × (written_edges shards ≡ edges_in rows))
articles-second_pass_example =
    articles-second_pass ascii wikitext index.title_to_id index.redirects none 1 (omega arith) pages
      ascending

-- A page whose title is repeated in the dump is skipped by the first pass, and written again by the
-- second: with one article in each shard, its shard is closed.
repeated :
    second_pass ascii wikitext index.title_to_id index.redirects none 1
      (pages ++ page_at (b'A' ∷ []) false [] [] ∷ [])
    ≡ raised value_error
unfolding second_pass tridb.Extract.link_targets tridb.Extract.resolve_hops
repeated = refl
