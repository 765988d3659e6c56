-- ===== src/Extract.antt =====
-- tools/wiki_extract.py: the two passes over a dump of a wiki. The pages are an argument, in the
-- order of the dump; so are Unicode's cases and white space, and mwparserfromhell.
pub mod Titles
unfoldable pub use Titles.*
pub mod Resolve
pub mod Order
pub mod Ids
pub mod Edges
pub mod Shards
pub mod Escape
pub mod Tests
use tridb.Base.{
  ℕ, zero, suc, ◌+◌, Bool, true, false, ◌&&◌, ◌||◌, Option, none, some, List, [], ◌∷◌, ◌++◌, map,
  leb, ◌==◌, if◌then◌else◌, length, contains, insert,
}
use tridb.Base.Int.{ℤ, pos, negsuc}
use tridb.Base.Text.{Text, text_eq, mem_text, get, keys}

pub record RawPage : Type 0 where
  pub title : Text
  pub ns : ℤ
  pub is_redirect : Bool
  pub redirect_target : Text
  pub timestamp : Text
  pub text : Text

abbrev pub is_main : ℤ → Bool
is_main (pos zero) = true
is_main _ = false

-- What first_pass builds.
pub record Index : Type 0 where
  pub title_to_id : List (Text × ℕ)
  pub redirects : List (Text × Text)
  pub pages_scanned : ℕ

abbrev pub no_pages : Index
no_pages = record { title_to_id = []; redirects = []; pages_scanned = 0 }

-- `key in d`
abbrev pub has_key {ℓ} : {A : Type ℓ} → List (Text × A) → Text → Bool
has_key d key = mem_text (keys d) key

abbrev pub add_redirect : Text → Text → Index → Index
add_redirect key target x =
    if is_empty target || has_key x.redirects key
    then x
    else record x { redirects = x.redirects ++ (key, target) ∷ [] }

abbrev pub add_article : Text → Index → Index
add_article key x = record x { title_to_id = x.title_to_id ++ (key, length x.title_to_id) ∷ [] }

-- max_articles is not None and n >= max_articles
abbrev pub reached : Option ℕ → ℕ → Bool
reached none n = false
reached (some most) n = leb most n

module _ (u : Unicode) (max_articles : Option ℕ) where
  -- One page that is counted: the index after it, and whether it took the last id.
  abbrev pub index_page : RawPage → Index → Index × Bool
  index_page page x =
      let key = normalize_title u page.title in
      if is_main page.ns && (if is_empty key then false else true)
      then if page.is_redirect
        then (add_redirect key page.redirect_target x, false)
        else if has_key x.title_to_id key
        then (x, false)
        else (add_article key x, reached max_articles (suc (length x.title_to_id)))
      else (x, false)

  unfoldable pub first_pass : List RawPage → Index → Index
  unfolding normalize_title
  first_pass [] x = x
  first_pass (page ∷ rest) x =
      let step = index_page page (record x { pages_scanned = x.pages_scanned + 1 }) in
      let more = first_pass rest step.0 in if step.1 then step.0 else more

abbrev pub max_redirect_hops : ℕ
max_redirect_hops = 8

module _ (title_to_id : List (Text × ℕ)) (redirects : List (Text × Text)) where
  -- The loop of resolve_edge, over the hops that are left.
  unfoldable pub resolve_hops : ℕ → List Text → Text → Option ℕ
  resolve_hops zero seen cur = none
  resolve_hops (suc hops) seen cur = elim (get title_to_id cur) [
    | some hit ↦ some hit
    | none ↦ elim (get redirects cur) [
      | none ↦ none
      | some nxt ↦
          let later = resolve_hops hops (cur ∷ seen) nxt in
          if mem_text seen cur then none else later
    ]
  ]

  abbrev pub resolve_edge : Text → Option ℕ
  resolve_edge key = resolve_hops max_redirect_hops [] key

-- The targets of an article: `seen`, in the order of its additions.
unfoldable pub link_targets : Unicode → (Text → Option ℕ) → ℕ → List ℕ → List Text → List ℕ
unfolding resolve_link_target
link_targets u resolve aid seen [] = seen
link_targets u resolve aid seen (raw ∷ rest) =
    let tkey = resolve_link_target u raw in
    let skipped = link_targets u resolve aid seen rest in
    if is_empty tkey then skipped else (elim (resolve tkey) [
      | none ↦ skipped
      | some dst ↦
          let taken = link_targets u resolve aid (seen ++ dst ∷ []) rest in
          if dst == aid || contains seen dst then skipped else taken
    ])
