-- ===== src/Reader/Overlay.antt =====
-- The overlay database of tools/wiki_reader.py, and what accept_fact and dismiss_fact do between the
-- claim of a suggestion and its end. The connection sees its own open transaction (`seen`); what
-- SQLite has committed is `saved`.
pub mod Laws
pub mod Checks
use tridb.Base.{
  ℕ, ◌+◌, Bool, true, false, not, ◌&&◌, ◌||◌, Option, none, some, List, [], ◌∷◌, ◌++◌, ◌==◌, leb,
  ltb, if◌then◌else◌, length, take,
}
use tridb.Base.Text.{Text, text_eq}
use tridb.Reader.Pending.{Suggestion}

pub record Article : Type 0 where
  pub title : Text
  pub body : Text

-- What the standard libraries compute: SQLite's lower and Python's, Python's white space, and the
-- regular expression _FACT_PROPERTY_RE; and `self.article`, which reads the corpus: the article of an
-- id as it is at a time.
pub record Host : Type 0 where
  pub sql_lower : Text → Text
  pub py_lower : Text → Text
  pub is_space : ℕ → Bool
  pub is_property : Text → Bool
  pub article_at : ℕ → ℕ → Option Article

-- A row of `facts`.
pub record Fact : Type 0 where
  pub subject_id : ℕ
  pub property : Text
  pub value : Text
  pub source_id : ℕ
  pub source_title : Text
  pub source_snippet : Text
  pub accepted_ts : ℕ

-- A row of `dismissed`.
pub record Dismissal : Type 0 where
  pub subject_id : ℕ
  pub property : Text
  pub value : Text

pub record Tables : Type 0 where
  pub facts : List Fact
  pub dismissed : List Dismissal

pub record Db : Type 0 where
  pub seen : Tables
  pub saved : Tables

-- How the statements of a write end: all succeed; the INSERT raises; the COMMIT raises and leaves
-- the transaction open, as SQLite does when it is busy; or it raises and rolls back.
pub data Outcome : Type 0 where
  committed refused busy rolled_back : Outcome

-- The database after INSERT and COMMIT, and whether they returned.
abbrev pub insert_row : Outcome → Tables → Db → Bool × Db
insert_row committed t db = (true, record { seen = t; saved = t })
insert_row refused t db = (false, db)
insert_row busy t db = (false, record db { seen = t })
insert_row rolled_back t db = (false, record db { seen = db.saved })

abbrev pub is_empty : Text → Bool
is_empty [] = true
is_empty (c ∷ rest) = false

abbrev pub has_control : Text → Bool
has_control [] = false
has_control (c ∷ rest) = ltb c 32 || has_control rest

abbrev pub starts_with : Text → Text → Bool
starts_with t [] = true
starts_with [] (p ∷ ps) = false
starts_with (c ∷ cs) (p ∷ ps) = c == p && starts_with cs ps

-- `a in t`
abbrev pub is_infix : Text → Text → Bool
is_infix a [] = is_empty a
is_infix a (c ∷ rest) = starts_with (c ∷ rest) a || is_infix a rest

abbrev pub flush : Text → List Text → List Text
flush [] rest = rest
flush (c ∷ cs) rest = (c ∷ cs) ∷ rest

-- s.split(), with the word that is being read.
unfoldable pub split_words : (ℕ → Bool) → Text → Text → List Text
split_words is_space word [] = flush word []
split_words is_space word (c ∷ rest) = elim (is_space c) [
  | true ↦ flush word (split_words is_space [] rest)
  | false ↦ split_words is_space (word ++ c ∷ []) rest
]

abbrev pub join_spaces : List Text → Text
join_spaces [] = []
join_spaces (w ∷ []) = w
join_spaces (w ∷ v ∷ rest) = w ++ b' ' ∷ join_spaces (v ∷ rest)

unfoldable pub norm_ws : (ℕ → Bool) → Text → Text
unfolding split_words
norm_ws is_space s = join_spaces (split_words is_space [] s)

abbrev pub snippet_min : ℕ
snippet_min = 12

abbrev pub source_chars : ℕ
source_chars = 900

module _ (host : Host) where
  open host use {sql_lower, py_lower, is_space, is_property}

  unfoldable pub snippet_grounded : Text → Text → Bool
  unfolding norm_ws
  snippet_grounded snippet source_text =
      let a = py_lower (norm_ws is_space snippet) in
      leb snippet_min (length a) && is_infix a (py_lower (norm_ws is_space source_text))

  pub data Review : Type 0 where
    passes : Text → Review
    rejected : ℕ → Review

  -- The checks of accept_fact against the source article as it is now; `rejected` has the status.
  unfoldable pub review : Suggestion → Option Article → Review
  unfolding snippet_grounded
  review s art =
      if not (is_property s.property)
        || is_empty s.value
        || ltb 300 (length s.value)
        || has_control s.value
      then rejected 400
      else elim art [
        | none ↦ rejected 409
        | some a ↦
            if snippet_grounded s.source_snippet (take source_chars a.body)
            then passes a.title
            else rejected 409
      ]

  -- WHERE subject_id=? AND lower(property)=? AND lower(value)=?
  abbrev pub same_fact : Suggestion → Fact → Bool
  same_fact s f =
      f.subject_id == s.subject_id
      && text_eq (sql_lower f.property) (py_lower s.property)
      && text_eq (sql_lower f.value) (py_lower s.value)

  abbrev pub exists_fact : Suggestion → List Fact → Bool
  exists_fact s [] = false
  exists_fact s (f ∷ rest) = same_fact s f || exists_fact s rest

  abbrev pub fact_of : Suggestion → Text → ℕ → Fact
  fact_of s title now = record {
    subject_id = s.subject_id;
    property = take 300 s.property;
    value = take 300 s.value;
    source_id = s.source_id;
    source_title = take 300 title;
    source_snippet = take 300 s.source_snippet;
    accepted_ts = now;
  }

  -- The section of accept_fact under the overlay's lock.
  unfoldable pub accept_write : Suggestion → Text → ℕ → Outcome → Db → Bool × Db
  accept_write s title now outcome db =
      if exists_fact s db.seen.facts
      then (true, db)
      else insert_row outcome (record db.seen { facts = db.seen.facts ++ fact_of s title now ∷ [] })
          db

  -- The section of dismiss_fact under the overlay's lock.
  unfoldable pub dismiss_write : Suggestion → Outcome → Db → Bool × Db
  dismiss_write s outcome db =
      let row : Dismissal = record {
        subject_id = s.subject_id;
        property = s.property;
        value = s.value;
      } in
      insert_row outcome (record db.seen { dismissed = db.seen.dismissed ++ row ∷ [] }) db
