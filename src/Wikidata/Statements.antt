-- ===== src/Wikidata/Statements.antt =====
-- The entity reader of tools/wikidata_ingest.py. A parsed line is a record of the keys that the
-- code reads, a key that is absent being `none`; documents whose values have another type, on which
-- the code raises AttributeError, are left out, and so are the literal columns.
use Prim.Native.Char.{code}
use Prim.Native.String.{String}
use text.Mathlib.Text.{◌==◌ as str_eq}
use tridb.Base.{
  ℕ, ◌+◌, ◌-◌, ◌*◌, Bool, true, false, ◌&&◌, ◌||◌, Option, none, some, List, [], ◌∷◌, ◌++◌, ◌==◌,
  leb, if◌then◌else◌, max, keep, insert,
}

pub record Snak : Type 0 where
  pub snaktype : Option String
  pub value_type : Option String
  pub value_id : Option String

pub record Statement : Type 0 where
  pub rank : Option String
  pub mainsnak : Snak

-- `claims`: each property with its statements, in the order of the document.
abbrev pub Claims : Type 0
Claims = List (String × List Statement)

pub record Entity : Type 0 where
  pub type : Option String
  pub id : Option String
  pub label : Option String
  pub description : Option String
  pub claims : Claims

-- What one line of the dump holds.
pub data Line : Type 0 where
  blank bracket not_json not_object : Line
  object : Entity → Line

abbrev pub codes : String → List ℕ
codes String.[] = []
codes (String.◌∷◌ c s) = code c ∷ codes s

abbrev pub is_digit : ℕ → Bool
is_digit c = leb b'0' c && leb c b'9'

-- `[0-9]*$`, where `$` also stands before one last line feed.
unfoldable pub digits : ℕ → List ℕ → Option ℕ
digits n [] = some n
digits n (c ∷ []) =
    if is_digit c then some (n * 10 + (c - 48)) else if c == 10 then some n else none
digits n (c ∷ d ∷ rest) =
    let more = digits (n * 10 + (c - 48)) (d ∷ rest) in if is_digit c then more else none

-- `^X([1-9][0-9]*)$`
unfoldable pub tagged : ℕ → List ℕ → Option ℕ
unfolding digits
tagged tag (t ∷ c ∷ rest) =
    if t == tag && (leb b'1' c && leb c b'9') then digits (c - 48) rest else none
tagged tag _ = none

unfoldable pub qid_to_int : String → Option ℕ
unfolding tagged
qid_to_int qid = tagged b'Q' (codes qid)

unfoldable pub pid_to_int : String → Option ℕ
unfolding tagged
pid_to_int pid = tagged b'P' (codes pid)

-- _RANK_ORDER.get(s.get("rank", "normal"), 1)
unfoldable pub rank_of : Statement → ℕ
rank_of s = elim s.rank [
  | none ↦ 1
  | some r ↦ if str_eq r "deprecated" then 0 else if str_eq r "preferred" then 2 else 1
]

abbrev pub best_rank : List Statement → ℕ
best_rank [] = 0
best_rank (s ∷ rest) = max (rank_of s) (best_rank rest)

unfoldable pub best_rank_statements : List Statement → List Statement
unfolding rank_of
best_rank_statements statements =
    let best = best_rank statements in keep (λ s. rank_of s == best) statements

-- _mainsnak_entity_target
unfoldable pub mainsnak_entity_target : Statement → Option ℕ
unfolding qid_to_int
mainsnak_entity_target s = elim s.mainsnak.snaktype [
  | none ↦ none
  | some kind ↦
      if str_eq kind "value"
      then (elim s.mainsnak.value_type [
        | none ↦ none
        | some t ↦
            if str_eq t "wikibase-entityid"
            then (elim s.mainsnak.value_id [ none ↦ none | some qid ↦ qid_to_int qid ])
            else none
      ])
      else none
]

abbrev pub Edge : Type 0
Edge = ℕ × ℕ

abbrev pub edge_in : List Edge → Edge → Bool
edge_in [] e = false
edge_in ((p, d) ∷ rest) (q, c) = (p == q && d == c) || edge_in rest (q, c)

-- The inner loop over one property's truthy statements; `edges` is also what was seen.
abbrev pub property_edges : ℕ → List Statement → List Edge → List Edge
property_edges pid [] edges = edges
property_edges pid (s ∷ rest) edges = property_edges pid rest (elim (mainsnak_entity_target s) [
  | none ↦ edges
  | some dst ↦ if edge_in edges (pid, dst) then edges else edges ++ (pid, dst) ∷ []
])

-- `pid_to_int(p) or 0`
abbrev pub sort_key : String → ℕ
sort_key p = elim (pid_to_int p) [ none ↦ 0 | some n ↦ n ]

unfoldable pub place_claim : String × List Statement → Claims → Claims
place_claim (p, ss) [] = (p, ss) ∷ []
place_claim (p, ss) ((q, ts) ∷ rest) =
    let later = place_claim (p, ss) rest in
    if leb (sort_key p) (sort_key q) then (p, ss) ∷ (q, ts) ∷ rest else (q, ts) ∷ later

-- sorted(claims, key=lambda p: pid_to_int(p) or 0)
unfoldable pub sorted_claims : Claims → Claims
unfolding place_claim pid_to_int
sorted_claims [] = []
sorted_claims (c ∷ rest) = place_claim c (sorted_claims rest)

unfoldable pub edges_from : Claims → List Edge → List Edge
edges_from [] edges = edges
edges_from ((prop, ss) ∷ rest) edges = edges_from rest (elim (pid_to_int prop) [
  | none ↦ edges
  | some pid ↦ property_edges pid (best_rank_statements ss) edges
])

unfoldable pub entity_edges : Claims → List Edge
unfolding sorted_claims edges_from best_rank_statements mainsnak_entity_target pid_to_int
entity_edges claims = edges_from (sorted_claims claims) []

abbrev pub claims_of : Claims → String → List Statement
claims_of [] p = []
claims_of ((q, ss) ∷ rest) p = if str_eq q p then ss else claims_of rest p

abbrev pub add_types : List Statement → List ℕ → List ℕ
add_types [] out = out
add_types (s ∷ rest) out =
    add_types rest (elim (mainsnak_entity_target s) [ none ↦ out | some dst ↦ insert out dst ])

-- The targets of P31.
unfoldable pub entity_types : Claims → List ℕ
unfolding best_rank_statements mainsnak_entity_target
entity_types claims = add_types (best_rank_statements (claims_of claims "P31")) []

pub record ParsedEntity : Type 0 where
  pub id : ℕ
  pub label : String
  pub description : String
  pub edges : List Edge
  pub types : List ℕ

abbrev pub text_or_empty : Option String → String
text_or_empty none = ""
text_or_empty (some s) = s

-- `qid_to_int(obj.get("id", ""))`
unfoldable pub entity_id : Entity → Option ℕ
unfolding qid_to_int
entity_id obj = elim obj.id [ none ↦ none | some qid ↦ qid_to_int qid ]

abbrev pub is_item : Entity → Bool
is_item obj = elim obj.type [ none ↦ false | some t ↦ str_eq t "item" ]

unfoldable pub parse_entity : Entity → Option ParsedEntity
parse_entity obj =
    if is_item obj
    then (elim (entity_id obj) [
      | none ↦ none
      | some eid ↦
          let label = text_or_empty obj.label in
          let description = text_or_empty obj.description in
          if str_eq label "" && str_eq description ""
          then none
          else some (record {
            id = eid;
            label = label;
            description = description;
            edges = entity_edges obj.claims;
            types = entity_types obj.claims;
          })
    ])
    else none

abbrev pub is_usable : Entity → Bool
is_usable obj = elim (parse_entity obj) [ none ↦ false | some e ↦ true ]

-- iter_entities
abbrev pub iter_entities : List Line → List Entity
iter_entities [] = []
iter_entities (object obj ∷ rest) = obj ∷ iter_entities rest
iter_entities (_ ∷ rest) = iter_entities rest
