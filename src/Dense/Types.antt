-- ===== src/Dense/Types.antt =====
-- The types of the entities, as tools/wikidata_engine_load.py loads them and as bench/wikidata_h2h.py
-- reads them. The rows of the claims shards come in their order, those of a missing shard being none.
pub mod Agree
use tridb.Base.{
  ℕ, Bool, true, false, Option, none, some, List, [], ◌∷◌, ◌++◌, ◌==◌, leb, if◌then◌else◌, contains,
  insert,
}
use tridb.Base.Sort.{sort}
use tridb.Base.Text.{Text}
use tridb.Dense.{Lookup, find, is_some}

-- A line of a claims shard: an entity and its P31 list, or a blank.
abbrev pub ClaimsRow : Type 0
ClaimsRow = Option (ℕ × List ℕ)

abbrev pub claims_in : Option (List ClaimsRow) → List ClaimsRow
claims_in none = []
claims_in (some rows) = rows

abbrev pub claims_rows : (Text → Option (List ClaimsRow)) → List Text → List ClaimsRow
claims_rows read [] = []
claims_rows read (path ∷ rest) = claims_in (read path) ++ claims_rows read rest

abbrev pub add_type : Option ℕ → List ℕ → List ℕ
add_type none acc = acc
add_type (some t) acc = insert acc t

-- {qmap[t] for t in P31 if t in qmap}, which both programs compute.
abbrev pub dense_types : Lookup → List ℕ → List ℕ → List ℕ
dense_types qmap [] acc = acc
dense_types qmap (t ∷ rest) acc = dense_types qmap rest (add_type (qmap t) acc)

abbrev pub TypeMap : Type 0
TypeMap = List (ℕ × List ℕ)

-- `if e is None or e in out: continue`
abbrev pub p31_row : Option ℕ → List ℕ → TypeMap → TypeMap
p31_row none ts out = out
p31_row (some e) ts out = if is_some (find out e) then out else out ++ (e, sort leb ts) ∷ []

abbrev pub p31_rows : Lookup → List ClaimsRow → TypeMap → TypeMap
p31_rows qmap [] out = out
p31_rows qmap (none ∷ rest) out = p31_rows qmap rest out
p31_rows qmap (some (id, p31) ∷ rest) out =
    p31_rows qmap rest (p31_row (qmap id) (dense_types qmap p31 []) out)

unfoldable pub load_p31_dense : (Text → Option (List ClaimsRow)) → Lookup → List Text → TypeMap
load_p31_dense read qmap paths = p31_rows qmap (claims_rows read paths) []

-- types[e] = ts
abbrev pub set_types : TypeMap → ℕ → List ℕ → TypeMap
set_types [] e ts = (e, ts) ∷ []
set_types ((x, old) ∷ rest) e ts =
    let later = set_types rest e ts in if x == e then (x, ts) ∷ rest else (x, old) ∷ later

-- `if ts: types[e] = ts`
abbrev pub types_row : Option ℕ → List ℕ → TypeMap → TypeMap
types_row none ts types = types
types_row (some e) [] types = types
types_row (some e) (t ∷ ts) types = set_types types e (t ∷ ts)

abbrev pub types_rows : Lookup → List ClaimsRow → TypeMap → TypeMap
types_rows qmap [] types = types
types_rows qmap (none ∷ rest) types = types_rows qmap rest types
types_rows qmap (some (id, p31) ∷ rest) types =
    types_rows qmap rest (types_row (qmap id) (dense_types qmap p31 []) types)

unfoldable pub load_types : (Text → Option (List ClaimsRow)) → Lookup → List Text → TypeMap
load_types read qmap paths = types_rows qmap (claims_rows read paths) []

-- types.get(e, ())
abbrev pub types_at : TypeMap → ℕ → List ℕ
types_at [] e = []
types_at ((x, ts) ∷ rest) e = let later = types_at rest e in if x == e then ts else later
