-- ===== src/Dense/Types/Agree.antt =====
-- The types that the loader loads beside those that the benchmark filters by.
use tridb.Base.{
  sym, ap, ◌∙◌, ℕ, ◌≡◌, refl, Bool, true, false, ◌||◌, Option, none, some, List, [], ◌∷◌, ◌++◌,
  ◌==◌, leb, if◌then◌else◌, contains, arith, Bool-cases, inl, inr, ==_self, ==_iff,
}
use mathlib.Core.Path.{subst}
use mathlib.Core.Bool.{true≢false}
use tridb.Base.Sort.{sort, contains-sort}
use tridb.Base.Text.{Text}
use tridb.Dense.{Lookup, find, is_some}
use tridb.Dense.Types.{
  ClaimsRow, claims_rows, dense_types, TypeMap, p31_row, p31_rows, load_p31_dense, set_types,
  types_row, types_rows, load_types, types_at,
}

-- The entities that the rows are about.
abbrev pub is_entity : Option ℕ → ℕ → Bool
is_entity none e = false
is_entity (some x) e = x == e

abbrev pub mentions : Lookup → List ClaimsRow → ℕ → Bool
mentions qmap [] e = false
mentions qmap (none ∷ rest) e = mentions qmap rest e
mentions qmap (some (id, p31) ∷ rest) e = is_entity (qmap id) e || mentions qmap rest e

-- No entity of the slice has two rows.
abbrev pub OneRow : Lookup → List ClaimsRow → Type 0
OneRow qmap [] = Unit
OneRow qmap (none ∷ rest) = OneRow qmap rest
OneRow qmap (some (id, p31) ∷ rest) =
    ((e : ℕ) → is_entity (qmap id) e ≡ true → mentions qmap rest e ≡ false) × OneRow qmap rest

is_some-find :
    (x : ℕ) (ts : List ℕ) (rest : TypeMap) (e : ℕ)
    → is_some (find ((x, ts) ∷ rest) e) ≡ (x == e || is_some (find rest e))
is_some-find x ts rest e = elim (Bool-cases (x == e)) [
  | inl here ↦ rw here refl
  | inr there ↦ rw there refl
]

is_some-find_append :
    (out : TypeMap) (x : ℕ) (ts : List ℕ) (e : ℕ)
    → is_some (find (out ++ (x, ts) ∷ []) e) ≡ (is_some (find out e) || x == e)
is_some-find_append [] x ts e = is_some-find x ts [] e ∙ ground arith
is_some-find_append ((y, us) ∷ rest) x ts e =
    let before = is_some-find y us rest e in
    let after = is_some-find y us (rest ++ (x, ts) ∷ []) e in
    ground (arith, before, after, is_some-find_append rest x ts e)

types_at-append :
    (out : TypeMap) (x : ℕ) (ts : List ℕ) (e : ℕ)
    → is_some (find out x) ≡ false
    → types_at (out ++ (x, ts) ∷ []) e ≡ (if x == e then ts else types_at out e)
types_at-append [] x ts e h = refl
types_at-append ((y, us) ∷ rest) x ts e h =
    let split = is_some-find y us rest x in
    let later = types_at-append rest x ts e (ground (arith, split, h)) in
    ground (arith, later, split, h)

types_at-set_types :
    (types : TypeMap) (x : ℕ) (ts : List ℕ) (e : ℕ)
    → types_at (set_types types x ts) e ≡ (if x == e then ts else types_at types e)
types_at-set_types [] x ts e = refl
types_at-set_types ((y, us) ∷ rest) x ts e = ground (arith, types_at-set_types rest x ts e)

-- A row about another entity changes nothing.
p31_row-other :
    (x : ℕ) (ts : List ℕ) (out : TypeMap) (e : ℕ)
    → (x == e) ≡ false
    → (types_at (p31_row (some x) ts out) e ≡ types_at out e)
      × (is_some (find (p31_row (some x) ts out) e) ≡ is_some (find out e))
p31_row-other x ts out e apart = elim (Bool-cases (is_some (find out x))) [
  | inl old ↦ rw old (refl, refl)
  | inr new ↦ rw new (
    types_at-append out x (sort leb ts) e new ∙ (rw apart refl),
    is_some-find_append out x (sort leb ts) e ∙ ground (arith, apart),
  )
]

types_row-other :
    (x : ℕ) (ts : List ℕ) (types : TypeMap) (e : ℕ)
    → (x == e) ≡ false
    → types_at (types_row (some x) ts types) e ≡ types_at types e
types_row-other x [] types e apart = refl
types_row-other x (t ∷ ts) types e apart = types_at-set_types types x (t ∷ ts) e ∙ (rw apart refl)

-- The only row about an entity gives both maps its types.
p31_row-here :
    (e : ℕ) (ts : List ℕ) (out : TypeMap) (t : ℕ)
    → is_some (find out e) ≡ false
    → contains (types_at (p31_row (some e) ts out) e) t ≡ contains ts t
p31_row-here e ts out t new = rw new (
    ap (λ l. contains l t) (types_at-append out e (sort leb ts) e new ∙ (rw (==_self e) refl))
    ∙ contains-sort leb ts t)

types_row-here :
    (e : ℕ) (ts : List ℕ) (types : TypeMap)
    → types_at types e ≡ []
    → types_at (types_row (some e) ts types) e ≡ ts
types_row-here e [] types h = h
types_row-here e (t ∷ ts) types h = types_at-set_types types e (t ∷ ts) e ∙ (rw (==_self e) refl)

-- One entity, seen in both maps, before the rows that are left.
record Agrees (qmap : Lookup) (rows : List ClaimsRow) (out types : TypeMap) (e : ℕ) : Type 0 where
  pub same : (t : ℕ) → contains (types_at out e) t ≡ contains (types_at types e) t
  pub fresh : mentions qmap rows e ≡ true → (is_some (find out e) ≡ false) × (types_at types e ≡ [])

row-Agrees :
    (qmap : Lookup) (o : Option ℕ) (ts : List ℕ) (rest : List ClaimsRow) (out types : TypeMap)
    (e : ℕ)
    → (is_entity o e ≡ true → mentions qmap rest e ≡ false)
    → ((t : ℕ) → contains (types_at out e) t ≡ contains (types_at types e) t)
    → ((is_entity o e || mentions qmap rest e) ≡ true
        → (is_some (find out e) ≡ false) × (types_at types e ≡ []))
    → Agrees qmap rest (p31_row o ts out) (types_row o ts types) e
row-Agrees qmap none ts rest out types e one same fresh = record { same = same; fresh = fresh }
row-Agrees qmap (some x) ts rest out types e one same fresh = elim (Bool-cases (x == e)) [
  | inl here ↦
      let (new, empty) = fresh (rw here refl) in
      let at_x = (==_iff x e).0 here in
      subst (λ y. Agrees qmap rest (p31_row (some y) ts out) (types_row (some y) ts types) e)
        (sym at_x)
        (record {
          same = λ t.
              p31_row-here e ts out t new
              ∙ sym (ap (λ l. contains l t) (types_row-here e ts types empty));
          fresh = λ m. absurd (true≢false (sym m ∙ one here));
        })
  | inr there ↦
      let (at_out, in_out) = p31_row-other x ts out e there in
      let at_types = types_row-other x ts types e there in
      record {
        same = λ t. ap (λ l. contains l t) at_out ∙ same t ∙ sym (ap (λ l. contains l t) at_types);
        fresh = λ m. let (new, empty) = fresh (rw there m) in (in_out ∙ new, at_types ∙ empty);
      }
]

rows-Agrees :
    (qmap : Lookup) (rows : List ClaimsRow) (out types : TypeMap) (e t : ℕ)
    → OneRow qmap rows
    → Agrees qmap rows out types e
    → contains (types_at (p31_rows qmap rows out) e) t
      ≡ contains (types_at (types_rows qmap rows types) e) t
rows-Agrees qmap [] out types e t one h = h.same t
rows-Agrees qmap (none ∷ rest) out types e t one h =
    rows-Agrees qmap rest out types e t one (record { same = h.same; fresh = h.fresh })
rows-Agrees qmap (some (id, p31) ∷ rest) out types e t one h =
    let ts = dense_types qmap p31 [] in
    rows-Agrees qmap rest (p31_row (qmap id) ts out) (types_row (qmap id) ts types) e t one.1
      (row-Agrees qmap (qmap id) ts rest out types e (one.0 e) h.same h.fresh)

-- When no entity of the slice has two claims rows, the loader and the benchmark give every entity the
-- same types.
pub load_p31_dense-load_types :
    (read : Text → Option (List ClaimsRow)) (qmap : Lookup) (paths : List Text) (e t : ℕ)
    → OneRow qmap (claims_rows read paths)
    → contains (types_at (load_p31_dense read qmap paths) e) t
      ≡ contains (types_at (load_types read qmap paths) e) t
unfolding load_p31_dense load_types
load_p31_dense-load_types read qmap paths e t one =
    rows-Agrees qmap (claims_rows read paths) [] [] e t one
      (record { same = λ u. refl; fresh = λ m. (refl, refl) })
