-- ===== src/Reader/Overlay/Laws.antt =====
-- What an accepted fact leaves in the overlay, when SQLite and Python agree on letter case and when
-- they do not, and what a commit that fails leaves behind.
use mathlib.Core.Path.{fun_ext}
use tridb.Base.{
  sym, ap, ◌∙◌, ℕ, ◌+◌, ◌≤◌, ◌≡◌, refl, inl, inr, true, false, List, [], ◌∷◌, ◌++◌, length, take,
  count, count-append, arith, Bool-cases, ==_self, take_whole, All,
}
use tridb.Base.Text.{Text, text_eq_self, text_eq_sound}
use tridb.Reader.Pending.{Suggestion}
use tridb.Reader.Overlay.{
  Host, Fact, Db, Outcome, committed, refused, busy, rolled_back, Tables, insert_row, same_fact,
  exists_fact, fact_of, accept_write,
}

module _ (host : Host) where
  open host use {sql_lower, py_lower}

  -- How many rows say what the suggestion says.
  abbrev pub copies : Suggestion → List Fact → ℕ
  copies s facts = count (same_fact host s) facts

  copies-exists :
      (s : Suggestion) (facts : List Fact) → exists_fact host s facts ≡ false → copies s facts ≡ 0
  copies-exists s [] h = refl
  copies-exists s (f ∷ rest) h = ground (arith, copies-exists s rest)

  pub copies-append :
      (s : Suggestion) (facts : List Fact) (f : Fact)
      → same_fact host s f ≡ true
      → copies s (facts ++ f ∷ []) ≡ copies s facts + 1
  copies-append s facts f h =
      let split = count-append (same_fact host s) facts (f ∷ []) in
      let one : count (same_fact host s) (f ∷ []) ≡ 1 = rw h refl in omega (arith, split, one)

  copies_append_other :
      (s : Suggestion) (facts : List Fact) (f : Fact)
      → same_fact host s f ≡ false
      → copies s (facts ++ f ∷ []) ≡ copies s facts
  copies_append_other s facts f h =
      let split = count-append (same_fact host s) facts (f ∷ []) in
      let zero_more : count (same_fact host s) (f ∷ []) ≡ 0 = rw h refl in
      omega (arith, split, zero_more)

  exists_fact-append :
      (s : Suggestion) (facts : List Fact) (f : Fact)
      → same_fact host s f ≡ true
      → exists_fact host s (facts ++ f ∷ []) ≡ true
  exists_fact-append s [] f h = rw h refl
  exists_fact-append s (g ∷ rest) f h = ground (arith, exists_fact-append s rest f h)

  exists_fact_append_other :
      (s : Suggestion) (facts : List Fact) (f : Fact)
      → exists_fact host s facts ≡ false
      → same_fact host s f ≡ false
      → exists_fact host s (facts ++ f ∷ []) ≡ false
  exists_fact_append_other s [] f h other = rw other refl
  exists_fact_append_other s (g ∷ rest) f h other =
      ground (arith, exists_fact_append_other s rest f, other)

  -- A suggestion as accept_fact lets it through, on whose letters SQLite and Python agree.
  pub record Agrees (s : Suggestion) : Type 0 where
    pub short_property : length s.property ≤ 300
    pub short_value : length s.value ≤ 300
    pub property_case : sql_lower s.property ≡ py_lower s.property
    pub value_case : sql_lower s.value ≡ py_lower s.value

  property-fact_of :
      (s : Suggestion) → Agrees s → sql_lower (take 300 s.property) ≡ py_lower s.property
  property-fact_of s a = ap sql_lower (take_whole 300 s.property a.short_property) ∙ a.property_case

  value-fact_of : (s : Suggestion) → Agrees s → sql_lower (take 300 s.value) ≡ py_lower s.value
  value-fact_of s a = ap sql_lower (take_whole 300 s.value a.short_value) ∙ a.value_case

  same-fact_of :
      (s : Suggestion) (title : Text) (now : ℕ)
      → Agrees s
      → same_fact host s (fact_of host s title now) ≡ true
  same-fact_of s title now a =
      rw (property-fact_of s a, value-fact_of s a, ==_self s.subject_id)
        (rw (text_eq_self (py_lower s.property), text_eq_self (py_lower s.value)) refl)

  -- A row of one suggestion that another one recognises: the two recognise the same rows.
  same_rows :
      (s t : Suggestion) (title : Text) (now : ℕ)
      → Agrees t
      → same_fact host s (fact_of host t title now) ≡ true
      → (f : Fact) → same_fact host t f ≡ same_fact host s f
  same_rows s t title now a h f =
      let one_id : t.subject_id ≡ s.subject_id = ground arith in
      let one_property : py_lower t.property ≡ py_lower s.property =
        sym (property-fact_of t a) ∙ text_eq_sound _ _ (ground arith) in
      let one_value : py_lower t.value ≡ py_lower s.value =
        sym (value-fact_of t a) ∙ text_eq_sound _ _ (ground arith) in
      rw (one_id, one_property, one_value) refl

  pub record Attempt : Type 0 where
    pub suggestion : Suggestion
    pub title : Text
    pub now : ℕ
    pub outcome : Outcome

  abbrev pub attempts : List Attempt → Db → Db
  attempts [] db = db
  attempts (x ∷ rest) db =
      attempts rest (accept_write host x.suggestion x.title x.now x.outcome db).1

  added-copies :
      (s t : Suggestion) (title : Text) (now : ℕ) (facts : List Fact)
      → Agrees t
      → exists_fact host t facts ≡ false
      → copies s facts ≤ 1
      → copies s (facts ++ fact_of host t title now ∷ []) ≤ 1
  added-copies s t title now facts a new h =
      let f = fact_of host t title now in
      elim (Bool-cases (same_fact host s f)) [
        | inr other ↦ omega (arith, copies_append_other s facts f other)
        | inl same ↦
            let rows = ap (λ p. count p facts) (fun_ext (same_rows s t title now a same)) in
            omega (arith, copies-append s facts f same, copies-exists t facts new, rows)
      ]

  pub record Once (s : Suggestion) (db : Db) : Type 0 where
    pub seen : copies s db.seen.facts ≤ 1
    pub saved : copies s db.saved.facts ≤ 1

  insert_row-Once :
      (s : Suggestion) (outcome : Outcome) (t : Tables) (db : Db)
      → Once s db
      → copies s t.facts ≤ 1
      → Once s (insert_row outcome t db).1
  insert_row-Once s committed t db h more = record { seen = more; saved = more }
  insert_row-Once s refused t db h more = h
  insert_row-Once s busy t db h more = record { seen = more; saved = h.saved }
  insert_row-Once s rolled_back t db h more = record { seen = h.saved; saved = h.saved }

  accept_write-Once :
      (s t : Suggestion) (title : Text) (now : ℕ) (outcome : Outcome) (db : Db)
      → Agrees t
      → Once s db
      → Once s (accept_write host t title now outcome db).1
  unfolding accept_write
  accept_write-Once s t title now outcome db a h =
      elim (Bool-cases (exists_fact host t db.seen.facts)) [
        | inl old ↦ rw old h
        | inr new ↦ rw new (
            let more = added-copies s t title now db.seen.facts a new h.seen in
            insert_row-Once s outcome
              (record db.seen { facts = db.seen.facts ++ fact_of host t title now ∷ [] }) db h more)
      ]

  -- However often and in whatever letter case an accepted fact is tried, and whatever becomes of
  -- the commits, the overlay holds at most one row for a subject, a property and a value, in
  -- the open transaction and in what is saved, if it did so before and SQLite and Python
  -- agree on the lower case of what is written.
  pub attempts-Once :
      (s : Suggestion) (tries : List Attempt) (db : Db)
      → All (λ (x : Attempt). Agrees x.suggestion) tries
      → Once s db
      → Once s (attempts tries db)
  attempts-Once s [] db a h = h
  attempts-Once s (x ∷ rest) db a h =
      attempts-Once s rest (accept_write host x.suggestion x.title x.now x.outcome db).1 a.1
        (accept_write-Once s x.suggestion x.title x.now x.outcome db a.0 h)

  -- Where the two disagree, so that a suggestion does not recognise the row that it writes, two
  -- accepted copies of it leave two rows.
  pub accept_write_twice :
      (s : Suggestion) (title : Text) (now later : ℕ) (db : Db)
      → same_fact host s (fact_of host s title now) ≡ false
      → exists_fact host s db.seen.facts ≡ false
      → (accept_write host s title later committed
          (accept_write host s title now committed db).1).1.saved.facts
        ≡ (db.seen.facts ++ fact_of host s title now ∷ []) ++ fact_of host s title later ∷ []
  unfolding accept_write
  accept_write_twice s title now later db differs new =
      let still = exists_fact_append_other s db.seen.facts (fact_of host s title now) new differs in
      rw new (rw still refl)

  -- For a suggestion whose property and value have at most 300 characters and on whose letters
  -- SQLite and Python agree, and of which the open transaction holds no row yet: when the commit of
  -- its fact fails because the database is busy, accept_fact raises; the next try answers with
  -- success, whatever SQLite would do then, and saves nothing.
  pub accept_write_after_busy :
      (s : Suggestion) (title : Text) (now later : ℕ) (outcome : Outcome) (db : Db)
      → Agrees s
      → exists_fact host s db.seen.facts ≡ false
      → let first = accept_write host s title now busy db in
        let second = accept_write host s title later outcome first.1 in
        (first.0 ≡ false) × (second.0 ≡ true) × (second.1.saved ≡ db.saved)
  unfolding accept_write
  accept_write_after_busy s title now later outcome db a new =
      let found =
        exists_fact-append s db.seen.facts (fact_of host s title now)
          (same-fact_of s title now a) in
      rw new (rw found (refl, refl, refl))
