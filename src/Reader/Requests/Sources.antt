-- ===== src/Reader/Requests/Sources.antt =====
-- Every fact of the overlay goes back to a registered suggestion that a source supported.
use mathlib.Core.Path.{subst}
use tridb.Base.{
  ap, ◌∙◌, ℕ, ◌≡◌, refl, inl, inr, Bool, true, false, some, List, [], ◌∷◌, ◌++◌, ◌==◌, contains,
  take, arith, All, All-append, Bool-cases,
}
use tridb.Base.Text.{Text}
use tridb.Reader.Pending.{Suggestion, Claim, claimed, replay, unknown, claim, Limits, get, ids}
use tridb.Reader.Overlay.{
  Host, Fact, Dismissal, Db, Tables, Outcome, committed, refused, busy, rolled_back, insert_row,
  Review, passes, rejected, review, exists_fact, fact_of, accept_write, dismiss_write,
}
use tridb.Reader.Overlay.Checks.{Supported, review-Supported}
use tridb.Reader.Requests.{
  Pc, idle, accepting, writing, dismissing, consuming, releasing, System, update, after_claim,
  claim_step, after_review, written_step, Step, propose, accept, dismiss, check, fail, store,
  suppress, finish, give_back, Reach, here, next,
}
use tridb.Reader.Requests.Invariant.{InvOf, get-known}
use tridb.Reader.Requests.Safety.{started, started-Inv, Reach-Inv}

module _ (host : Host) where
  pub record Sourced (issued : List (ℕ × Suggestion)) (f : Fact) : Type 0 where
    pub id : ℕ
    pub suggestion : Suggestion
    pub title : Text
    pub now : ℕ
    pub registered : get issued id ≡ some suggestion
    pub supported : Supported host suggestion title
    pub row : f ≡ (record {
      subject_id = suggestion.subject_id;
      property = take 300 suggestion.property;
      value = take 300 suggestion.value;
      source_id = suggestion.source_id;
      source_title = take 300 title;
      source_snippet = take 300 suggestion.source_snippet;
      accepted_ts = now;
    })

  record From (issued : List (ℕ × Suggestion)) (db : Db) (pc : ℕ → Pc) : Type 0 where
    pub seen : All (Sourced issued) db.seen.facts
    pub saved : All (Sourced issued) db.saved.facts
    pub ready :
        (i k : ℕ) (w : Suggestion) (title : Text)
        → pc i ≡ writing k w title
        → Supported host w title

  abbrev FromOf : System → Type 0
  FromOf s = From s.issued s.db s.pc

  -- A thread goes on to something other than a write.
  moved-From :
      (issued : List (ℕ × Suggestion)) (db : Db) (pc : ℕ → Pc) (i : ℕ) (p : Pc)
      → ((k : ℕ) (w : Suggestion) (title : Text) → p ≡ writing k w title → Supported host w title)
      → From issued db pc
      → From issued db (update pc i p)
  moved-From issued db pc i p h f = record {
    seen = f.seen;
    saved = f.saved;
    ready = λ j k w title e. elim (Bool-cases (i == j)) [
      | inl same ↦ h k w title (ground arith)
      | inr other ↦ f.ready j k w title (ground arith)
    ];
  }

  insert_row-From :
      (issued : List (ℕ × Suggestion)) (outcome : Outcome) (t : Tables) (db : Db) (pc : ℕ → Pc)
      → All (Sourced issued) t.facts
      → From issued db pc
      → From issued (insert_row outcome t db).1 pc
  insert_row-From issued committed t db pc h f = record { seen = h; saved = h; ready = f.ready }
  insert_row-From issued refused t db pc h f = f
  insert_row-From issued busy t db pc h f = record { seen = h; saved = f.saved; ready = f.ready }
  insert_row-From issued rolled_back t db pc h f = record {
    seen = f.saved;
    saved = f.saved;
    ready = f.ready;
  }

  accept_write-From :
      (s : System) (id : ℕ) (w : Suggestion) (title : Text) (now : ℕ) (outcome : Outcome)
      → get s.issued id ≡ some w
      → Supported host w title
      → FromOf s
      → From s.issued (accept_write host w title now outcome s.db).1 s.pc
  unfolding accept_write
  accept_write-From s id w title now outcome known ok f =
      elim (Bool-cases (exists_fact host w s.db.seen.facts)) [
        | inl old ↦ rw old f
        | inr new ↦ rw new (
            let fact = fact_of host w title now in
            let sourced : Sourced s.issued fact = record {
              id = id;
              suggestion = w;
              title = title;
              now = now;
              registered = known;
              supported = ok;
              row = refl;
            } in
            insert_row-From s.issued outcome
              (record s.db.seen { facts = s.db.seen.facts ++ fact ∷ [] }) s.db s.pc
              (All-append (Sourced s.issued) s.db.seen.facts (fact ∷ []) f.seen (sourced, tt)) f)
      ]

  dismiss_write-From :
      (s : System) (w : Suggestion) (outcome : Outcome)
      → FromOf s
      → From s.issued (dismiss_write host w outcome s.db).1 s.pc
  unfolding dismiss_write
  dismiss_write-From s w outcome f =
      let row : Dismissal = record {
        subject_id = w.subject_id;
        property = w.property;
        value = w.value;
      } in
      insert_row-From s.issued outcome
        (record s.db.seen { dismissed = s.db.seen.dismissed ++ row ∷ [] }) s.db s.pc f.seen f

  written_step-From :
      (i id : ℕ) (w : Suggestion) (r : Bool × Db) (s : System)
      → From s.issued r.1 s.pc
      → FromOf (written_step i id w r s)
  written_step-From i id w (true, db) s f =
      moved-From s.issued db s.pc i (consuming id) (λ k v t e. absurd (cc)) f
  written_step-From i id w (false, db) s f =
      moved-From s.issued db s.pc i (releasing id) (λ k v t e. absurd (cc)) f

  claimed-From :
      (go : ℕ → Suggestion → Pc) (i id subject_id now : ℕ) (s : System)
      → ((w : Suggestion) (k : ℕ) (v : Suggestion) (title : Text)
          → go id w ≡ writing k v title
          → Supported host v title)
      → FromOf s
      → FromOf (claim_step go i id subject_id now s)
  claimed-From go i id subject_id now s h f =
      moved-From s.issued s.db s.pc i (after_claim (go id) (claim id subject_id now s.pending).0)
        (after (claim id subject_id now s.pending).0) f
    where
      after :
          (c : Claim) (k : ℕ) (v : Suggestion) (title : Text)
          → after_claim (go id) c ≡ writing k v title
          → Supported host v title
      after (claimed e) k v title p = h e.suggestion k v title p
      after replay k v title p = absurd (cc)
      after unknown k v title p = absurd (cc)

  checked :
      (id now : ℕ) (w : Suggestion) (r : Review host)
      → review host w (host.article_at now w.source_id) ≡ r
      → (k : ℕ) (v : Suggestion) (title : Text) → after_review id w r ≡ writing k v title
      → Supported host v title
  checked id now w (passes t) h k v title e =
      let same_w : w ≡ v = cc in
      let same_t : t ≡ title = cc in
      subst (λ x. Supported host x title) same_w
        (review-Supported host w now (host.article_at now w.source_id) title refl
          (h ∙ ap (λ x. passes x) same_t))
  checked id now w (rejected n) h k v title e = absurd (cc)

  more_issued :
      (issued : List (ℕ × Suggestion)) (id : ℕ) (w : Suggestion)
      → contains (ids issued) id ≡ false
      → (facts : List Fact) → All (Sourced issued) facts
      → All (Sourced ((id, w) ∷ issued)) facts
  more_issued issued id w fresh [] h = tt
  more_issued issued id w fresh (x ∷ rest) (s, h) = (
    record {
      id = s.id;
      suggestion = s.suggestion;
      title = s.title;
      now = s.now;
      registered = ground (arith, s.registered, get-known issued s.id s.suggestion);
      supported = s.supported;
      row = s.row;
    },
    more_issued issued id w fresh rest h,
  )

  module _ (limits : Limits) where
    Step-From : {s t : System} → Step host limits s t → InvOf s → FromOf s → FromOf t
    Step-From (propose s id now w fresh) inv f = record {
      seen = more_issued s.issued id w fresh s.db.seen.facts f.seen;
      saved = more_issued s.issued id w fresh s.db.saved.facts f.saved;
      ready = f.ready;
    }
    Step-From (accept s i id subject_id now p) inv f =
        claimed-From accepting i id subject_id now s (λ w k v t e. absurd (cc)) f
    Step-From (dismiss s i id subject_id now p) inv f =
        claimed-From dismissing i id subject_id now s (λ w k v t e. absurd (cc)) f
    Step-From (check s i id w now p) inv f =
        let r = review host w (host.article_at now w.source_id) in
        moved-From s.issued s.db s.pc i (after_review id w r) (checked id now w r refl) f
    Step-From (fail s i id w p) inv f =
        moved-From s.issued s.db s.pc i (releasing id) (λ k v t e. absurd (cc)) f
    Step-From (store s i id w title now outcome p) inv f =
        written_step-From i id w (accept_write host w title now outcome s.db) s (
          accept_write-From s id w title now outcome (inv.faithful i id w (ground arith))
            (f.ready i id w title p) f)
    Step-From (suppress s i id w outcome p) inv f =
        written_step-From i id w (dismiss_write host w outcome s.db) s
          (dismiss_write-From s w outcome f)
    Step-From (finish s i id p) inv f =
        moved-From s.issued s.db s.pc i idle (λ k v t e. absurd (cc)) f
    Step-From (give_back s i id p) inv f =
        moved-From s.issued s.db s.pc i idle (λ k v t e. absurd (cc)) f

    Reach-From :
        (db : Db) {s : System} → FromOf (started db) → Reach host limits (started db) s → FromOf s
    Reach-From db f here = f
    Reach-From db f (next r st) =
        Step-From st (Reach-Inv host limits r (started-Inv db)) (Reach-From db f r)

    -- From an overlay without facts, whatever requests interleave and whatever becomes of their
    -- commits: every fact that the overlay shows or has saved has the subject, the source and, cut
    -- to 300 characters, the property, value and snippet of a suggestion registered under some id;
    -- its property and value passed the checks; and the article of that source, as it was at some
    -- time, gives its title and held its snippet within its first 900 characters, white space and
    -- letter case aside.
    pub Reach-Sourced :
        (db : Db) {s : System}
        → db.seen.facts ≡ []
        → db.saved.facts ≡ []
        → Reach host limits (started db) s
        → All (Sourced s.issued) s.db.seen.facts × All (Sourced s.issued) s.db.saved.facts
    Reach-Sourced db {s} no_seen no_saved r =
        let start : FromOf (started db) = record {
          seen = rw no_seen tt;
          saved = rw no_saved tt;
          ready = λ i k w title e. absurd (cc);
        } in
        let f = Reach-From db start r in (f.seen, f.saved)
