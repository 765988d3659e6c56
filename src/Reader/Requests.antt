-- ===== src/Reader/Requests.antt =====
-- The threads of tools/wiki_reader.py that register, accept and dismiss suggestions, as steps that
-- interleave. A step is what runs under one lock: the claim, the review of the source, the write, and
-- the end, in which a suggestion is consumed or released.
pub mod Invariant
pub mod Safety
pub mod Sources
use tridb.Base.{
  ℕ, ◌≡◌, ◌⊎◌, Bool, true, false, Option, none, some, List, [], ◌∷◌, ◌==◌, if◌then◌else◌, contains,
}
use tridb.Reader.Pending.{
  Suggestion, Entry, get, ids, Pending, Limits, register, Claim, claimed, replay, unknown, claim,
  consume, release,
}
use tridb.Base.Text.{Text}
use tridb.Reader.Overlay.{
  Host, Article, Db, Outcome, Review, passes, rejected, review, accept_write, dismiss_write,
}

-- What a thread is about to do.
pub data Pc : Type 0 where
  idle : Pc
  accepting : ℕ → Suggestion → Pc
  writing : ℕ → Suggestion → Text → Pc
  dismissing : ℕ → Suggestion → Pc
  consuming : ℕ → Pc
  releasing : ℕ → Pc

-- `issued` and `written` are ghosts: what was registered under each id, and the suggestions whose
-- write returned, with their ids.
pub record System : Type 0 where
  pub pending : Pending
  pub db : Db
  pub pc : ℕ → Pc
  pub issued : List (ℕ × Suggestion)
  pub written : List (ℕ × Suggestion)

abbrev pub update : (ℕ → Pc) → ℕ → Pc → ℕ → Pc
update pc i p j = if i == j then p else pc j

-- A thread after the claim of `id`: it answers with an error unless it has the entry.
abbrev pub after_claim : (Suggestion → Pc) → Claim → Pc
after_claim go (claimed e) = go e.suggestion
after_claim go replay = idle
after_claim go unknown = idle

abbrev pub claim_step : (ℕ → Suggestion → Pc) → ℕ → ℕ → ℕ → ℕ → System → System
claim_step go i id subject_id now s =
    let (answer, pending) = claim id subject_id now s.pending in
    record s { pending = pending; pc = update s.pc i (after_claim (go id) answer) }

abbrev pub after_review : {host : Host} → ℕ → Suggestion → Review host → Pc
after_review id w (passes title) = writing id w title
after_review id w (rejected status) = consuming id

-- After a write: the id is consumed if it returned, and released if it raised.
abbrev pub written_step : ℕ → ℕ → Suggestion → Bool × Db → System → System
written_step i id w (true, db) s = record s {
  db = db;
  pc = update s.pc i (consuming id);
  written = (id, w) ∷ s.written;
}
written_step i id w (false, db) s = record s { db = db; pc = update s.pc i (releasing id) }

module _ (host : Host) (limits : Limits) where
  pub data Step : System → System → Type 0 where
    -- enrich registers a suggestion under an id that was never drawn before.
    propose :
        (s : System) (id now : ℕ) (w : Suggestion)
        → contains (ids s.issued) id ≡ false
        → Step s
            (record s { pending = register limits id now w s.pending; issued = (id, w) ∷ s.issued })
    accept :
        (s : System) (i id subject_id now : ℕ)
        → s.pc i ≡ idle
        → Step s (claim_step accepting i id subject_id now s)
    dismiss :
        (s : System) (i id subject_id now : ℕ)
        → s.pc i ≡ idle
        → Step s (claim_step dismissing i id subject_id now s)
    check :
        (s : System) (i id : ℕ) (w : Suggestion) (now : ℕ)
        → s.pc i ≡ accepting id w
        → Step s (record s {
          pc = update s.pc i (after_review id w (review host w (host.article_at now w.source_id)));
        })
    -- Reading the source raises, or looking the fact up does.
    fail :
        (s : System) (i id : ℕ) (w : Suggestion)
        → (s.pc i ≡ accepting id w) ⊎ ((title : Text) × (s.pc i ≡ writing id w title))
        → Step s (record s { pc = update s.pc i (releasing id) })
    store :
        (s : System) (i id : ℕ) (w : Suggestion) (title : Text) (now : ℕ) (outcome : Outcome)
        → s.pc i ≡ writing id w title
        → Step s (written_step i id w (accept_write host w title now outcome s.db) s)
    suppress :
        (s : System) (i id : ℕ) (w : Suggestion) (outcome : Outcome)
        → s.pc i ≡ dismissing id w
        → Step s (written_step i id w (dismiss_write host w outcome s.db) s)
    finish :
        (s : System) (i id : ℕ)
        → s.pc i ≡ consuming id
        → Step s (record s { pending = consume id s.pending; pc = update s.pc i idle })
    give_back :
        (s : System) (i id : ℕ)
        → s.pc i ≡ releasing id
        → Step s (record s { pending = release id s.pending; pc = update s.pc i idle })

  pub data Reach (start : System) : System → Type 0 where
    here : Reach start start
    next : {s t : System} → Reach start s → Step s t → Reach start t
