-- ===== src/Reader/Requests/Safety.antt =====
-- Every interleaving of requests acts on a suggestion at most once.
use mathlib.Core.Path.{subst}
use tridb.Base.{
  sym, ap, ◌∙◌, ℕ, ◌≡◌, refl, inl, inr, Bool, true, false, none, some, [], Distinct, All,
}
use tridb.Reader.Pending.{Suggestion, ids, get, Limits, Claim, Pending}
use tridb.Reader.Pending.Laws.{claim-cases}
use tridb.Reader.Overlay.{Host, Db, accept_write, dismiss_write, review, passes, rejected, Review}
use tridb.Reader.Requests.{
  Pc, idle, accepting, writing, dismissing, consuming, releasing, System, update, after_claim,
  claim_step, after_review, written_step, Step, propose, accept, dismiss, check, fail, store,
  suppress, finish, give_back, Reach, here, next,
}
use tridb.Reader.Requests.Invariant.{
  held, open_id, carried, Inv, InvOf, moved-Inv, claimed-Inv, written-Inv, consumed-Inv,
  released-Inv, proposed-Inv,
}

-- The reader when it has started: nothing pending, no request under way.
abbrev pub started : Db → System
started db = record {
  pending = record { entries = []; inflight = [] };
  db = db;
  pc = λ i. idle;
  issued = [];
  written = [];
}

pub started-Inv : (db : Db) → InvOf (started db)
started-Inv db = record {
  flies = λ i k h. absurd (cc);
  alone = λ i j k h g. absurd (cc);
  unspent = λ i k h. absurd (cc);
  faithful = λ i k w h. absurd (cc);
  entries = tt;
  spent = tt;
  acted = tt;
  once = tt;
}

claim_step-Inv :
    (go : ℕ → Suggestion → Pc) (i id subject_id now : ℕ) (s : System)
    → ((w : Suggestion) → held (go id w) ≡ some id)
    → ((w : Suggestion) → carried (go id w) ≡ some (id, w))
    → s.pc i ≡ idle
    → InvOf s
    → InvOf (claim_step go i id subject_id now s)
claim_step-Inv go i id subject_id now s holds carries is_idle inv =
    let Goal : Claim × Pending → Type 0 =
      λ r. Inv r.1 (update s.pc i (after_claim (go id) r.0)) s.issued s.written in
    let stay : Inv s.pending (update s.pc i idle) s.issued s.written =
      moved-Inv inv i idle (ap held (sym is_idle)) (λ k h. absurd (cc)) (λ k w h. absurd (cc)) in
    elim (claim-cases id subject_id now s.pending) [
      | inl e ↦ subst Goal (sym e) stay
      | inr (inl e) ↦ subst Goal (sym e) stay
      | inr (inr (entry, e, found, free, fresh, same)) ↦ subst Goal (sym e) (
          claimed-Inv inv i id entry (go id entry.suggestion) (ap held is_idle) free found
            (holds entry.suggestion) (carries entry.suggestion))
    ]

-- A thread that goes on to `p` with the suggestion that it has in hand.
onward-Inv :
    (i : ℕ) (p q : Pc) (s : System)
    → s.pc i ≡ p
    → held q ≡ held p
    → open_id q ≡ open_id p
    → carried q ≡ carried p
    → InvOf s
    → Inv s.pending (update s.pc i q) s.issued s.written
onward-Inv i p q s at same_held same_open same_carried inv =
    moved-Inv inv i q (same_held ∙ ap held (sym at))
      (λ k h. inv.unspent i k (ap open_id at ∙ (sym same_open ∙ h)))
      (λ k w h. inv.faithful i k w (ap carried at ∙ (sym same_carried ∙ h)))

-- A thread that goes on to end its request.
ending-Inv :
    (i id : ℕ) (p q : Pc) (s : System)
    → s.pc i ≡ p
    → held q ≡ held p
    → ((k : ℕ) → open_id q ≡ some k → open_id p ≡ some k)
    → carried q ≡ none
    → InvOf s
    → Inv s.pending (update s.pc i q) s.issued s.written
ending-Inv i id p q s at same_held opens empty inv =
    moved-Inv inv i q (same_held ∙ ap held (sym at))
      (λ k h. inv.unspent i k (ap open_id at ∙ opens k h)) (λ k w h. absurd (cc))

written_step-Inv :
    (i id : ℕ) (w : Suggestion) (p : Pc) (r : Bool × Db) (s : System)
    → s.pc i ≡ p
    → open_id p ≡ some id
    → held p ≡ some id
    → carried p ≡ some (id, w)
    → InvOf s
    → InvOf (written_step i id w r s)
written_step-Inv i id w p (true, db) s at opened holds carries inv =
    written-Inv inv i id w (ap open_id at ∙ opened) (ap held at ∙ holds) (ap carried at ∙ carries)
written_step-Inv i id w p (false, db) s at opened holds carries inv =
    ending-Inv i id p (releasing id) s at (sym holds) (λ k h. opened ∙ h) refl inv

after_review-Inv :
    {host : Host} (i id : ℕ) (w : Suggestion) (r : Review host) (s : System)
    → s.pc i ≡ accepting id w
    → InvOf s
    → Inv s.pending (update s.pc i (after_review id w r)) s.issued s.written
after_review-Inv i id w (passes title) s at inv =
    onward-Inv i (accepting id w) (writing id w title) s at refl refl refl inv
after_review-Inv i id w (rejected status) s at inv =
    ending-Inv i id (accepting id w) (consuming id) s at refl (λ k h. absurd (cc)) refl inv

module _ (host : Host) (limits : Limits) where
  pub Step-Inv : {s t : System} → Step host limits s t → InvOf s → InvOf t
  Step-Inv (propose s id now w fresh) inv = proposed-Inv inv 0 limits id now w fresh
  Step-Inv (accept s i id subject_id now is_idle) inv =
      claim_step-Inv accepting i id subject_id now s (λ w. refl) (λ w. refl) is_idle inv
  Step-Inv (dismiss s i id subject_id now is_idle) inv =
      claim_step-Inv dismissing i id subject_id now s (λ w. refl) (λ w. refl) is_idle inv
  Step-Inv (check s i id w now at) inv =
      after_review-Inv i id w (review host w (host.article_at now w.source_id)) s at inv
  Step-Inv (fail s i id w (inl at)) inv =
      ending-Inv i id (accepting id w) (releasing id) s at refl (λ k h. h) refl inv
  Step-Inv (fail s i id w (inr (title, at))) inv =
      ending-Inv i id (writing id w title) (releasing id) s at refl (λ k h. h) refl inv
  Step-Inv (store s i id w title now outcome at) inv =
      written_step-Inv i id w (writing id w title) (accept_write host w title now outcome s.db) s at
        refl refl refl inv
  Step-Inv (suppress s i id w outcome at) inv =
      written_step-Inv i id w (dismissing id w) (dismiss_write host w outcome s.db) s at refl refl
        refl inv
  Step-Inv (finish s i id at) inv = consumed-Inv inv i id (ap held at)
  Step-Inv (give_back s i id at) inv = released-Inv inv i id (ap open_id at) (ap held at)

  pub Reach-Inv : {start s : System} → Reach host limits start s → InvOf start → InvOf s
  Reach-Inv here inv = inv
  Reach-Inv (next r st) inv = Step-Inv st (Reach-Inv r inv)

  -- Whatever requests interleave, with their failures and expiries: no id is acted on twice, what
  -- is written is the suggestion that was registered under its id, and no two threads hold the
  -- same suggestion.
  pub Reach-one_use :
      (db : Db) {s : System}
      → Reach host limits (started db) s
      → Distinct (ids s.written)
        × All (λ (item : ℕ × Suggestion). get s.issued item.0 ≡ some item.1) s.written
        × ((i j k : ℕ) → held (s.pc i) ≡ some k → held (s.pc j) ≡ some k → i ≡ j)
  Reach-one_use db r = let inv = Reach-Inv r (started-Inv db) in (inv.once, inv.acted, inv.alone)
