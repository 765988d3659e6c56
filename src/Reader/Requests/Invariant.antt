-- ===== src/Reader/Requests/Invariant.antt =====
-- Who holds which suggestion, and which suggestions have been acted on: kept by every step.
use tridb.Base.{
  ℕ, ◌≡◌, true, false, not, ◌||◌, Option, none, some, List, [], ◌∷◌, contains, arith, Distinct, All,
}
use tridb.Reader.Pending.{Suggestion, Entry, get, ids, Pending, Limits, register, consume, release}
use tridb.Reader.Pending.Laws.{
  All_map, get-All, contains-discard, All-register, All-remove, All-removed,
}
use tridb.Reader.Requests.{
  Pc, idle, accepting, writing, dismissing, consuming, releasing, System, update,
}

-- The suggestion that a thread holds in flight.
abbrev pub held : Pc → Option ℕ
held idle = none
held (accepting id w) = some id
held (writing id w title) = some id
held (dismissing id w) = some id
held (consuming id) = some id
held (releasing id) = some id

-- The one on which it has not acted.
abbrev pub open_id : Pc → Option ℕ
open_id (consuming id) = none
open_id p = held p

-- What it is about to act on.
abbrev pub carried : Pc → Option (ℕ × Suggestion)
carried (accepting id w) = some (id, w)
carried (writing id w title) = some (id, w)
carried (dismissing id w) = some (id, w)
carried p = none

pub record Inv (pending : Pending) (pc : ℕ → Pc) (issued written : List (ℕ × Suggestion))
    : Type 0 where
  pub flies : (i k : ℕ) → held (pc i) ≡ some k → contains pending.inflight k ≡ true
  pub alone : (i j k : ℕ) → held (pc i) ≡ some k → held (pc j) ≡ some k → i ≡ j
  pub unspent : (i k : ℕ) → open_id (pc i) ≡ some k → contains (ids written) k ≡ false
  pub faithful : (i k : ℕ) (w : Suggestion) → carried (pc i) ≡ some (k, w) → get issued k ≡ some w
  pub entries :
      All (λ (item : ℕ × Entry). get issued item.0 ≡ some item.1.suggestion) pending.entries
  pub spent :
      All
        (λ (item : ℕ × Entry).
          (not (contains (ids written) item.0) || contains pending.inflight item.0) ≡ true)
        pending.entries
  pub acted : All (λ (item : ℕ × Suggestion). get issued item.0 ≡ some item.1) written
  pub once : Distinct (ids written)

abbrev pub InvOf : System → Type 0
InvOf s = Inv s.pending s.pc s.issued s.written

open_held : (p : Pc) (k : ℕ) → open_id p ≡ some k → held p ≡ some k
open_held idle k h = h
open_held (accepting id w) k h = h
open_held (writing id w title) k h = h
open_held (dismissing id w) k h = h
open_held (consuming id) k h = absurd (cc)
open_held (releasing id) k h = h

pub get-known :
    (items : List (ℕ × Suggestion)) (k : ℕ) (w : Suggestion)
    → get items k ≡ some w
    → contains (ids items) k ≡ true
get-known [] k w h = absurd (cc)
get-known ((j, v) ∷ rest) k w h = ground (arith, get-known rest k w)

acted_known :
    (issued written : List (ℕ × Suggestion)) (k : ℕ)
    → All (λ (item : ℕ × Suggestion). get issued item.0 ≡ some item.1) written
    → contains (ids written) k ≡ true
    → contains (ids issued) k ≡ true
acted_known issued [] k h e = absurd (cc)
acted_known issued ((j, v) ∷ rest) k h e =
    ground (arith, acted_known issued rest k h.1, get-known issued j v h.0)

-- The thread `i` goes to `p` and keeps what it holds; nothing else changes.
module _ {pending : Pending} {pc : ℕ → Pc} {issued written : List (ℕ × Suggestion)}
    (inv : Inv pending pc issued written) (i : ℕ) where
  open inv use {flies, alone, unspent, faithful, entries, spent, acted, once}

  pub moved-Inv :
      (p : Pc)
      → held p ≡ held (pc i)
      → ((k : ℕ) → open_id p ≡ some k → contains (ids written) k ≡ false)
      → ((k : ℕ) (w : Suggestion) → carried p ≡ some (k, w) → get issued k ≡ some w)
      → Inv pending (update pc i p) issued written
  moved-Inv p same fresh same_w = record {
    flies = λ j k h. ground (arith, flies j k, flies i k);
    alone = λ a b k h g. ground (arith, alone a b k, alone a i k, alone i b k);
    unspent = λ j k h. ground (arith, unspent j k, fresh k);
    faithful = λ j k w h. ground (arith, faithful j k w, same_w k w);
    entries = entries;
    spent = spent;
    acted = acted;
    once = once;
  }

  -- A claim that succeeds.
  pub claimed-Inv :
      (id : ℕ) (e : Entry) (p : Pc)
      → held (pc i) ≡ none
      → contains pending.inflight id ≡ false
      → get pending.entries id ≡ some e
      → held p ≡ some id
      → carried p ≡ some (id, e.suggestion)
      → Inv (record pending { inflight = id ∷ pending.inflight }) (update pc i p) issued written
  claimed-Inv id e p was free found holds carries =
      let source =
        get-All (λ (item : ℕ × Entry). get issued item.0 ≡ some item.1.suggestion) pending.entries
          id e entries found in
      let unacted =
        get-All
          (λ (item : ℕ × Entry).
            (not (contains (ids written) item.0) || contains pending.inflight item.0) ≡ true)
          pending.entries id e spent found in
      record {
        flies = λ j k h. ground (arith, flies j k);
        alone = λ a b k h g. ground (arith, alone a b k, flies a k, flies b k);
        unspent = λ j k h. ground (arith, unspent j k, open_held p k, unacted);
        faithful = λ j k w h. ground (arith, faithful j k w, source);
        entries = entries;
        spent = All_map _ _ (λ item h. ground (arith, h)) pending.entries spent;
        acted = acted;
        once = once;
      }

  -- A write that returns.
  pub written-Inv :
      (id : ℕ) (w : Suggestion)
      → open_id (pc i) ≡ some id
      → held (pc i) ≡ some id
      → carried (pc i) ≡ some (id, w)
      → Inv pending (update pc i (consuming id)) issued ((id, w) ∷ written)
  written-Inv id w opened holds carries = record {
    flies = λ j k h. ground (arith, flies j k, flies i k);
    alone = λ a b k h g. ground (arith, alone a b k, alone a i k, alone i b k);
    unspent = λ j k h. ground (arith, unspent j k, alone i j k, open_held (pc j) k);
    faithful = λ j k v h. ground (arith, faithful j k v);
    entries = entries;
    spent = All_map _ _ (λ item h. ground (arith, h, flies i item.0)) pending.entries spent;
    acted = (faithful i id w carries, acted);
    once = (unspent i id opened, once);
  }

  -- The end of a request that consumes its suggestion.
  pub consumed-Inv :
      (id : ℕ) → held (pc i) ≡ some id → Inv (consume id pending) (update pc i idle) issued written
  unfolding consume
  consumed-Inv id holds = record {
    flies = λ j k h. ground (arith, flies j k, alone i j k, contains-discard pending.inflight id k);
    alone = λ a b k h g. ground (arith, alone a b k);
    unspent = λ j k h. ground (arith, unspent j k);
    faithful = λ j k v h. ground (arith, faithful j k v);
    entries = All-remove _ pending.entries id entries;
    spent =
        All-removed _ _ id
          (λ item other h. ground (arith, h, other, contains-discard pending.inflight id item.0))
          pending.entries spent;
    acted = acted;
    once = once;
  }

  -- The end of a request whose write raised.
  pub released-Inv :
      (id : ℕ)
      → open_id (pc i) ≡ some id
      → held (pc i) ≡ some id
      → Inv (release id pending) (update pc i idle) issued written
  unfolding release
  released-Inv id opened holds = record {
    flies = λ j k h. ground (arith, flies j k, alone i j k, contains-discard pending.inflight id k);
    alone = λ a b k h g. ground (arith, alone a b k);
    unspent = λ j k h. ground (arith, unspent j k);
    faithful = λ j k v h. ground (arith, faithful j k v);
    entries = entries;
    spent =
        All_map _ _
          (λ item h.
            ground (arith, h, unspent i id opened, contains-discard pending.inflight id item.0))
          pending.entries spent;
    acted = acted;
    once = once;
  }

  -- A new suggestion.
  pub proposed-Inv :
      (l : Limits) (id now : ℕ) (w : Suggestion)
      → contains (ids issued) id ≡ false
      → Inv (register l id now w pending) pc ((id, w) ∷ issued) written
  unfolding register
  proposed-Inv l id now w fresh = record {
    flies = flies;
    alone = alone;
    unspent = unspent;
    faithful = λ j k v h. ground (arith, faithful j k v, get-known issued k v);
    entries =
        All-register _ l id now w pending
          (All_map _ _ (λ item h. ground (arith, h, get-known issued item.0 item.1.suggestion))
            pending.entries entries)
          (ground arith);
    spent =
        All-register _ l id now w pending spent
          (ground (arith, acted_known issued written id acted));
    acted = All_map _ _ (λ item h. ground (arith, h, get-known issued item.0 item.1)) written acted;
    once = once;
  }
