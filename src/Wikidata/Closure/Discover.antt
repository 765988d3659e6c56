-- ===== src/Wikidata/Closure/Discover.antt =====
-- One call of the inner loop of `bfs_closure` of tools/wikidata_ingest.py.
use mathlib.Core.Path.{subst}
use tridb.Base.{
  sym, ℕ, ◌+◌, ◌≤◌, ◌<◌, ◌≡◌, refl, true, false, List, [], ◌∷◌, ◌++◌, leb, length, contains, arith,
  Bool-cases, ◌⊎◌, inl, inr, Distinct, Distinct-concat, contains-append, length-append,
}
use tridb.Wikidata.Closure.{Search, discover}

-- A search that goes on has room: it is empty, or below the target.
abbrev pub Room : ℕ → Search → Type 0
Room target s =
    (s.full ≡ false → (length s.kept ≡ 0) ⊎ (length s.kept < target))
    × (s.full ≡ true → target ≤ length s.kept)

-- What one call of the inner loop does to a search that is not full.
pub record Discovered (target : ℕ) (new : List ℕ) (s t : Search) : Type 0 where
  pub members :
      (v : ℕ) → contains t.kept v ≡ true → (contains s.kept v ≡ true) ⊎ (contains new v ≡ true)
  pub grows : (v : ℕ) → contains s.kept v ≡ true → contains t.kept v ≡ true
  pub queued :
      (v : ℕ) → contains t.kept v ≡ true → (contains s.kept v ≡ true) ⊎ (contains t.queue v ≡ true)
  pub waiting : (v : ℕ) → contains s.queue v ≡ true → contains t.queue v ≡ true
  pub inside :
      (v : ℕ) → contains t.queue v ≡ true → (contains s.queue v ≡ true) ⊎ (contains t.kept v ≡ true)
  pub all_new : t.full ≡ false → (v : ℕ) → contains new v ≡ true → contains t.kept v ≡ true
  pub balance : length t.kept + length s.queue ≡ length s.kept + length t.queue
  pub room : Room target t
  pub once : Distinct s.kept → Distinct t.kept

abbrev added : ℕ → ℕ → Search → Search
added target nxt s = record {
  kept = s.kept ++ nxt ∷ [];
  queue = s.queue ++ nxt ∷ [];
  full = leb target (length (s.kept ++ nxt ∷ []));
}

discover_old :
    (target nxt : ℕ) (rest : List ℕ) (s : Search)
    → s.full ≡ false
    → contains s.kept nxt ≡ true
    → discover target (nxt ∷ rest) s ≡ discover target rest s
unfolding discover
discover_old target nxt rest s open_ old = ground arith

discover_full :
    (target nxt : ℕ) (rest : List ℕ) (s : Search)
    → contains s.kept nxt ≡ false
    → (added target nxt s).full ≡ true
    → discover target (nxt ∷ rest) s ≡ added target nxt s
unfolding discover
discover_full target nxt rest s new full = ground arith

discover_on :
    (target nxt : ℕ) (rest : List ℕ) (s : Search)
    → contains s.kept nxt ≡ false
    → (added target nxt s).full ≡ false
    → discover target (nxt ∷ rest) s ≡ discover target rest (added target nxt s)
unfolding discover
discover_on target nxt rest s new on = ground arith

Discovered-added :
    (target nxt : ℕ) (rest : List ℕ) (s : Search)
    → contains s.kept nxt ≡ false
    → (added target nxt s).full ≡ true
    → Discovered target (nxt ∷ rest) s (added target nxt s)
Discovered-added target nxt rest s new full =
    let kept = contains-append s.kept (nxt ∷ []) in
    let queue = contains-append s.queue (nxt ∷ []) in
    record {
      members = λ v h. ground (arith, kept v);
      grows = λ v h. ground (arith, kept v);
      queued = λ v h. ground (arith, kept v, queue v);
      waiting = λ v h. ground (arith, queue v);
      inside = λ v h. ground (arith, kept v, queue v);
      all_new = λ e v h. absurd (cc);
      balance = omega (arith, length-append s.kept (nxt ∷ []), length-append s.queue (nxt ∷ []));
      room = (λ e. absurd (cc), λ e. ground arith);
      once = λ d. Distinct-concat s.kept nxt d new;
    }

Discovered-on :
    (target nxt : ℕ) (rest : List ℕ) (s t : Search)
    → contains s.kept nxt ≡ false
    → Discovered target rest (added target nxt s) t
    → Discovered target (nxt ∷ rest) s t
Discovered-on target nxt rest s t new d =
    let kept = contains-append s.kept (nxt ∷ []) in
    let queue = contains-append s.queue (nxt ∷ []) in
    record {
      members = λ v h. ground (arith, kept v, d.members v h);
      grows = λ v h. d.grows v (ground (arith, kept v));
      queued = λ v h. ground (arith, kept v, queue v, d.queued v h, d.waiting v);
      waiting = λ v h. d.waiting v (ground (arith, queue v));
      inside = λ v h. ground (arith, d.inside v h, queue v, d.grows v, kept v);
      all_new = λ e v h. ground (arith, d.all_new e v, d.grows v, kept v);
      balance =
          omega
            (arith, d.balance, length-append s.kept (nxt ∷ []), length-append s.queue (nxt ∷ []));
      room = d.room;
      once = λ p. d.once (Distinct-concat s.kept nxt p new);
    }

Discovered-old :
    (target nxt : ℕ) (rest : List ℕ) (s t : Search)
    → contains s.kept nxt ≡ true
    → Discovered target rest s t
    → Discovered target (nxt ∷ rest) s t
Discovered-old target nxt rest s t old d = record {
  members = λ v h. ground (arith, d.members v h);
  grows = d.grows;
  queued = d.queued;
  waiting = d.waiting;
  inside = d.inside;
  all_new = λ e v h. ground (arith, d.all_new e v, d.grows v);
  balance = d.balance;
  room = d.room;
  once = d.once;
}

pub discover_lem :
    (target : ℕ) (new : List ℕ) (s : Search)
    → s.full ≡ false
    → Room target s
    → Discovered target new s (discover target new s)
unfolding discover
discover_lem target [] s on r = record {
  members = λ v h. inl h;
  grows = λ v h. h;
  queued = λ v h. inl h;
  waiting = λ v h. h;
  inside = λ v h. inl h;
  all_new = λ e v h. absurd (cc);
  balance = refl;
  room = r;
  once = λ d. d;
}
discover_lem target (nxt ∷ rest) s on r = elim (Bool-cases (contains s.kept nxt)) [
  | inl old ↦
      subst (Discovered target (nxt ∷ rest) s) (sym (discover_old target nxt rest s on old))
        (Discovered-old target nxt rest s _ old (discover_lem target rest s on r))
  | inr new ↦ elim (Bool-cases (added target nxt s).full) [
    | inl full ↦
        subst (Discovered target (nxt ∷ rest) s) (sym (discover_full target nxt rest s new full))
          (Discovered-added target nxt rest s new full)
    | inr go ↦
        subst (Discovered target (nxt ∷ rest) s) (sym (discover_on target nxt rest s new go)) (
          Discovered-on target nxt rest s _ new (
            discover_lem target rest (added target nxt s) go
              (λ e. inr (ground arith), λ e. absurd (cc))))
  ]
]
