-- ===== src/Reader/Pending.antt =====
-- PendingSuggestions of tools/wiki_reader.py. A dictionary is the list of its items in the order of
-- insertion; a suggestion id is a number, drawn by the caller, and so is the time.
pub mod Laws
use tridb.Base.{
  ℕ, zero, suc, ◌+◌, Bool, true, false, not, ◌&&◌, ◌||◌, Option, none, some, List, [], ◌∷◌, ◌==◌,
  leb, ltb, if◌then◌else◌, length, keep, contains,
}
use tridb.Base.Text.{Text}

-- The canonical fields that register stores.
pub record Suggestion : Type 0 where
  pub subject_id : ℕ
  pub source_id : ℕ
  pub property : Text
  pub value : Text
  pub source_title : Text
  pub source_snippet : Text

pub record Entry : Type 0 where
  pub suggestion : Suggestion
  pub expires : ℕ

-- entries.get(id)
abbrev pub get {ℓ} : {A : Type ℓ} → List (ℕ × A) → ℕ → Option A
get [] id = none
get ((k, v) ∷ rest) id = let later = get rest id in if k == id then some v else later

abbrev pub ids {ℓ} : {A : Type ℓ} → List (ℕ × A) → List ℕ
ids [] = []
ids ((k, v) ∷ rest) = k ∷ ids rest

-- entries[id] = v
abbrev pub put {ℓ} : {A : Type ℓ} → List (ℕ × A) → ℕ → A → List (ℕ × A)
put [] id v = (id, v) ∷ []
put ((k, w) ∷ rest) id v =
    let later = put rest id v in if k == id then (k, v) ∷ rest else (k, w) ∷ later

-- del entries[id], the keys being distinct.
unfoldable pub remove {ℓ} : {A : Type ℓ} → List (ℕ × A) → ℕ → List (ℕ × A)
remove entries id = keep (λ item. not (item.0 == id)) entries

abbrev pub Entries : Type 0
Entries = List (ℕ × Entry)

pub record Pending : Type 0 where
  pub entries : Entries
  pub inflight : List ℕ

pub record Limits : Type 0 where
  pub max_entries : ℕ
  pub ttl_s : ℕ

-- `e["expires"] <= now and k not in self._inflight`
abbrev pub is_stale : ℕ → List ℕ → ℕ × Entry → Bool
is_stale now inflight item = leb item.1.expires now && not (contains inflight item.0)

-- next((k for k in entries if k not in inflight), None)
abbrev pub victim : List ℕ → Entries → Option ℕ
victim inflight [] = none
victim inflight ((k, e) ∷ rest) =
    let later = victim inflight rest in if contains inflight k then later else some k

-- `while len(self._entries) >= self.max_entries`, on fuel.
unfoldable pub trim : ℕ → ℕ → List ℕ → Entries → Entries
unfolding remove
trim zero max_entries inflight entries = entries
trim (suc fuel) max_entries inflight entries = elim (leb max_entries (length entries)) [
  | false ↦ entries
  | true ↦ elim (victim inflight entries) [
    | none ↦ entries
    | some k ↦ trim fuel max_entries inflight (remove entries k)
  ]
]

-- _evict_locked; a round of the loop removes an entry, so that their number is enough fuel.
unfoldable pub evict : Limits → ℕ → Pending → Entries
unfolding trim
evict l now p =
    let live = keep (λ item. not (is_stale now p.inflight item)) p.entries in
    trim (length live) l.max_entries p.inflight live

unfoldable pub register : Limits → ℕ → ℕ → Suggestion → Pending → Pending
unfolding evict
register l sug_id now suggestion p = record p {
  entries =
      put (evict l now p) sug_id (record { suggestion = suggestion; expires = now + l.ttl_s });
}

pub data Claim : Type 0 where
  claimed : Entry → Claim
  replay unknown : Claim

abbrev pub claim_entry : ℕ → ℕ → ℕ → Entry → Pending → Claim × Pending
claim_entry sug_id subject_id now e p =
    if contains p.inflight sug_id
    then (replay, p)
    else if leb e.expires now || not (e.suggestion.subject_id == subject_id)
    then (unknown, p)
    else (claimed e, record p { inflight = sug_id ∷ p.inflight })

unfoldable pub claim : ℕ → ℕ → ℕ → Pending → Claim × Pending
claim sug_id subject_id now p = elim (get p.entries sug_id) [
  | none ↦ (unknown, p)
  | some e ↦ claim_entry sug_id subject_id now e p
]

-- inflight.discard(id)
unfoldable pub discard : List ℕ → ℕ → List ℕ
discard inflight id = keep (λ k. not (k == id)) inflight

unfoldable pub consume : ℕ → Pending → Pending
unfolding discard remove
consume sug_id p = record {
  inflight = discard p.inflight sug_id;
  entries = remove p.entries sug_id;
}

unfoldable pub release : ℕ → Pending → Pending
unfolding discard
release sug_id p = record p { inflight = discard p.inflight sug_id }
