-- ===== src/Reader/Pending/Laws.antt =====
-- What the pending store keeps and drops: the dictionary's laws, and the bound on its size.
use mathlib.Core.Path.{subst}
use tridb.Base.{
  sym, ◌∙◌, ℕ, zero, suc, ◌+◌, ◌≤◌, ◌<◌, ◌≡◌, refl, ◌⊎◌, inl, inr, Bool, true, false, not, ◌||◌,
  none, some, List, [], ◌∷◌, ◌==◌, leb, if◌then◌else◌, length, keep, contains, arith, Bool-cases,
  Option-cases, All,
}
use tridb.Reader.Pending.{
  Suggestion, Entry, Entries, get, put, remove, Pending, Limits, is_stale, victim, trim, evict,
  register, discard, claim, claim_entry, claimed, replay, unknown,
}

eq_sound : (a b : ℕ) → (b == a) ≡ true → a ≡ b
eq_sound a b h = ground arith

pair_eq {ℓ} : {A : Type ℓ} (j k : ℕ) (w v : A) → j ≡ k → w ≡ v → ◌≡◌ {A = ℕ × A} (j, w) (k, v)
pair_eq j k w v p q = λ i. (p i, q i)

module _ {ℓ} {A : Type ℓ} where
  pub get-put :
      (entries : List (ℕ × A)) (id : ℕ) (v : A) (k : ℕ)
      → get (put entries id v) k ≡ (if id == k then some v else get entries k)
  get-put [] id v k = refl
  get-put ((j, w) ∷ rest) id v k = ground (arith, get-put rest id v k)

  pub All-put {κ} :
      (P : ℕ × A → Type κ) (entries : List (ℕ × A)) (id : ℕ) (v : A)
      → All P entries
      → P (id, v)
      → All P (put entries id v)
  All-put P [] id v h p = (p, tt)
  All-put P ((j, w) ∷ rest) id v h p = elim (Bool-cases (j == id)) [
    | inl same ↦ rw same (subst (λ i. P (i, v)) (eq_sound id j same) p, h.1)
    | inr other ↦ rw other (h.0, All-put P rest id v h.1 p)
  ]

  pub get-All {κ} :
      (P : ℕ × A → Type κ) (entries : List (ℕ × A)) (k : ℕ) (v : A)
      → All P entries
      → get entries k ≡ some v
      → P (k, v)
  get-All P [] k v h e = absurd (cc)
  get-All P ((j, w) ∷ rest) k v h e = elim (Bool-cases (j == k)) [
    | inl same ↦
        let found : w ≡ v = ground arith in
        subst (λ (item : ℕ × A). P item) (pair_eq j k w v (sym (eq_sound k j same)) found) h.0
    | inr other ↦ get-All P rest k v h.1 (ground arith)
  ]

  pub get-remove :
      (entries : List (ℕ × A)) (id k : ℕ)
      → get (remove entries id) k ≡ (if id == k then none else get entries k)
  unfolding remove
  get-remove [] id k = ground arith
  get-remove ((j, w) ∷ rest) id k = ground (arith, get-remove rest id k)

  pub All_map {κ μ} :
      (P : ℕ × A → Type κ) (Q : ℕ × A → Type μ)
      → ((x : ℕ × A) → P x → Q x)
      → (items : List (ℕ × A)) → All P items
      → All Q items
  All_map P Q f [] h = tt
  All_map P Q f (x ∷ rest) h = (f x h.0, All_map P Q f rest h.1)

  pub All-keep {κ} :
      (P : ℕ × A → Type κ) (p : ℕ × A → Bool) (entries : List (ℕ × A))
      → All P entries
      → All P (keep p entries)
  All-keep P p [] h = tt
  All-keep P p (x ∷ rest) h = elim (Bool-cases (p x)) [
    | inl in_it ↦ rw in_it (h.0, All-keep P p rest h.1)
    | inr out ↦ rw out (All-keep P p rest h.1)
  ]

pub contains-discard :
    (inflight : List ℕ) (id k : ℕ)
    → contains (discard inflight id) k ≡ (if id == k then false else contains inflight k)
unfolding discard
contains-discard [] id k = ground arith
contains-discard (x ∷ rest) id k = ground (arith, contains-discard rest id k)

-- The entries whose loss the two rounds of eviction cannot cause.
get-keep :
    (now : ℕ) (inflight : List ℕ) (entries : Entries) (k : ℕ)
    → contains inflight k ≡ true
    → get (keep (λ item. not (is_stale now inflight item)) entries) k ≡ get entries k
get-keep now inflight [] k h = refl
get-keep now inflight ((j, e) ∷ rest) k h = ground (arith, get-keep now inflight rest k h)

victim_free :
    (inflight : List ℕ) (entries : Entries) (k : ℕ)
    → victim inflight entries ≡ some k
    → contains inflight k ≡ false
victim_free inflight [] k h = absurd (cc)
victim_free inflight ((j, e) ∷ rest) k h = ground (arith, victim_free inflight rest k)

length-remove-le : (entries : Entries) (k : ℕ) → length (remove entries k) ≤ length entries
unfolding remove
length-remove-le [] k = omega arith
length-remove-le ((j, e) ∷ rest) k = ground (arith, length-remove-le rest k)

length-remove :
    (inflight : List ℕ) (entries : Entries) (k : ℕ)
    → victim inflight entries ≡ some k
    → length (remove entries k) < length entries
unfolding remove
length-remove inflight [] k h = absurd (cc)
length-remove inflight ((j, e) ∷ rest) k h =
    ground (arith, length-remove inflight rest k, length-remove-le rest k)

trim-get :
    (fuel max_entries : ℕ) (inflight : List ℕ) (entries : Entries) (k : ℕ)
    → contains inflight k ≡ true
    → get (trim fuel max_entries inflight entries) k ≡ get entries k
unfolding trim
trim-get zero max_entries inflight entries k h = refl
trim-get (suc fuel) max_entries inflight entries k h =
    elim (Option-cases (victim inflight entries)) [
      | inl none_free ↦ ground (arith, none_free)
      | inr (v, e) ↦ ground (
        arith,
        e,
        trim-get fuel max_entries inflight (remove entries v) k h,
        victim_free inflight entries v e,
        get-remove entries v k,
      )
    ]

abbrev Trimmed : ℕ → List ℕ → Entries → Type 0
Trimmed max_entries inflight entries =
    (length entries < max_entries) ⊎ (victim inflight entries ≡ none)

trim-Trimmed :
    (fuel max_entries : ℕ) (inflight : List ℕ) (entries : Entries)
    → length entries ≤ fuel
    → Trimmed max_entries inflight (trim fuel max_entries inflight entries)
unfolding trim
trim-Trimmed zero max_entries inflight [] h = inr refl
trim-Trimmed zero max_entries inflight (x ∷ rest) h = absurd (omega arith)
trim-Trimmed (suc fuel) max_entries inflight entries h =
    elim (Bool-cases (leb max_entries (length entries))) [
      | inr small ↦ rw (trim, small) (inl (ground arith))
      | inl full ↦
          rw (trim, full)
            (elim (Option-cases (victim inflight entries)) [
              | inl e ↦ rw e (inr e)
              | inr (v, e) ↦ rw e (
                  trim-Trimmed fuel max_entries inflight (remove entries v)
                    (omega (arith, length-remove inflight entries v e)))
            ])
    ]

evict-Trimmed :
    (l : Limits) (now : ℕ) (p : Pending) → Trimmed l.max_entries p.inflight (evict l now p)
unfolding evict
evict-Trimmed l now p =
    let live = keep (λ item. not (is_stale now p.inflight item)) p.entries in
    trim-Trimmed (length live) l.max_entries p.inflight live (omega arith)

pub All-removed :
    (P Q : ℕ × Entry → Type 0) (k : ℕ)
    → ((item : ℕ × Entry) → (item.0 == k) ≡ false → P item → Q item)
    → (entries : Entries) → All P entries
    → All Q (remove entries k)
unfolding remove
All-removed P Q k f [] h = tt
All-removed P Q k f (x ∷ rest) h = elim (Bool-cases (x.0 == k)) [
  | inl gone ↦ rw gone (All-removed P Q k f rest h.1)
  | inr stays ↦ rw stays (f x stays h.0, All-removed P Q k f rest h.1)
]

module _ (P : ℕ × Entry → Type 0) where
  pub All-remove : (entries : Entries) (k : ℕ) → All P entries → All P (remove entries k)
  unfolding remove
  All-remove entries k h = All-keep P (λ item. not (item.0 == k)) entries h

  All-trim :
      (fuel max_entries : ℕ) (inflight : List ℕ) (entries : Entries)
      → All P entries
      → All P (trim fuel max_entries inflight entries)
  unfolding trim
  All-trim zero max_entries inflight entries h = h
  All-trim (suc fuel) max_entries inflight entries h =
      elim (Bool-cases (leb max_entries (length entries))) [
        | inr small ↦ rw (trim, small) h
        | inl full ↦
            rw (trim, full)
              (elim (Option-cases (victim inflight entries)) [
                | inl e ↦ rw e h
                | inr (v, e) ↦
                    rw e (
                      All-trim fuel max_entries inflight (remove entries v)
                        (All-remove entries v h))
              ])
      ]

  pub All-register :
      (l : Limits) (sug_id now : ℕ) (s : Suggestion) (p : Pending)
      → All P p.entries
      → P (sug_id, record { suggestion = s; expires = now + l.ttl_s })
      → All P (register l sug_id now s p).entries
  unfolding register evict
  All-register l sug_id now s p h new =
      let live = keep (λ item. not (is_stale now p.inflight item)) p.entries in
      All-put P (trim (length live) l.max_entries p.inflight live) sug_id
        (record { suggestion = s; expires = now + l.ttl_s })
        (All-trim (length live) l.max_entries p.inflight live
          (All-keep P (λ item. not (is_stale now p.inflight item)) p.entries h))
        new

pub get-evict :
    (l : Limits) (now : ℕ) (p : Pending) (k : ℕ)
    → contains p.inflight k ≡ true
    → get (evict l now p) k ≡ get p.entries k
unfolding evict
get-evict l now p k h =
    let live = keep (λ item. not (is_stale now p.inflight item)) p.entries in
    trim-get (length live) l.max_entries p.inflight live k h ∙ get-keep now p.inflight p.entries k h

length-put :
    (entries : Entries) (id : ℕ) (e : Entry) → length (put entries id e) ≤ suc (length entries)
length-put [] id e = omega arith
length-put ((j, w) ∷ rest) id e = ground (arith, length-put rest id e)

-- Every entry but that of `id` is in flight.
abbrev pub OthersFly : List ℕ → ℕ → Entries → Type 0
OthersFly inflight id =
    All (λ (item : ℕ × Entry). (contains inflight item.0 || item.0 == id) ≡ true)

victim-OthersFly :
    (inflight : List ℕ) (id : ℕ) (entries : Entries)
    → victim inflight entries ≡ none
    → OthersFly inflight id entries
victim-OthersFly inflight id [] h = tt
victim-OthersFly inflight id ((j, e) ∷ rest) h =
    (ground arith, victim-OthersFly inflight id rest (ground arith))

-- register stores the suggestion under its id until `now + ttl_s`, drops no entry that is in
-- flight, and leaves at most `max_entries` entries, or else every entry but the new one is in
-- flight.
pub register_lem :
    (l : Limits) (sug_id now : ℕ) (s : Suggestion) (p : Pending)
    → let after = register l sug_id now s p in
      (get after.entries sug_id ≡ some (record { suggestion = s; expires = now + l.ttl_s }))
      × ((k : ℕ)
          → contains p.inflight k ≡ true
          → (k == sug_id) ≡ false
          → get after.entries k ≡ get p.entries k)
      × ((length after.entries ≤ l.max_entries) ⊎ OthersFly after.inflight sug_id after.entries)
unfolding register
register_lem l sug_id now s p =
    let left = evict l now p in
    let new : Entry = record { suggestion = s; expires = now + l.ttl_s } in
    (
      ground (arith, get-put left sug_id new sug_id),
      λ k flies other. ground (arith, get-put left sug_id new k, get-evict l now p k flies),
      elim (evict-Trimmed l now p) [
        | inl small ↦ inl (omega (arith, small, length-put left sug_id new))
        | inr all_fly ↦ inr (
            All-put (λ item. (contains p.inflight item.0 || item.0 == sug_id) ≡ true) left sug_id
              new (victim-OthersFly p.inflight sug_id left all_fly) (ground arith))
      ],
    )

claim_missing :
    (id subject_id now : ℕ) (p : Pending)
    → get p.entries id ≡ none
    → claim id subject_id now p ≡ (unknown, p)
unfolding claim
claim_missing id subject_id now p h = rw (claim, h) refl

claim_found :
    (id subject_id now : ℕ) (e : Entry) (p : Pending)
    → get p.entries id ≡ some e
    → claim id subject_id now p ≡ claim_entry id subject_id now e p
unfolding claim
claim_found id subject_id now e p h = rw (claim, h) refl

-- A claim is turned away and changes nothing, or takes the live entry of its subject in flight,
-- which it was not before.
pub claim-cases :
    (id subject_id now : ℕ) (p : Pending)
    → (claim id subject_id now p ≡ (replay, p))
      ⊎ ((claim id subject_id now p ≡ (unknown, p))
          ⊎ ((e : Entry) × (claim id subject_id now p
                ≡ (claimed e, record p { inflight = id ∷ p.inflight }))
              × (get p.entries id ≡ some e)
              × (contains p.inflight id ≡ false)
              × (now < e.expires)
              × (e.suggestion.subject_id ≡ subject_id)))
claim-cases id subject_id now p = elim (Option-cases (get p.entries id)) [
  | inl missing ↦ inr (inl (claim_missing id subject_id now p missing))
  | inr (e, found) ↦
      let same = claim_found id subject_id now e p found in
      elim (Bool-cases (contains p.inflight id)) [
        | inl flies ↦ inl (same ∙ rw flies refl)
        | inr free ↦
            elim (Bool-cases (leb e.expires now || not (e.suggestion.subject_id == subject_id))) [
              | inl bad ↦ inr (inl (same ∙ rw free (rw bad refl)))
              | inr good ↦ inr (
                  inr (
                    e,
                    same ∙ rw free (rw good refl),
                    found,
                    free,
                    ground (arith, good),
                    ground (arith, good),
                  ))
            ]
      ]
]
