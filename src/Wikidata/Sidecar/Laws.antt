-- ===== src/Wikidata/Sidecar/Laws.antt =====
-- The sidecar of tools/wikidata_compact.py after a publication, a crash in it, or a scan with a limit.
use Prim.Native.String.{String}
use text.Mathlib.TextEquality.{eq_iff}
use tridb.Base.{
  ap, sym, ◌∙◌, ℕ, zero, suc, ◌+◌, ◌-◌, ◌≤◌, ◌≡◌, refl, ◌⊎◌, inl, inr, true, Option, none, some,
  List, [], ◌∷◌, ◌++◌, ◌==◌, ==_self, leb, if◌then◌else◌, length, take, arith, All, Bool-cases,
  length-append, append_assoc, append_nil, take_enough, take-append, take_nil,
}
use tridb.Base.Result.{ok, raised, sidecar_error, Error, Result-cases}
use tridb.Wikidata.Compact.{Row, Batch, counted, trim_blob}
use tridb.Wikidata.Sidecar.{
  Scan, nothing_scanned, add_batch, scan_batches, Meta, metadata, Disk, publish, bytes_eq, written,
  build_compact, verify_meta, verify_compact_sidecar,
}

bytes_eq_self : (xs : List ℕ) → bytes_eq xs xs ≡ true
bytes_eq_self [] = refl
bytes_eq_self (x ∷ xs) = ground (arith, bytes_eq_self xs, ==_self x)

bytes_eq_sound : (xs ys : List ℕ) → bytes_eq xs ys ≡ true → xs ≡ ys
bytes_eq_sound [] [] h = refl
bytes_eq_sound [] (y ∷ ys) h = cc
bytes_eq_sound (x ∷ xs) [] h = cc
bytes_eq_sound (x ∷ xs) (y ∷ ys) h = ground (arith, bytes_eq_sound xs ys)

module _ (pack : List Row → List ℕ) (sha256 : List ℕ → List ℕ) where
  verify_meta_ok :
      (bytes : List ℕ) (dump : Option ℕ) (lang : String) (m r : Meta)
      → verify_meta pack sha256 (some bytes) dump lang m ≡ ok r
      → (r ≡ m) × (m.compact_sha256 ≡ sha256 bytes)
  verify_meta_ok bytes dump lang m r h =
      (ground arith, bytes_eq_sound m.compact_sha256 (sha256 bytes) (ground arith))

  verify_cases :
      (disk : Disk) (bytes : List ℕ) (dump : Option ℕ) (lang : String) (m : Meta)
      → disk.compact ≡ some bytes
      → disk.meta_file ≡ metadata m
      → ((e : Error) × (verify_compact_sidecar pack sha256 disk dump lang ≡ raised e))
        ⊎ ((verify_compact_sidecar pack sha256 disk dump lang ≡ ok m)
            × (m.compact_sha256 ≡ sha256 bytes))
  unfolding verify_compact_sidecar
  verify_cases disk bytes dump lang m c f =
      elim (Result-cases (verify_meta pack sha256 (some bytes) dump lang m)) [
        | inr (e, bad) ↦ inl (e, rw (f, c) bad)
        | inl (r, good) ↦
            let (same, hash) = verify_meta_ok bytes dump lang m r good in
            inr (rw (f, c) (good ∙ ap ok same), hash)
      ]

  -- A published pair: metadata with the hash of the bytes beside it.
  abbrev pub IsPair : Disk → List ℕ → Meta → Type 0
  IsPair disk bytes m =
      (disk.compact ≡ some bytes)
      × (disk.meta_file ≡ metadata m)
      × (m.compact_sha256 ≡ sha256 bytes)

  -- What verification accepts is the pair that stands there.
  abbrev pub Accepts : Disk → Option ℕ → String → List ℕ → Meta → Type 0
  Accepts disk dump lang bytes m =
      (verify_compact_sidecar pack sha256 disk dump lang ≡ ok m) × (disk.compact ≡ some bytes)

  -- Wherever a crash stops the publication over an existing pair, before, between or after the two
  -- replacements, verification rejects what is left, or accepts the old bytes with the old
  -- metadata, or the new bytes with the new metadata, provided that the two files' hashes differ
  -- when the files do.
  pub publish-crash_safe :
      (old : Disk) (old_bytes : List ℕ) (old_meta : Meta) (dump : Option ℕ) (lang : String)
      (limit : Option ℕ) (dump_size done : ℕ) (batches : List Batch)
      → IsPair old old_bytes old_meta
      → let (bytes, m) = build_compact pack sha256 lang limit dump_size batches in
        (sha256 old_bytes ≡ sha256 bytes → old_bytes ≡ bytes)
        → let left = publish old bytes m done in
          ((e : Error) × (verify_compact_sidecar pack sha256 left dump lang ≡ raised e))
          ⊎ (Accepts left dump lang old_bytes old_meta ⊎ Accepts left dump lang bytes m)
  unfolding publish verify_compact_sidecar
  publish-crash_safe old old_bytes old_meta dump lang limit dump_size zero batches (c, f, s) apart =
      elim (verify_cases old old_bytes dump lang old_meta c f) [
        | inl bad ↦ inl bad
        | inr (good, _) ↦ inr (inl (good, c))
      ]
  publish-crash_safe old old_bytes old_meta dump lang limit dump_size (suc zero) batches (c, f, s)
        apart =
      let (bytes, m) = build_compact pack sha256 lang limit dump_size batches in
      elim (verify_cases (record old { compact = some bytes }) bytes dump lang old_meta refl f) [
        | inl bad ↦ inl bad
        | inr (good, hash) ↦ inr (inl (good, ap some (sym (apart (sym s ∙ hash)))))
      ]
  publish-crash_safe old old_bytes old_meta dump lang limit dump_size (suc (suc n)) batches
        (c, f, s) apart =
      let (bytes, m) = build_compact pack sha256 lang limit dump_size batches in
      elim (verify_cases (record { compact = some bytes; meta_file = metadata m }) bytes dump lang m
        refl refl) [ inl bad ↦ inl bad | inr (good, _) ↦ inr (inr (good, refl)) ]

  -- After a publication that ran to its end, verification accepts the new pair, for the same language,
  -- a full scan and a dump of the recorded size or none, and rejects it for any limit.
  verify-build_compact :
      (old : Disk) (lang : String) (dump_size : ℕ) (batches : List Batch)
      → let (bytes, m) = build_compact pack sha256 lang none dump_size batches in
        let new = publish old bytes m 2 in
        (verify_compact_sidecar pack sha256 new (some dump_size) lang ≡ ok m)
        × (verify_compact_sidecar pack sha256 new none lang ≡ ok m)
        × ((limit : ℕ)
            → let (part, n) = build_compact pack sha256 lang (some limit) dump_size batches in
              verify_compact_sidecar pack sha256 (publish old part n 2) none lang
              ≡ raised sidecar_error)
  unfolding publish verify_compact_sidecar build_compact
  verify-build_compact old lang dump_size batches =
      let bytes = written pack sha256 (scan_batches none nothing_scanned batches).members in
      let same = bytes_eq_self (sha256 bytes) in
      let long = ==_self (length bytes) in
      let size = ==_self dump_size in
      let here = (eq_iff lang lang).1 refl in
      (rw (here, size, long, same) refl, rw (here, long, same) refl, λ limit. rw here refl)

abbrev pub all_rows : List Batch → List Row
all_rows [] = []
all_rows (b ∷ rest) = b.rows ++ all_rows rest

abbrev pub joined_members : List (List Row) → List Row
joined_members [] = []
joined_members (rows ∷ rest) = rows ++ joined_members rest

joined_members-concat :
    (members : List (List Row)) (rows : List Row)
    → joined_members (members ++ rows ∷ []) ≡ joined_members members ++ rows
joined_members-concat [] rows = append_nil rows
joined_members-concat (r ∷ members) rows =
    ap (λ l. r ++ l) (joined_members-concat members rows)
    ∙ sym (append_assoc r (joined_members members) rows)

members_added :
    (members : List (List Row)) (rows : List Row)
    → joined_members (if length rows == 0 then members else members ++ rows ∷ [])
      ≡ joined_members members ++ rows
members_added members [] = sym (append_nil (joined_members members))
members_added members (r ∷ rest) = ground (arith, joined_members-concat members (r ∷ rest))

-- A batch as compact_batch counts it.
abbrev pub IsCounted : Batch → Type 0
IsCounted b = b ≡ counted b.rows

abbrev pub IsScanned : Scan → List Row → Type 0
IsScanned s rows = (joined_members s.members ≡ rows) × (s.entities ≡ length rows)

cut :
    (limit : ℕ) (s : Scan) (b : Batch) (rest : List Row)
    → IsCounted b
    → s.entities ≡ length (joined_members s.members)
    → s.entities ≤ limit
    → leb limit (s.entities + b.entities) ≡ true
    → joined_members s.members ++ take (limit - s.entities) b.rows
      ≡ take limit (joined_members s.members ++ (b.rows ++ rest))
cut limit s b rest c e h full =
    let left = limit - length (joined_members s.members) in
    ap (λ n. joined_members s.members ++ take (limit - n) b.rows) e
    ∙ ap (λ l. joined_members s.members ++ l)
        (sym (take_enough left b.rows rest (ground (arith, ap (λ (b : Batch). b.entities) c, e))))
    ∙ sym (take-append limit (joined_members s.members) (b.rows ++ rest) (omega (arith, e, h)))

limited :
    (limit : ℕ) (s : Scan) (batches : List Batch)
    → All IsCounted batches
    → s.entities ≡ length (joined_members s.members)
    → s.entities ≤ limit
    → IsScanned
        (scan_batches (some limit) s batches)
        (take limit (joined_members s.members ++ all_rows batches))
unfolding scan_batches trim_blob
limited limit s [] c e h =
    let whole =
      take-append limit (joined_members s.members) [] (omega (arith, e, h))
      ∙ ap (λ l. joined_members s.members ++ l) (take_nil _)
      ∙ append_nil (joined_members s.members) in
    (sym whole, e ∙ ap length (sym whole))
limited limit s (b ∷ rest) c e h = elim (Bool-cases (leb limit (s.entities + b.entities))) [
  | inl full ↦ rw full (
      let here = cut limit s b (all_rows rest) c.0 e h full in
      (
        members_added s.members (take (limit - s.entities) b.rows) ∙ here,
        omega (
          arith,
          length-append (joined_members s.members) (take (limit - s.entities) b.rows),
          e,
          ap length here,
        ),
      ))
  | inr room ↦ rw room (
      let joined = members_added s.members b.rows in
      let ih =
        limited limit (add_batch s b) rest c.1
          (omega (
            arith,
            e,
            ap (λ (b : Batch). b.entities) c.0,
            ap length joined,
            length-append (joined_members s.members) b.rows,
          ))
          (ground arith) in
      let same = ap (take limit) (
        ap (λ l. l ++ all_rows rest) joined
        ∙ append_assoc (joined_members s.members) b.rows (all_rows rest)) in
      (ih.0 ∙ same, ih.1 ∙ ap length same))
]

-- With a limit, a scan of batches as compact_batch counts them writes exactly the first `limit` of
-- all the rows, whatever the batches are, and counts them.
scan_batches-limit :
    (limit : ℕ) (batches : List Batch)
    → All IsCounted batches
    → IsScanned (scan_batches (some limit) nothing_scanned batches) (take limit (all_rows batches))
scan_batches-limit limit batches c = limited limit nothing_scanned batches c refl (omega arith)
