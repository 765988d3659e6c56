-- ===== src/Recorder/Counts.antt =====
-- The counters of tools/wikidata_record_edits.py, whatever the clock says.
use mathlib.Core.Path.{subst}
use tridb.Base.{
  sym, ap, ◌∙◌, ℕ, ◌+◌, ◌≤◌, ◌≡◌, refl, Bool, false, Option, none, some, List, [], ◌∷◌, length,
  arith, Bool-cases, inl, inr, length-append,
}
use tridb.Recorder.Sse.{Text, Event, iter_sse_events}
use tridb.Recorder.{
  Change, EditRecord, Window, is_full, take_object, seen_event, drain, is_ended, is_interrupted,
  Answer, connect_failed, streamed, Attempt, after_answer, record_loop, empty_window, record_window,
  Status, running, closed, Meta, WindowStats, sidecar,
}
use tridb.Recorder.Limit.{Taken, take_object-Taken, edit_in, listed, length-listed}

abbrev pub Within : Option ℕ → ℕ → Type 0
Within none n = Unit
Within (some most) n = n ≤ most

module _ (loads : Text → Option Change) (max_edits : Option ℕ) (late : ℕ → Bool) where
  record IsCounted (w : Window) : Type 0 where
    pub counts : w.stats.edits ≡ length w.file
    pub within : Within max_edits w.stats.edits

  Within-next : (most : Option ℕ) (n m : ℕ) → is_full most n ≡ false → m ≤ n + 1 → Within most m
  Within-next none n m h k = tt
  Within-next (some most) n m h k = ground arith

  Taken-IsCounted :
      (new : Option EditRecord) (w : Window) (t : Window × Bool)
      → Taken max_edits new w t
      → IsCounted w
      → is_full max_edits w.stats.edits ≡ false
      → IsCounted t.0
  Taken-IsCounted new w t k c h =
      let few = length-listed new in
      let edits = k.edits in
      record {
        counts =
            omega (arith, edits, c.counts, ap length k.file, length-append w.file (listed new));
        within = Within-next max_edits w.stats.edits t.0.stats.edits h (omega (arith, edits, few));
      }

  drain-IsCounted :
      (es : List Event) (w : Window)
      → IsCounted w
      → is_full max_edits w.stats.edits ≡ false
      → let t = drain loads max_edits late es w in
        IsCounted t.0 × (t.1 ≡ false → is_full max_edits t.0.stats.edits ≡ false)
  unfolding drain
  drain-IsCounted [] w c h = (c, λ e. h)
  drain-IsCounted ((event_id, text) ∷ rest) w c h =
      let w' : Window = record w { stats = seen_event event_id w.stats } in
      let taken = take_object-Taken max_edits (loads text) w' in
      let t = take_object max_edits (loads text) w' in
      let c' =
        Taken-IsCounted (edit_in (loads text)) w' t taken
          (record { counts = c.counts; within = c.within }) h in
      elim (Bool-cases t.1) [
        | inl stop ↦ rw stop (c', λ e. absurd (cc))
        | inr go ↦ elim (Bool-cases (late t.0.stats.events)) [
          | inl past ↦ rw (go, past) (c', λ e. absurd (cc))
          | inr before ↦ rw (go, before) (drain-IsCounted rest t.0 c' (taken.room go h))
        ]
      ]

  after_answer-IsCounted :
      (answer : Answer) (rest : Window → Window × Status) (w : Window)
      → IsCounted w
      → is_full max_edits w.stats.edits ≡ false
      → ((w : Window) → IsCounted w → IsCounted (rest w).0)
      → IsCounted (after_answer loads max_edits late answer rest w).0
  after_answer-IsCounted connect_failed rest w c h ih = ih w c
  after_answer-IsCounted (streamed lines ending) rest w c h ih =
      let es = iter_sse_events lines (is_ended ending) in
      let (counted, room) = drain-IsCounted es w c h in
      let t = drain loads max_edits late es w in
      elim (Bool-cases t.1) [
        | inl stop ↦ rw stop counted
        | inr go ↦ elim (Bool-cases (is_interrupted ending)) [
          | inl early ↦ rw (go, early) counted
          | inr on ↦ rw (go, on) (ih t.0 counted)
        ]
      ]

  record_loop-IsCounted :
      (attempts : List Attempt) (w : Window)
      → IsCounted w
      → IsCounted (record_loop loads max_edits late attempts w).0
  unfolding record_loop
  record_loop-IsCounted [] w c = c
  record_loop-IsCounted (attempt ∷ rest) w c = elim (Bool-cases (is_full max_edits w.stats.edits)) [
    | inl full ↦ rw full c
    | inr room ↦ elim (Bool-cases attempt.expired) [
      | inl late' ↦ rw (room, late') c
      | inr on ↦
          rw (room, on)
            (after_answer-IsCounted (attempt.answer w.stats.last_event_id)
              (record_loop loads max_edits late rest) w c room
              (λ w' c'. record_loop-IsCounted rest w' c'))
    ]
  ]

Within-zero : (most : Option ℕ) → Within most 0
Within-zero none = tt
Within-zero (some most) = omega arith

sidecar-counts :
    (max_edits : Option ℕ) (stats : WindowStats) (status : Status) (m : Meta)
    → sidecar max_edits stats status ≡ some m
    → m.edits_recorded ≡ stats.edits
sidecar-counts max_edits stats running m e = absurd (cc)
sidecar-counts max_edits stats (closed early) m e =
    let recorded : Option Meta → ℕ = λ o. elim o [ none ↦ 0 | some x ↦ x.edits_recorded ] in
    sym (ap recorded e)

-- Whatever the clock, the drops and the interrupts: the file never holds more than `max_edits`
-- records, and a sidecar, when it is written, counts the records of the file.
record_window-counts :
    (loads : Text → Option Change) (max_edits : Option ℕ) (late : ℕ → Bool)
    (attempts : List Attempt)
    → let (file, sidecar) = record_window loads max_edits late attempts in
      Within max_edits (length file)
      × ((m : Meta) → sidecar ≡ some m → m.edits_recorded ≡ length file)
unfolding record_window
record_window-counts loads max_edits late attempts =
    let c =
      record_loop-IsCounted loads max_edits late attempts empty_window
        (record { counts = refl; within = Within-zero max_edits }) in
    let t = record_loop loads max_edits late attempts empty_window in
    (
      subst (Within max_edits) c.counts c.within,
      λ m e. sidecar-counts max_edits t.0.stats t.1 m e ∙ c.counts,
    )
