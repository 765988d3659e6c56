-- ===== src/Recorder/Loop.antt =====
-- The loop of `record` in tools/wikidata_record_edits.py, and what it leaves in the file.
use mathlib.Core.Path.{subst}
use mathlib.Core.Bool.{true≢false}
use tridb.Base.{
  sym, ap, ◌∙◌, ℕ, ◌≤◌, ◌<◌, ◌≡◌, ◌≢◌, ◌↔◌, refl, Bool, true, false, Option, none, some, List, [],
  ◌∷◌, ◌++◌, if◌then◌else◌, length, All, arith, Bool-cases, inl, inr, append_assoc, append_nil,
  length-take,
}
use tridb.Recorder.Sse.{Text, Event, iter_sse_events}
use tridb.Recorder.{
  Change, EditRecord, Window, is_full, drain, is_ended, is_interrupted, Answer, connect_failed,
  streamed, Attempt, after_answer, record_loop, empty_window, record_window, Status, running,
  closed, Meta, window_meta,
}
use tridb.Recorder.Limit.{
  events_of, interrupts, cursor_after, delivered, cut, cut_room, usable, usable-append,
  drain-Drained,
}

module _ (loads : Text → Option Change) (max_edits : Option ℕ) (late : ℕ → Bool)
    (no_deadline : (n : ℕ) → late n ≡ false) where
  -- What the turns of the loop leave, when `more` are the edits that they deliver.
  record Recorded (more : List EditRecord) (w : Window) (t : Window × Status) : Type 0 where
    pub file : t.0.file ≡ cut max_edits (w.file ++ more)
    pub counts : t.0.stats.edits ≡ length t.0.file
    pub full : (t.1 ≡ closed false) ↔ (is_full max_edits t.0.stats.edits ≡ true)

  -- A window that holds its records and takes more.
  record IsOpen (w : Window) : Type 0 where
    pub counts : w.stats.edits ≡ length w.file
    pub room : is_full max_edits w.stats.edits ≡ false

  stopped-Recorded :
      (w : Window) (status : Status) → IsOpen w → status ≢ closed false → Recorded [] w (w, status)
  stopped-Recorded w status o s = record {
    file = sym (
        ap (cut max_edits) (append_nil w.file)
        ∙ cut_room max_edits w.file (ap (is_full max_edits) (sym o.counts) ∙ o.room));
    counts = o.counts;
    full = (λ e. absurd (s e), λ e. absurd (true≢false (sym e ∙ o.room)));
  }

  moved :
      (es more : List Event) (w w' : Window) (t : Window × Status)
      → w'.file ≡ w.file ++ usable loads es
      → Recorded (usable loads more) w' t
      → Recorded (usable loads (es ++ more)) w t
  moved es more w w' t grown r = record {
    file =
        r.file
        ∙ ap (λ l. cut max_edits (l ++ usable loads more)) grown
        ∙ ap (cut max_edits) (append_assoc w.file (usable loads es) (usable loads more))
        ∙ ap (λ l. cut max_edits (w.file ++ l)) (sym (usable-append loads es more));
    counts = r.counts;
    full = r.full;
  }

  after_answer-Recorded :
      (answer : Answer) (rest : List Attempt) (w : Window)
      → IsOpen w
      → ((w : Window)
          → IsOpen w
          → Recorded
              (usable loads (delivered rest w.stats.last_event_id))
              w
              (record_loop loads max_edits late rest w))
      → Recorded
          (usable loads (
            events_of answer
            ++ (if interrupts answer
                then []
                else delivered rest (cursor_after w.stats.last_event_id (events_of answer)))))
          w
          (after_answer loads max_edits late answer (record_loop loads max_edits late rest) w)
  after_answer-Recorded connect_failed rest w o ih = ih w o
  after_answer-Recorded (streamed lines ending) rest w o ih =
      let es = iter_sse_events lines (is_ended ending) in
      let d = drain-Drained loads max_edits late no_deadline es w o.counts o.room in
      let t = drain loads max_edits late es w in
      elim (Bool-cases t.1) [
        | inl stop ↦ rw stop (record {
          file =
              (d.stops stop).1 (usable loads _)
              ∙ ap (λ l. cut max_edits (w.file ++ l)) (sym (usable-append loads es _));
          counts = d.counts;
          full = (λ e. (d.stops stop).0, λ e. refl);
        })
        | inr go ↦ rw go (
            let (grown, cursor, room) = d.goes_on go in
            let o' : IsOpen t.0 = record { counts = d.counts; room = room } in
            elim (Bool-cases (is_interrupted ending)) [
              | inl early ↦ rw early (
                  moved es [] w t.0 (t.0, closed true) grown
                    (stopped-Recorded t.0 (closed true) o' (λ e. cc)))
              | inr on ↦ rw on (
                  moved es (delivered rest (cursor_after w.stats.last_event_id es)) w t.0
                    (record_loop loads max_edits late rest t.0) grown
                    (subst
                      (λ c.
                        Recorded (usable loads (delivered rest c)) t.0
                          (record_loop loads max_edits late rest t.0))
                      cursor (ih t.0 o')))
            ])
      ]

  record_loop-Recorded :
      (attempts : List Attempt) (w : Window)
      → All (λ (a : Attempt). a.expired ≡ false) attempts
      → IsOpen w
      → Recorded
          (usable loads (delivered attempts w.stats.last_event_id))
          w
          (record_loop loads max_edits late attempts w)
  unfolding record_loop
  record_loop-Recorded [] w x o = stopped-Recorded w running o (λ e. cc)
  record_loop-Recorded (attempt ∷ rest) w x o =
      rw (o.room, x.0)
        (after_answer-Recorded (attempt.answer w.stats.last_event_id) rest w o
          (λ w' o'. record_loop-Recorded rest w' x.1 o'))

  -- When neither `max_edits` is 0 nor a deadline is set, the file holds the usable edits that the feed
  -- delivers over the connections, in their order and up to `max_edits` of them, whatever drops and
  -- reconnections there are.
  pub file-record_window :
      (attempts : List Attempt)
      → is_full max_edits 0 ≡ false
      → All (λ (a : Attempt). a.expired ≡ false) attempts
      → (record_window loads max_edits late attempts).0
        ≡ cut max_edits (usable loads (delivered attempts none))
  unfolding record_window
  file-record_window attempts h x =
      (record_loop-Recorded attempts empty_window x (record { counts = refl; room = h })).file

-- When the feed delivers at least `most` usable edits before an interrupt, and no deadline is set,
-- the recorder closes the window by itself with exactly `most` records, for `most` of at least 1,
-- and the sidecar says so.
pub record_window-closes :
    (loads : Text → Option Change) (most : ℕ) (late : ℕ → Bool) (attempts : List Attempt)
    → ((n : ℕ) → late n ≡ false)
    → All (λ (a : Attempt). a.expired ≡ false) attempts
    → 0 < most
    → most ≤ length (usable loads (delivered attempts none))
    → let (file, sidecar) = record_window loads (some most) late attempts in
      (length file ≡ most)
      × ((m : Meta) × (sidecar ≡ some m) × (m.edits_recorded ≡ most) × (m.interrupted ≡ false))
unfolding record_window
record_window-closes loads most late attempts no_deadline x p enough =
    let edits = usable loads (delivered attempts none) in
    let r =
      record_loop-Recorded loads (some most) late no_deadline attempts empty_window x
        (record { counts = refl; room = ground arith }) in
    let t = record_loop loads (some most) late attempts empty_window in
    let n : length t.0.file ≡ most =
      ap length r.file ∙ omega (arith, length-take most edits, enough) in
    let m : t.0.stats.edits ≡ most = r.counts ∙ n in
    let done : t.1 ≡ closed false = r.full.1 (ground (arith, m)) in
    (n, rw (record_window, done) (window_meta (some most) false t.0.stats, refl, m, refl))
