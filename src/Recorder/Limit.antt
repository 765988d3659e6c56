-- ===== src/Recorder/Limit.antt =====
-- The window that tools/wikidata_record_edits.py records, beside the events that the feed delivers.
use tridb.Base.{
  sym, ap, ◌∙◌, ℕ, ◌+◌, ◌≤◌, ◌≡◌, refl, Bool, true, false, Option, none, some, List, [], ◌∷◌, ◌++◌,
  if◌then◌else◌, length, take, arith, Bool-cases, inl, inr, length-append, append_assoc, append_nil,
  take_enough, take_whole,
}
use tridb.Recorder.Sse.{Text, Event, iter_sse_events}
use tridb.Recorder.{
  Change, EditRecord, edit_from_change, Window, is_full, take_edit, take_object, seen_event,
  seen_ts, drain, is_ended, is_interrupted, Answer, connect_failed, streamed, Attempt,
}

-- What the feed delivers over the turns, when nothing but an interrupt closes the window.
abbrev pub events_of : Answer → List Event
events_of connect_failed = []
events_of (streamed lines ending) = iter_sse_events lines (is_ended ending)

abbrev pub interrupts : Answer → Bool
interrupts connect_failed = false
interrupts (streamed lines ending) = is_interrupted ending

abbrev pub cursor_after : Option Text → List Event → Option Text
cursor_after cursor [] = cursor
cursor_after cursor ((event_id, text) ∷ rest) =
    cursor_after (elim event_id [ none ↦ cursor | some i ↦ some i ]) rest

abbrev pub delivered : List Attempt → Option Text → List Event
delivered [] cursor = []
delivered (attempt ∷ rest) cursor =
    let answer = attempt.answer cursor in
    let more = delivered rest (cursor_after cursor (events_of answer)) in
    events_of answer ++ (if interrupts answer then [] else more)

abbrev pub cut : Option ℕ → List EditRecord → List EditRecord
cut none xs = xs
cut (some most) xs = take most xs

abbrev pub edit_in : Option Change → Option EditRecord
edit_in none = none
edit_in (some obj) = edit_from_change obj

abbrev pub listed : Option EditRecord → List EditRecord
listed none = []
listed (some rec) = rec ∷ []

-- The edits among the events.
abbrev pub usable : (Text → Option Change) → List Event → List EditRecord
usable loads [] = []
usable loads ((event_id, text) ∷ rest) = listed (edit_in (loads text)) ++ usable loads rest

pub usable-append :
    (loads : Text → Option Change) (xs ys : List Event)
    → usable loads (xs ++ ys) ≡ usable loads xs ++ usable loads ys
usable-append loads [] ys = refl
usable-append loads ((event_id, text) ∷ xs) ys =
    ap (λ l. listed (edit_in (loads text)) ++ l) (usable-append loads xs ys)
    ∙ sym (append_assoc (listed (edit_in (loads text))) (usable loads xs) (usable loads ys))

-- What one event leaves, whatever it holds.
pub record Taken (max_edits : Option ℕ) (new : Option EditRecord) (w : Window) (t : Window × Bool)
    : Type 0 where
  pub cursor : t.0.stats.last_event_id ≡ w.stats.last_event_id
  pub file : t.0.file ≡ w.file ++ listed new
  pub edits : t.0.stats.edits ≡ w.stats.edits + length (listed new)
  pub full : t.1 ≡ true → is_full max_edits t.0.stats.edits ≡ true
  pub room :
      t.1 ≡ false
      → is_full max_edits w.stats.edits ≡ false
      → is_full max_edits t.0.stats.edits ≡ false

take_edit-Taken :
    (max_edits : Option ℕ) (new : Option EditRecord) (w : Window)
    → Taken max_edits new w (take_edit max_edits new w)
take_edit-Taken max_edits none w = record {
  cursor = refl;
  file = sym (append_nil w.file);
  edits = omega arith;
  full = λ e. absurd (cc);
  room = λ e r. r;
}
take_edit-Taken max_edits (some rec) w = record {
  cursor = refl;
  file = refl;
  edits = refl;
  full = λ e. e;
  room = λ e r. e;
}

pub take_object-Taken :
    (max_edits : Option ℕ) (o : Option Change) (w : Window)
    → Taken max_edits (edit_in o) w (take_object max_edits o w)
take_object-Taken max_edits none w = take_edit-Taken max_edits none w
take_object-Taken max_edits (some obj) w =
    elim obj.timestamp
      as (λ ts.
        Taken max_edits (edit_from_change obj) w
          (take_edit max_edits (edit_from_change obj) (record w { stats = seen_ts ts w.stats }))) [
            | none ↦ take_edit-Taken max_edits (edit_from_change obj) w
            | some ts ↦
                let w' : Window = record w { stats = seen_ts (some ts) w.stats } in
                let taken = take_edit-Taken max_edits (edit_from_change obj) w' in
                record {
                  cursor = taken.cursor;
                  file = taken.file;
                  edits = taken.edits;
                  full = taken.full;
                  room = taken.room;
                }
          ]

-- What the loop over the events leaves when no deadline is set.
pub record Drained (loads : Text → Option Change) (max_edits : Option ℕ) (es : List Event)
    (w : Window) (t : Window × Bool) : Type 0 where
  pub goes_on :
      t.1 ≡ false
      → (t.0.file ≡ w.file ++ usable loads es)
        × (t.0.stats.last_event_id ≡ cursor_after w.stats.last_event_id es)
        × (is_full max_edits t.0.stats.edits ≡ false)
  pub stops :
      t.1 ≡ true
      → (is_full max_edits t.0.stats.edits ≡ true)
        × ((rest : List EditRecord)
            → t.0.file ≡ cut max_edits (w.file ++ (usable loads es ++ rest)))
  pub counts : t.0.stats.edits ≡ length t.0.file

pub length-listed : (new : Option EditRecord) → length (listed new) ≤ 1
length-listed none = omega arith
length-listed (some rec) = omega arith

cut_full :
    (max_edits : Option ℕ) (n : ℕ) (xs rest : List EditRecord)
    → is_full max_edits n ≡ false
    → is_full max_edits (length xs) ≡ true
    → length xs ≤ n + 1
    → cut max_edits (xs ++ rest) ≡ xs
cut_full none n xs rest h f e = absurd (cc)
cut_full (some most) n xs rest h f e =
    take_enough most xs rest (ground arith) ∙ take_whole most xs (ground arith)

pub cut_room :
    (max_edits : Option ℕ) (xs : List EditRecord)
    → is_full max_edits (length xs) ≡ false
    → cut max_edits xs ≡ xs
cut_room none xs h = refl
cut_room (some most) xs h = take_whole most xs (ground arith)

regroup :
    (xs ys zs rest : List EditRecord) → (xs ++ ys) ++ (zs ++ rest) ≡ xs ++ ((ys ++ zs) ++ rest)
regroup xs ys zs rest =
    append_assoc xs ys (zs ++ rest) ∙ ap (λ l. xs ++ l) (sym (append_assoc ys zs rest))

module _ (loads : Text → Option Change) (max_edits : Option ℕ) (late : ℕ → Bool)
    (no_deadline : (n : ℕ) → late n ≡ false) where
  pub drain-Drained :
      (es : List Event) (w : Window)
      → w.stats.edits ≡ length w.file
      → is_full max_edits w.stats.edits ≡ false
      → Drained loads max_edits es w (drain loads max_edits late es w)
  unfolding drain
  drain-Drained [] w n h = record {
    goes_on = λ e. (sym (append_nil w.file), refl, h);
    stops = λ e. absurd (cc);
    counts = n;
  }
  drain-Drained ((event_id, text) ∷ rest) w n h =
      let w' : Window = record w { stats = seen_event event_id w.stats } in
      let taken = take_object-Taken max_edits (loads text) w' in
      let t = take_object max_edits (loads text) w' in
      let file = taken.file in
      let few = length-listed (edit_in (loads text)) in
      let counts : t.0.stats.edits ≡ length t.0.file =
        taken.edits
        ∙ omega (arith, n, length-append w.file (listed (edit_in (loads text))), ap length file) in
      let found = listed (edit_in (loads text)) in
      let later = usable loads rest in
      elim (Bool-cases t.1) [
        | inl stop ↦ rw stop (record {
          goes_on = λ e. absurd (cc);
          stops = λ e. (
            taken.full stop,
            λ r.
                let grown =
                  ap (is_full max_edits) (sym (counts ∙ ap length file)) ∙ taken.full stop in
                file
                ∙ sym (
                    cut_full max_edits w.stats.edits (w.file ++ found) (later ++ r) h grown
                      (omega (arith, n, few, length-append w.file found)))
                ∙ ap (cut max_edits) (regroup w.file found later r),
          );
          counts = counts;
        })
        | inr go ↦
            rw (go, no_deadline t.0.stats.events)
              (let ih = drain-Drained rest t.0 counts (taken.room go h) in
                record {
                  goes_on = λ e.
                      let (grown, cursor, room) = ih.goes_on e in
                      (
                        grown ∙ ap (λ l. l ++ later) file ∙ append_assoc w.file found later,
                        cursor ∙ ap (λ c. cursor_after c rest) taken.cursor,
                        room,
                      );
                  stops = λ e. (
                    (ih.stops e).0,
                    λ r.
                        (ih.stops e).1 r
                        ∙ ap (λ l. cut max_edits (l ++ (later ++ r))) file
                        ∙ ap (cut max_edits) (regroup w.file found later r),
                  );
                  counts = ih.counts;
                })
      ]
