-- ===== src/Recorder.antt =====
-- tools/wikidata_record_edits.py: the recorder of a window of edits. `json.loads` is an argument;
-- an object of the feed is a record of the keys that the code reads, `none` where a key is absent or
-- has a value of another type, so that the informational fields of a record have the types that
-- the feed gives them. The clock is an argument too: `late n` tells whether the deadline had passed
-- when event `n` of the window was done, `expired` whether it had before a connection was opened.
pub mod Sse
pub mod Limit
pub mod Loop
pub mod Counts
pub mod Tests
use Prim.Native.String.{String}
use text.Mathlib.Text.{◌==◌ as str_eq}
use tridb.Base.{
  ℕ, zero, ◌+◌, Bool, true, false, ◌&&◌, ◌||◌, Option, none, some, List, [], ◌∷◌, ◌++◌, leb,
  if◌then◌else◌, length,
}
use tridb.Base.Int.{ℤ, pos, negsuc}
use tridb.Wikidata.Statements.{qid_to_int}
use Sse.{Text, Event, iter_sse_events}

pub record Change : Type 0 where
  pub wiki : Option String
  pub namespace : Option ℤ
  pub type : Option String
  pub title : Option String
  pub revision_new : Option ℕ
  pub timestamp : Option ℕ
  pub user : Option String
  pub comment : Option String

pub record EditRecord : Type 0 where
  pub entity : ℕ
  pub rev : ℕ
  pub ts : Option ℕ
  pub user : Option String
  pub comment : Option String

abbrev pub is_main : Option ℤ → Bool
is_main (some (pos zero)) = true
is_main _ = false

abbrev pub is_text : Option String → String → Bool
is_text none t = false
is_text (some s) t = str_eq s t

abbrev pub or_empty : Option String → String
or_empty none = ""
or_empty (some s) = s

infixl 5 ◌>>=◌
abbrev ◌>>=◌ {ℓ κ} : {A : Type ℓ} {B : Type κ} → Option A → (A → Option B) → Option B
none >>= f = none
some a >>= f = f a

unfoldable pub edit_from_change : Change → Option EditRecord
edit_from_change obj =
    if is_text obj.wiki "wikidatawiki" && is_main obj.namespace && is_text obj.type "edit"
    then (do
      entity ← qid_to_int (or_empty obj.title)
      rev ← obj.revision_new
      some (record {
        entity = entity;
        rev = rev;
        ts = obj.timestamp;
        user = obj.user;
        comment = obj.comment;
      }))
    else none

pub record WindowStats : Type 0 where
  pub events : ℕ
  pub edits : ℕ
  pub first_ts : Option ℕ
  pub last_ts : Option ℕ
  pub last_event_id : Option Text

-- The statistics, and the records that `sink` wrote to the file.
pub record Window : Type 0 where
  pub stats : WindowStats
  pub file : List EditRecord

abbrev pub seen_event : Option Text → WindowStats → WindowStats
seen_event event_id stats = record stats {
  events = stats.events + 1;
  last_event_id = elim event_id [ none ↦ stats.last_event_id | some i ↦ some i ];
}

abbrev pub seen_ts : Option ℕ → WindowStats → WindowStats
seen_ts none stats = stats
seen_ts (some ts) stats = record stats {
  first_ts = elim stats.first_ts [ none ↦ some ts | some first ↦ some first ];
  last_ts = some ts;
}

-- max_edits is not None and edits >= max_edits
abbrev pub is_full : Option ℕ → ℕ → Bool
is_full none edits = false
is_full (some most) edits = leb most edits

module _ (max_edits : Option ℕ) where
  -- What one event does: the window after it, and whether it took the last edit.
  abbrev pub take_edit : Option EditRecord → Window → Window × Bool
  take_edit none w = (w, false)
  take_edit (some rec) w =
      let edits = w.stats.edits + 1 in
      (
        record { stats = record w.stats { edits = edits }; file = w.file ++ rec ∷ [] },
        is_full max_edits edits,
      )

  abbrev pub take_object : Option Change → Window → Window × Bool
  take_object none w = (w, false)
  take_object (some obj) w =
      take_edit (edit_from_change obj) (record w { stats = seen_ts obj.timestamp w.stats })

module _ (loads : Text → Option Change) (max_edits : Option ℕ) (late : ℕ → Bool) where
  -- drain_stream
  unfoldable pub drain : List Event → Window → Window × Bool
  unfolding edit_from_change
  drain [] w = (w, false)
  drain (e ∷ rest) w =
      let step = take_object max_edits (loads e.1) (record w { stats = seen_event e.0 w.stats }) in
      let more = drain rest step.0 in
      if step.1 || late step.0.stats.events then (step.0, true) else more

-- How a connection ended: at the end of the stream, by an error of the transport, or by an
-- interrupt.
pub data Ending : Type 0 where
  stream_ended stream_dropped key_interrupt : Ending

-- What dialling the feed gives.
pub data Answer : Type 0 where
  connect_failed : Answer
  streamed : List Text → Ending → Answer

-- One turn of the loop: the clock, and what the feed answers to a resume cursor.
pub record Attempt : Type 0 where
  pub expired : Bool
  pub answer : Option Text → Answer

abbrev pub is_ended : Ending → Bool
is_ended stream_ended = true
is_ended _ = false

abbrev pub is_interrupted : Ending → Bool
is_interrupted key_interrupt = true
is_interrupted _ = false

-- The loop after some turns: still running, or closed.
pub data Status : Type 0 where
  running : Status
  closed : Bool → Status

module _ (loads : Text → Option Change) (max_edits : Option ℕ) (late : ℕ → Bool) where
  -- The loop of `record`, over the turns that it takes: `rest` is what the turns after this do.
  abbrev pub after_answer : Answer → (Window → Window × Status) → Window → Window × Status
  after_answer connect_failed rest w = rest w
  after_answer (streamed lines ending) rest w =
      let t = drain loads max_edits late (iter_sse_events lines (is_ended ending)) w in
      if t.1
      then (t.0, closed false)
      else if is_interrupted ending
      then (t.0, closed true)
      else rest t.0

  unfoldable pub record_loop : List Attempt → Window → Window × Status
  unfolding drain
  record_loop [] w = (w, running)
  record_loop (attempt ∷ rest) w =
      let turn = after_answer (attempt.answer w.stats.last_event_id) (record_loop rest) w in
      if is_full max_edits w.stats.edits || attempt.expired then (w, closed false) else turn

abbrev pub empty_window : Window
empty_window = record {
  stats = record { events = 0; edits = 0; first_ts = none; last_ts = none; last_event_id = none };
  file = [];
}

-- window_meta, without the constants and the time of the recording.
pub record Meta : Type 0 where
  pub requested_edits : Option ℕ
  pub events_seen : ℕ
  pub edits_recorded : ℕ
  pub first_event_ts : Option ℕ
  pub last_event_ts : Option ℕ
  pub last_event_id : Option Text
  pub interrupted : Bool

abbrev pub window_meta : Option ℕ → Bool → WindowStats → Meta
window_meta max_edits interrupted stats = record {
  requested_edits = max_edits;
  events_seen = stats.events;
  edits_recorded = stats.edits;
  first_event_ts = stats.first_ts;
  last_event_ts = stats.last_ts;
  last_event_id = stats.last_event_id;
  interrupted = interrupted;
}

-- The sidecar is written once the window is closed.
abbrev pub sidecar : Option ℕ → WindowStats → Status → Option Meta
sidecar max_edits stats running = none
sidecar max_edits stats (closed early) = some (window_meta max_edits early stats)

-- `record`: the file and the sidecar.
unfoldable pub record_window :
    (Text → Option Change) → Option ℕ → (ℕ → Bool) → List Attempt → List EditRecord × Option Meta
unfolding record_loop
record_window loads max_edits late attempts =
    let t = record_loop loads max_edits late attempts empty_window in
    (t.0.file, sidecar max_edits t.0.stats t.1)
