-- ===== src/Recorder/Tests.antt =====
-- The theorems on tools/wikidata_record_edits.py at a feed that fails, drops and resumes.
use tridb.Base.{
  ℕ, ◌≤◌, ◌≡◌, refl, true, false, Bool, Option, none, some, List, [], ◌∷◌, map, length, arith,
  if◌then◌else◌, ◌==◌,
}
use tridb.Base.Int.{pos}
use tridb.Recorder.Sse.{Text, Event, iter_sse_events}
use tridb.Recorder.Sse.Laws.{frames, iter_sse_events-frames}
use tridb.Recorder.{
  Change, EditRecord, Answer, connect_failed, streamed, Attempt, stream_ended, stream_dropped,
  record_window, Meta, is_full,
}
use tridb.Recorder.Limit.{delivered, cut, usable}
use tridb.Recorder.Loop.{file-record_window, record_window-closes}

-- Two events, the second of two lines; the first keepalive is empty.
abbrev events : List (Text × Event)
events =
    ([], (some (b'7' ∷ []), b'a' ∷ [])) ∷ (b':' ∷ b'o' ∷ [], (none, b'b' ∷ b'\n' ∷ b'c' ∷ [])) ∷ []

iter_sse_events-frames_example :
    iter_sse_events (frames events) true ≡ map (λ (x : Text × Event). x.1) events
iter_sse_events-frames_example =
    iter_sse_events-frames events true
      ((tt, (refl, tt), (refl, tt)), (((refl, (refl, tt)), tt, (refl, (refl, (refl, tt)))), tt))

-- A line without its end: the event that is pending is yielded at an orderly end only.
pending_lost : iter_sse_events ((b'd' ∷ b'a' ∷ b't' ∷ b'a' ∷ b':' ∷ b'x' ∷ []) ∷ []) false ≡ []
unfolding tridb.Recorder.Sse.events_from
pending_lost = refl

pending_kept :
    iter_sse_events ((b'd' ∷ b'a' ∷ b't' ∷ b'a' ∷ b':' ∷ b'x' ∷ []) ∷ []) true
    ≡ (none, b'x' ∷ []) ∷ []
unfolding tridb.Recorder.Sse.events_from
pending_kept = refl

abbrev edit_at : ℕ → Change
edit_at rev = record {
  wiki = some "wikidatawiki";
  namespace = some (pos 0);
  type = some "edit";
  title = some "Q42";
  revision_new = some rev;
  timestamp = some 5;
  user = none;
  comment = none;
}

-- A text that starts with `b` is no object; the others are edits.
abbrev loads : Text → Option Change
loads [] = none
loads (c ∷ rest) = if c == b'b' then none else some (edit_at c)

abbrev answers : Option Text → Answer
answers none = streamed (frames events) stream_dropped
answers (some cursor) = streamed (frames (([], (none, cursor)) ∷ [])) stream_ended

abbrev turns : List Attempt
turns =
    (record { expired = false; answer = λ c. connect_failed })
    ∷ (record { expired = false; answer = answers })
    ∷ (record { expired = false; answer = answers })
    ∷ []

abbrev never : ℕ → Bool
never n = false

file-record_window_example :
    (record_window loads (some 2) never turns).0
    ≡ cut (some 2) (usable loads (delivered turns none))
file-record_window_example =
    file-record_window loads (some 2) never (λ n. refl) turns refl (refl, (refl, (refl, tt)))

enough : 2 ≤ length (usable loads (delivered turns none))
unfolding tridb.Recorder.edit_from_change tridb.Recorder.Sse.events_from
    tridb.Wikidata.Statements.qid_to_int
enough = omega arith

record_window-closes_example :
    let (file, sidecar) = record_window loads (some 2) never turns in
    (length file ≡ 2)
    × ((m : Meta) × (sidecar ≡ some m) × (m.edits_recorded ≡ 2) × (m.interrupted ≡ false))
record_window-closes_example =
    record_window-closes loads 2 never turns (λ n. refl) (refl, (refl, (refl, tt))) (omega arith)
      enough
