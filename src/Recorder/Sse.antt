-- ===== src/Recorder/Sse.antt =====
-- iter_sse_events of tools/wikidata_record_edits.py. A text is the list of its code points; a line
-- keeps the line end that it was read with.
pub mod Laws
pub use tridb.Base.Text.{Text, text_eq}
use tridb.Base.{
  ℕ, Bool, true, false, ◌&&◌, ◌||◌, Option, none, some, List, [], ◌∷◌, ◌++◌, ◌==◌, if◌then◌else◌,
}

abbrev pub is_eol : ℕ → Bool
is_eol c = c == b'\r' || c == b'\n'

-- raw.rstrip("\r\n")
unfoldable pub rstrip_eol : Text → Text
rstrip_eol [] = []
rstrip_eol (c ∷ rest) = elim (rstrip_eol rest) [
  | [] ↦ if is_eol c then [] else c ∷ []
  | d ∷ ds ↦ c ∷ d ∷ ds
]

-- line.partition(":"), without the separator.
abbrev pub partition_colon : Text → Text × Text
partition_colon [] = ([], [])
partition_colon (c ∷ rest) =
    let later = partition_colon rest in if c == b':' then ([], rest) else (c ∷ later.0, later.1)

abbrev pub without_space : Text → Text
without_space [] = []
without_space (c ∷ rest) = if c == b' ' then rest else c ∷ rest

-- "\n".join(parts)
abbrev pub join_lines : List Text → Text
join_lines [] = []
join_lines (p ∷ []) = p
join_lines (p ∷ q ∷ rest) = p ++ b'\n' ∷ join_lines (q ∷ rest)

-- (event_id, data)
abbrev pub Event : Type 0
Event = Option Text × Text

pub record Pending : Type 0 where
  pub event_id : Option Text
  pub data_parts : List Text

abbrev pub no_event : Pending
no_event = record { event_id = none; data_parts = [] }

abbrev pub field_data : Text
field_data = b'd' ∷ b'a' ∷ b't' ∷ b'a' ∷ []

abbrev pub field_id : Text
field_id = b'i' ∷ b'd' ∷ []

-- The event that is complete, where it has data.
abbrev pub finished : Pending → List Event
finished p = elim p.data_parts [ [] ↦ [] | d ∷ ds ↦ (p.event_id, join_lines (d ∷ ds)) ∷ [] ]

abbrev pub field_line : Pending → Text × Text → Pending
field_line p (field, raw_value) =
    let value = without_space raw_value in
    if text_eq field field_data
    then (record p { data_parts = p.data_parts ++ value ∷ [] })
    else if text_eq field field_id
    then (record p { event_id = some value })
    else p

-- One line: what is pending after it, and what it yields.
abbrev pub read_line : Pending → Text → Pending × List Event
read_line p [] = (no_event, finished p)
read_line p (c ∷ rest) =
    if c == b':' then (p, []) else (field_line p (partition_colon (c ∷ rest)), [])

-- The events of the lines; `ended` tells an orderly end from a connection that broke, at which the
-- event that is pending is lost.
unfoldable pub events_from : Pending → List Text → Bool → List Event
unfolding rstrip_eol
events_from p [] ended = if ended then finished p else []
events_from p (raw ∷ rest) ended =
    let step = read_line p (rstrip_eol raw) in step.1 ++ events_from step.0 rest ended

abbrev pub iter_sse_events : List Text → Bool → List Event
iter_sse_events lines ended = events_from no_event lines ended
