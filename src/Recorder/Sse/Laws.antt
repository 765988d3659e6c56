-- ===== src/Recorder/Sse/Laws.antt =====
-- Events written in the framing that tools/wikidata_record_edits.py reads.
use tridb.Base.{
  sym, ap, ◌∙◌, ℕ, ◌≡◌, refl, Bool, true, false, Option, none, some, List, [], ◌∷◌, ◌++◌, map, ◌==◌,
  if◌then◌else◌, All, Bool-cases, inl, inr, append_assoc, append_nil, ==_iff,
}
use mathlib.Core.Path.{subst}
use tridb.Recorder.Sse.{
  Text, is_eol, rstrip_eol, join_lines, Event, Pending, no_event, finished, events_from,
  iter_sse_events, read_line,
}

-- data.split("\n")
abbrev pub split_lines : Text → List Text
split_lines [] = [] ∷ []
split_lines (c ∷ rest) = elim (split_lines rest) [
  | [] ↦ (c ∷ []) ∷ []
  | p ∷ ps ↦ if c == b'\n' then [] ∷ p ∷ ps else (c ∷ p) ∷ ps
]

abbrev data_line : Text → Text
data_line t = b'd' ∷ b'a' ∷ b't' ∷ b'a' ∷ b':' ∷ b' ' ∷ (t ++ b'\n' ∷ [])

abbrev id_line : Option Text → List Text
id_line none = []
id_line (some t) = (b'i' ∷ b'd' ∷ b':' ∷ b' ' ∷ (t ++ b'\n' ∷ [])) ∷ []

-- An event in the stream: a keepalive comment, the id, a line for each line of the data, a blank.
abbrev pub frame : Text → Event → List Text
frame comment (event_id, body) =
    (b':' ∷ (comment ++ b'\n' ∷ []))
    ∷ (id_line event_id ++ (map data_line (split_lines body) ++ (b'\n' ∷ []) ∷ []))

abbrev pub frames : List (Text × Event) → List Text
frames [] = []
frames ((comment, e) ∷ rest) = frame comment e ++ frames rest

-- No line end in an id or a comment; no carriage return in the data.
abbrev pub IsOneLine : Text → Type 0
IsOneLine t = All (λ c. is_eol c ≡ false) t

abbrev pub IsFramed : Text × Event → Type 0
IsFramed (comment, (event_id, body)) =
    IsOneLine comment
    × (elim event_id as (λ _. Type 0) [ none ↦ Unit | some t ↦ IsOneLine t ])
    × All (λ c. (c == b'\r') ≡ false) body

rstrip_eol-line : (t : Text) → IsOneLine t → rstrip_eol (t ++ b'\n' ∷ []) ≡ t
unfolding rstrip_eol
rstrip_eol-line [] h = refl
rstrip_eol-line (c ∷ []) h = rw h.0 refl
rstrip_eol-line (c ∷ d ∷ ds) h = rw (rstrip_eol-line (d ∷ ds) h.1) refl

split_lines-cases : (t : Text) → (p : Text) × (ps : List Text) × (split_lines t ≡ p ∷ ps)
split_lines-cases [] = ([], [], refl)
split_lines-cases (c ∷ rest) =
    let (p, ps, e) = split_lines-cases rest in
    elim (Bool-cases (c == b'\n')) [
      | inl feed ↦ ([], p ∷ ps, rw (split_lines, e, feed) refl)
      | inr plain ↦ (c ∷ p, ps, rw (split_lines, e, plain) refl)
    ]

split_lines-feed :
    (c : ℕ) (rest p : Text) (ps : List Text)
    → split_lines rest ≡ p ∷ ps
    → (c == b'\n') ≡ true
    → split_lines (c ∷ rest) ≡ [] ∷ p ∷ ps
split_lines-feed c rest p ps e feed = rw (split_lines, e, feed) refl

split_lines-plain :
    (c : ℕ) (rest p : Text) (ps : List Text)
    → split_lines rest ≡ p ∷ ps
    → (c == b'\n') ≡ false
    → split_lines (c ∷ rest) ≡ (c ∷ p) ∷ ps
split_lines-plain c rest p ps e plain = rw (split_lines, e, plain) refl

join_lines-first :
    (c : ℕ) (p : Text) (ps : List Text) → join_lines ((c ∷ p) ∷ ps) ≡ c ∷ join_lines (p ∷ ps)
join_lines-first c p [] = refl
join_lines-first c p (q ∷ ps) = refl

join_lines-split_lines : (t : Text) → join_lines (split_lines t) ≡ t
join_lines-split_lines [] = refl
join_lines-split_lines (c ∷ rest) =
    let (p, ps, e) = split_lines-cases rest in
    let ih : join_lines (p ∷ ps) ≡ rest = ap join_lines (sym e) ∙ join_lines-split_lines rest in
    elim (Bool-cases (c == b'\n')) [
      | inl feed ↦
          ap join_lines (split_lines-feed c rest p ps e feed)
          ∙ ap (λ t. b'\n' ∷ t) ih
          ∙ ap (λ x. x ∷ rest) (sym ((==_iff c b'\n').0 feed))
      | inr plain ↦
          ap join_lines (split_lines-plain c rest p ps e plain)
          ∙ join_lines-first c p ps
          ∙ ap (λ t. c ∷ t) ih
    ]

split_lines-IsOneLine :
    (t : Text) → All (λ c. (c == b'\r') ≡ false) t → All IsOneLine (split_lines t)
split_lines-IsOneLine [] h = (tt, tt)
split_lines-IsOneLine (c ∷ rest) h =
    let (p, ps, e) = split_lines-cases rest in
    let ih = subst (All IsOneLine) e (split_lines-IsOneLine rest h.1) in
    elim (Bool-cases (c == b'\n')) [
      | inl feed ↦ subst (All IsOneLine) (sym (split_lines-feed c rest p ps e feed)) (tt, ih)
      | inr plain ↦
          subst (All IsOneLine) (sym (split_lines-plain c rest p ps e plain))
            ((rw (h.0, plain) refl, ih.0), ih.1)
    ]

-- The lines of a frame, read one after the other.
events-data_line :
    (p : Pending) (t : Text) (rest : List Text) (ended : Bool)
    → IsOneLine t
    → events_from p (data_line t ∷ rest) ended
      ≡ events_from (record p { data_parts = p.data_parts ++ t ∷ [] }) rest ended
unfolding events_from
events-data_line p t rest ended h =
    let line = b'd' ∷ b'a' ∷ b't' ∷ b'a' ∷ b':' ∷ b' ' ∷ t in
    ap (λ l. (read_line p l).1 ++ events_from (read_line p l).0 rest ended)
      (rstrip_eol-line line (refl, (refl, (refl, (refl, (refl, (refl, h)))))))

events-data_lines :
    (p : Pending) (ts rest : List Text) (ended : Bool)
    → All IsOneLine ts
    → events_from p (map data_line ts ++ rest) ended
      ≡ events_from (record p { data_parts = p.data_parts ++ ts }) rest ended
events-data_lines p [] rest ended h =
    ap (λ l. events_from (record p { data_parts = l }) rest ended) (sym (append_nil p.data_parts))
events-data_lines p (t ∷ ts) rest ended h =
    events-data_line p t (map data_line ts ++ rest) ended h.0
    ∙ events-data_lines (record p { data_parts = p.data_parts ++ t ∷ [] }) ts rest ended h.1
    ∙ ap (λ l. events_from (record p { data_parts = l }) rest ended)
        (append_assoc p.data_parts (t ∷ []) ts)

events-id_line :
    (event_id : Option Text) (rest : List Text) (ended : Bool)
    → (elim event_id as (λ _. Type 0) [ none ↦ Unit | some t ↦ IsOneLine t ])
    → events_from no_event (id_line event_id ++ rest) ended
      ≡ events_from (record { event_id = event_id; data_parts = [] }) rest ended
unfolding events_from
events-id_line none rest ended h = refl
events-id_line (some t) rest ended h =
    ap (λ l. (read_line no_event l).1 ++ events_from (read_line no_event l).0 rest ended)
      (rstrip_eol-line (b'i' ∷ b'd' ∷ b':' ∷ b' ' ∷ t) (refl, (refl, (refl, (refl, h)))))

events-comment :
    (comment : Text) (rest : List Text) (ended : Bool)
    → IsOneLine comment
    → events_from no_event ((b':' ∷ (comment ++ b'\n' ∷ [])) ∷ rest) ended
      ≡ events_from no_event rest ended
unfolding events_from
events-comment comment rest ended h =
    ap (λ l. (read_line no_event l).1 ++ events_from (read_line no_event l).0 rest ended)
      (rstrip_eol-line (b':' ∷ comment) (refl, h))

events-blank :
    (event_id : Option Text) (body : Text) (rest : List Text) (ended : Bool)
    → events_from
        (record { event_id = event_id; data_parts = split_lines body })
        ((b'\n' ∷ []) ∷ rest)
        ended
      ≡ (event_id, body) ∷ events_from no_event rest ended
unfolding events_from
events-blank event_id body rest ended =
    let (p, ps, e) = split_lines-cases body in
    let joined = ap join_lines (sym e) ∙ join_lines-split_lines body in
    ap
      (λ l.
        finished (record { event_id = event_id; data_parts = l })
        ++ events_from no_event rest ended)
      e
    ∙ ap (λ t. (event_id, t) ∷ events_from no_event rest ended) joined

-- Reading back the frames of events gives the events, in order, with the data of each joined from
-- its lines: comments are skipped, ids are kept, and it does not matter how the stream ends. An id
-- and a comment hold no line end, the data no carriage return.
pub iter_sse_events-frames :
    (events : List (Text × Event)) (ended : Bool)
    → All IsFramed events
    → iter_sse_events (frames events) ended ≡ map (λ (x : Text × Event). x.1) events
unfolding events_from
iter_sse_events-frames [] true h = refl
iter_sse_events-frames [] false h = refl
iter_sse_events-frames ((comment, (event_id, body)) ∷ rest) ended h =
    let (plain, with_id, data_plain) = h.0 in
    let parts = split_lines body in
    let blank = (b'\n' ∷ []) ∷ [] in
    events-comment comment ((id_line event_id ++ (map data_line parts ++ blank)) ++ frames rest)
      ended plain
    ∙ ap (λ l. events_from no_event l ended)
        (append_assoc (id_line event_id) (map data_line parts ++ blank) (frames rest))
    ∙ events-id_line event_id ((map data_line parts ++ blank) ++ frames rest) ended with_id
    ∙ ap (λ l. events_from (record { event_id = event_id; data_parts = [] }) l ended)
        (append_assoc (map data_line parts) blank (frames rest))
    ∙ events-data_lines (record { event_id = event_id; data_parts = [] }) parts
        (blank ++ frames rest) ended (split_lines-IsOneLine body data_plain)
    ∙ events-blank event_id body (frames rest) ended
    ∙ ap (λ l. (event_id, body) ∷ l) (iter_sse_events-frames rest ended h.1)
