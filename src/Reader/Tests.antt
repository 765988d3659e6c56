-- ===== src/Reader/Tests.antt =====
-- Runs of the reader's store and requests at concrete inputs.
use tridb.Base.{
  none, ℕ, ◌≤◌, ◌≡◌, refl, ◌⊎◌, ◌==◌, ◌||◌, true, false, some, [], ◌∷◌, ◌++◌, length, contains,
  arith, if◌then◌else◌, Distinct, All,
}
use tridb.Base.Text.{Text}
use tridb.Reader.Pending.{
  Suggestion, Entry, get, ids, Pending, Limits, register, evict, trim, remove, claim, claimed,
  unknown, consume,
}
use tridb.Reader.Pending.Laws.{OthersFly, register_lem}
use tridb.Reader.Overlay.{
  Host, Article, Db, Outcome, committed, busy, norm_ws, split_words, review, accept_write,
}
use tridb.Reader.Overlay.Laws.{
  Agrees, Attempt, attempts, Once, attempts-Once, accept_write_after_busy,
}
use tridb.Reader.Requests.{
  idle, accepting, System, update, claim_step, after_review, written_step, propose, accept, check,
  store, finish, Reach, here, next,
}
use tridb.Reader.Requests.Invariant.{held}
use tridb.Reader.Requests.Safety.{started, Reach-one_use}
use tridb.Reader.Requests.Sources.{Sourced, Reach-Sourced}
use tridb.Reader.Paths.{
  Csr, undir_neighbors, connection_path, search, expand, scan, chain, trace, path, no_path,
}
use tridb.Reader.Paths.Connection.{Promises}
use tridb.Reader.Csr.{build_undirected_csr, sort_pairs}
use tridb.Reader.Csr.Slices.{IsIndex, is_link}
use tridb.Reader.Csr.Symmetric.{connection_path-build_undirected_csr}
use tridb.Base.Int.{pos}
use tridb.Base.Result.{ok}
use tridb.Extract.Titles.{Unicode, strip}
use tridb.Reader.Post.{
  bearer, Headers, header, Route, Request, supplied, is_loopback_host, resolve_operator_token,
  do_post, accept_fact, status,
}
use tridb.Reader.Post.Authorized.{do_post_authorized}
use tridb.Reader.Overlay.{is_empty}

abbrev born : Text
born = b'b' ∷ b'o' ∷ b'r' ∷ b'n' ∷ []

abbrev in_ulm : Text
in_ulm = b'U' ∷ b'l' ∷ b'm' ∷ []

abbrev snippet : Text
snippet =
    b'b' ∷ b'o' ∷ b'r' ∷ b'n' ∷ b' ' ∷ b'a' ∷ b't' ∷ b' ' ∷ b' ' ∷ b'U' ∷ b'l' ∷ b'm' ∷ b' ' ∷ b'1'
    ∷ []

abbrev suggestion : Suggestion
suggestion = record {
  subject_id = 7;
  source_id = 9;
  property = born;
  value = in_ulm;
  source_title = b'U' ∷ [];
  source_snippet = snippet;
}

abbrev article : Article
article = record { title = in_ulm; body = b'H' ∷ b'e' ∷ b' ' ∷ snippet }

-- ASCII letters, in which SQLite and Python agree.
abbrev host : Host
host = record {
  sql_lower = λ t. t;
  py_lower = λ t. t;
  is_space = λ c. c == b' ';
  is_property = λ t. true;
  article_at = λ now i. if i == 9 then some article else none;
}

norm_ws_run :
    norm_ws (λ c. c == b' ') (b' ' ∷ b'a' ∷ b' ' ∷ b' ' ∷ b'b' ∷ []) ≡ b'a' ∷ b' ' ∷ b'b' ∷ []
unfolding norm_ws split_words
norm_ws_run = refl

abbrev limits : Limits
limits = record { max_entries = 2; ttl_s = 10 }

abbrev entry : ℕ → Entry
entry t = record { suggestion = suggestion; expires = t }

-- One entry in flight and past its time, one past its time, one live.
abbrev full : Pending
full = record { entries = (1, entry 3) ∷ (2, entry 4) ∷ (3, entry 9) ∷ []; inflight = 1 ∷ [] }

register_run : ids (register limits 4 5 suggestion full).entries ≡ 1 ∷ 4 ∷ []
unfolding register evict trim remove
register_run = refl

claim_run : (claim 3 7 8 full).0 ≡ claimed (entry 9)
unfolding claim
claim_run = refl

claim_late : (claim 3 7 9 full).0 ≡ unknown
unfolding claim
claim_late = refl

register_lem_example :
    let after = register limits 4 5 suggestion full in
    (get after.entries 4 ≡ some (entry 15))
    × ((k : ℕ)
        → contains (1 ∷ []) k ≡ true
        → (k == 4) ≡ false
        → get after.entries k ≡ get full.entries k)
    × ((length after.entries ≤ 2) ⊎ OthersFly after.inflight 4 after.entries)
register_lem_example = register_lem limits 4 5 suggestion full

abbrev empty_db : Db
empty_db = record {
  seen = record { facts = []; dismissed = [] };
  saved = record { facts = []; dismissed = [] };
}

agrees : Agrees host suggestion
agrees = record {
  short_property = omega arith;
  short_value = omega arith;
  property_case = refl;
  value_case = refl;
}

abbrev try_it : Outcome → Attempt host
try_it outcome = record { suggestion = suggestion; title = in_ulm; now = 5; outcome = outcome }

attempts-Once_example :
    Once host suggestion (attempts host (try_it busy ∷ try_it committed ∷ []) empty_db)
attempts-Once_example =
    attempts-Once host suggestion (try_it busy ∷ try_it committed ∷ []) empty_db
      (agrees, (agrees, tt)) (record { seen = omega arith; saved = omega arith })

accept_write_after_busy_example :
    let first = accept_write host suggestion in_ulm 5 busy empty_db in
    let second = accept_write host suggestion in_ulm 6 committed first.1 in
    (first.0 ≡ false) × (second.0 ≡ true) × (second.1.saved ≡ empty_db.saved)
accept_write_after_busy_example =
    accept_write_after_busy host suggestion in_ulm 5 6 committed empty_db agrees refl

-- A suggestion is registered under id 3, and thread 0 accepts it.
abbrev proposed : System
proposed = record (started empty_db) {
  pending = register limits 3 1 suggestion (started empty_db).pending;
  issued = (3, suggestion) ∷ [];
}

abbrev accepted : System
accepted = claim_step accepting 0 3 7 2 proposed

abbrev reviewed : System
reviewed = record accepted {
  pc = update accepted.pc 0 (after_review 3 suggestion (review host suggestion (some article)));
}

abbrev stored : System
stored =
    written_step 0 3 suggestion (accept_write host suggestion in_ulm 5 committed reviewed.db)
      reviewed

abbrev finished : System
finished = record stored { pending = consume 3 stored.pending; pc = update stored.pc 0 idle }

run : Reach host limits (started empty_db) finished
unfolding register evict trim remove claim review accept_write
run =
    next
      (next
        (next
          (next (next here (propose (started empty_db) 3 1 suggestion refl))
            (accept proposed 0 3 7 2 refl))
          (check accepted 0 3 suggestion 3 refl))
        (store reviewed 0 3 suggestion in_ulm 5 committed refl))
      (finish stored 0 3 refl)

run_written : ids finished.written ≡ 3 ∷ []
unfolding register evict trim remove claim review accept_write
run_written = refl

Reach-one_use_example :
    Distinct (ids finished.written)
    × All (λ (item : ℕ × Suggestion). get finished.issued item.0 ≡ some item.1) finished.written
    × ((i j k : ℕ) → held (finished.pc i) ≡ some k → held (finished.pc j) ≡ some k → i ≡ j)
Reach-one_use_example = Reach-one_use host limits empty_db run

Reach-Sourced_example :
    All (Sourced host finished.issued) finished.db.seen.facts
    × All (Sourced host finished.issued) finished.db.saved.facts
Reach-Sourced_example = Reach-Sourced host limits empty_db refl refl run

-- 0 -> 1 -> 2 -> 3 <- 4, and 5 on its own.
abbrev chain_index : Csr
chain_index = record { off = 0 ∷ 1 ∷ 2 ∷ 3 ∷ 3 ∷ 4 ∷ 4 ∷ []; dst = 1 ∷ 2 ∷ 3 ∷ 3 ∷ [] }

found_path :
    connection_path (some (build_undirected_csr chain_index)) 0 4 6 400000
    ≡ path (0 ∷ 1 ∷ 2 ∷ 3 ∷ 4 ∷ [])
unfolding connection_path search expand scan chain trace undir_neighbors build_undirected_csr
    sort_pairs
found_path = refl

too_far : connection_path (some (build_undirected_csr chain_index)) 0 4 3 400000 ≡ no_path
unfolding connection_path search expand scan chain trace undir_neighbors build_undirected_csr
    sort_pairs
too_far = refl

chain_IsIndex : IsIndex chain_index
chain_IsIndex = (
  refl,
  (
    omega arith,
    (omega arith, (omega arith, (omega arith, (omega arith, (omega arith, (omega arith, refl)))))),
  ),
)

connection_path-build_undirected_csr_example :
    let index = build_undirected_csr chain_index in
    ((x y : ℕ)
      → contains (undir_neighbors index x) y ≡ (is_link chain_index x y || is_link chain_index y x))
    × Promises index 0 4 6 400000 (connection_path (some index) 0 4 6 400000)
connection_path-build_undirected_csr_example =
    connection_path-build_undirected_csr chain_index 0 4 6 400000 chain_IsIndex

abbrev secret : Text
secret =
    b'0' ∷ b'1' ∷ b'2' ∷ b'3' ∷ b'4' ∷ b'5' ∷ b'6' ∷ b'7' ∷ b'8' ∷ b'9' ∷ b'a' ∷ b'b' ∷ b'c' ∷ b'd'
    ∷ b'e' ∷ b'f' ∷ []

abbrev letters : Unicode
letters = record { is_space = λ c. c == b' '; upper = λ c. c ∷ []; lower = λ c. c ∷ [] }

abbrev no_headers : Headers
no_headers = record { token = none; authorization = none }

-- A body is its bytes.
abbrev request : Request {Body = Text} (λ t. some t)
request = record {
  route = Route.accept;
  headers = record { token = none; authorization = some (bearer ++ secret) };
  content_length = some (pos 3);
  read = λ n. 1 ∷ 2 ∷ 3 ∷ [];
}

remote_start :
    resolve_operator_token letters (λ h. some false) in_ulm (some (b' ' ∷ secret)) []
    ≡ ok (secret, false)
unfolding resolve_operator_token
remote_start = refl

let_through : do_post (λ t. some t) secret request ≡ accept_fact (1 ∷ 2 ∷ 3 ∷ [])
unfolding do_post
let_through = refl

turned_away : do_post (λ t. some t) secret (record request { headers = no_headers }) ≡ status 403
unfolding do_post
turned_away = refl

do_post_authorized_example :
    (supplied request.headers ≡ secret)
    × (is_empty secret ≡ false)
    × (is_loopback_host (λ h. some false) in_ulm ≡ false
        → (secret ≡ strip letters (header (some (b' ' ∷ secret))))
          × (16 ≤ length secret)
          × (false ≡ false))
unfolding resolve_operator_token do_post
do_post_authorized_example =
    do_post_authorized (λ t. some t) letters (λ h. some false) in_ulm (some (b' ' ∷ secret)) []
      secret false request refl tt
