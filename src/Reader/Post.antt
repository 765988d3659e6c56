-- ===== src/Reader/Post.antt =====
-- The POST requests of tools/wiki_reader.py: the operator's token, and what do_POST lets through to
-- accept_fact and dismiss_fact. A text of bytes is a list of numbers; what the socket reads for a
-- length, JSON's parser and the address parser are arguments.
pub mod Authorized
use tridb.Base.{
  ℕ, Bool, true, false, not, ◌&&◌, ◌||◌, Option, none, some, List, [], ◌∷◌, ◌==◌, ltb,
  if◌then◌else◌, length, drop,
}
use tridb.Base.Int.{ℤ, pos, negsuc, ltb_ℤ}
use tridb.Base.Result.{Result, ok, raised, value_error}
use tridb.Base.Text.{Text, text_eq}
use tridb.Extract.Titles.{Unicode, strip, rstrip}
use tridb.Reader.Overlay.{is_empty, starts_with}

abbrev pub localhost : Text
localhost = b'l' ∷ b'o' ∷ b'c' ∷ b'a' ∷ b'l' ∷ b'h' ∷ b'o' ∷ b's' ∷ b't' ∷ []

abbrev pub bearer : Text
bearer = b'B' ∷ b'e' ∷ b'a' ∷ b'r' ∷ b'e' ∷ b'r' ∷ b' ' ∷ []

abbrev pub min_operator_token_chars : ℕ
min_operator_token_chars = 16

abbrev pub max_body_bytes : ℕ
max_body_bytes = 65536

-- `ip_loopback` is ipaddress.ip_address(host).is_loopback, `none` where it raises ValueError.
abbrev pub is_loopback_host : (Text → Option Bool) → Text → Bool
is_loopback_host ip_loopback host =
    if text_eq host localhost then true else elim (ip_loopback host) [ none ↦ false | some b ↦ b ]

-- `.get(name) or ""`
abbrev pub header : Option Text → Text
header none = []
header (some t) = t

-- The token and whether it was generated. `configured` is the variable of the environment, `fresh`
-- what secrets.token_urlsafe would give.
unfoldable pub resolve_operator_token :
    Unicode → (Text → Option Bool) → Text → Option Text → Text → Result (Text × Bool)
unfolding rstrip
resolve_operator_token u ip_loopback host variable fresh =
    let configured = strip u (header variable) in
    if is_loopback_host ip_loopback host
    then (if is_empty configured then ok (fresh, true) else ok (configured, false))
    else if is_empty configured
    then raised value_error
    else if ltb (length configured) min_operator_token_chars
    then raised value_error
    else ok (configured, false)

pub record Headers : Type 0 where
  pub token : Option Text
  pub authorization : Option Text

-- The token that the headers supply.
abbrev pub supplied : Headers → Text
supplied h =
    if is_empty (header h.token)
    then if starts_with (header h.authorization) bearer then drop 7 (header h.authorization) else []
    else header h.token

unfoldable pub check_token : Headers → Text → Bool
check_token h expected =
    if is_empty expected
    then false
    else if is_empty (supplied h)
    then false
    else text_eq (supplied h) expected

pub data Route : Type 0 where
  accept dismiss elsewhere : Route

abbrev pub is_mutation : Route → Bool
is_mutation elsewhere = false
is_mutation accept = true
is_mutation dismiss = true

module _ {Body : Type 0} (loads : Text → Option Body) where
  -- `none` stands for the ValueError of either check.
  abbrev pub parse_body : Text → Option Body
  parse_body raw =
      if ltb max_body_bytes (length raw)
      then none
      else loads (if is_empty raw then b'{' ∷ b'}' ∷ [] else raw)

  pub record Request : Type 0 where
    pub route : Route
    pub headers : Headers
    -- Content-Length, `none` where int() raises.
    pub content_length : Option ℤ
    pub read : ℤ → Text

  -- An answer with its status, or the call of accept_fact or dismiss_fact.
  pub data Reply : Type 0 where
    status : ℕ → Reply
    accept_fact dismiss_fact : Body → Reply

  abbrev pub is_zero : ℤ → Bool
  is_zero (pos n) = n == 0
  is_zero (negsuc n) = false

  abbrev pub dispatch : Text → Request → Body → Reply
  dispatch token r body =
      if is_mutation r.route && not (check_token r.headers token)
      then status 403
      else elim r.route [
        | accept ↦ accept_fact body
        | dismiss ↦ dismiss_fact body
        | elsewhere ↦ status 404
      ]

  unfoldable pub do_post : Text → Request → Reply
  unfolding check_token
  do_post token r = elim r.content_length [
    | none ↦ status 500
    | some n ↦
        if ltb_ℤ (pos max_body_bytes) n
        then status 413
        else elim (parse_body (if is_zero n then [] else r.read n)) [
          | none ↦ status 413
          | some body ↦ dispatch token r body
        ]
  ]
