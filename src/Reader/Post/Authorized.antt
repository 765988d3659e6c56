-- ===== src/Reader/Post/Authorized.antt =====
-- No request changes anything without the operator's token.
use mathlib.Core.Path.{subst}
use tridb.Base.{
  sym, ◌≤◌, ◌≡◌, inl, inr, Bool, true, false, Option, [], ltb, length, if◌then◌else◌, arith,
  Bool-cases, Option-cases,
}
use tridb.Base.Result.{ok}
use tridb.Base.Text.{Text, text_eq_sound}
use tridb.Extract.Titles.{Unicode, strip}
use tridb.Reader.Overlay.{is_empty}
use tridb.Reader.Post.{
  header, min_operator_token_chars, is_loopback_host, resolve_operator_token, Headers, supplied,
  check_token, Request, Reply, status, accept_fact, dismiss_fact, dispatch, parse_body, is_zero,
  do_post,
}

module _ {Body : Type 0} (loads : Text → Option Body) where
  -- The reply lets the request through.
  abbrev pub Mutates : Reply loads → Type 0
  Mutates (status n) = ⊥
  Mutates (accept_fact body) = Unit
  Mutates (dismiss_fact body) = Unit

  check_token_sound :
      (h : Headers) (expected : Text)
      → check_token h expected ≡ true
      → (supplied h ≡ expected) × (is_empty expected ≡ false)
  unfolding check_token
  check_token_sound h expected e =
      (text_eq_sound (supplied h) expected (ground arith), ground arith)

  dispatch-Mutates :
      (token : Text) (r : Request loads) (body : Body)
      → Mutates (dispatch loads token r body)
      → check_token r.headers token ≡ true
  dispatch-Mutates token r body m = elim (Bool-cases (check_token r.headers token)) [
    | inl good ↦ good
    | inr bad ↦ absurd (ground (arith, bad, m))
  ]

  do_post-Mutates :
      (token : Text) (r : Request loads)
      → Mutates (do_post loads token r)
      → check_token r.headers token ≡ true
  unfolding do_post
  do_post-Mutates token r m = elim (Option-cases r.content_length) [
    | inl bad ↦ absurd (ground (arith, bad, m))
    | inr (n, e) ↦
        elim (Option-cases (parse_body loads (if is_zero loads n then [] else r.read n))) [
          | inl bad ↦ absurd (ground (arith, e, bad, m))
          | inr (body, p) ↦ dispatch-Mutates token r body (ground (arith, e, p, m))
        ]
  ]

  -- When the server has started with the token that the host and the environment give it, a request
  -- reaches accept_fact or dismiss_fact only if its headers supply that token, which is not empty; on
  -- a host that is not loopback the token is the one of the environment, has at least 16
  -- characters, and is not reported as generated.
  pub do_post_authorized :
      (u : Unicode) (ip_loopback : Text → Option Bool) (host : Text) (variable : Option Text)
      (fresh token : Text) (generated : Bool) (r : Request loads)
      → resolve_operator_token u ip_loopback host variable fresh ≡ ok (token, generated)
      → Mutates (do_post loads token r)
      → (supplied r.headers ≡ token)
        × (is_empty token ≡ false)
        × (is_loopback_host ip_loopback host ≡ false
            → (token ≡ strip u (header variable))
              × (min_operator_token_chars ≤ length token)
              × (generated ≡ false))
  unfolding resolve_operator_token
  do_post_authorized u ip_loopback host variable fresh token generated r started m =
      let (same, known) = check_token_sound r.headers token (do_post-Mutates token r m) in
      let configured = strip u (header variable) in
      (
        same,
        known,
        λ remote. elim (Bool-cases (is_empty configured)) [
          | inl missing ↦ absurd (ground (arith, started, remote, missing))
          | inr given ↦ elim (Bool-cases (ltb (length configured) min_operator_token_chars)) [
            | inl short ↦ absurd (ground (arith, started, remote, given, short))
            | inr long ↦
                let here : configured ≡ token = ground (arith, started, remote, given, long) in
                (
                  sym here,
                  subst (λ t. min_operator_token_chars ≤ length t) here (ground (arith, long)),
                  ground (arith, started, remote, given, long),
                )
          ]
        ],
      )
