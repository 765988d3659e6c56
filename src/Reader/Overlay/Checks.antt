-- ===== src/Reader/Overlay/Checks.antt =====
-- What the review of accept_fact in tools/wiki_reader.py has checked of a suggestion that passes.
use tridb.Base.{
  ap, ◌∙◌, ℕ, ◌≤◌, ◌≡◌, refl, inl, inr, true, false, Option, none, some, [], ◌∷◌, ◌++◌, length,
  take, arith, Bool-cases,
}
use tridb.Base.Text.{Text}
use tridb.Reader.Pending.{Suggestion}
use tridb.Reader.Overlay.{
  Host, Article, is_empty, has_control, source_chars, norm_ws, starts_with, is_infix,
  snippet_grounded, passes, review,
}

-- The text is a part of `t`.
abbrev pub StandsIn : Text → Text → Type 0
StandsIn a t = (before : Text) × (after : Text) × (t ≡ before ++ a ++ after)

starts_with_sound : (t p : Text) → starts_with t p ≡ true → (after : Text) × (t ≡ p ++ after)
starts_with_sound t [] h = (t, refl)
starts_with_sound [] (p ∷ ps) h = absurd (cc)
starts_with_sound (c ∷ cs) (p ∷ ps) h =
    let (after, rest) = starts_with_sound cs ps (ground arith) in
    let same : c ≡ p = ground arith in (after, ap (λ x. x ∷ cs) same ∙ ap (λ l. p ∷ l) rest)

is_infix-StandsIn : (a t : Text) → is_infix a t ≡ true → StandsIn a t
is_infix-StandsIn [] [] h = ([], [], refl)
is_infix-StandsIn (c ∷ a) [] h = absurd (cc)
is_infix-StandsIn a (c ∷ rest) h = elim (Bool-cases (starts_with (c ∷ rest) a)) [
  | inl front ↦ let (after, e) = starts_with_sound (c ∷ rest) a front in ([], after, e)
  | inr there ↦
      let (before, after, e) = is_infix-StandsIn a rest (ground (arith, there, h)) in
      (c ∷ before, after, ap (λ l. c ∷ l) e)
]

module _ (host : Host) where
  -- What accept_fact has checked of a suggestion before it writes.
  pub record Supported (w : Suggestion) (title : Text) : Type 0 where
    pub article : Article
    pub at_time : ℕ
    pub source : host.article_at at_time w.source_id ≡ some article
    pub titled : article.title ≡ title
    pub property : host.is_property w.property ≡ true
    pub value : (is_empty w.value ≡ false) × (length w.value ≤ 300) × (has_control w.value ≡ false)
    pub grounded :
        let snippet = host.py_lower (norm_ws host.is_space w.source_snippet) in
        (12 ≤ length snippet)
        × StandsIn snippet (host.py_lower (norm_ws host.is_space (take 900 article.body)))

  grounded_sound :
      (snippet source : Text)
      → snippet_grounded host snippet source ≡ true
      → let a = host.py_lower (norm_ws host.is_space snippet) in
        (12 ≤ length a) × StandsIn a (host.py_lower (norm_ws host.is_space source))
  unfolding snippet_grounded
  grounded_sound snippet source h =
      let a = host.py_lower (norm_ws host.is_space snippet) in
      let t = host.py_lower (norm_ws host.is_space source) in
      (ground (arith, h), is_infix-StandsIn a t (ground (arith, h)))

  pub review-Supported :
      (w : Suggestion) (now : ℕ) (art : Option Article) (title : Text)
      → host.article_at now w.source_id ≡ art
      → review host w art ≡ passes title
      → Supported w title
  unfolding review
  review-Supported w now none title p h = absurd (ground arith)
  review-Supported w now (some a) title p h = record {
    article = a;
    at_time = now;
    source = p;
    titled = ground arith;
    property = ground arith;
    value = (ground arith, ground arith, ground arith);
    grounded = grounded_sound w.source_snippet (take source_chars a.body) (ground arith);
  }
