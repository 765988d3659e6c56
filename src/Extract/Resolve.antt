-- ===== src/Extract/Resolve.antt =====
-- resolve_edge of tools/wiki_extract.py beside the chain of redirects that it follows.
use tridb.Base.{
  sym, ap, ◌∙◌, ℕ, zero, suc, ◌<◌, ◌≡◌, ◌↔◌, refl, true, false, none, some, List, [], ◌∷◌, All,
  arith, Bool-cases, Option-cases, inl, inr,
}
use mathlib.Core.Path.{subst}
use mathlib.Core.Option.{some-injective, none-ne-some}
use tridb.Base.Text.{Text, text_eq, text_eq_sound, mem_text, get}
use tridb.Extract.{resolve_hops, resolve_edge, max_redirect_hops}

module _ (title_to_id : List (Text × ℕ)) (redirects : List (Text × Text)) where
  -- Exactly `hops` redirects lead from a title that is no article to an article.
  pub data Follows : ℕ → Text → ℕ → Type 0 where
    article : {cur : Text} {i : ℕ} → get title_to_id cur ≡ some i → Follows zero cur i
    redirect :
        {hops : ℕ} {cur nxt : Text} {i : ℕ}
        → get title_to_id cur ≡ none
        → get redirects cur ≡ some nxt
        → Follows hops nxt i
        → Follows (suc hops) cur i

  -- A title's chain has one length.
  one_length : {m n : ℕ} {cur : Text} {i j : ℕ} → Follows m cur i → Follows n cur j → m ≡ n
  one_length (article e) (article f) = refl
  one_length (article e) (redirect f g r) = absurd (cc)
  one_length (redirect e f r) (article g) = absurd (cc)
  one_length (redirect e f r) (redirect {hops = later} {i = last} g h s) =
      ap suc (one_length r (subst (λ t. Follows later t last) (some-injective _ _ (sym h ∙ f)) s))

  -- Every title seen leads on to `cur`, over one hop or more.
  abbrev LeadsOn : Text → Text → Type 0
  LeadsOn cur s = (hops i : ℕ) → Follows hops cur i → (n : ℕ) × (hops < n) × Follows n s i

  mem-LeadsOn :
      (cur t : Text) (seen : List Text)
      → All (LeadsOn cur) seen
      → mem_text seen t ≡ true
      → LeadsOn cur t
  mem-LeadsOn cur t [] h m = absurd (cc)
  mem-LeadsOn cur t (s ∷ seen) h m = elim (Bool-cases (text_eq s t)) [
    | inl here ↦ subst (LeadsOn cur) (text_eq_sound s t here) h.0
    | inr there ↦ mem-LeadsOn cur t seen h.1 (ground arith)
  ]

  All-LeadsOn :
      (cur nxt : Text) (seen : List Text)
      → get title_to_id cur ≡ none
      → get redirects cur ≡ some nxt
      → All (LeadsOn cur) seen
      → All (LeadsOn nxt) seen
  All-LeadsOn cur nxt [] e f h = tt
  All-LeadsOn cur nxt (s ∷ seen) e f h = (
    λ hops i g.
        let (n, less, follows) = h.0 (suc hops) i (redirect e f g) in
        (n, omega (arith, less), follows),
    All-LeadsOn cur nxt seen e f h.1,
  )

  -- One turn of the loop, by what the two dictionaries hold.
  turn-article :
      (hops : ℕ) (seen : List Text) (cur : Text) (i : ℕ)
      → get title_to_id cur ≡ some i
      → resolve_hops title_to_id redirects (suc hops) seen cur ≡ some i
  unfolding resolve_hops
  turn-article hops seen cur i e = rw (resolve_hops, e) refl

  turn-red :
      (hops : ℕ) (seen : List Text) (cur : Text)
      → get title_to_id cur ≡ none
      → get redirects cur ≡ none
      → resolve_hops title_to_id redirects (suc hops) seen cur ≡ none
  unfolding resolve_hops
  turn-red hops seen cur e f = rw (resolve_hops, e, f) refl

  turn-cycle :
      (hops : ℕ) (seen : List Text) (cur nxt : Text)
      → get title_to_id cur ≡ none
      → get redirects cur ≡ some nxt
      → mem_text seen cur ≡ true
      → resolve_hops title_to_id redirects (suc hops) seen cur ≡ none
  unfolding resolve_hops
  turn-cycle hops seen cur nxt e f m = rw (resolve_hops, e, f, m) refl

  turn-redirect :
      (hops : ℕ) (seen : List Text) (cur nxt : Text)
      → get title_to_id cur ≡ none
      → get redirects cur ≡ some nxt
      → mem_text seen cur ≡ false
      → resolve_hops title_to_id redirects (suc hops) seen cur
        ≡ resolve_hops title_to_id redirects hops (cur ∷ seen) nxt
  unfolding resolve_hops
  turn-redirect hops seen cur nxt e f m = rw (resolve_hops, e, f, m) refl

  sound :
      (hops : ℕ) (seen : List Text) (cur : Text) (i : ℕ)
      → resolve_hops title_to_id redirects hops seen cur ≡ some i
      → (n : ℕ) × (n < hops) × Follows n cur i
  unfolding resolve_hops
  sound zero seen cur i h = absurd (cc)
  sound (suc hops) seen cur i h = elim (Option-cases (get title_to_id cur)) [
    | inr (hit, e) ↦ (0, omega arith, article (e ∙ sym (turn-article hops seen cur hit e) ∙ h))
    | inl e ↦ elim (Option-cases (get redirects cur)) [
      | inl f ↦ absurd (none-ne-some i (sym (turn-red hops seen cur e f) ∙ h))
      | inr (nxt, f) ↦ elim (Bool-cases (mem_text seen cur)) [
        | inl cycle ↦ absurd (none-ne-some i (sym (turn-cycle hops seen cur nxt e f cycle) ∙ h))
        | inr new ↦
            let (n, less, follows) =
              sound hops (cur ∷ seen) nxt i (sym (turn-redirect hops seen cur nxt e f new) ∙ h) in
            (suc n, omega (arith, less), redirect e f follows)
      ]
    ]
  ]

  complete :
      (hops : ℕ) (seen : List Text) (cur : Text) (n i : ℕ)
      → All (LeadsOn cur) seen
      → n < hops
      → Follows n cur i
      → resolve_hops title_to_id redirects hops seen cur ≡ some i
  unfolding resolve_hops
  complete zero seen cur n i h less follows = absurd (omega arith)
  complete (suc hops) seen cur zero i h less (article e) = turn-article hops seen cur i e
  complete (suc hops) seen cur (suc n) i h less (redirect {nxt = nxt} e f g) =
      elim (Bool-cases (mem_text seen cur)) [
        | inl cycle ↦ absurd (
            let (m, more, again) = mem-LeadsOn cur cur seen h cycle (suc n) i (redirect e f g) in
            let same = one_length again (redirect e f g) in omega (arith, more, same))
        | inr new ↦
            turn-redirect hops seen cur nxt e f new
            ∙ (complete hops (cur ∷ seen) nxt n i
                ((λ k j g'. (suc k, omega arith, redirect e f g')), All-LeadsOn cur nxt seen e f h)
                (omega arith) g)
      ]

  -- A link resolves to an article exactly when fewer than `_MAX_REDIRECT_HOPS` redirects lead to it
  -- from the link's title; the guard against cycles never cuts such a chain short.
  pub resolve_edge-Follows :
      (key : Text) (i : ℕ)
      → (resolve_edge title_to_id redirects key ≡ some i)
        ↔ ((n : ℕ) × (n < max_redirect_hops) × Follows n key i)
  resolve_edge-Follows key i = (
    sound max_redirect_hops [] key i,
    λ chain. complete max_redirect_hops [] key chain.0 i tt chain.1 chain.2,
  )
