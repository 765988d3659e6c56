-- ===== src/Manifest/Rebuilt.antt =====
-- A manifest that tools/wiki_manifest_verify.py has rebuilt.
use tridb.Base.{
  ap, ◌∙◌, ℕ, ◌≡◌, refl, true, false, Option, none, some, List, [], ◌∷◌, if◌then◌else◌, arith,
  Bool-cases, inl, inr, ==_self,
}
use tridb.Base.Int.{ℤ, pos, negsuc}
use tridb.Base.Text.{Text, text_eq, text_eq_self, text_eq_sound, get}
use tridb.Manifest.{
  Kind, articles, edges, categories, name_of, File, Manifest, Shards, actual_files, rows,
  claimed_files, claimed_count, verify, verify_kind, rebuild, rebuild_kind, set_key,
}

get-set_key_same {ℓ} :
    {A : Type ℓ} (key : Text) (v : A) (d : List (Text × A)) → get (set_key key v d) key ≡ some v
get-set_key_same key v [] = rw (text_eq_self key) refl
get-set_key_same key v ((k, old) ∷ rest) = elim (Bool-cases (text_eq k key)) [
  | inl here ↦ rw (here, here) refl
  | inr there ↦ rw (there, there) (get-set_key_same key v rest)
]

get-set_key_other {ℓ} :
    {A : Type ℓ} (key other : Text) (v : A) (d : List (Text × A))
    → text_eq key other ≡ false
    → get (set_key key v d) other ≡ get d other
get-set_key_other key other v [] h = rw h refl
get-set_key_other key other v ((k, old) ∷ rest) h = elim (Bool-cases (text_eq k key)) [
  | inl here ↦
      let e = text_eq_sound k key here in
      let miss : text_eq k other ≡ false = ap (λ t. text_eq t other) e ∙ h in rw here (rw miss refl)
  | inr there ↦
      rw there
        (ap (λ o. if text_eq k other then some old else o) (get-set_key_other key other v rest h))
]

-- A kind whose claims are the files that are there.
abbrev IsTrue : List File → Manifest → Kind → Type 0
IsTrue corpus m kind =
    (claimed_files m kind ≡ actual_files corpus kind)
    × (claimed_count m kind ≡ pos (rows (actual_files corpus kind)))

abbrev files_in : Option Shards → List (Text × ℕ)
files_in none = []
files_in (some s) = s.files

abbrev count_in : Option ℤ → ℤ
count_in none = negsuc 0
count_in (some n) = n

rebuild_kind-IsTrue :
    (corpus : List File) (m : Manifest) (kind : Kind)
    → IsTrue corpus (rebuild_kind corpus m kind) kind
rebuild_kind-IsTrue corpus m kind =
    let files = actual_files corpus kind in
    let schema : Text = elim (get m.shards (name_of kind)) [ none ↦ [] | some s ↦ s.schema ] in
    let shards : Shards = record { schema = schema; files = files } in
    (
      ap files_in (get-set_key_same (name_of kind) shards m.shards),
      ap count_in (get-set_key_same (name_of kind) (pos (rows files)) m.counts),
    )

rebuild_kind-keeps :
    (corpus : List File) (m : Manifest) (kind other : Kind)
    → text_eq (name_of kind) (name_of other) ≡ false
    → IsTrue corpus m other
    → IsTrue corpus (rebuild_kind corpus m kind) other
rebuild_kind-keeps corpus m kind other apart h =
    let files = actual_files corpus kind in
    let schema : Text = elim (get m.shards (name_of kind)) [ none ↦ [] | some s ↦ s.schema ] in
    let shards : Shards = record { schema = schema; files = files } in
    (
      ap files_in (get-set_key_other (name_of kind) (name_of other) shards m.shards apart) ∙ h.0,
      ap count_in
            (get-set_key_other (name_of kind) (name_of other) (pos (rows files)) m.counts apart)
          ∙ h.1,
    )

verify_kind-IsTrue :
    (corpus : List File) (m : Manifest) (kind : Kind)
    → IsTrue corpus m kind
    → (verify_kind corpus m kind).0 ≡ true
verify_kind-IsTrue corpus m kind h =
    rw (h.0, h.1) (ground (arith, ==_self (rows (actual_files corpus kind))))

-- A rebuilt manifest passes the verification against the files that it was rebuilt from, whatever
-- the manifest claimed before.
pub verify-rebuild :
    (corpus : List File) (m : Manifest) → (verify corpus (rebuild corpus m)).0 ≡ true
unfolding verify rebuild
verify-rebuild corpus m =
    let m1 = rebuild_kind corpus m articles in
    let m2 = rebuild_kind corpus m1 edges in
    let m3 = rebuild_kind corpus m2 categories in
    let first = verify_kind-IsTrue corpus m3 articles (
      rebuild_kind-keeps corpus m2 categories articles refl (
        rebuild_kind-keeps corpus m1 edges articles refl
          (rebuild_kind-IsTrue corpus m articles))) in
    let second =
      verify_kind-IsTrue corpus m3 edges (
        rebuild_kind-keeps corpus m2 categories edges refl (rebuild_kind-IsTrue corpus m1 edges)) in
    let third =
      verify_kind-IsTrue corpus m3 categories (rebuild_kind-IsTrue corpus m2 categories) in
    rw (first, second, third) refl
