-- ===== src/Manifest.antt =====
-- tools/wiki_manifest_verify.py: the counts that a corpus manifest claims beside those of the shard
-- files. The directory is the list of its files, with their bytes. Of a manifest the model keeps
-- the shards and the counts; a report line is the numbers that it prints.
pub mod Rebuilt
pub mod Tests
use tridb.Base.{
  ℕ, ◌+◌, Bool, true, false, ◌&&◌, ◌||◌, Option, none, some, List, [], ◌∷◌, ◌++◌, map, ◌==◌, leb,
  if◌then◌else◌, length, sum, count, drop, ◌-◌,
}
use tridb.Base.Int.{ℤ, pos, negsuc}
use tridb.Base.Text.{Text, text_eq, text_ltb, get}

pub data Kind : Type 0 where
  articles edges categories : Kind

abbrev pub kinds : List Kind
kinds = articles ∷ edges ∷ categories ∷ []

abbrev pub name_of : Kind → Text
name_of articles = b'a' ∷ b'r' ∷ b't' ∷ b'i' ∷ b'c' ∷ b'l' ∷ b'e' ∷ b's' ∷ []
name_of edges = b'e' ∷ b'd' ∷ b'g' ∷ b'e' ∷ b's' ∷ []
name_of categories = b'c' ∷ b'a' ∷ b't' ∷ b'e' ∷ b'g' ∷ b'o' ∷ b'r' ∷ b'i' ∷ b'e' ∷ b's' ∷ []

abbrev pub suffix_of : Kind → Text
suffix_of articles = b'.' ∷ b'j' ∷ b's' ∷ b'o' ∷ b'n' ∷ b'l' ∷ []
suffix_of edges = b'.' ∷ b't' ∷ b's' ∷ b'v' ∷ []
suffix_of categories = b'.' ∷ b't' ∷ b's' ∷ b'v' ∷ []

abbrev pub starts_with : Text → Text → Bool
starts_with [] name = true
starts_with (c ∷ rest) [] = false
starts_with (c ∷ rest) (d ∷ name) = c == d && starts_with rest name

-- KIND_GLOB[kind]: the kind's name and a dash, anything, the suffix.
abbrev pub matches : Kind → Text → Bool
matches kind name =
    let prefix = name_of kind ++ b'-' ∷ [] in
    let suffix = suffix_of kind in
    starts_with prefix name
    && leb (length prefix + length suffix) (length name)
    && text_eq (drop (length name - length suffix) name) suffix

pub record File : Type 0 where
  pub name : Text
  pub bytes : List ℕ

abbrev pub count_lines : File → ℕ
count_lines file = count (λ b. b == b'\n') file.bytes

abbrev pub place_file : Text × ℕ → List (Text × ℕ) → List (Text × ℕ)
place_file x [] = x ∷ []
place_file x (y ∷ ys) =
    let rest = place_file x ys in if text_ltb y.0 x.0 then y ∷ rest else x ∷ y ∷ ys

-- The files of a kind with their lines, by name.
abbrev pub actual_files : List File → Kind → List (Text × ℕ)
actual_files [] kind = []
actual_files (file ∷ rest) kind =
    let later = actual_files rest kind in
    if matches kind file.name then place_file (file.name, count_lines file) later else later

abbrev pub rows : List (Text × ℕ) → ℕ
rows files = sum (map (λ (f : Text × ℕ). f.1) files)

pub record Shards : Type 0 where
  pub schema : Text
  pub files : List (Text × ℕ)

pub record Manifest : Type 0 where
  pub shards : List (Text × Shards)
  pub counts : List (Text × ℤ)

abbrev pub claimed_files : Manifest → Kind → List (Text × ℕ)
claimed_files m kind = elim (get m.shards (name_of kind)) [ none ↦ [] | some s ↦ s.files ]

abbrev pub claimed_count : Manifest → Kind → ℤ
claimed_count m kind = elim (get m.counts (name_of kind)) [ none ↦ negsuc 0 | some n ↦ n ]

abbrev pub is_count : ℤ → ℕ → Bool
is_count (pos n) m = n == m
is_count (negsuc n) m = false

-- claimed.get(name), the rows of a path being added up.
abbrev pub claimed_rows : List (Text × ℕ) → Text → Option ℕ
claimed_rows [] name = none
claimed_rows ((path, n) ∷ rest) name =
    let later = claimed_rows rest name in
    if text_eq path name then some (n + (elim later [ none ↦ 0 | some m ↦ m ])) else later

pub data Line : Type 0 where
  total : Kind → ℕ → ℕ → ℤ → Bool → ℕ → Line
  clobbered : Text → ℕ → ℕ → Line

abbrev pub clobbered_lines : List (Text × ℕ) → List (Text × ℕ) → List Line
clobbered_lines m_files [] = []
clobbered_lines m_files ((name, n) ∷ rest) =
    let later = clobbered_lines m_files rest in
    elim (claimed_rows m_files name) [
      | none ↦ later
      | some c ↦ if c == n then later else clobbered name n c ∷ later
    ]

-- One kind: whether the three totals agree, and its lines.
abbrev pub verify_kind : List File → Manifest → Kind → Bool × List Line
verify_kind corpus m kind =
    let files = actual_files corpus kind in
    let m_files = claimed_files m kind in
    let agree = rows files == rows m_files && is_count (claimed_count m kind) (rows m_files) in
    (
      agree,
      total kind (rows files) (rows m_files) (claimed_count m kind) agree (length files)
          ∷ clobbered_lines m_files files,
    )

abbrev pub verify_kinds : List File → Manifest → List Kind → Bool × List Line
verify_kinds corpus m [] = (true, [])
verify_kinds corpus m (kind ∷ rest) =
    let one = verify_kind corpus m kind in
    let later = verify_kinds corpus m rest in (one.0 && later.0, one.1 ++ later.1)

unfoldable pub verify : List File → Manifest → Bool × List Line
verify corpus m = verify_kinds corpus m kinds

-- d[key] = v
abbrev pub set_key {ℓ} : {A : Type ℓ} → Text → A → List (Text × A) → List (Text × A)
set_key key v [] = (key, v) ∷ []
set_key key v ((k, old) ∷ rest) =
    let later = set_key key v rest in if text_eq k key then (k, v) ∷ rest else (k, old) ∷ later

abbrev pub rebuild_kind : List File → Manifest → Kind → Manifest
rebuild_kind corpus m kind =
    let files = actual_files corpus kind in
    let schema : Text = elim (get m.shards (name_of kind)) [ none ↦ [] | some s ↦ s.schema ] in
    record {
      shards = set_key (name_of kind) (record { schema = schema; files = files }) m.shards;
      counts = set_key (name_of kind) (pos (rows files)) m.counts;
    }

abbrev pub rebuild_kinds : List File → Manifest → List Kind → Manifest
rebuild_kinds corpus m [] = m
rebuild_kinds corpus m (kind ∷ rest) = rebuild_kinds corpus (rebuild_kind corpus m kind) rest

unfoldable pub rebuild : List File → Manifest → Manifest
rebuild corpus m = rebuild_kinds corpus m kinds
