-- ===== src/Manifest/Tests.antt =====
-- The theorem on tools/wiki_manifest_verify.py at a corpus whose manifest claims too much.
use tridb.Base.{◌≡◌, refl, true, false, List, [], ◌∷◌}
use tridb.Base.Int.{pos}
use tridb.Base.Text.{Text}
use tridb.Manifest.{File, Manifest, Line, edges, articles, categories, name_of, verify, rebuild}
use tridb.Manifest.Rebuilt.{verify-rebuild}

-- edges-0.tsv, of two lines.
abbrev shard_name : Text
shard_name = b'e' ∷ b'd' ∷ b'g' ∷ b'e' ∷ b's' ∷ b'-' ∷ b'0' ∷ b'.' ∷ b't' ∷ b's' ∷ b'v' ∷ []

abbrev corpus : List File
corpus = (record { name = shard_name; bytes = b'1' ∷ b'\n' ∷ b'2' ∷ b'\n' ∷ [] }) ∷ []

abbrev manifest : Manifest
manifest = record {
  shards = (name_of edges, record { schema = []; files = (shard_name, 5) ∷ [] }) ∷ [];
  counts = (name_of articles, pos 0) ∷ (name_of edges, pos 5) ∷ (name_of categories, pos 0) ∷ [];
}

clobbered_shard : verify corpus manifest ≡ (
  false,
  Line.total articles 0 0 (pos 0) true 0
      ∷ Line.total edges 2 5 (pos 5) false 1
      ∷ Line.clobbered shard_name 2 5
      ∷ Line.total categories 0 0 (pos 0) true 0
      ∷ [],
)
unfolding verify
clobbered_shard = refl

verify-rebuild_example : (verify corpus (rebuild corpus manifest)).0 ≡ true
verify-rebuild_example = verify-rebuild corpus manifest
