-- ===== src/Wikidata/Shards/Laws.antt =====
-- The shard writer of tools/wikidata_ingest.py under dense ordinals.
use tridb.Base.{
  ℕ, ◌+◌, ◌/◌, ◌≤◌, ◌<◌, ◌≡◌, refl, true, some, List, [], ◌∷◌, ◌++◌, ◌==◌, length, contains, arith,
  Bool-cases, inl, inr,
}
use native.Mathlib.Nat.{le-div_iff_mul-le, div-mul-le_self}
use tridb.Base.Result.{Result, ok}
use tridb.Wikidata.Shards.{
  EntityLine, EdgeLine, Shard, Open, ShardWriter, new_writer, close_current, write, rows_total,
  totals, empty_shard,
}

div_mono : (a b s : ℕ) → 0 < s → a ≤ b → a / s ≤ b / s
div_mono a b s p h =
    (le-div_iff_mul-le {x = a / s} {y = b} p).1 (omega (arith, div-mul-le_self a s, h))

-- A writer with shard `i` open.
pub record Position : Type 0 where
  pub i : ℕ
  pub open_files : Open
  pub entities_head : Shard
  pub edges_head : Shard
  pub claims_head : Shard
  pub entities_rest : List Shard
  pub edges_rest : List Shard
  pub claims_rest : List Shard
  pub erows : ℕ
  pub grows : ℕ
  pub crows : ℕ
  pub opened : List ℕ
  pub closed : List (ℕ × Open)

abbrev pub writer_at : ℕ → Position → ShardWriter
writer_at shard_size p = record {
  shard_size = shard_size;
  entities_shards = p.entities_head ∷ p.entities_rest;
  edges_shards = p.edges_head ∷ p.edges_rest;
  claims_shards = p.claims_head ∷ p.claims_rest;
  idx = some p.i;
  files = some p.open_files;
  erows = p.erows;
  grows = p.grows;
  crows = p.crows;
  opened_shards = p.opened;
  closed = p.closed;
}

-- The next ordinal is `n`, and `g` edges have been written.
pub record IsAt (shard_size n g : ℕ) (p : Position) : Type 0 where
  pub low : p.i ≤ n / shard_size
  pub below : (j : ℕ) → contains p.opened j ≡ true → j ≤ p.i
  pub entity_rows : rows_total p.entities_rest + p.erows ≡ n
  pub edge_rows : rows_total p.edges_rest + p.grows ≡ g
  pub claim_rows : rows_total p.claims_rest + p.crows ≡ n

-- A write that returns a writer in its place for the next ordinal.
abbrev pub Wrote : ℕ → ℕ → ℕ → Result ShardWriter → Type 0
Wrote shard_size n g r = (p : Position) × (r ≡ ok (writer_at shard_size p)) × IsAt shard_size n g p

pub write_first :
    (shard_size : ℕ) (entity : EntityLine) (edges : List EdgeLine) (claims : ℕ)
    → 0 < shard_size
    → Wrote shard_size 1 (length edges) (write 0 entity edges claims (new_writer shard_size))
unfolding write
write_first shard_size entity edges claims h = (
  record {
    i = 0 / shard_size;
    open_files = record { entities = entity ∷ []; edges = edges; claims = claims ∷ [] };
    entities_head = empty_shard (0 / shard_size);
    edges_head = empty_shard (0 / shard_size);
    claims_head = empty_shard (0 / shard_size);
    entities_rest = [];
    edges_rest = [];
    claims_rest = [];
    erows = 1;
    grows = length edges;
    crows = 1;
    opened = 0 / shard_size ∷ [];
    closed = [];
  },
  ground arith,
  record {
    low = div_mono 0 1 shard_size h (omega arith);
    below = λ j c. ground arith;
    entity_rows = refl;
    edge_rows = omega arith;
    claim_rows = refl;
  },
)

pub write_at :
    (shard_size n g : ℕ) (p : Position) (entity : EntityLine) (edges : List EdgeLine) (claims : ℕ)
    → 0 < shard_size
    → IsAt shard_size n g p
    → Wrote shard_size
        (n + 1)
        (g + length edges)
        (write n entity edges claims (writer_at shard_size p))
unfolding write
write_at shard_size n g p entity edges claims h a =
    let f = p.open_files in
    let up = div_mono n (n + 1) shard_size h (omega arith) in
    elim (Bool-cases (n / shard_size == p.i)) [
      | inl same ↦ (
        record p {
          open_files = record {
            entities = f.entities ++ entity ∷ [];
            edges = f.edges ++ edges;
            claims = f.claims ++ claims ∷ [];
          };
          erows = p.erows + 1;
          grows = p.grows + length edges;
          crows = p.crows + 1;
        },
        ground arith,
        record {
          low = omega (arith, up, a.low);
          below = a.below;
          entity_rows = omega (arith, a.entity_rows);
          edge_rows = omega (arith, a.edge_rows);
          claim_rows = omega (arith, a.claim_rows);
        },
      )
      | inr other ↦ (
        record {
          i = n / shard_size;
          open_files = record { entities = entity ∷ []; edges = edges; claims = claims ∷ [] };
          entities_head = empty_shard (n / shard_size);
          edges_head = empty_shard (n / shard_size);
          claims_head = empty_shard (n / shard_size);
          entities_rest = record p.entities_head { rows = p.erows } ∷ p.entities_rest;
          edges_rest = record p.edges_head { rows = p.grows } ∷ p.edges_rest;
          claims_rest = record p.claims_head { rows = p.crows } ∷ p.claims_rest;
          erows = 1;
          grows = length edges;
          crows = 1;
          opened = n / shard_size ∷ p.opened;
          closed = (p.i, f) ∷ p.closed;
        },
        ground (arith, a.below (n / shard_size), a.low),
        record {
          low = up;
          below = λ j c. ground (arith, a.below j, a.low);
          entity_rows = omega (arith, a.entity_rows);
          edge_rows = omega (arith, a.edge_rows);
          claim_rows = omega (arith, a.claim_rows);
        },
      )
    ]

pub totals-close :
    (shard_size n g : ℕ) (p : Position)
    → IsAt shard_size n g p
    → totals (close_current (writer_at shard_size p)) ≡ (n, g, n)
unfolding totals
totals-close shard_size n g p a = ground (arith, a.entity_rows, a.edge_rows, a.claim_rows)
