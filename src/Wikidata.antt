-- ===== src/Wikidata.antt =====
-- tools/wikidata_ingest.py and tools/wikidata_compact.py: from a Wikidata dump to a slice.
-- `Statements` reads an entity, `Compact` is the sidecar scan, `Closure` chooses the slice, `Shards`
-- and `Emit` write it, `Sidecar` publishes and verifies the sidecar.
pub mod Statements
pub mod Compact
pub mod Closure
pub mod Shards
pub mod Emit
pub mod Sidecar
pub mod Tests
