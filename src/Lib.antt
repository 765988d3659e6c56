-- ===== src/Lib.antt =====
-- TriDB: vector search, graph traversal and relational filters in one Postgres, with the Python
-- tools and benchmarks around it. This library models the Python code that decides something: how
-- a query is ordered, what the operator's reference returns, what the memory server leaves in its
-- database, which Wikidata entities and Wikipedia articles a slice keeps and what its files hold,
-- which edits a recorder takes from a feed, when the benchmark's verdicts pass and when a headline
-- may be printed. Paths are from the repository's root.
--
-- Base          lists, sets and sorting over the native numbers, integers, exact fractions, texts and
--               the dictionaries they key, and calls that may raise (`Result`).
-- Planner       src/planner/join_order_ref.py: choose_order, estimated_intermediate_rows, explain.
-- Extent        tools/csr_extent_packing.py: pack_extent and the costs of insert and merge.
-- Metrics       bench/metrics.py: QuerySample, the verdicts SM-1 to SM-5, derive_metrics.
-- Consistency   bench/wikidata_consistency.py: the replay of edits, atomic or store by store; and
--               MultiStore.write of bench/wiki_consistency.py.
-- Driver        bench/driver.py: Corpus and StubDriver.run_query, whose samples Metrics reads.
-- Baseline      bench/harness.py: baseline_query_inprocess, and run_benchmark, which pairs its samples
--               with Driver's and hands both to Metrics.
-- Memory        tools/tridb_mcp.py: MemoryStore. A call is a function from a database to a result
--               and a database; a transaction puts the database back when its body raises.
-- Fusion        bench/tjs_open_ref.py: bounded_push_ppr (Push), nra_fr_merge (Merge), rrf_fuse (Rank)
--               and retrieve, which composes them (Retrieve).
-- Gate          bench/wiki_ppr_gate.py and `expand` of bench/wiki_h2h.py: the graph that is loaded
--               without the held-out edges (Holdouts), and what is reachable in it (Reachable).
-- Publication   bench/wiki_h2h.py: operating_point and publication_gate.
-- Wikidata      tools/wikidata_ingest.py and tools/wikidata_compact.py. Statements reads an entity;
--               Compact makes the sidecar's rows; Closure chooses the ids by prefix or closure, from
--               the dump or the sidecar; Shards and Emit write the slice; Sidecar scans, publishes
--               and verifies the sidecar.
-- Dense         tools/wikidata_engine_load.py: the dense ids, and the edges and types (Types) that the
--               loader keeps, beside load_typed_adj and load_types of bench/wikidata_h2h.py; and what
--               its typed_reach and candidates find (Reach).
-- Recorder      tools/wikidata_record_edits.py: the event stream (Sse), the window over the
--               connections of the loop, and the sidecar.
-- Extract       tools/wiki_extract.py: titles and links (Titles), first_pass (Ids, Order) and resolve_edge,
--               the COPY escape (Escape), and second_pass with its shard writer (Shards).
-- Manifest      tools/wiki_manifest_verify.py: verify and rebuild.
-- Reader        tools/wiki_reader.py: PendingSuggestions (Pending), what accept_fact and dismiss_fact do
--               to the overlay database (Overlay) and how they interleave (Requests), the undirected
--               index (Csr) and connection_path, which reads it (Paths), and what do_POST lets through
--               (Post).
--
-- A component's definitions stand in its own file, its theorems in the files below it, and runs at
-- concrete inputs in Tests.
--
-- Parameters: what Postgres, pgvector and the TriDB extensions compute is the record `Engine` of
-- Memory; gzip and SHA-256 are parameters of Sidecar; the clock is an argument in Driver, Baseline
-- and Recorder; the random draws of synthetic_edits are a list; json.loads, and what the feed answers
-- to a resume cursor, are arguments of Recorder; Unicode's cases and white space, mwparserfromhell and
-- the pages of the dump are arguments of Extract. Of SQLite, Reader takes how each write ends and its
-- lower(), and of the corpus the article of an id at a time; the suggestion ids are drawn by an
-- argument, the clock is one too.
--
-- Numbers: a float is a fixed-point number or an exact fraction, as each file says. In Push a mass
-- is cut off at every product and quotient, so that mass may be lost but is never made. Python's
-- integers are ℕ where the code cannot see a negative one, and ℤ where it checks for it.
--
-- Fuel: the push takes a round for each seed and for each entry that its reserve can pay for,
-- which is at most the out-degree for each unit of mass; Push/Bound has the number. bfs_closure takes
-- a round for each id it keeps, so the target is enough fuel. The hops of a closure take fuel too;
-- the theorem on them compares two runs with the same fuel, whether or not it runs out. The
-- recorder's loop is followed over a list of connections, since the feed may fail for ever; the hops
-- of resolve_edge, of expand and of connection_path are the code's own bounds. The eviction has a round
-- for each entry, and the way back through a parent map one for each node of it; typed_reach
-- takes a round for its source and for each edge.
--
-- Not modelled: the C extensions, which run inside Postgres; live drivers, loaders and servers;
-- parsing of JSON text and XML, so a document is a record of the keys the code reads; HTML
-- extraction, SQL generation and the parsing of transcripts; the literal columns
-- of an entity; progress reports, rendered texts, command lines. bounded_push_ppr is compared with
-- no exact PageRank.
pub mod Base
pub mod Planner
pub mod Extent
pub mod Metrics
pub mod Consistency
pub mod Driver
pub mod Baseline
pub mod Memory
pub mod Fusion
pub mod Gate
pub mod Publication
pub mod Wikidata
pub mod Dense
pub mod Recorder
pub mod Extract
pub mod Manifest
pub mod Reader
