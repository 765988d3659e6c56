-- ===== src/Reader.antt =====
-- tools/wiki_reader.py, the offline reader: the suggestions that wait for the operator (`Pending`), the
-- requests that accept or dismiss them while others run (`Overlay`, `Requests`), the connection finder
-- (`Paths`) with its index (`Csr`), and the gate before the requests (`Post`).
pub mod Pending
pub mod Overlay
pub mod Requests
pub mod Paths
pub mod Csr
pub mod Post
pub mod Tests
