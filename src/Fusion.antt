-- ===== src/Fusion.antt =====
-- bench/tjs_open_ref.py, the host reference of the tjs_open operator: the local push (`Push`), the
-- merge that stops by its bounds (`Merge`), rank fusion (`Rank`) and their composition
-- (`Retrieve`). Scores and masses are fixed-point numbers.
pub mod Scores
pub mod Push
pub mod Merge
pub mod Rank
pub mod Retrieve
pub mod Tests
