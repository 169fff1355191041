-- ===== src/Memory.antt =====
-- core/src/core/memory/service.py. The database is a record of its three tables. The rows of `turns`
-- stand in the order of their ids, which AUTOINCREMENT gives in the order of the inserts, so that
-- ORDER BY id is the table's order. A text is a list of code points; `str.strip` and `str.rstrip`
-- are those of ASCII. Times are counted in seconds.
pub mod Tables
pub mod Summary
pub mod Recall
pub mod Responses
mod Examples
