-- ===== src/Store.antt =====
-- internal/store: the database as its tables. A query is a function of the tables, an update
-- returns them anew. SQLite itself answers: a call fails only where the source's SQL does (no such
-- row, a violated reference). `now` is the instant that the call reads.
pub mod Tables
pub mod Tasks
pub mod Runs
pub mod Comments
pub mod Requests
pub mod TaskPrs
pub mod Laws
pub mod Statuses
pub mod Growth
pub mod Settings
pub mod Streak
pub mod Captures
