-- ===== src/Parsing.antt =====
-- The parsers under ivl/parsing.
pub mod Text
pub mod Progress
pub mod Basic
pub mod Ninja
mod Examples
