-- ===== src/Tiny.antt =====
-- ivl/langs/tiny: a small imperative language, from its text to its effects.
pub mod Comments
pub mod Token
pub mod Tokenizer
pub mod Int64
pub mod Syntax
pub mod Parser
pub mod Statements
pub mod Progress
pub mod Eval
pub mod Exec
pub mod Run
mod Examples
mod Tests
