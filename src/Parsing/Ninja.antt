-- ===== src/Parsing/Ninja.antt =====
-- ivl/parsing/ninja/default.hpp: the parser of build.ninja files. Expand has the text with
-- variables in it, Build the `build` declaration, Declare the others and the file.
pub mod State
pub mod Expand
pub mod Build
pub mod Declare
pub mod Add
pub mod File
pub mod Deferred
pub mod Invariant
pub mod ReadParts
pub mod Kept
pub mod Progress
pub mod EmptyInput
pub mod RoundTrip
mod Tests
