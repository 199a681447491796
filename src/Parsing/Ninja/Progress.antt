-- ===== src/Parsing/Ninja/Progress.antt =====
-- The parser of build.ninja files never runs out of fuel: Texts is about the texts, Builds about
-- the `build` declaration, Declarations about the others and the file.
pub mod Texts
pub mod Builds
pub mod BuildParts
pub mod Declarations
pub mod Whole
