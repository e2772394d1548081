-- ===== src/Text.antt =====
-- src/match.c: texts as IRC compares them.
pub mod Chars
pub mod Compare
pub mod Glob
pub mod Masks
pub mod Rounds
pub mod MaskEnds
pub mod Held
pub mod Search
pub mod GlobLaws
mod Tests
