-- ===== src/Strings.antt =====
-- What the program uses of Go's `strings` package, over byte strings.
pub mod Affix
pub mod Split
pub mod Space
pub mod Case
