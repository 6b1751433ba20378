-- ===== src/Strings.antt =====
-- The byte-string helpers: src/core/StringUtils.cpp, by families of functions.
pub mod Case
pub mod Search
pub mod Glob
pub mod Shaping
pub mod Reading
pub mod Markup
pub mod Pieces
