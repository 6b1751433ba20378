-- ===== src/Json/Text.antt =====
-- JSON as text (src/core/Json.cpp): the printer and the parser, by parts.
pub mod Escape
pub mod Outcome
pub mod Literal
pub mod Number
pub mod Parser
pub mod Printer
pub mod Quoted
pub mod Numeral
pub mod Integer
pub mod Opening
pub mod Document
pub mod Layout
pub mod Items
pub mod Fields
pub mod Branches
pub mod RoundTrip
pub mod Shrinking
pub mod Scanning
pub mod Total
