-- ===== src/CommandLine.antt =====
-- The parser of the command line (main.h, main.cpp).
pub mod Types
pub mod Options
pub mod Arguments
pub mod Parser
pub mod Spelling
pub mod Distribution
pub mod Groups
pub mod Counts
pub mod Wrap
pub mod Lines
pub mod Wrapped
pub mod Builder
pub mod Built
pub mod Lookup
mod Examples
