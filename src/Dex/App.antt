-- ===== src/Dex/App.antt =====
-- parser/dex/dex.go: the application that all DEX parsers share.
pub mod State
pub mod Quiet
pub mod Steps
pub mod Run
pub mod Validation
