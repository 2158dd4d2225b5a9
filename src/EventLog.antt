-- ===== src/EventLog.antt =====
-- pkg/eventlog: event attributes, rules and the finder.
pub mod Types
pub mod Error
pub mod Rule
pub mod Finder
pub mod Keys
pub mod Sort
