-- ===== src/Dex.antt =====
-- parser/dex: the data of the DEX parsers and the logic they share.
pub mod Types
pub mod Override
pub mod Repo
pub mod Amount
pub mod Mappers
pub mod Rules
pub mod Validation
pub mod Dedup
pub mod Quarantine
pub mod App
