-- ===== src/Dezswap.antt =====
-- parser/dex/dezswap: the application of the Dezswap exchange.
pub mod Pairs
pub mod Transfers
pub mod App
