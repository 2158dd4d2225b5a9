-- ===== src/Examples.antt =====
-- The theorems at concrete inputs, and tests of the definitions.
mod Events
mod Txs
mod Runs
mod Exchange
mod Cursor
mod Pools
mod Routes
mod Swaps
mod Heights
