-- ===== src/Dex/Dedup/Once.antt =====
-- About `RemoveDuplicatedTxs` of parser/dex/dex.go.
use cosmwasm_etl.Prelude.{◌+◌, ◌≡◌, Bool, not, List, none, is_some, length, select, All}
use cosmwasm_etl.Prelude.Sub.{Sub}
use cosmwasm_etl.Dex.Types.{ParsedTx}
use cosmwasm_etl.Dex.Dedup.{TransferPopEntry, pop}

abbrev Entries : Type 0
Entries = List TransferPopEntry

-- No entry of the list matches the transfer.
abbrev pub unclaimed : Entries → ParsedTx → Bool
unclaimed es tx = not (is_some (pop es tx))

pub record Removal (es : Entries) (txs : List ParsedTx) (left : Entries) (kept : List ParsedTx)
    : Type 0 where
  pub balance : length kept + length es ≡ length txs + length left
  pub order : Sub kept txs
  pub spared : Sub (select (unclaimed es) txs) kept
  pub used_up : All (λ tx. pop left tx ≡ none) kept
  pub entries : Sub left es
