-- ===== src/EventLog/Types.antt =====
-- The log data of pkg/eventlog/types.go.
use cosmwasm_etl.Prelude.{String, List, [], ◌∷◌, map_list}
use cosmwasm_etl.Prelude.Int.{ℤ, pos}

-- `LogType` is a Go string type.
abbrev pub LogType : Type 0
LogType = String

abbrev pub wasm_type : LogType
wasm_type = "wasm"

abbrev pub transfer_type : LogType
transfer_type = "transfer"

-- `MsgIndex` is a Go `int`, and may be negative.
pub record Attribute : Type 0 where
  pub key : String
  pub value : String
  pub msg_index : ℤ

abbrev pub Attributes : Type 0
Attributes = List Attribute

pub record LogResult : Type 0 where
  pub kind : LogType
  pub attributes : Attributes

abbrev pub LogResults : Type 0
LogResults = List LogResult

pub record MatchedItem : Type 0 where
  pub key : String
  pub value : String
  pub msg_index : ℤ

abbrev pub MatchedResult : Type 0
MatchedResult = List MatchedItem

abbrev pub MatchedResults : Type 0
MatchedResults = List MatchedResult

-- `MatchedItem{a.Key, a.Value, a.MsgIndex}`
abbrev pub to_item : Attribute → MatchedItem
to_item a = record { key = a.key; value = a.value; msg_index = a.msg_index }

abbrev pub to_items : Attributes → MatchedResult
to_items = map_list to_item

unfoldable pub msg_index_of : MatchedResult → ℤ
msg_index_of [] = pos 0
msg_index_of (x ∷ xs) = x.msg_index
