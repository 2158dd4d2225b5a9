-- ===== src/Dex/Override.antt =====
-- `Override` of parser/dex/dto.go: what a parsed transaction sets replaces the default.
pub mod Laws
use cosmwasm_etl.Prelude.{String, Bool, List, [], ◌∷◌, Option, none, some, ◌==◌, if◌then◌else◌, eqb}
use cosmwasm_etl.Prelude.Int.{ℤ, pos, ltb_ℤ}
use cosmwasm_etl.Prelude.Dict.{Dict, empty, insert}
use cosmwasm_etl.Dex.Types.{Time, zero_time, Asset, MetaValue, ParsedTx}

-- `if tx.F != "" { defaultVal.F = tx.F }`
abbrev pub text_or : String → String → String
text_or default text = if text == "" then default else text

abbrev pub time_or : Time → Time → Time
time_or default t = if eqb t zero_time then default else t

abbrev pub index_or : ℤ → ℤ → ℤ
index_or default i = if ltb_ℤ (pos 0) i then i else default

abbrev pub asset_or : Asset → Asset → Asset
asset_or default a = record {
  addr = text_or default.addr a.addr;
  amount = text_or default.amount a.amount;
}

-- `for k, v := range tx.Meta { defaultVal.Meta[k] = v }`
unfoldable pub insert_all : Dict MetaValue → List (String × MetaValue) → Dict MetaValue
insert_all d [] = d
insert_all d ((k, v) ∷ entries) = insert_all (insert d k v) entries

-- The map of the default is written in place: no caller gives a default with a map.
abbrev pub meta_or : Option (Dict MetaValue) → Option (Dict MetaValue) → Option (Dict MetaValue)
meta_or default none = default
meta_or none (some m) = some (insert_all empty m.entries)
meta_or (some d) (some m) = some (insert_all d m.entries)

unfoldable pub override : ParsedTx → ParsedTx → ParsedTx
unfolding insert_all
override default tx = record {
  hash = text_or default.hash tx.hash;
  timestamp = time_or default.timestamp tx.timestamp;
  kind = text_or default.kind tx.kind;
  sender = text_or default.sender tx.sender;
  contract_addr = text_or default.contract_addr tx.contract_addr;
  assets = record {
    first = asset_or default.assets.first tx.assets.first;
    second = asset_or default.assets.second tx.assets.second;
  };
  lp_addr = text_or default.lp_addr tx.lp_addr;
  lp_amount = text_or default.lp_amount tx.lp_amount;
  commission_amount = text_or default.commission_amount tx.commission_amount;
  msg_index = index_or default.msg_index tx.msg_index;
  meta = meta_or default.meta tx.meta;
}
