-- ===== src/Dex/Types.antt =====
-- parser/dto.go and parser/dex/dto.go: raw transactions, parsed ones, pools and pairs.
use cosmwasm_etl.Prelude.{ℕ, String, List, Option, none}
use cosmwasm_etl.Prelude.Int.{ℤ, pos}
use cosmwasm_etl.Prelude.Dict.{Dict}
use cosmwasm_etl.EventLog.Types.{LogResults}

-- A `time.Time` as an instant, counted from the zero time; its location is left out.
abbrev pub Time : Type 0
Time = ℕ

abbrev pub zero_time : Time
zero_time = 0

pub record RawTx : Type 0 where
  pub hash : String
  pub sender : String
  pub timestamp : Time
  pub log_results : LogResults

-- `TxType` is a Go string type, "" where none is set.
abbrev pub TxType : Type 0
TxType = String

abbrev pub create_pair : TxType
create_pair = "create_pair"

abbrev pub swap : TxType
swap = "swap"

abbrev pub provide : TxType
provide = "provide"

abbrev pub initial_provide : TxType
initial_provide = "initial_provide"

abbrev pub withdraw : TxType
withdraw = "withdraw"

abbrev pub transfer : TxType
transfer = "transfer"

abbrev pub tax_payment : TxType
tax_payment = "tax_payment"

abbrev pub lp_burn : TxType
lp_burn = "lp_burn"

pub record Asset : Type 0 where
  pub addr : String
  pub amount : String

abbrev pub no_asset : Asset
no_asset = record { addr = ""; amount = "" }

-- `[2]Asset`
pub record Assets : Type 0 where
  pub first : Asset
  pub second : Asset

-- What the program stores in `Meta`, a `map[string]interface{}`: texts, and refunded assets.
pub data MetaValue : Type 0 where
  meta_text : String → MetaValue
  meta_assets : List Asset → MetaValue

-- A nil `Meta` is `none`.
pub record ParsedTx : Type 0 where
  pub hash : String
  pub timestamp : Time
  pub kind : TxType
  pub sender : String
  pub contract_addr : String
  pub assets : Assets
  pub lp_addr : String
  pub lp_amount : String
  pub commission_amount : String
  pub msg_index : ℤ
  pub meta : Option (Dict MetaValue)

-- `ParsedTx{}`
abbrev pub empty_tx : ParsedTx
empty_tx = record {
  hash = "";
  timestamp = zero_time;
  kind = "";
  sender = "";
  contract_addr = "";
  assets = record { first = no_asset; second = no_asset };
  lp_addr = "";
  lp_amount = "";
  commission_amount = "";
  msg_index = pos 0;
  meta = none;
}

pub record PoolInfo : Type 0 where
  pub contract_addr : String
  pub assets : List Asset
  pub lp_addr : String
  pub total_share : String

pub record Pair : Type 0 where
  pub contract_addr : String
  pub assets : List String
  pub lp_addr : String
