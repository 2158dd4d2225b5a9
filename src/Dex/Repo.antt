-- ===== src/Dex/Repo.antt =====
-- parser/dex/repo/mappers.go: the row of a parsed transaction, with the signs of its amounts.
use cosmwasm_etl.Prelude.{ℕ, String, Option, ◌==◌, if◌then◌else◌, starts_with}
use cosmwasm_etl.Prelude.Dict.{Dict}
use cosmwasm_etl.Prelude.Text.{append}
use cosmwasm_etl.Dex.Types.{Time, TxType, MetaValue, ParsedTx, withdraw}

-- `schemas.ParsedTx`, but its own columns of the database. The time is that of the transaction, where
-- the row has its seconds since 1970 as a float.
pub record ParsedTxModel : Type 0 where
  pub chain_id : String
  pub height : ℕ
  pub timestamp : Time
  pub kind : TxType
  pub hash : String
  pub contract : String
  pub asset0 : String
  pub asset0_amount : String
  pub asset1 : String
  pub asset1_amount : String
  pub lp : String
  pub lp_amount : String
  pub sender : String
  pub commission0_amount : String
  pub commission1_amount : String
  pub commission_amount : String
  pub meta : Option (Dict MetaValue)

abbrev pub empty_string_to_zero : String → String
empty_string_to_zero amount = if amount == "" then "0" else amount

-- A withdrawal is a minus sign before its LP amount.
abbrev pub lp_amount_of : ParsedTx → String
lp_amount_of tx =
    let amount = empty_string_to_zero tx.lp_amount in
    if tx.kind == withdraw then append "-" amount else amount

unfoldable pub to_parsed_tx_model : String → ℕ → ParsedTx → ParsedTxModel
to_parsed_tx_model chain_id height tx =
    let commission = empty_string_to_zero tx.commission_amount in
    let first = starts_with tx.assets.first.amount "-" in
    record {
      chain_id = chain_id;
      height = height;
      timestamp = tx.timestamp;
      kind = tx.kind;
      hash = tx.hash;
      contract = tx.contract_addr;
      asset0 = tx.assets.first.addr;
      asset0_amount = empty_string_to_zero tx.assets.first.amount;
      asset1 = tx.assets.second.addr;
      asset1_amount = empty_string_to_zero tx.assets.second.amount;
      lp = tx.lp_addr;
      lp_amount = lp_amount_of tx;
      sender = tx.sender;
      commission0_amount = if first then commission else "0";
      commission1_amount = if first then "0" else commission;
      commission_amount = commission;
      meta = tx.meta;
    }
