-- ===== src/Dex/Mappers.antt =====
-- parser/dex/mapper.go: the mappers that the exchanges share, and `CheckResult` of pkg/dex/mapper.go.
pub mod Transfers
pub mod Sorting
use cosmwasm_etl.Prelude.{
  ℕ, ◌+◌, String, Bool, true, false, not, ◌&&◌, ◌||◌, List, [], ◌∷◌, ◌++◌, Option, none, some, ◌==◌,
  if◌then◌else◌, ltb, eqb, length, get_elem?, starts_with,
}
use Prim.Native.Char.{code}
use Prim.Native.String
use cosmwasm_etl.Prelude.Int.{ℤ, pos, negsuc}
use cosmwasm_etl.Prelude.Dict.{Dict, empty, lookup, insert}
use cosmwasm_etl.Prelude.Decimal.{print_ℕ}
use cosmwasm_etl.Prelude.Text.{append, split}
use cosmwasm_etl.EventLog.Types.{MatchedItem, MatchedResult, msg_index_of}
use cosmwasm_etl.EventLog.Error.{
  Error, message, wrap, Result, ok, err, crash, wrap_err, and_then, wrapped,
}
use cosmwasm_etl.EventLog.Keys.{result_to_item_map_for_keys}
use cosmwasm_etl.Parser.{Mapper}
use cosmwasm_etl.Dex.Types.{
  Asset, Assets, ParsedTx, Pair, TxType, no_asset, empty_tx, create_pair, initial_provide, transfer,
  tax_payment, lp_burn,
}
use cosmwasm_etl.Dex.Amount.{index_of, get_asset_from_amount_asset_string}

any_empty : MatchedResult → Bool
any_empty [] = false
any_empty (r ∷ res) = r.value == "" || any_empty res

-- `CheckResult`: the error, if there is one.
unfoldable pub check_result : MatchedResult → ℕ → Option Error
unfolding any_empty
check_result res min_len =
    if ltb (length res) min_len
    then some (message (append "expected results length at least (" (append (print_ℕ min_len) ")")))
    else if any_empty res
    then some (message "empty event value")
    else none

-- The checks before a mapper's work, under the name of the mapper.
unfoldable pub checked : {A : Type 0} → String → ℕ → MatchedResult → Result A → Result A
checked name min_len res result = elim (check_result res min_len) [
  | some e ↦ err (wrapped name e)
  | none ↦ result
]

-- `res[i].Value`
abbrev pub value_at : MatchedResult → ℕ → Result String
value_at res i = elim (get_elem? res i) [ none ↦ crash | some x ↦ ok x.value ]

-- `matchMap[key].Value`
unfoldable pub value_of_key : Dict MatchedItem → String → String
value_of_key items key = elim (lookup items key) [ none ↦ "" | some x ↦ x.value ]

abbrev pub bare : String → Asset
bare addr = record { addr = addr; amount = "" }

abbrev factory_tx : MatchedResult → String → String → String → String → ParsedTx
factory_tx res first second contract lp = record empty_tx {
  kind = create_pair;
  contract_addr = contract;
  assets = record { first = bare first; second = bare second };
  lp_addr = lp;
  msg_index = msg_index_of res;
}

abbrev factory_assets : MatchedResult → List String → Result (List ParsedTx)
factory_assets res (first ∷ second ∷ []) = elim (value_at res 3) [
  | err e ↦ err e
  | crash ↦ crash
  | ok contract ↦ elim (value_at res 4) [
    | err e ↦ err e
    | crash ↦ crash
    | ok lp ↦ ok (factory_tx res first second contract lp ∷ [])
  ]
]
factory_assets res _ = err (message "expected assets length(2)")

-- `factoryMapper`: the pair is the third item, its address and its LP token the two after it.
unfoldable pub factory_mapper : MatchedResult → Result (List ParsedTx)
unfolding checked
factory_mapper res = checked "factoryMapper.MatchedToParsedTx" 5 res (elim (value_at res 2) [
  | err e ↦ err e
  | crash ↦ crash
  | ok pair ↦ factory_assets res (split b'-' pair)
])

unfoldable pub initial_provide_mapper : MatchedResult → Result (List ParsedTx)
unfolding checked value_of_key
initial_provide_mapper res = checked "initialProvideMapper.MatchedToParsedTx" 4 res (
    and_then
      (wrap_err "transferMapper.MatchedToParsedTx"
        (result_to_item_map_for_keys res ("to" ∷ "_contract_address" ∷ "amount" ∷ [])))
      λ items. ok (
        record empty_tx {
          kind = initial_provide;
          contract_addr = value_of_key items "to";
          lp_addr = value_of_key items "_contract_address";
          lp_amount = value_of_key items "amount";
        }
        ∷ []))

unfoldable pub tax_payment_mapper : MatchedResult → Result (List ParsedTx)
unfolding checked value_of_key
tax_payment_mapper res = checked "taxPaymentMapper.MatchedToParsedTx" 2 res (
    and_then
      (wrap_err "taxPaymentMapper.MatchedToParsedTx"
        (result_to_item_map_for_keys res ("tax_amount" ∷ [])))
      λ items.
        and_then
          (wrap_err "taxPaymentMapper.MatchedToParsedTx"
            (get_asset_from_amount_asset_string (value_of_key items "tax_amount")))
          λ asset. ok (
            record empty_tx {
              kind = tax_payment;
              assets = record { first = asset; second = no_asset };
              msg_index = msg_index_of res;
            }
            ∷ []))

abbrev burned : Dict MatchedItem → String → Result (List ParsedTx)
burned items amount =
    if amount == ""
    then err (message "burnMapper.MatchedToParsedTx: empty amount")
    else ok (
        record empty_tx {
          kind = lp_burn;
          sender = value_of_key items "from";
          lp_addr = value_of_key items "_contract_address";
          lp_amount = if starts_with amount "-" then amount else append "-" amount;
        }
        ∷ [])

unfoldable pub burn_mapper : MatchedResult → Result (List ParsedTx)
unfolding checked value_of_key
burn_mapper res = checked "burnMapper.MatchedToParsedTx" 4 res (
    and_then
      (wrap_err "burnMapper.MatchedToParsedTx"
        (result_to_item_map_for_keys res ("amount" ∷ "from" ∷ "_contract_address" ∷ [])))
      λ items. burned items (value_of_key items "amount"))
