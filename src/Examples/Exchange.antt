-- ===== src/Examples/Exchange.antt =====
-- Amounts, pools, rules and transfers of a pair.
use cosmwasm_etl.EventLog.Finder.Answers.{Answers}
use cosmwasm_etl.Prelude.{◌≡◌, ◌↔◌, String, Bool, true, List, [], ◌∷◌, ◌==◌, if◌then◌else◌}
use cosmwasm_etl.Prelude.Int.{pos, negsuc, ◌+ℤ◌}
use cosmwasm_etl.Prelude.Dict.{Dict, empty, insert}
use cosmwasm_etl.Prelude.Decimal.{print_ℤ}
use cosmwasm_etl.EventLog.Types.{Attributes}
use cosmwasm_etl.EventLog.Error.{ok, crash}
use cosmwasm_etl.Dex.Types.{meta_text, PoolInfo}
use cosmwasm_etl.Dex.Amount.{amount_add, index_of}
use cosmwasm_etl.Dex.Amount.Laws.{FirstAt, amount_add_lem, index_of-FirstAt}
use cosmwasm_etl.Dex.Validation.{pair_mismatches}
use cosmwasm_etl.Dex.Validation.Agree.{AmountsAgree, pair_mismatches_iff}
use cosmwasm_etl.Dex.Mappers.{bare}
use cosmwasm_etl.Dex.Mappers.Transfers.{wasm_transfer_to_parsed_tx, transfer_tx}
use cosmwasm_etl.Dex.Mappers.Transfers.Outflow.{pair_of, booked, wasm_transfer_booked}

amount_add_lem_example :
    (amount_add (print_ℤ (pos 12)) (print_ℤ (negsuc 19)) ≡ ok (print_ℤ (pos 12 +ℤ negsuc 19)))
    × (amount_add (print_ℤ (negsuc 19)) (print_ℤ (pos 12))
        ≡ amount_add (print_ℤ (pos 12)) (print_ℤ (negsuc 19)))
amount_add_lem_example = amount_add_lem (pos 12) (negsuc 19)

abbrev denoms : List String
denoms = "uluna" ∷ "uusd" ∷ []

index_of-FirstAt_example : FirstAt 0 denoms "uusd" (index_of denoms "uusd")
index_of-FirstAt_example = index_of-FirstAt denoms "uusd"

-- The pool as it was parsed, one asset short, and as the node has it.
abbrev parsed_pool : PoolInfo
parsed_pool = record {
  contract_addr = "pair";
  assets = record { addr = "uluna"; amount = "10" } ∷ [];
  lp_addr = "lp";
  total_share = "5";
}

abbrev node_pool : PoolInfo
node_pool = record parsed_pool {
  assets = record { addr = "uluna"; amount = "10" } ∷ record { addr = "uusd"; amount = "20" } ∷ [];
}

pair_mismatches_iff_example : (pair_mismatches parsed_pool node_pool ≡ []) ↔ (
    AmountsAgree node_pool.assets parsed_pool.assets
    × (node_pool.total_share ≡ parsed_pool.total_share))
pair_mismatches_iff_example = pair_mismatches_iff parsed_pool node_pool

abbrev mint_attrs : Attributes
mint_attrs =
    record { key = "_contract_address"; value = "lp"; msg_index = pos 0 }
    ∷ record { key = "action"; value = "mint"; msg_index = pos 0 }
    ∷ record { key = "amount"; value = "5"; msg_index = pos 0 }
    ∷ record { key = "to"; value = "pair"; msg_index = pos 0 }
    ∷ []

abbrev pairs : Dict Bool
pairs = insert empty "pair" true

wasm_transfer_booked_example :
    wasm_transfer_to_parsed_tx (pair_of "pair" "lp" "uluna" "token") "token" "pair" "7" true ≡ (
      if "uluna" == "token"
      then ok (
          transfer_tx
            (pair_of "pair" "lp" "uluna" "token")
            "pair"
            (pos 0)
            empty
            (record { first = booked true "uluna" "7"; second = bare "token" }))
      else if "token" == "token"
      then ok (
          transfer_tx
            (pair_of "pair" "lp" "uluna" "token")
            "pair"
            (pos 0)
            empty
            (record { first = bare "uluna"; second = booked true "token" "7" }))
      else if true
      then crash
      else ok (
          transfer_tx
            (pair_of "pair" "lp" "uluna" "token")
            "pair"
            (pos 0)
            (insert empty "token" (meta_text "7"))
            (record { first = bare "uluna"; second = bare "token" })))
wasm_transfer_booked_example =
    wasm_transfer_booked "pair" "lp" "uluna" "token" "token" "pair" "7" true
