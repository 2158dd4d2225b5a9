-- ===== src/Examples/Events.antt =====
-- Events of a swap, and what pkg/eventlog and parser make of them.
use cosmwasm_etl.Prelude.{
  ℕ, ◌+◌, ◌≡◌, refl, String, List, [], ◌∷◌, ◌++◌, none, some, arith, All, concat, map_list, select,
}
use mathlib.Core.List.{Perm}
use cosmwasm_etl.Prelude.Int.{pos}
use cosmwasm_etl.Prelude.Sub.{Sub}
use cosmwasm_etl.Prelude.Dict.{Dict, lookup}
use cosmwasm_etl.EventLog.Types.{
  Attribute, Attributes, LogResults, MatchedItem, MatchedResult, MatchedResults, to_item, to_items,
  wasm_type, transfer_type,
}
use cosmwasm_etl.EventLog.Rule.{Rule, nothing, exact, valid, new_log_finder}
use cosmwasm_etl.EventLog.Error.{message, ambiguous, ok, err, Result, wrapped}
use cosmwasm_etl.EventLog.Finder.{done, find_from_attrs, find_from_logs, find_loop, out_of_fuel}
use cosmwasm_etl.EventLog.Finder.Order.{find_from_attrs_in_order}
use cosmwasm_etl.EventLog.Finder.Sound.{FitsRule, find_from_attrs_fits}
use cosmwasm_etl.EventLog.Finder.Complete.{empty_rule, find_loop_empty_diverges}
use cosmwasm_etl.EventLog.Keys.{result_to_item_map_for_keys, ambiguity}
use cosmwasm_etl.EventLog.Keys.Unique.{
  reads, result_to_item_map_unique, result_to_item_map_ambiguous,
}
use cosmwasm_etl.EventLog.Sort.{sort_attributes, listed, normalize_transfer_attrs}
use cosmwasm_etl.EventLog.Sort.Keep.{order_of, sort_attributes-Perm}
use cosmwasm_etl.EventLog.Sort.Transfers.{
  Transfer, ars, sra, as_emitted, as_wanted, normalize_transfers,
}
use cosmwasm_etl.Parser.{override_all, Mapper, parse, returned}
use cosmwasm_etl.Parser.Loop.{verdicts, txs_of, noted, parse-GoesOn, parse_stops}

abbrev attr : String → String → Attribute
attr key value = record { key = key; value = value; msg_index = pos 0 }

abbrev swap_rule : Rule
swap_rule = record {
  kind = wasm_type;
  items =
      record { key = "_contract_address"; filter = nothing }
      ∷ record { key = "action"; filter = exact "swap" }
      ∷ [];
  until = "_contract_address";
}

-- A swap, with a key to be skipped between the items, and the token's own event behind it.
abbrev swap_attrs : Attributes
swap_attrs =
    attr "_contract_address" "pair"
    ∷ attr "msg_index" "0"
    ∷ attr "action" "swap"
    ∷ attr "offer_amount" "10"
    ∷ attr "_contract_address" "token"
    ∷ attr "action" "transfer"
    ∷ []

abbrev swap_found : MatchedResult
swap_found =
    to_items
      (attr "_contract_address" "pair" ∷ attr "action" "swap" ∷ attr "offer_amount" "10" ∷ [])

swap_run : find_from_attrs swap_rule swap_attrs ≡ done (swap_found ∷ [])
unfolding find_from_attrs
swap_run = refl

find_from_attrs_in_order_example :
    (found : MatchedResults) × (find_from_attrs swap_rule swap_attrs ≡ done found)
    × Sub (concat found) (to_items swap_attrs)
find_from_attrs_in_order_example = find_from_attrs_in_order swap_attrs swap_rule (omega arith)

find_from_attrs_fits_example : All (FitsRule swap_rule swap_attrs) (swap_found ∷ [])
find_from_attrs_fits_example = find_from_attrs_fits swap_rule swap_attrs (swap_found ∷ []) swap_run

-- The token's event holds no swap.
abbrev token_attrs : Attributes
token_attrs = attr "_contract_address" "token" ∷ attr "action" "transfer" ∷ []

-- A swap behind the token's event.
abbrev later_attrs : Attributes
later_attrs =
    attr "_contract_address" "token"
    ∷ attr "action" "transfer"
    ∷ attr "_contract_address" "pair"
    ∷ attr "action" "swap"
    ∷ []

abbrev later_found : MatchedResults
later_found = to_items (attr "_contract_address" "pair" ∷ attr "action" "swap" ∷ []) ∷ []

abbrev logs : LogResults
logs =
    record { kind = transfer_type; attributes = token_attrs }
    ∷ record { kind = wasm_type; attributes = swap_attrs }
    ∷ []

find_loop_empty_diverges_example :
    (new_log_finder (empty_rule wasm_type) ≡ valid (empty_rule wasm_type))
    × (find_loop (empty_rule wasm_type) swap_attrs 100 0 [] ≡ out_of_fuel)
find_loop_empty_diverges_example =
    find_loop_empty_diverges wasm_type swap_attrs 100 0 [] (omega arith)

abbrev wanted_keys : List String
wanted_keys = "action" ∷ "offer_amount" ∷ "missing" ∷ []

result_to_item_map_unique_example :
    (d : Dict MatchedItem) × (result_to_item_map_for_keys swap_found wanted_keys ≡ ok d)
    × ((k : String) → lookup d k ≡ reads swap_found wanted_keys k)
result_to_item_map_unique_example =
    result_to_item_map_unique swap_found wanted_keys (omega arith, (omega arith, (omega arith, tt)))

abbrev twice : MatchedResult
twice = swap_found ++ to_item (attr "offer_amount" "11") ∷ []

result_to_item_map_ambiguous_example :
    result_to_item_map_for_keys twice wanted_keys
    ≡ err (
        ambiguous (
          ambiguity twice "offer_amount"
            (to_item (attr "offer_amount" "10"))
            (to_item (attr "offer_amount" "11") ∷ [])))
result_to_item_map_ambiguous_example =
    result_to_item_map_ambiguous twice ("action" ∷ []) "offer_amount" ("missing" ∷ [])
      (to_item (attr "offer_amount" "10")) (to_item (attr "offer_amount" "11")) [] (omega arith, tt)
      refl

sort_attributes-Perm_example :
    (sorted : Attributes) × (sort_attributes swap_attrs ("action" ∷ "_contract_address" ∷ [])
      ≡ ok sorted)
    × Perm sorted (select (listed (order_of ("action" ∷ "_contract_address" ∷ []))) swap_attrs)
sort_attributes-Perm_example = sort_attributes-Perm swap_attrs "action" ("_contract_address" ∷ [])

abbrev transfers : List Transfer
transfers =
    record { amount = "1uluna"; recipient = "a"; sender = "b"; msg_index = pos 0; emitted = sra }
    ∷ record { amount = "2uusd"; recipient = "b"; sender = "a"; msg_index = pos 1; emitted = ars }
    ∷ []

normalize_transfers_example :
    normalize_transfer_attrs (concat (map_list as_emitted transfers))
    ≡ ok (concat (map_list as_wanted transfers))
normalize_transfers_example = normalize_transfers transfers

-- A mapper that counts its calls and reads one key.
abbrev first_value : MatchedResult → String
first_value [] = ""
first_value (x ∷ xs) = x.value

abbrev count_mapper : Mapper ℕ String
count_mapper n m = (ok (first_value m ∷ []), n + 1)

abbrev same : String → Result String
same text = ok text

abbrev refuse : String → Result String
refuse text = err (message "refused")

logs_run : find_from_logs swap_rule logs ≡ done (swap_found ∷ [])
unfolding find_from_logs find_from_attrs
logs_run = refl

parse-GoesOn_example :
    (parse swap_rule count_mapper same logs 0).0
    ≡ returned
        (concat (map_list txs_of (verdicts count_mapper same 0 (swap_found ∷ []))))
        (noted none (verdicts count_mapper same 0 (swap_found ∷ [])))
unfolding override_all
parse-GoesOn_example =
    parse-GoesOn count_mapper same swap_rule logs 0 (swap_found ∷ []) logs_run (tt, tt)

parse_stops_example :
    (parse swap_rule count_mapper refuse logs 0).0
    ≡ returned [] (some (wrapped "parserImpl.Parse" (message "refused")))
unfolding override_all
parse_stops_example =
    parse_stops count_mapper refuse swap_rule logs 0 (swap_found ∷ []) logs_run (message "refused")
      refl
