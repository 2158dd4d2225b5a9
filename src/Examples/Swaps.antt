-- ===== src/Examples/Swaps.antt =====
-- The applications of Dezswap and Starfleit on a swap.
use cosmwasm_etl.Prelude.{String, ◌≡◌, ◌↔◌, refl, true, List, [], ◌∷◌, some, ◌==◌, if◌then◌else◌}
use cosmwasm_etl.Prelude.Int.{pos}
use cosmwasm_etl.Prelude.Decimal.{print_ℤ}
use cosmwasm_etl.Prelude.Dict.{empty, insert, contains}
use cosmwasm_etl.EventLog.Types.{Attribute, LogResult, wasm_type}
use cosmwasm_etl.EventLog.Error.{Fallible, ok, err, message}
use cosmwasm_etl.Dex.Types.{RawTx, ParsedTx}
use cosmwasm_etl.Dex.Amount.{amount_add}
use cosmwasm_etl.Dezswap.Pairs.{v2, version_by, apply_refund_asset}
use cosmwasm_etl.Dezswap.Pairs.Refund.{coins, booked, withheld, apply_refund_lem}
use cosmwasm_etl.Dezswap.App.{DezswapApp, Parsers, dezswap, parse_txs, update_parsers}
use cosmwasm_etl.Dezswap.App.Whole.{Returns, parse_txs-Returns}
use cosmwasm_etl.Dezswap.App.Known.{update_parsers_known}
use cosmwasm_etl.Starfleit.{starfleit_parse_txs}
use cosmwasm_etl.Starfleit.Whole.{starfleit-Returns}

abbrev attribute : String → String → Attribute
attribute key value = record { key = key; value = value; msg_index = pos 0 }

abbrev swap_log : LogResult
swap_log = record {
  kind = wasm_type;
  attributes =
      attribute "_contract_address" "pair"
      ∷ attribute "action" "swap"
      ∷ attribute "ask_asset" "uusd"
      ∷ attribute "commission_amount" "3"
      ∷ attribute "offer_amount" "1000"
      ∷ attribute "offer_asset" "token"
      ∷ attribute "receiver" "r"
      ∷ attribute "return_amount" "900"
      ∷ attribute "sender" "s"
      ∷ attribute "spread_amount" "1"
      ∷ [];
}

abbrev tx : RawTx
tx = record { hash = "h"; sender = "alice"; timestamp = 7; log_results = swap_log ∷ [] }

abbrev app : DezswapApp
app = record {
  chain_id = "dimension_37-1";
  factory_address = "factory";
  parsers =
      some (record { known = insert empty "pair" true; version = v2; token_exceptions = empty });
  pairs =
      insert empty "pair"
        (record { contract_addr = "pair"; assets = "token" ∷ "uusd" ∷ []; lp_addr = "lp" });
  lp_pair_addrs = insert empty "lp" "pair";
}

abbrev swap_parsed : Fallible cosmwasm_etl.Dex.Quarantine.AppError (List ParsedTx)
swap_parsed = (parse_txs dezswap tx 4000000 app).0

parse_txs-Returns_example : Returns tx (parse_txs dezswap tx 4000000 app).0
parse_txs-Returns_example = parse_txs-Returns tx 4000000 app

abbrev starfleit_app : DezswapApp
starfleit_app = record app { chain_id = "fetchhub-4"; factory_address = "fetchhub-4" }

starfleit-Returns_example : Returns tx (starfleit_parse_txs tx 12000000 starfleit_app).0
starfleit-Returns_example = starfleit-Returns tx 12000000 starfleit_app

second : dezswap.version_of "dimension_37-1" 4000000 ≡ ok v2
unfolding dezswap version_by
second = refl

update_parsers_known_example :
    (parsers : Parsers) × ((update_parsers dezswap empty 4000000 app).1.parsers ≡ some parsers)
    × (parsers.version ≡ v2)
    × ((k : String) → (contains parsers.known k ≡ true) ↔ (contains app.pairs k ≡ true))
update_parsers_known_example = update_parsers_known dezswap empty 4000000 app v2 second

apply_refund_lem_example :
    (apply_refund_asset
        (record { first = coins "xpla1token" (pos 10); second = coins "axpla" (pos 20) })
        (record { first = coins "xpla1token" (pos 4); second = coins "axpla" (pos 5) })
      ≡ (if "xpla1token" == "xpla1token"
          then ok (record {
            first = coins "xpla1token" (booked "xpla1token" (pos 10) (pos 4));
            second = coins "axpla" (booked "axpla" (pos 20) (pos 5));
          })
          else err (message "provide and refund assets must be same order")))
    × (amount_add
          (print_ℤ (booked "xpla1token" (pos 10) (pos 4)))
          (print_ℤ (withheld "xpla1token" (pos 4)))
        ≡ ok (print_ℤ (pos 10)))
    × (amount_add (print_ℤ (booked "axpla" (pos 20) (pos 5))) (print_ℤ (withheld "axpla" (pos 5)))
        ≡ ok (print_ℤ (pos 20)))
apply_refund_lem_example =
    apply_refund_lem "xpla1token" "axpla" "xpla1token" (pos 10) (pos 20) (pos 4) (pos 5)
