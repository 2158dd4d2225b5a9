-- ===== src/Starfleit/Whole.antt =====
-- About ParseTxs of parser/dex/starfleit/app.go: whose transactions it returns.
use cosmwasm_etl.Prelude.{
  ℕ, String, ◌≡◌, refl, Bool, true, List, [], ◌∷◌, Option, arith, none, some,
}
use cosmwasm_etl.Prelude.Dict.{Dict}
use cosmwasm_etl.Prelude.Text.{split}
use cosmwasm_etl.EventLog.Types.{MatchedItem, MatchedResult}
use cosmwasm_etl.Dex.Types.{RawTx, Pair}
use cosmwasm_etl.Dex.Mappers.{checked}
use cosmwasm_etl.Dex.Mappers.Sorting.{sort_result}
use cosmwasm_etl.Dezswap.Transfers.{pair_by}
use cosmwasm_etl.Dezswap.Pairs.{Version}
use cosmwasm_etl.Dezswap.App.{DezswapApp}
use cosmwasm_etl.Dezswap.App.Blank.{
  yields, LeavesBlank, action_blank, create_pair_blank, fields_blank, sorted_transfer_blank,
}
use cosmwasm_etl.Dezswap.App.Whole.{Returns, all-Returns}
use cosmwasm_etl.Starfleit.{
  full_provide, pair_actions, v1_transfer, v2_transfer, token_transfers, amounts_tx, amounts_of,
  amounts_between, coin_transfers, starfleit, starfleit_parse_txs,
}

full_provide_blank : (res : MatchedResult) (pair : Pair) → yields (full_provide res pair) ≡ true
unfolding full_provide checked
full_provide_blank res pair = ground arith

pair_actions_blank :
    (version : Version) (pairs : Dict Pair) (res : MatchedResult)
    → yields (pair_actions version pairs res) ≡ true
unfolding pair_actions
pair_actions_blank = action_blank "pairMapper.swapMatchedToParsedTx" full_provide full_provide_blank

v1_blank : (pairs : Dict Pair) (res : MatchedResult) → yields (v1_transfer pairs res) ≡ true
unfolding v1_transfer checked
v1_blank pairs res = ground (arith, fields_blank pairs res 3 4 2)

v2_blank : (pairs : Dict Pair) (res : MatchedResult) → yields (v2_transfer pairs res) ≡ true
unfolding v2_transfer checked
v2_blank pairs res = ground (arith, fields_blank pairs res 4 5 2)

token_transfers_blank :
    (pairs : Dict Pair) (exceptions : Dict Bool) (res : MatchedResult)
    → yields (token_transfers pairs exceptions res) ≡ true
unfolding token_transfers
token_transfers_blank pairs exceptions res =
    sorted_transfer_blank (v1_transfer pairs) (v2_transfer pairs) (v1_blank pairs) (v2_blank pairs)
      exceptions (sort_result res)

amounts_tx_blank :
    (pair : Pair) (from_pair : Bool) (from to : String) (texts : List String)
    → yields (amounts_tx pair from_pair from to texts) ≡ true
amounts_tx_blank pair from_pair from to [] = refl
amounts_tx_blank pair from_pair from to (text ∷ texts) = ground arith

amounts_of_blank :
    (from to text : String) (found : Option (Pair × Bool))
    → yields (amounts_of from to text found) ≡ true
amounts_of_blank from to text none = refl
amounts_of_blank from to text (some (pair, b)) = amounts_tx_blank pair b from to (split b',' text)

amounts_between_blank :
    (pairs : Dict Pair) (optionals : List (Option String)) (items : Dict MatchedItem)
    → yields (amounts_between pairs optionals items) ≡ true
amounts_between_blank pairs optionals items = amounts_of_blank _ _ _ (pair_by pairs _ _)

coin_transfers_blank :
    (pairs : Dict Pair) (optionals : List (Option String)) (res : MatchedResult)
    → yields (coin_transfers pairs optionals res) ≡ true
unfolding coin_transfers
coin_transfers_blank pairs optionals res = ground arith

starfleit-LeavesBlank : LeavesBlank starfleit
unfolding starfleit
starfleit-LeavesBlank =
    (create_pair_blank, pair_actions_blank, token_transfers_blank, coin_transfers_blank)

-- Every transaction of Starfleit that `ParseTxs` returns has the hash and the time of the transaction of
-- the chain, whatever its logs; so have those that come with an error, and such an error leaves them
-- only where the logs have no new pair.
pub starfleit-Returns :
    (tx : RawTx) (height : ℕ) (app : DezswapApp) → Returns tx (starfleit_parse_txs tx height app).0
starfleit-Returns tx height app = all-Returns starfleit starfleit-LeavesBlank tx height app
