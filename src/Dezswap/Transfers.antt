-- ===== src/Dezswap/Transfers.antt =====
-- parser/dex/dezswap/mappers.go: new pairs, and transfers to and from a pair.
use cosmwasm_etl.Prelude.{
  ℕ, String, Bool, true, false, List, [], ◌∷◌, Option, none, some, ◌==◌, if◌then◌else◌, ltb, length,
  get_elem?,
}
use cosmwasm_etl.Prelude.Int.{pos, negsuc}
use cosmwasm_etl.Prelude.Dict.{Dict, empty, lookup, insert}
use cosmwasm_etl.Prelude.Text.{append, join, split}
use cosmwasm_etl.EventLog.Types.{MatchedItem, MatchedResult}
use cosmwasm_etl.EventLog.Error.{
  Error, message, Result, ok, err, wrap_err, ◌>>=◌, map_result, or_crash,
}
use cosmwasm_etl.EventLog.Keys.{result_to_item_map_for_keys}
use cosmwasm_etl.Dex.Types.{
  meta_text, Asset, Assets, ParsedTx, Pair, empty_tx, create_pair, transfer,
}
use cosmwasm_etl.Dex.Amount.{index_of, get_asset_from_amount_asset_string}
use cosmwasm_etl.Dex.Mappers.{checked, value_at, value_of_key, bare}
use cosmwasm_etl.Dex.Mappers.Transfers.{with_assets, change_asset, transfer_fallback_sender}
use cosmwasm_etl.Dex.Mappers.Sorting.{sort_result}

abbrev new_pair : List String → String → String → Result (List ParsedTx)
new_pair (first ∷ second ∷ []) contract lp = ok (
    record empty_tx {
      kind = create_pair;
      contract_addr = contract;
      assets = record { first = bare first; second = bare second };
      lp_addr = lp;
    }
    ∷ [])
new_pair _ contract lp = err (message "expected assets length(2)")

-- The fields of a sorted result: after the check they are all there.
abbrev sorted_pair : MatchedResult → Result (List ParsedTx)
sorted_pair res = do
  pair ← value_at res 2
  contract ← value_at res 3
  lp ← value_at res 4
  new_pair (split b'-' pair) contract lp

unfoldable pub create_pair_mapper : MatchedResult → Result (List ParsedTx)
unfolding checked sort_result
create_pair_mapper res =
    checked "createPairMapper.MatchedToParsedTx" 5 res (sorted_pair (sort_result res))

-- `pairBy`: the pair, and whether it is the sender; `none` is its error, which no caller passes on.
unfoldable pub pair_by : Dict Pair → String → String → Option (Pair × Bool)
pair_by pair_set from to = elim (lookup pair_set from) [
  | some pair ↦ some (pair, true)
  | none ↦ elim (lookup pair_set to) [ none ↦ none | some pair ↦ some (pair, false) ]
]

abbrev pub signed : Bool → String → String
signed from_pair amount = if from_pair then append "-" amount else amount

-- A list of texts in `%s`.
abbrev shown : List String → String
shown texts = append "[" (append (join " " texts) "]")

abbrev wrong_asset : String → Pair → Error
wrong_asset token pair = message (
    append "wrong asset(" (
      append token (
        append "), pair("
          (append pair.contract_addr (append ") assets(" (append (shown pair.assets) ")"))))))

-- `assets[idx]` of an asset that is not in the pair is an error.
abbrev pub place : Pair → String → Assets → (Asset → Asset) → Result Assets
place pair token assets f = elim (index_of pair.assets token) [
  | negsuc i ↦ err (wrong_asset token pair)
  | pos i ↦ change_asset assets (pos i) f
]

abbrev pub moved_tx : Pair → String → String → Assets → ParsedTx
moved_tx pair from to assets = record empty_tx {
  kind = transfer;
  sender = from;
  contract_addr = pair.contract_addr;
  assets = assets;
  meta = some (insert empty "recipient" (meta_text to));
}

-- `wasmTransferMapper.matchedToParsedTx`
unfoldable pub token_moved :
    Pair → String → String → String → String → Bool → Result (List ParsedTx)
unfolding change_asset join
token_moved pair from to token amount from_pair = with_assets pair.assets λ assets.
    map_result (λ changed. moved_tx pair from to changed ∷ [])
      (place pair token assets (λ a. record a { amount = signed from_pair amount }))

unfoldable pub between : Dict Pair → String → String → String → String → Result (List ParsedTx)
unfolding pair_by token_moved
between pair_set from to token amount = elim (pair_by pair_set from to) [
  | none ↦ ok []
  | some (pair, from_pair) ↦ token_moved pair from to token amount from_pair
]

abbrev pub fields : Dict Pair → MatchedResult → ℕ → ℕ → ℕ → Result (List ParsedTx)
fields pair_set res from_idx to_idx amount_idx = do
  from ← value_at res from_idx
  to ← value_at res to_idx
  token ← value_at res 0
  amount ← value_at res amount_idx
  between pair_set from to token amount

-- `transferMatchedToParsedTx`: a result of other keys is passed over.
unfoldable pub token_transfer : Dict Pair → MatchedResult → Result (List ParsedTx)
unfolding between
token_transfer pair_set res =
    if ltb 4 (length res)
    then (or_crash (get_elem? res 3) >>= λ sender.
        if sender.key == "from" then fields pair_set res 3 4 2 else ok [])
    else ok []

-- `transferFromMatchedToParsedTx`
unfoldable pub token_transfer_from : Dict Pair → MatchedResult → Result (List ParsedTx)
unfolding checked between
token_transfer_from pair_set res =
    checked "wasmTransferMapper.transferFromMatchedToParsedTx" 6 res (fields pair_set res 4 5 2)

abbrev pub excepted : Dict Bool → MatchedResult → Bool
excepted token_exceptions [] = false
excepted token_exceptions (token ∷ _) = elim (lookup token_exceptions token.value) [
  | none ↦ false
  | some b ↦ b
]

-- The exchanges differ in how the fields of the two actions are read.
module _ (by_transfer by_transfer_from : MatchedResult → Result (List ParsedTx)) where
  abbrev pub token_action : MatchedResult → String → Result (List ParsedTx)
  token_action res action =
      if action == "transfer"
      then by_transfer res
      else if action == "transfer_from"
      then by_transfer_from res
      else err (message "expected action(transfer) or (transfer_from)")

  abbrev pub sorted_transfer : Dict Bool → MatchedResult → Result (List ParsedTx)
  sorted_transfer token_exceptions res =
      if excepted token_exceptions res then ok [] else value_at res 1 >>= token_action res

-- `wasmTransferMapper.MatchedToParsedTx`
unfoldable pub wasm_transfer_mapper : Dict Pair → Dict Bool → MatchedResult → Result (List ParsedTx)
unfolding sort_result token_transfer token_transfer_from
wasm_transfer_mapper pair_set token_exceptions res =
    sorted_transfer (token_transfer pair_set) (token_transfer_from pair_set) token_exceptions
      (sort_result res)

-- The loop over the amounts of `transferMapper`.
unfoldable pub coins_moved : Pair → Bool → List String → Assets → Result Assets
unfolding change_asset join
coins_moved pair from_pair [] assets = ok assets
coins_moved pair from_pair (text ∷ texts) assets = elim (text == "") [
  | true ↦ coins_moved pair from_pair texts assets
  | false ↦
      wrap_err "transferMapper.MatchedToParsedTx" (get_asset_from_amount_asset_string text)
      >>= λ asset.
          place pair asset.addr assets
            (λ _. record asset { amount = signed from_pair asset.amount })
          >>= coins_moved pair from_pair texts
]

abbrev pub coin_tx : Pair → Bool → String → String → String → Result (List ParsedTx)
coin_tx pair from_pair from to text = with_assets pair.assets λ assets.
    if text == ""
    then err (message "empty amount")
    else map_result (λ changed. moved_tx pair from to changed ∷ [])
        (coins_moved pair from_pair (split b',' text) assets)

abbrev pub coins_between :
    Dict Pair → List (Option String) → Dict MatchedItem → Result (List ParsedTx)
coins_between pair_set optionals items =
    let given = value_of_key items "sender" in
    let from = if given == "" then transfer_fallback_sender optionals else given in
    let to = value_of_key items "recipient" in
    elim (pair_by pair_set from to) [
      | none ↦ ok []
      | some (pair, from_pair) ↦ coin_tx pair from_pair from to (value_of_key items "amount")
    ]

-- `transferMapper.MatchedToParsedTx`
unfoldable pub transfer_mapper :
    Dict Pair → List (Option String) → MatchedResult → Result (List ParsedTx)
unfolding checked pair_by coins_moved value_of_key transfer_fallback_sender
transfer_mapper pair_set optionals res = checked "transferMapper.MatchedToParsedTx" 2 res (
    wrap_err "transferMapper.MatchedToParsedTx"
      (result_to_item_map_for_keys res ("sender" ∷ "recipient" ∷ "amount" ∷ []))
    >>= coins_between pair_set optionals)
