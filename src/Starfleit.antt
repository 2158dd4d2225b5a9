-- ===== src/Starfleit.antt =====
-- parser/dex/starfleit: the application is that of Dezswap in its form, with mappers of its own. The
-- indexes are those of pkg/dex/starfleit/consts.go.
pub mod Whole
use cosmwasm_etl.Prelude.{
  ℕ, String, Bool, true, false, List, [], ◌∷◌, Option, none, some, ◌==◌, if◌then◌else◌, ltb,
  get_elem?, starts_with,
}
use cosmwasm_etl.Prelude.Dict.{Dict, empty, insert}
use cosmwasm_etl.Prelude.Text.{split}
use cosmwasm_etl.EventLog.Types.{MatchedItem, MatchedResult}
use cosmwasm_etl.EventLog.Error.{
  Error, message, Result, Fallible, ok, err, crash, wrap_err, ◌>>=◌, ◌>>◌, map_result, or_crash,
}
use cosmwasm_etl.EventLog.Keys.{result_to_item_map_for_keys}
use cosmwasm_etl.Dex.Types.{meta_assets, Assets, RawTx, ParsedTx, Pair, empty_tx, provide}
use cosmwasm_etl.Dex.Amount.{get_assets_from_assets_string, get_asset_from_amount_asset_string}
use cosmwasm_etl.Dex.Mappers.{checked, check_result, value_at, value_of_key}
use cosmwasm_etl.Dex.Mappers.Transfers.{with_assets, transfer_fallback_sender, change_asset}
use cosmwasm_etl.Dex.Mappers.Sorting.{sort_result}
use cosmwasm_etl.Dex.Rules.{starfleit_burn_rule}
use cosmwasm_etl.Dezswap.Pairs.{Version, v1, v2, in_order, action_mapper}
use cosmwasm_etl.Dezswap.Transfers.{
  create_pair_mapper, fields, sorted_transfer, pair_by, place, signed, moved_tx, between,
}
use cosmwasm_etl.Dex.Quarantine.{AppError}
use cosmwasm_etl.Dezswap.App.{Exchange, DezswapApp, parse_txs, update_parsers}

-- `pairV2Mapper.provideMatchedToParsedTx`: the refunds are noted in the order of the event, and not
-- taken off.
unfoldable pub full_provide : MatchedResult → Pair → Result (List ParsedTx)
unfolding checked get_assets_from_assets_string
full_provide res pair = checked "v2PairMapper.PairProvideMatchedLen" 7 res (do
  text ← value_at res 2
  given ← wrap_err "v2PairMapper.provideMatchedToParsedTx" (get_assets_from_assets_string text)
  refund ← or_crash (get_elem? res 4)
  refunds ←
      wrap_err "v2PairMapper.provideMatchedToParsedTx" (get_assets_from_assets_string refund.value)
  assets ← in_order pair.assets given
  sender ← value_at res 5
  contract ← value_at res 0
  share ← value_at res 6
  ok (
      record empty_tx {
        kind = provide;
        sender = sender;
        contract_addr = contract;
        assets = assets;
        lp_addr = pair.lp_addr;
        lp_amount = share;
        meta = some (insert empty refund.key (meta_assets refunds));
      }
      ∷ []))

-- `pairMapperImpl.MatchedToParsedTx`
unfoldable pub pair_actions : Version → Dict Pair → MatchedResult → Result (List ParsedTx)
unfolding action_mapper full_provide
pair_actions = action_mapper "pairMapper.swapMatchedToParsedTx" full_provide

-- `pairMapperBy`
unfoldable pub mapper_version : String → ℕ → Result Version
mapper_version chain_id height =
    if starts_with chain_id "dorado"
    then ok (if ltb height 11543129 then v1 else v2)
    else if starts_with chain_id "fetchhub"
    then ok (if ltb height 11543129 then v1 else v2)
    else err (message "chainId is not supported")

-- `v1MatchedToParsedTx`
unfoldable pub v1_transfer : Dict Pair → MatchedResult → Result (List ParsedTx)
unfolding checked between
v1_transfer pair_set res =
    checked "wasmTransferMapper.v1MatchedToParsedTx" 5 res (fields pair_set res 3 4 2)

-- `v2MatchedToParsedTx`
unfoldable pub v2_transfer : Dict Pair → MatchedResult → Result (List ParsedTx)
unfolding checked between
v2_transfer pair_set res =
    checked "wasmTransferMapper.v2MatchedToParsedTx" 6 res (fields pair_set res 4 5 2)

-- `wasmTransferMapper.MatchedToParsedTx`
unfoldable pub token_transfers : Dict Pair → Dict Bool → MatchedResult → Result (List ParsedTx)
unfolding sort_result v1_transfer v2_transfer
token_transfers pair_set token_exceptions res =
    sorted_transfer (v1_transfer pair_set) (v2_transfer pair_set) token_exceptions (sort_result res)

-- The loop over the amounts of `transferMapper`: an empty part is an error here.
unfoldable pub amounts_moved : Pair → Bool → List String → Assets → Result Assets
unfolding change_asset get_asset_from_amount_asset_string
amounts_moved pair from_pair [] assets = ok assets
amounts_moved pair from_pair (text ∷ texts) assets = do
  asset ← wrap_err "transferMapper.MatchedToParsedTx" (get_asset_from_amount_asset_string text)
  changed ←
      place pair asset.addr assets (λ _. record asset { amount = signed from_pair asset.amount })
  amounts_moved pair from_pair texts changed

abbrev pub amounts_tx : Pair → Bool → String → String → List String → Result (List ParsedTx)
amounts_tx pair from_pair from to [] =
    err (message "empty amount or wrong format(amounts separated by ,)")
amounts_tx pair from_pair from to (text ∷ texts) = with_assets pair.assets λ assets.
    map_result (λ changed. moved_tx pair from to changed ∷ [])
      (amounts_moved pair from_pair (text ∷ texts) assets)

abbrev pub amounts_of : String → String → String → Option (Pair × Bool) → Result (List ParsedTx)
amounts_of from to text none = ok []
amounts_of from to text (some (pair, from_pair)) =
    amounts_tx pair from_pair from to (split b',' text)

abbrev pub amounts_between :
    Dict Pair → List (Option String) → Dict MatchedItem → Result (List ParsedTx)
amounts_between pair_set optionals items =
    let given = value_of_key items "sender" in
    let from = if given == "" then transfer_fallback_sender optionals else given in
    let to = value_of_key items "recipient" in
    amounts_of from to (value_of_key items "amount") (pair_by pair_set from to)

-- `transferMapper.MatchedToParsedTx`. Every error of `CheckResult` is passed over: `errors.As` is given
-- a target of the type `error`. It also stores the error in the variable `ErrEmptyEventValue`, which
-- holds that value already, as the results of the finder of transfers are not too short.
unfoldable pub coin_transfers :
    Dict Pair → List (Option String) → MatchedResult → Result (List ParsedTx)
unfolding pair_by amounts_moved value_of_key transfer_fallback_sender check_result
coin_transfers pair_set optionals res = elim (check_result res 2) [
  | some e ↦ ok []
  | none ↦
      wrap_err "transferMapper.MatchedToParsedTx"
        (result_to_item_map_for_keys res ("sender" ∷ "recipient" ∷ "amount" ∷ []))
      >>= amounts_between pair_set optionals
]

-- The parts of the application that are not those of Dezswap.
unfoldable pub starfleit : Exchange
unfolding pair_actions create_pair_mapper token_transfers coin_transfers mapper_version
starfleit = record {
  name = "starfleit";
  create_pair = create_pair_mapper;
  pair_action = pair_actions;
  wasm_transfer = token_transfers;
  coin_transfer = coin_transfers;
  burn_events = starfleit_burn_rule;
  version_of = mapper_version;
}

-- `ParseTxs` of `starfleitApp`.
abbrev pub starfleit_parse_txs :
    RawTx → ℕ → DezswapApp → Fallible AppError (List ParsedTx) × DezswapApp
starfleit_parse_txs = parse_txs starfleit

-- `UpdateParsers` of `starfleitApp`.
abbrev pub starfleit_update_parsers :
    Dict Bool → ℕ → DezswapApp → Fallible AppError (Unit {0}) × DezswapApp
starfleit_update_parsers = update_parsers starfleit
