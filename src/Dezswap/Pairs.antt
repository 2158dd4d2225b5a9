-- ===== src/Dezswap/Pairs.antt =====
-- parser/dex/dezswap/pair.mappers.go: the actions of a pair. The indexes are those of
-- pkg/dex/dezswap/consts.go.
pub mod Refund
use cosmwasm_etl.Prelude.{
  ℕ, String, Bool, true, false, List, [], ◌∷◌, Option, none, some, ◌==◌, if◌then◌else◌, ltb, length,
  get_elem?, starts_with,
}
use cosmwasm_etl.Prelude.Int.{◌-ℤ◌}
use cosmwasm_etl.Prelude.Dict.{Dict, empty, lookup, insert}
use cosmwasm_etl.Prelude.Decimal.{print_ℤ}
use cosmwasm_etl.Prelude.Text.{append}
use cosmwasm_etl.EventLog.Types.{MatchedItem, MatchedResult}
use cosmwasm_etl.EventLog.Error.{
  Error, message, Result, Fallible, ok, err, crash, wrap_err, ◌>>=◌, ◌>>◌, and_then, map_result,
  or_crash,
}
use cosmwasm_etl.EventLog.Keys.{result_to_item_map_for_keys}
use cosmwasm_etl.Dex.Types.{
  meta_assets, Asset, Assets, ParsedTx, Pair, empty_tx, swap, provide, withdraw,
}
use cosmwasm_etl.Dex.Amount.{get_assets_from_assets_string, to_big_int}
use cosmwasm_etl.Dex.Mappers.{checked, value_at, value_of_key}
use cosmwasm_etl.Dex.Mappers.Transfers.{with_assets}
use cosmwasm_etl.Dex.Mappers.Sorting.{sort_result}

-- `xpla.IsCw20` of pkg/xpla/utils.go
unfoldable pub is_cw20 : String → Bool
is_cw20 addr = starts_with addr "xpla1"

abbrev minus : String → String
minus amount = append "-" amount

abbrev set_amount : String → Asset → Asset
set_amount amount a = record a { amount = amount }

-- The offered asset is the second one if it is the second of the pair, and else the first.
unfoldable pub swapped : Bool → String → String → Assets → Assets
swapped true offer return assets = record {
  first = set_amount (minus return) assets.first;
  second = set_amount offer assets.second;
}
swapped false offer return assets = record {
  first = set_amount offer assets.first;
  second = set_amount (minus return) assets.second;
}

abbrev swap_keys : List String
swap_keys = "offer_asset" ∷ "offer_amount" ∷ "return_amount" ∷ "sender" ∷ "commission_amount" ∷ []

abbrev swap_tx : Dict MatchedItem → String → Assets → ParsedTx
swap_tx items contract assets = record empty_tx {
  kind = swap;
  sender = value_of_key items "sender";
  contract_addr = contract;
  assets =
      swapped (assets.second.addr == value_of_key items "offer_asset")
        (value_of_key items "offer_amount") (value_of_key items "return_amount") assets;
  commission_amount = value_of_key items "commission_amount";
}

unfoldable pub swap_to_parsed_tx : String → MatchedResult → Pair → Result (List ParsedTx)
unfolding checked swapped value_of_key
swap_to_parsed_tx name res pair = checked name 10 res (do
  items ←
      wrap_err "pairMapperMixin.swapMatchedToParsedTx" (result_to_item_map_for_keys res swap_keys)
  contract ← value_at res 0
  with_assets pair.assets λ assets. ok (swap_tx items contract assets ∷ []))

-- The assets in the order of the pair, which is told by the first of them.
abbrev pub in_order : List String → List Asset → Result Assets
in_order (first ∷ _) (a ∷ b ∷ _) =
    ok (
      if a.addr == first
      then record { first = a; second = b }
      else record { first = b; second = a })
in_order _ _ = crash

unfoldable pub pair_assets : String → Pair → String → Result Assets
unfolding get_assets_from_assets_string
pair_assets name pair text =
    wrap_err name (get_assets_from_assets_string text) >>= in_order pair.assets

unfoldable pub provide_to_parsed_tx : MatchedResult → Pair → Result (List ParsedTx)
unfolding checked pair_assets
provide_to_parsed_tx res pair = checked "pairMapper.PairProvideMatchedLen" 6 res (do
  text ← value_at res 2
  assets ← pair_assets "pairMapper.provideMatchedToParsedTx" pair text
  sender ← value_at res 4
  contract ← value_at res 0
  share ← value_at res 5
  ok (
      record empty_tx {
        kind = provide;
        sender = sender;
        contract_addr = contract;
        assets = assets;
        lp_addr = pair.lp_addr;
        lp_amount = share;
      }
      ∷ []))

abbrev negated : Asset → Asset
negated a = set_amount (minus a.amount) a

unfoldable pub withdraw_to_parsed_tx : MatchedResult → Pair → Result (List ParsedTx)
unfolding checked pair_assets
withdraw_to_parsed_tx res pair = checked "pairMapper.withdrawMatchedToParsedTx" 5 res (do
  text ← value_at res 2
  assets ← pair_assets "pairMapper.withdrawMatchedToParsedTx" pair text
  sender ← value_at res 3
  contract ← value_at res 0
  share ← value_at res 4
  ok (
      record empty_tx {
        kind = withdraw;
        sender = sender;
        contract_addr = contract;
        assets = record { first = negated assets.first; second = negated assets.second };
        lp_addr = pair.lp_addr;
        lp_amount = share;
      }
      ∷ []))

-- One round of `applyRefundAsset`.
unfoldable pub refunded : Asset → Asset → Result Asset
unfolding is_cw20
refunded given refund =
    if given.addr == refund.addr
    then if is_cw20 given.addr
      then (do
        amount ← to_big_int given.amount
        refund_amount ← to_big_int refund.amount
        ok (set_amount (print_ℤ (amount -ℤ refund_amount)) given))
      else ok given
    else err (message "provide and refund assets must be same order")

unfoldable pub apply_refund_asset : Assets → Assets → Result Assets
unfolding refunded
apply_refund_asset given refund = do
  first ← refunded given.first refund.first
  second ← refunded given.second refund.second
  ok (record { first = first; second = second })

-- `pairV2Mapper.provideMatchedToParsedTx`
unfoldable pub provide_v2_to_parsed_tx : MatchedResult → Pair → Result (List ParsedTx)
unfolding checked pair_assets apply_refund_asset
provide_v2_to_parsed_tx res pair = checked "v2PairMapper.PairProvideMatchedLen" 7 res (do
  text ← value_at res 2
  assets ← pair_assets "v2PairMapper.provideMatchedToParsedTx" pair text
  refund ← or_crash (get_elem? res 4)
  refunds ← pair_assets "v2PairMapper.provideMatchedToParsedTx" pair refund.value
  applied ← wrap_err "v2PairMapper.provideMatchedToParsedTx" (apply_refund_asset assets refunds)
  sender ← value_at res 5
  contract ← value_at res 0
  share ← value_at res 6
  ok (
      record empty_tx {
        kind = provide;
        sender = sender;
        contract_addr = contract;
        assets = applied;
        lp_addr = pair.lp_addr;
        lp_amount = share;
        meta = some (insert empty refund.key (meta_assets (refunds.first ∷ refunds.second ∷ [])));
      }
      ∷ []))

-- `pairMapper`: the first version or the second.
pub data Version : Type 0 where
  v1 : Version
  v2 : Version

-- `pairMapperBy`
unfoldable pub version_by : String → ℕ → Result Version
version_by chain_id height =
    if starts_with chain_id "cube_47"
    then ok (if ltb height 2975818 then v1 else v2)
    else if starts_with chain_id "dimension_37"
    then ok (if ltb height 3166247 then v1 else v2)
    else err (message "chainId is not supported")

abbrev pub get_pair : Dict Pair → String → Result Pair
get_pair pair_set addr = elim (lookup pair_set addr) [
  | none ↦ err (message (append "pairMapper.MatchedToParsedTx no pair(" (append addr ")")))
  | some pair ↦ ok pair
]

-- The exchanges differ in the name that an error of a swap carries, and in the second version of a
-- provide.
module _ (swap_name : String) (provide_v2 : MatchedResult → Pair → Result (List ParsedTx)) where
  abbrev pub by_action : Version → String → MatchedResult → Pair → Result (List ParsedTx)
  by_action version action res pair =
      if action == "swap"
      then swap_to_parsed_tx swap_name res pair
      else if action == "provide_liquidity"
      then elim version [ v1 ↦ provide_to_parsed_tx res pair | v2 ↦ provide_v2 res pair ]
      else if action == "withdraw_liquidity"
      then withdraw_to_parsed_tx res pair
      else err (message "action must be (swap, provide_liquidity, withdraw_liquidity)")

  abbrev pub sorted_action : Version → Dict Pair → MatchedResult → Result (List ParsedTx)
  sorted_action version pair_set res = do
    addr ← value_at res 0
    pair ← wrap_err "pairMapperImpl.MatchedToParsedTx" (get_pair pair_set addr)
    action ← value_at res 1
    by_action version action res pair

  -- `pairMapperImpl.MatchedToParsedTx`
  unfoldable pub action_mapper : Version → Dict Pair → MatchedResult → Result (List ParsedTx)
  unfolding sort_result swap_to_parsed_tx provide_to_parsed_tx withdraw_to_parsed_tx
  action_mapper version pair_set res =
      if ltb (length res) 2
      then err (message "results length must bigger than 2")
      else sorted_action version pair_set (sort_result res)

unfoldable pub pair_mapper : Version → Dict Pair → MatchedResult → Result (List ParsedTx)
unfolding action_mapper provide_v2_to_parsed_tx
pair_mapper = action_mapper "pairMapperMixin.swapMatchedToParsedTx" provide_v2_to_parsed_tx
