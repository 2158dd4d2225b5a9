-- ===== src/Dex/Mappers/Transfers.antt =====
-- parser/dex/mapper.go: the mappers of transfers, of CW20 tokens and of native coins.
pub mod Outflow
use cosmwasm_etl.Prelude.{
  ℕ, ◌+◌, String, Bool, true, false, not, zero, suc, ◌&&◌, ◌||◌, List, [], ◌∷◌, ◌++◌, Option, none,
  some, ◌==◌, if◌then◌else◌, ltb, eqb, length, get_elem?, starts_with,
}
use Prim.Native.Char.{code}
use mathlib.Core.Option.{map}
use Prim.Native.String
use cosmwasm_etl.Prelude.Int.{ℤ, pos, negsuc}
use cosmwasm_etl.Prelude.Dict.{Dict, empty, lookup, insert}
use cosmwasm_etl.Prelude.Decimal.{print_ℕ}
use cosmwasm_etl.Prelude.Text.{append, split}
use cosmwasm_etl.EventLog.Types.{MatchedItem, MatchedResult, msg_index_of}
use cosmwasm_etl.EventLog.Error.{
  Error, message, wrap, Result, ok, err, crash, wrap_err, wrapped, and_then, map_result,
}
use cosmwasm_etl.EventLog.Keys.{result_to_item_map_for_keys}
use cosmwasm_etl.Parser.{Mapper}
use cosmwasm_etl.Dex.Types.{
  MetaValue, meta_text, Asset, Assets, ParsedTx, Pair, TxType, no_asset, empty_tx, create_pair,
  initial_provide, transfer, tax_payment, lp_burn,
}
use cosmwasm_etl.Dex.Amount.{index_of, get_asset_from_amount_asset_string}
use cosmwasm_etl.Dex.Mappers.{check_result, value_of_key, bare}

unfoldable pub first_value_in_result : MatchedResult → String → String
first_value_in_result [] key = ""
first_value_in_result (item ∷ res) key =
    let rest = first_value_in_result res key in if item.key == key then item.value else rest

-- `assets[idx]` of `[2]Asset`, changed in place: any other index is out of range.
unfoldable pub change_asset : Assets → ℤ → (Asset → Asset) → Result Assets
change_asset assets (pos zero) f = ok (record assets { first = f assets.first })
change_asset assets (pos (suc zero)) f = ok (record assets { second = f assets.second })
change_asset assets _ f = crash

abbrev negate : Asset → Asset
negate a = record a { amount = append "-" a.amount }

-- The assets of a pair, without amounts: `pair.Assets[0]` and `pair.Assets[1]`.
abbrev pub with_assets : {A : Type 0} → List String → (Assets → Result A) → Result A
with_assets (first ∷ second ∷ _) k = k (record { first = bare first; second = bare second })
with_assets _ k = crash

-- `if fromPair { assets[idx].Amount = "-" + … }`
unfoldable pub outflow : Bool → Assets → ℤ → Result Assets
unfolding change_asset
outflow true assets idx = change_asset assets idx negate
outflow false assets idx = ok assets

abbrev pub transfer_tx : Pair → String → ℤ → Dict MetaValue → Assets → ParsedTx
transfer_tx pair from msg_index meta assets = record empty_tx {
  kind = transfer;
  sender = from;
  contract_addr = pair.contract_addr;
  assets = assets;
  msg_index = msg_index;
  meta = some meta;
}

unfoldable pub wasm_transfer_to_parsed_tx : Pair → String → String → String → Bool → Result ParsedTx
unfolding outflow change_asset
wasm_transfer_to_parsed_tx pair cw20_addr from amount from_pair = with_assets pair.assets λ assets.
    let idx = index_of pair.assets cw20_addr in
    elim idx [
      | negsuc i ↦
          map_result (transfer_tx pair from (pos 0) (insert empty cw20_addr (meta_text amount)))
            (outflow from_pair assets (negsuc i))
      | pos i ↦
          and_then (change_asset assets (pos i) (λ a. record a { amount = amount })) λ changed.
            map_result (transfer_tx pair from (pos 0) empty) (outflow from_pair changed (pos i))
    ]

-- One round of the loop of `transferToParsedTx`: the assets and the meta.
unfoldable pub take_amount :
    Pair → Bool → String → Assets × Dict MetaValue → Result (Assets × Dict MetaValue)
unfolding outflow change_asset
take_amount pair from_pair text (assets, meta) =
    and_then (wrap_err "transferMapper.MatchedToParsedTx" (get_asset_from_amount_asset_string text))
      λ asset.
        let idx = index_of pair.assets asset.addr in
        elim idx [
          | negsuc i ↦
              map_result (λ a. (a, insert meta asset.addr (meta_text asset.amount)))
                (outflow from_pair assets (negsuc i))
          | pos i ↦
              and_then (change_asset assets (pos i) (λ _. asset))
                λ changed. map_result (λ a. (a, meta)) (outflow from_pair changed (pos i))
        ]

unfoldable pub take_amounts :
    Pair → Bool → List String → Assets × Dict MetaValue → Result (Assets × Dict MetaValue)
unfolding take_amount
take_amounts pair from_pair [] taken = ok taken
take_amounts pair from_pair (text ∷ texts) taken =
    and_then (take_amount pair from_pair text taken) (take_amounts pair from_pair texts)

unfoldable pub transfer_to_parsed_tx : Pair → String → String → Bool → ℤ → Result ParsedTx
unfolding take_amounts
transfer_to_parsed_tx pair from assets_str from_pair msg_index = with_assets pair.assets λ assets.
    map_result (λ (a, meta). transfer_tx pair from msg_index meta a)
      (take_amounts pair from_pair (split b',' assets_str) (assets, empty))

-- `strings.Contains(strings.ToLower(key), "tax")`: no letter but these has one of theirs as its
-- small letter.
starts_with_tax : String → Bool
starts_with_tax (String.◌∷◌ t (String.◌∷◌ a (String.◌∷◌ x s))) =
    (eqb (code t) b't' || eqb (code t) b'T')
    && (eqb (code a) b'a' || eqb (code a) b'A')
    && (eqb (code x) b'x' || eqb (code x) b'X')
starts_with_tax _ = false

contains_tax : String → Bool
contains_tax String.[] = false
contains_tax (String.◌∷◌ c s) = starts_with_tax (String.◌∷◌ c s) || contains_tax s

-- The flagged tokens after the loop over the items.
unfoldable pub flag : String → MatchedResult → Dict Bool → Dict Bool
unfolding contains_tax starts_with_tax
flag cw20_addr [] flagged = flagged
flag cw20_addr (r ∷ res) flagged =
    flag cw20_addr res (if contains_tax r.key then insert flagged cw20_addr true else flagged)

-- The transactions of the sender's pair and of the receiver's, where they are pairs.
abbrev both : Option (Result ParsedTx) → Option (Result ParsedTx) → Result (List ParsedTx)
both none none = ok []
both (some f) none = map_result (λ tx. tx ∷ []) f
both none (some t) = map_result (λ tx. tx ∷ []) t
both (some f) (some t) = and_then f λ tx. map_result (λ tx'. tx ∷ tx' ∷ []) t

module _ (cw20_addr_key : String) (pair_set : Dict Pair) (token_exceptions : Dict Bool) where
  abbrev excepted : String → Bool
  excepted addr = elim (lookup token_exceptions addr) [ none ↦ false | some b ↦ b ]

  unfoldable pub wasm_transfers : String → Dict MatchedItem → Result (List ParsedTx)
  unfolding wasm_transfer_to_parsed_tx value_of_key
  wasm_transfers cw20_addr items =
      let sender = value_of_key items "from" in
      let amount = value_of_key items "amount" in
      let from = lookup pair_set sender in
      let to = lookup pair_set (value_of_key items "to") in
      if amount == ""
      then ok []
      else both (map (λ p. wasm_transfer_to_parsed_tx p cw20_addr sender amount true) from)
          (map (λ p. wasm_transfer_to_parsed_tx p cw20_addr sender amount false) to)

  -- `wasmCommonTransferMapper`; the state is `flaggedPairs`.
  unfoldable pub wasm_transfer_mapper : Mapper (Dict Bool) ParsedTx
  unfolding wasm_transfers flag
  wasm_transfer_mapper flagged res =
      let cw20_addr = first_value_in_result res cw20_addr_key in
      if excepted cw20_addr
      then (ok [], flagged)
      else elim (result_to_item_map_for_keys res (cw20_addr_key ∷ "from" ∷ "to" ∷ "amount" ∷ [])) [
        | err e ↦ (
          err (
              wrap "transferMapper.MatchedToParsedTx: " (append " (cw20=" (append cw20_addr ")"))
                e),
          flagged,
        )
        | crash ↦ (crash, flagged)
        | ok items ↦ (wasm_transfers cw20_addr items, flag cw20_addr res flagged)
      ]

unfoldable pub transfer_fallback_sender : List (Option String) → String
transfer_fallback_sender [] = ""
transfer_fallback_sender (none ∷ optionals) = transfer_fallback_sender optionals
transfer_fallback_sender (some sender ∷ optionals) =
    let rest = transfer_fallback_sender optionals in if sender == "" then rest else sender

-- `transferMapper`, with the optional arguments of the call: those that are no texts are `none`.
unfoldable pub transfer_mapper :
    Dict Pair → List (Option String) → MatchedResult → Result (List ParsedTx)
unfolding transfer_to_parsed_tx value_of_key transfer_fallback_sender
transfer_mapper pair_set optionals res =
    and_then
      (wrap_err "transferMapper.MatchedToParsedTx"
        (result_to_item_map_for_keys res ("sender" ∷ "recipient" ∷ "amount" ∷ [])))
      λ items.
        let given = value_of_key items "sender" in
        let sender = if given == "" then transfer_fallback_sender optionals else given in
        let text = value_of_key items "amount" in
        let tx_of : Bool → Pair → Result ParsedTx = λ from_pair pair.
          wrap_err "transferMapper.MatchedToParsedTx"
            (transfer_to_parsed_tx pair sender text from_pair (msg_index_of res)) in
        both (map (tx_of true) (lookup pair_set sender))
          (map (tx_of false) (lookup pair_set (value_of_key items "recipient")))
