-- ===== src/Dex/Mappers/Transfers/Outflow.antt =====
-- About `wasmTransferToParsedTx` of parser/dex/mapper.go.
use cosmwasm_etl.Prelude.{
  ◌≡◌, refl, String, Bool, true, false, [], ◌∷◌, ◌==◌, if◌then◌else◌, arith, Bool-cases, inl, inr,
}
use cosmwasm_etl.Prelude.Int.{pos, negsuc}
use cosmwasm_etl.Prelude.Dict.{empty, insert}
use cosmwasm_etl.Prelude.Text.{append}
use cosmwasm_etl.EventLog.Error.{ok, crash}
use cosmwasm_etl.Dex.Types.{meta_text, Asset, Pair}
use cosmwasm_etl.Dex.Amount.{index_of, index_from}
use cosmwasm_etl.Dex.Mappers.{bare}
use cosmwasm_etl.Dex.Mappers.Transfers.{
  wasm_transfer_to_parsed_tx, transfer_tx, outflow, change_asset,
}

abbrev pub pair_of : String → String → String → String → Pair
pair_of contract lp a b = record { contract_addr = contract; assets = a ∷ b ∷ []; lp_addr = lp }

-- The amount as it is booked for the pair: with a minus sign where it flows out.
abbrev pub booked : Bool → String → String → Asset
booked from_pair addr amount = record {
  addr = addr;
  amount = if from_pair then append "-" amount else amount;
}

index_first : (a b target : String) → (a == target) ≡ true → index_of (a ∷ b ∷ []) target ≡ pos 0
unfolding index_of index_from
index_first a b target h = rw (h, index_of, index_from) refl

index_second :
    (a b target : String)
    → (a == target) ≡ false
    → (b == target) ≡ true
    → index_of (a ∷ b ∷ []) target ≡ pos 1
unfolding index_of index_from
index_second a b target h h' = ground arith

index_neither :
    (a b target : String)
    → (a == target) ≡ false
    → (b == target) ≡ false
    → index_of (a ∷ b ∷ []) target ≡ negsuc 0
unfolding index_of index_from
index_neither a b target h h' = ground arith

-- A transfer of a CW20 token to or from a pair of two assets books the amount on the pair's asset that
-- is the token, with a minus sign where it flows out, the other asset without an amount. A token that
-- is neither asset is noted in the meta where it flows in; where it flows out the code panics.
pub wasm_transfer_booked :
    (contract lp a b cw20 from amount : String) (from_pair : Bool)
    → wasm_transfer_to_parsed_tx (pair_of contract lp a b) cw20 from amount from_pair ≡ (
        if a == cw20
        then ok (
            transfer_tx
              (pair_of contract lp a b)
              from
              (pos 0)
              empty
              (record { first = booked from_pair a amount; second = bare b }))
        else if b == cw20
        then ok (
            transfer_tx
              (pair_of contract lp a b)
              from
              (pos 0)
              empty
              (record { first = bare a; second = booked from_pair b amount }))
        else if from_pair
        then crash
        else ok (
            transfer_tx
              (pair_of contract lp a b)
              from
              (pos 0)
              (insert empty cw20 (meta_text amount))
              (record { first = bare a; second = bare b })))
unfolding wasm_transfer_to_parsed_tx outflow change_asset
wasm_transfer_booked contract lp a b cw20 from amount true = elim (Bool-cases (a == cw20)) [
  | inl h ↦ rw (index_first a b cw20 h, h, wasm_transfer_to_parsed_tx) refl
  | inr h ↦ elim (Bool-cases (b == cw20)) [
    | inl h' ↦ rw (index_second a b cw20 h h', h, h', wasm_transfer_to_parsed_tx) refl
    | inr h' ↦ rw (index_neither a b cw20 h h', h, h', wasm_transfer_to_parsed_tx) refl
  ]
]
wasm_transfer_booked contract lp a b cw20 from amount false = elim (Bool-cases (a == cw20)) [
  | inl h ↦ rw (index_first a b cw20 h, h, wasm_transfer_to_parsed_tx) refl
  | inr h ↦ elim (Bool-cases (b == cw20)) [
    | inl h' ↦ rw (index_second a b cw20 h h', h, h', wasm_transfer_to_parsed_tx) refl
    | inr h' ↦ rw (index_neither a b cw20 h h', h, h', wasm_transfer_to_parsed_tx) refl
  ]
]
