-- ===== src/Dex/Amount.antt =====
-- Amounts and assets as texts: parser/dex/util.go.
pub mod Laws
use cosmwasm_etl.Prelude.{
  ℕ, ◌+◌, String, Bool, true, false, ◌||◌, List, [], ◌∷◌, Option, none, some, ◌==◌, if◌then◌else◌,
  map_list, eqb, length,
}
use cosmwasm_etl.Prelude.Int.{ℤ, pos, negsuc, ◌+ℤ◌}
use cosmwasm_etl.Prelude.Text.{append, split, trim_space, find_digits, drop_like}
use cosmwasm_etl.Prelude.Decimal.{print_ℤ, set_string}
use cosmwasm_etl.EventLog.Error.{Error, message, Result, ok, err, crash, wrap_err}
use cosmwasm_etl.Dex.Types.{Asset}

-- `IndexOf`, on the addresses of a pair.
unfoldable pub index_from : ℕ → List String → String → ℤ
index_from idx [] target = negsuc 0
index_from idx (el ∷ slice) target =
    let rest = index_from (idx + 1) slice target in if el == target then pos idx else rest

unfoldable pub index_of : List String → String → ℤ
unfolding index_from
index_of slice target = index_from 0 slice target

unfoldable pub get_asset_from_amount_asset_string : String → Result Asset
get_asset_from_amount_asset_string amount_asset =
    let text = trim_space amount_asset in
    let amount = find_digits text in
    let addr = drop_like amount text in
    if amount == "" || addr == ""
    then err (message "string format must be 0000AAAA")
    else ok (record { addr = addr; amount = amount })

-- The loop over the two parts.
unfoldable pub assets_of : List String → Result (List Asset)
assets_of [] = ok []
assets_of (part ∷ parts) =
    let rest = assets_of parts in
    elim (wrap_err "getAssetsFromAssetsString" (get_asset_from_amount_asset_string part)) [
      | err e ↦ err e
      | crash ↦ crash
      | ok a ↦ elim rest [ err e ↦ err e | crash ↦ crash | ok as' ↦ ok (a ∷ as') ]
    ]

unfoldable pub get_assets_from_assets_string : String → Result (List Asset)
unfolding assets_of
get_assets_from_assets_string amounts_assets =
    let assets = map_list trim_space (split b',' amounts_assets) in
    if eqb (length assets) 2
    then assets_of assets
    else err (message (append "wrong format of assetsAmount(" (append amounts_assets ")")))

-- `ToBigInt`
unfoldable pub to_big_int : String → Result ℤ
to_big_int n = elim (set_string n) [ none ↦ err (message "invalid number") | some z ↦ ok z ]

unfoldable pub amount_add : String → String → Result String
unfolding to_big_int
amount_add amount1 amount2 = elim (wrap_err "dex.AmountAdd" (to_big_int amount1)) [
  | err e ↦ err e
  | crash ↦ crash
  | ok a1 ↦ elim (wrap_err "dex.AmountAdd" (to_big_int amount2)) [
    | err e ↦ err e
    | crash ↦ crash
    | ok a2 ↦ ok (print_ℤ (a1 +ℤ a2))
  ]
]
