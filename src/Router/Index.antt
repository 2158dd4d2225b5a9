-- ===== src/Router/Index.antt =====
-- `setIndex` and `setPairMap` of pkg/dex/router/route_info.go.
pub mod Laws
pub mod Edges
use cosmwasm_etl.Prelude.{
  ℕ, ◌+◌, String, Bool, true, false, List, [], ◌∷◌, Option, none, some, if◌then◌else◌,
}
use cosmwasm_etl.Prelude.Dict.{Dict, contains}
use cosmwasm_etl.Prelude.Dict
use cosmwasm_etl.Prelude.IntMap.{IntMap}
use cosmwasm_etl.Prelude.IntMap
use cosmwasm_etl.Router.{Pair, PairMap, row}

-- The variables of `setIndex`: the next index and the two maps.
pub record Index : Type 0 where
  pub idx : ℕ
  pub asset_to_index : Dict ℕ
  pub index_to_asset : IntMap String

unfoldable pub index_token : String → Index → Index
index_token token s = if contains s.asset_to_index token then s else record {
  idx = s.idx + 1;
  asset_to_index = Dict.insert s.asset_to_index token s.idx;
  index_to_asset = IntMap.insert s.index_to_asset s.idx token;
}

unfoldable pub index_tokens : List String → Index → Index
unfolding index_token
index_tokens [] s = s
index_tokens (token ∷ tokens) s = index_tokens tokens (index_token token s)

unfoldable pub index_pairs : List Pair → Index → Index
unfolding index_tokens
index_pairs [] s = s
index_pairs (pair ∷ pairs) s = index_pairs pairs (index_tokens pair.asset_infos s)

abbrev pub no_index : Index
no_index = record { idx = 0; asset_to_index = Dict.empty; index_to_asset = IntMap.empty }

unfoldable pub set_index : List Pair → Index
unfolding index_pairs
set_index pairs = index_pairs pairs no_index

-- A token without an index reads as 0.
unfoldable pub index_of_token : Dict ℕ → String → ℕ
index_of_token asset_to_index token = elim (Dict.lookup asset_to_index token) [
  | none ↦ 0
  | some i ↦ i
]

unfoldable pub ensure_row : PairMap → ℕ → PairMap
ensure_row m i = if IntMap.contains m i then m else IntMap.insert m i IntMap.empty

unfoldable pub link : PairMap → ℕ → ℕ → String → PairMap
link m from to contract = IntMap.insert m from (IntMap.insert (row m from) to contract)

unfoldable pub connect : PairMap → ℕ → ℕ → String → PairMap
unfolding ensure_row link
connect m from to contract =
    let m' = ensure_row (ensure_row m from) to in link (link m' from to contract) to from contract

-- The indexes of `p.AssetInfos[0]` and `p.AssetInfos[1]`: without two assets an index is out of
-- range, and `none` is that panic.
abbrev pub ends : Dict ℕ → List String → Option (ℕ × ℕ)
ends asset_to_index [] = none
ends asset_to_index (first ∷ []) = none
ends asset_to_index (first ∷ second ∷ more) =
    some (index_of_token asset_to_index first, index_of_token asset_to_index second)

unfoldable pub add_pair : Dict ℕ → PairMap → Pair → Option PairMap
unfolding connect index_of_token
add_pair asset_to_index m p = elim (ends asset_to_index p.asset_infos) [
  | none ↦ none
  | some (from, to) ↦ some (connect m from to p.contract)
]

unfoldable pub add_pairs : Dict ℕ → PairMap → List Pair → Option PairMap
unfolding add_pair
add_pairs asset_to_index m [] = some m
add_pairs asset_to_index m (p ∷ pairs) = elim (add_pair asset_to_index m p) [
  | none ↦ none
  | some m' ↦ add_pairs asset_to_index m' pairs
]

unfoldable pub set_pair_map : Dict ℕ → List Pair → Option PairMap
unfolding add_pairs
set_pair_map asset_to_index pairs = add_pairs asset_to_index IntMap.empty pairs
