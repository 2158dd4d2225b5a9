-- ===== src/Router.antt =====
-- pkg/dex/router: the routes between the tokens of the pairs.
pub mod Index
pub mod Search
pub mod Info
use cosmwasm_etl.Prelude.{ℕ, String, Bool, true, false, List, [], ◌∷◌, Option, none, some}
use cosmwasm_etl.Prelude.Dict.{Dict}
use cosmwasm_etl.Prelude.IntMap.{IntMap, lookup, empty}

pub record Pair : Type 0 where
  pub contract : String
  pub asset_infos : List String

-- `map[int]map[int]string` and `map[int]map[int][][]int`: a row that is not there reads as an empty one.
abbrev pub PairMap : Type 0
PairMap = IntMap (IntMap String)

abbrev pub Routes : Type 0
Routes = IntMap (IntMap (List (List ℕ)))

abbrev pub row : {V : Type 0} → IntMap (IntMap V) → ℕ → IntMap V
row m i = elim (lookup m i) [ none ↦ empty | some r ↦ r ]

abbrev pub routes_at : Routes → ℕ → ℕ → List (List ℕ)
routes_at m from to = elim (lookup (row m from) to) [ none ↦ [] | some routes ↦ routes ]

-- `routeInfoImpl`
pub record RouteInfo : Type 0 where
  pub max_hop_count : ℕ
  pub initial_pair_map : PairMap
  pub routes_map : Routes
  pub index_to_asset : IntMap String
  pub asset_to_index : Dict ℕ
