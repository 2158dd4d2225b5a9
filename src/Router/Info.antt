-- ===== src/Router/Info.antt =====
-- `newRouteInfo` of pkg/dex/router/route_info.go, with the order of the routes.
pub mod Order
pub mod Made
pub mod Serve
use cosmwasm_etl.Prelude.{
  ℕ, String, Bool, true, false, List, [], ◌∷◌, Option, none, some, if◌then◌else◌, eqb, ltb, length,
}
use cosmwasm_etl.Prelude.Dict.{Dict}
use cosmwasm_etl.Prelude.IntMap.{IntMap, map_values}
use cosmwasm_etl.EventLog.Error.{Result, Fallible, ok, crash, map_result}
use cosmwasm_etl.Router.{Pair, PairMap, Routes, RouteInfo}
use cosmwasm_etl.Router.Index.{set_index, set_pair_map}
use cosmwasm_etl.Router.Search.{all_routes}

-- The routes have the same length where this is asked.
unfoldable pub before_from : List ℕ → List ℕ → Bool
before_from (x ∷ a) (y ∷ b) = if eqb x y then before_from a b else ltb x y
before_from _ _ = true

-- `less` of the sort: shorter routes first, then by the indexes.
unfoldable pub before : List ℕ → List ℕ → Bool
unfolding before_from
before a b = if eqb (length a) (length b) then before_from a b else ltb (length a) (length b)

-- `sort.Slice`, as an insertion sort.
unfoldable pub insert_route : List ℕ → List (List ℕ) → List (List ℕ)
unfolding before
insert_route r [] = r ∷ []
insert_route r (q ∷ routes) = if before r q then r ∷ q ∷ routes else q ∷ insert_route r routes

unfoldable pub sort_routes : List (List ℕ) → List (List ℕ)
unfolding insert_route
sort_routes [] = []
sort_routes (r ∷ routes) = insert_route r (sort_routes routes)

unfoldable pub sort_all : Routes → Routes
unfolding sort_routes map_values
sort_all m = map_values (map_values sort_routes) m

-- `SrcRepo`, the database, over a state `W` of it.
pub record SrcRepo (W : Type 0) : Type 0 where
  pub pairs : W → Result (List Pair) × W
  pub update_routes : IntMap String → Routes → W → Result (Unit {0}) × W

abbrev pub max_route_hop_count : ℕ
max_route_hop_count = 4

abbrev pub capped : ℕ → ℕ
capped max_hop_count =
    if ltb max_route_hop_count max_hop_count then max_route_hop_count else max_hop_count

-- The cache: its routes are sorted after they are stored.
abbrev pub info_of : List Pair → ℕ → PairMap → RouteInfo
info_of pairs max_hop_count pair_map = record {
  max_hop_count = max_hop_count;
  initial_pair_map = pair_map;
  routes_map = sort_all (all_routes max_hop_count pair_map);
  index_to_asset = (set_index pairs).index_to_asset;
  asset_to_index = (set_index pairs).asset_to_index;
}

module _ {W : Type 0} where
  -- Storing the routes found, if a repository is given.
  abbrev pub stored : Option (SrcRepo W) → IntMap String → Routes → W → Result (Unit {0}) × W
  stored none index_to_asset routes w = (ok tt, w)
  stored (some repo) index_to_asset routes w = repo.update_routes index_to_asset routes w

  abbrev with_map : List Pair → ℕ → Option (SrcRepo W) → PairMap → W → Result RouteInfo × W
  with_map pairs max_hop_count repo pair_map w =
      let (result, w') =
        stored repo (set_index pairs).index_to_asset (all_routes max_hop_count pair_map) w in
      (map_result (λ _. info_of pairs max_hop_count pair_map) result, w')

  unfoldable pub new_route_info : List Pair → ℕ → Option (SrcRepo W) → W → Result RouteInfo × W
  unfolding set_index set_pair_map all_routes sort_all
  new_route_info pairs max_hop_count repo w =
      elim (set_pair_map (set_index pairs).asset_to_index pairs) [
        | none ↦ (crash, w)
        | some pair_map ↦ with_map pairs (capped max_hop_count) repo pair_map w
      ]
