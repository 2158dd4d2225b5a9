-- ===== src/Examples/Routes.antt =====
-- A router over three tokens in a row.
use cosmwasm_etl.Prelude.{
  ℕ, String, ◌≡◌, ◌≤◌, refl, true, false, List, [], ◌∷◌, none, some, ◌↔◌, any, inl,
}
use mathlib.Core.List.{Memᴰ}
use cosmwasm_etl.Prelude.Int.{pos}
use cosmwasm_etl.Prelude.Dict.{Dict}
use cosmwasm_etl.Prelude.Dict
use cosmwasm_etl.Prelude.IntMap.{IntMap, lookup}
use cosmwasm_etl.Prelude.IntMap
use cosmwasm_etl.EventLog.Error.{message, ok, err}
use cosmwasm_etl.Router.{Pair, PairMap, RouteInfo, routes_at}
use cosmwasm_etl.Router.Index.{
  set_index, set_pair_map, index_pairs, index_tokens, index_token, add_pairs, add_pair, connect,
  index_of_token,
}
use cosmwasm_etl.Router.Index.Edges.{has_edge, joins}
use cosmwasm_etl.Router.Search.{all_routes}
use cosmwasm_etl.Router.Search.Simple.{IsRoute}
use cosmwasm_etl.Router.Search.Found.{all_routes_iff}
use cosmwasm_etl.Router.Info.{SrcRepo, info_of, new_route_info}
use cosmwasm_etl.Router.Info.Made.{
  info_made, not_stored, HasRoutes, new_route_info_routes, new_route_info_indexes,
}
use cosmwasm_etl.Router.Info.Serve.{
  Router, should_update, update, routes_of, tokens_of, returned, waits,
}
use cosmwasm_etl.Router.Info.Serve.Answers.{answered, PathOf, routes_of_iff}
use cosmwasm_etl.Router.Info.Serve.Tokens.{answered_tokens, WithinHops, tokens_of_iff}
use cosmwasm_etl.Router.Info.Serve.Kept.{Kept, update-Kept, update_held}

abbrev pairs : List Pair
pairs =
    record { contract = "ab"; asset_infos = "a" ∷ "b" ∷ [] }
    ∷ record { contract = "bc"; asset_infos = "b" ∷ "c" ∷ [] }
    ∷ []

abbrev joined : PairMap
joined = connect (connect IntMap.empty 0 1 "ab") 1 2 "bc"

abbrev indexes : Dict ℕ
indexes = record { entries = ("a", 0) ∷ ("b", 1) ∷ ("c", 2) ∷ [] }

indexed : (set_index pairs).asset_to_index ≡ indexes
unfolding set_index index_pairs index_tokens index_token Dict.contains Dict.lookup Dict.insert
    Dict.empty
indexed = refl

mapped : set_pair_map indexes pairs ≡ some joined
unfolding set_pair_map add_pairs add_pair index_of_token Dict.lookup
mapped = refl

-- The setting of 9 hops is cut to 4.
abbrev info : RouteInfo
info = info_of pairs 4 joined

made : (new_route_info {W = Unit {0}} pairs 9 none tt).0 ≡ ok info
made = info_made pairs 9 tt joined (rw (indexed) mapped)

new_route_info_routes_example : HasRoutes 5 0 2 info × (4 ≤ 4)
new_route_info_routes_example = new_route_info_routes pairs 9 none tt info made 0 2

new_route_info_indexes_example :
    ((token : String) (i : ℕ)
      → (Dict.lookup info.asset_to_index token ≡ some i)
        ↔ (lookup info.index_to_asset i ≡ some token))
    × ((i j : ℕ) → has_edge info.initial_pair_map i j ≡ any (joins info.asset_to_index i j) pairs)
new_route_info_indexes_example = new_route_info_indexes pairs 9 none tt info made

routes_of_iff_example :
    Memᴰ ("b" ∷ "c" ∷ []) (answered (routes_of info "a" "c"))
    ↔ PathOf info 5 "a" "c" ("b" ∷ "c" ∷ [])
routes_of_iff_example = routes_of_iff pairs 9 none tt info made "a" "c" ("b" ∷ "c" ∷ [])

tokens_of_iff_example :
    Memᴰ "c" (answered_tokens (tokens_of info "a" (pos 1))) ↔ WithinHops info 5 (pos 1) "a" "c"
tokens_of_iff_example = tokens_of_iff pairs 9 none tt info made "a" "c" (pos 1)

-- A database whose routes cannot be written.
abbrev repo : SrcRepo (Unit {0})
repo = record {
  pairs = λ w. (ok pairs, w);
  update_routes = λ index_to_asset routes w. (err (message "no space"), w);
}

abbrev router : Router (Unit {0})
router = record {
  repo = repo;
  router_address = "router";
  max_hop_count = 9;
  write_db = true;
  cached_pairs = [];
  route_info = none;
  locked = false;
}

update-Kept_example : Kept (update router tt).1
update-Kept_example = update-Kept router tt (inl refl)

changed : should_update router pairs ≡ true
unfolding should_update
changed = refl

fails : (new_route_info pairs 9 (some repo) tt).0 ≡ err (message "no space")
fails = not_stored pairs 9 (some repo) tt joined (message "no space") (rw (indexed) mapped) refl

update_held_example :
    ((update router tt).0 ≡ returned (err (message "no space")))
    × ((update (update router tt).1 tt).0 ≡ waits)
    × ((update (update router tt).1 tt).1 ≡ (update router tt).1)
update_held_example =
    update_held router tt tt pairs pairs (message "no space") refl refl changed fails refl

all_routes_iff_example :
    Memᴰ (1 ∷ 2 ∷ []) (routes_at (all_routes 4 joined) 0 2) ↔ IsRoute joined 5 0 (1 ∷ 2 ∷ []) 2
all_routes_iff_example = all_routes_iff joined 4 0 2 (1 ∷ 2 ∷ [])
