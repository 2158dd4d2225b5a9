-- ===== src/Router/Search.antt =====
-- `findAllRoutes` and `setRoutesMap` of pkg/dex/router/route_info.go.
pub mod Walks
pub mod Visits
pub mod Simple
pub mod Found
use cosmwasm_etl.Prelude.{
  ℕ, zero, suc, ◌+◌, Bool, true, false, List, [], ◌∷◌, ◌++◌, Option, none, some,
}
use cosmwasm_etl.Prelude.IntMap.{IntMap, lookup, insert, empty, keys}
use cosmwasm_etl.Router.{PairMap, Routes, row, routes_at}

pub record Search : Type 0 where
  pub visited : IntMap Bool
  pub routes : Routes

-- `v, ok := visited[to]; ok && v`
unfoldable pub is_visited : IntMap Bool → ℕ → Bool
is_visited visited to = elim (lookup visited to) [ none ↦ false | some v ↦ v ]

-- `ri.routesMap[start][to] = append(routes, newRoute)`, the rows being made where they are missing.
unfoldable pub add_route : Routes → ℕ → ℕ → List ℕ → Routes
add_route m start to route =
    insert m start (insert (row m start) to (routes_at m start to ++ route ∷ []))

unfoldable pub set_visited : ℕ → Bool → Search → Search
set_visited k b s = record s { visited = insert s.visited k b }

-- The body of the loop over the nodes, with the recursive call as `explore`.
unfoldable pub visit : (ℕ → List ℕ → Search → Search) → ℕ → List ℕ → ℕ → Search → Search
unfolding is_visited add_route set_visited
visit explore start route to s = elim (is_visited s.visited to) [
  | true ↦ s
  | false ↦
      let new_route = route ++ to ∷ [] in
      set_visited to false (
        explore to new_route
          (set_visited to true (record s { routes = add_route s.routes start to new_route })))
]

unfoldable pub visit_all : (ℕ → List ℕ → Search → Search) → ℕ → List ℕ → List ℕ → Search → Search
unfolding visit
visit_all explore start route [] s = s
visit_all explore start route (to ∷ nodes) s =
    visit_all explore start route nodes (visit explore start route to s)

-- The first argument is `maxHopCount + 1 - hopCount`: the search returns when it is 0, which is
-- `hopCount > maxHopCount`, and each call has one less.
unfoldable pub find_all_routes : ℕ → PairMap → ℕ → ℕ → List ℕ → Search → Search
unfolding visit_all
find_all_routes zero pair_map start current route s = s
find_all_routes (suc left) pair_map start current route s =
    visit_all (find_all_routes left pair_map start) start route (keys (row pair_map current)) s

-- The body of the loop of `setRoutesMap` over the keys.
unfoldable pub routes_from : ℕ → PairMap → ℕ → Search → Search
unfolding find_all_routes
routes_from max_hop_count pair_map key s = set_visited key false (
    find_all_routes (max_hop_count + 1) pair_map key key []
      (set_visited key true (record s { routes = insert s.routes key empty })))

unfoldable pub routes_from_all : ℕ → PairMap → List ℕ → Search → Search
unfolding routes_from
routes_from_all max_hop_count pair_map [] s = s
routes_from_all max_hop_count pair_map (key ∷ ks) s =
    routes_from_all max_hop_count pair_map ks (routes_from max_hop_count pair_map key s)

unfoldable pub unvisited : List ℕ → IntMap Bool
unvisited [] = empty
unvisited (k ∷ ks) = insert (unvisited ks) k false

-- The routes before they are stored and sorted.
unfoldable pub all_routes : ℕ → PairMap → Routes
unfolding routes_from_all unvisited
all_routes max_hop_count pair_map =
    (routes_from_all max_hop_count pair_map (keys pair_map)
      (record { visited = unvisited (keys pair_map); routes = empty })).routes
