-- ===== src/Router/Info/Made.antt =====
-- About the routes that newRouteInfo of pkg/dex/router/route_info.go keeps.
use cosmwasm_etl.Prelude.{
  ℕ, String, any, ◌+◌, ◌≡◌, ◌≤◌, sym, subst, List, Option, none, some, ◌↔◌, inl, inr, arith,
  Option-cases,
}
use mathlib.Core.List.{Memᴰ}
use cosmwasm_etl.Prelude.IntMap.{lookup}
use cosmwasm_etl.Prelude.Dict
use cosmwasm_etl.Router.Index.Laws.{set_index-Inverse}
use cosmwasm_etl.Router.Index.Edges.{has_edge, joins, set_pair_map_edges}
use cosmwasm_etl.EventLog.Error.{Error, ok, err}
use cosmwasm_etl.Router.{Pair, PairMap, RouteInfo, routes_at}
use cosmwasm_etl.Router.Index.{set_index, set_pair_map}
use cosmwasm_etl.Router.Search.{all_routes}
use cosmwasm_etl.Router.Search.Simple.{IsRoute}
use cosmwasm_etl.Router.Search.Found.{all_routes_iff, iff_trans}
use cosmwasm_etl.Router.Info.Order.{ByLength, sorted_at, sort-mem, sort-ByLength}
use cosmwasm_etl.Router.Info.{SrcRepo, capped, stored, info_of, new_route_info}

module _ {W : Type 0} (pairs : List Pair) (max_hop_count : ℕ) (repo : Option (SrcRepo W)) (w : W)
    (ri : RouteInfo) where
  -- What a new cache is made of.
  pub made :
      (new_route_info pairs max_hop_count repo w).0 ≡ ok ri
      → (m : PairMap) × (set_pair_map (set_index pairs).asset_to_index pairs ≡ some m)
        × (info_of pairs (capped max_hop_count) m ≡ ri)
  unfolding new_route_info
  made h = elim (Option-cases (set_pair_map (set_index pairs).asset_to_index pairs)) [
    | inl e ↦ absurd (ground (arith, e, h))
    | inr (m, e) ↦ (m, e, ground (arith, e, h))
  ]

pub info_made :
    {W : Type 0} (pairs : List Pair) (max_hop_count : ℕ) (w : W) (m : PairMap)
    → set_pair_map (set_index pairs).asset_to_index pairs ≡ some m
    → (new_route_info pairs max_hop_count none w).0 ≡ ok (info_of pairs (capped max_hop_count) m)
unfolding new_route_info
info_made pairs max_hop_count w m e = ground (arith, e)

pub not_stored :
    {W : Type 0} (pairs : List Pair) (max_hop_count : ℕ) (repo : Option (SrcRepo W)) (w : W)
    (m : PairMap) (e : Error)
    → set_pair_map (set_index pairs).asset_to_index pairs ≡ some m
    → (stored repo (set_index pairs).index_to_asset (all_routes (capped max_hop_count) m) w).0
      ≡ err e
    → (new_route_info pairs max_hop_count repo w).0 ≡ err e
unfolding new_route_info
not_stored pairs max_hop_count repo w m e f g = ground (arith, f, g)

-- The routes of a cache between two indexes are the simple paths of at most `bound` pairs, in the order
-- of their lengths.
abbrev pub HasRoutes : ℕ → ℕ → ℕ → RouteInfo → Type 0
HasRoutes bound from to ri =
    ((route : List ℕ)
      → Memᴰ route (routes_at ri.routes_map from to)
        ↔ IsRoute ri.initial_pair_map bound from route to)
    × ByLength (routes_at ri.routes_map from to)

sorted_routes :
    (pairs : List Pair) (max from to : ℕ) (m : PairMap)
    → HasRoutes (max + 1) from to (info_of pairs max m)
sorted_routes pairs max from to m =
    let at = sorted_at (all_routes max m) from to in
    (
      λ route.
          iff_trans
            (
              λ h.
                  (sort-mem (routes_at (all_routes max m) from to) route).0
                    (subst (λ l. Memᴰ route l) at h),
              λ h.
                  subst (λ l. Memᴰ route l) (sym at)
                    ((sort-mem (routes_at (all_routes max m) from to) route).1 h),
            )
            (all_routes_iff m max from to route),
      subst ByLength (sym at) (sort-ByLength (routes_at (all_routes max m) from to)),
    )

-- A cache that is made of pairs has, from one index to another, the simple paths over the pairs that
-- have as many pairs as the hops allowed and one more, these and no others, none longer than the next;
-- and the hops allowed are four at most.
pub new_route_info_routes :
    {W : Type 0} (pairs : List Pair) (max_hop_count : ℕ) (repo : Option (SrcRepo W)) (w : W)
    (ri : RouteInfo)
    → (new_route_info pairs max_hop_count repo w).0 ≡ ok ri
    → (from to : ℕ) → HasRoutes (capped max_hop_count + 1) from to ri × (capped max_hop_count ≤ 4)
new_route_info_routes pairs max_hop_count repo w ri h from to =
    let (m, e, same) = made pairs max_hop_count repo w ri h in
    (
      subst (HasRoutes (capped max_hop_count + 1) from to) same
          (sorted_routes pairs (capped max_hop_count) from to m),
      ground arith,
    )

-- In a cache that is made of pairs a token has the index `i` if and only if the index `i` has the token,
-- and two indexes have an entry if and only if a pair has their tokens as its first two.
pub new_route_info_indexes :
    {W : Type 0} (pairs : List Pair) (max_hop_count : ℕ) (repo : Option (SrcRepo W)) (w : W)
    (ri : RouteInfo)
    → (new_route_info pairs max_hop_count repo w).0 ≡ ok ri
    → ((token : String) (i : ℕ)
        → (Dict.lookup ri.asset_to_index token ≡ some i)
          ↔ (lookup ri.index_to_asset i ≡ some token))
      × ((i j : ℕ) → has_edge ri.initial_pair_map i j ≡ any (joins ri.asset_to_index i j) pairs)
new_route_info_indexes pairs max_hop_count repo w ri h =
    let (m, e, same) = made pairs max_hop_count repo w ri h in
    subst
      (λ (i : RouteInfo).
        ((token : String) (k : ℕ)
          → (Dict.lookup i.asset_to_index token ≡ some k)
            ↔ (lookup i.index_to_asset k ≡ some token))
        × ((k j : ℕ) → has_edge i.initial_pair_map k j ≡ any (joins i.asset_to_index k j) pairs))
      same
      (
        (set_index-Inverse pairs).0,
        λ k j. set_pair_map_edges (set_index pairs).asset_to_index pairs m k j e,
      )
