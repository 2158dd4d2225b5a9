-- ===== src/Router/Info/Serve.antt =====
-- pkg/dex/router/router.go: the cache of routes and what is asked of it.
pub mod Answers
pub mod Reached
pub mod Tokens
pub mod Kept
use cosmwasm_etl.Prelude.Text.{str_leb}
use cosmwasm_etl.Prelude.{
  ℕ, ◌+◌, String, Bool, true, false, not, List, [], ◌∷◌, ◌++◌, Option, none, some, if◌then◌else◌,
  eqb, length, ◌==◌, ◌||◌, is_some, map_list,
}
use cosmwasm_etl.Prelude.Int.{ℤ, pos, negsuc, ltb_ℤ, ◌+ℤ◌}
use cosmwasm_etl.Prelude.Dict.{Dict}
use cosmwasm_etl.Prelude.Dict
use cosmwasm_etl.Prelude.IntMap.{IntMap, lookup, keys, contains}
use cosmwasm_etl.EventLog.Error.{Result, Fallible, Error, ok, err, crash, wrapped}
use cosmwasm_etl.Router.{Pair, RouteInfo, row, routes_at}
use cosmwasm_etl.Router.Info.{SrcRepo, new_route_info}

-- `routerImpl`, without its name and logger; `locked` is the state of the mutex.
pub record Router (W : Type 0) : Type 0 where
  pub repo : SrcRepo W
  pub router_address : String
  pub max_hop_count : ℕ
  pub write_db : Bool
  pub cached_pairs : List Pair
  pub route_info : Option RouteInfo
  pub locked : Bool

-- `addressFromIndex`: an index that is not there reads as the empty text.
unfoldable pub address_from_index : RouteInfo → ℕ → String
address_from_index ri i = elim (lookup ri.index_to_asset i) [ none ↦ "" | some token ↦ token ]

-- `n + 1` of an `int`, which wraps.
unfoldable pub next_int : ℤ → ℤ
next_int n = if ltb_ℤ n (pos 0x7fffffffffffffff) then n +ℤ pos 1 else negsuc 0x7fffffffffffffff

-- The tokens that a route of at most `hop_count + 1` tokens leads to, as the keys of a map.
unfoldable pub add_reached : RouteInfo → ℤ → ℕ → List (List ℕ) → Dict Bool → Dict Bool
unfolding address_from_index next_int
add_reached ri hop_count k [] tokens = tokens
add_reached ri hop_count k (route ∷ routes) tokens = add_reached ri hop_count k routes (
    if ltb_ℤ (next_int hop_count) (pos (length route))
    then tokens
    else Dict.insert tokens (address_from_index ri k) true)

unfoldable pub token_map : RouteInfo → ℤ → ℕ → List ℕ → Dict Bool → Dict Bool
unfolding add_reached
token_map ri hop_count from_idx [] tokens = tokens
token_map ri hop_count from_idx (k ∷ ks) tokens =
    token_map ri hop_count from_idx ks
      (add_reached ri hop_count k (routes_at ri.routes_map from_idx k) tokens)

-- `sort.Strings`
unfoldable pub insert_text : String → List String → List String
insert_text s [] = s ∷ []
insert_text s (t ∷ texts) = if str_leb s t then s ∷ t ∷ texts else t ∷ insert_text s texts

unfoldable pub sort_texts : List String → List String
unfolding insert_text
sort_texts [] = []
sort_texts (s ∷ texts) = insert_text s (sort_texts texts)

-- `none` is the nil slice, that is for a token without routes.
unfoldable pub tokens_of : RouteInfo → String → ℤ → Option (List String)
unfolding token_map sort_texts
tokens_of ri from hop_count = elim (Dict.lookup ri.asset_to_index from) [
  | none ↦ none
  | some from_idx ↦
      if contains ri.routes_map from_idx
      then some (
          sort_texts (
            Dict.keys
              (token_map ri hop_count from_idx (keys (row ri.routes_map from_idx)) Dict.empty)))
      else none
]

abbrev pub addresses : RouteInfo → List ℕ → List String
addresses ri = map_list (address_from_index ri)

unfoldable pub routes_of : RouteInfo → String → String → Option (List (List String))
unfolding address_from_index
routes_of ri from to = elim (Dict.lookup ri.asset_to_index from) [
  | none ↦ none
  | some from_idx ↦ elim (Dict.lookup ri.asset_to_index to) [
    | none ↦ none
    | some to_idx ↦
        if contains ri.initial_pair_map from_idx
        then elim (lookup (row ri.routes_map from_idx) to_idx) [
          | none ↦ none
          | some indexes ↦ some (map_list (addresses ri) indexes)
        ]
        else none
  ]
]

abbrev pub other_contract : List Pair → List Pair → Bool
other_contract (p ∷ pairs) (q ∷ cached) =
    not (p.contract == q.contract) || other_contract pairs cached
other_contract _ _ = false

-- How a call of `Update` ends: it returns, or it waits for the mutex for ever.
pub data Outcome : Type 0 where
  returned : Result (Unit {0}) → Outcome
  waits : Outcome

module _ {W : Type 0} where
  unfoldable pub tokens_from : Router W → String → ℤ → Option (List String)
  unfolding tokens_of
  tokens_from r from hop_count = elim r.route_info [
    | none ↦ none
    | some ri ↦ tokens_of ri from hop_count
  ]

  unfoldable pub routes : Router W → String → String → Option (List (List String))
  unfolding routes_of
  routes r from to = elim r.route_info [ none ↦ none | some ri ↦ routes_of ri from to ]

  unfoldable pub should_update : Router W → List Pair → Bool
  should_update r pairs =
      if eqb (length r.cached_pairs) (length pairs)
      then other_contract pairs r.cached_pairs
      else true

  abbrev pub update_locked : Router W → List Pair → W → Outcome × Router W × W
  update_locked r pairs w =
      if should_update r pairs
      then (let (result, w') =
            new_route_info pairs r.max_hop_count (if r.write_db then some r.repo else none) w in
          elim result [
            | ok ri ↦ (
              returned (ok tt),
              record r { route_info = some ri; cached_pairs = pairs; locked = false },
              w',
            )
            | err e ↦ (returned (err e), record r { locked = true }, w')
            | crash ↦ (returned crash, record r { locked = true }, w')
          ])
      else (returned (ok tt), record r { locked = false }, w)

  unfoldable pub update : Router W → W → Outcome × Router W × W
  unfolding should_update new_route_info
  update r w =
      let (result, w') = r.repo.pairs w in
      elim result [
        | err e ↦ (returned (err (wrapped "routerImpl.Update" e)), r, w')
        | crash ↦ (returned crash, r, w')
        | ok pairs ↦ if r.locked then (waits, r, w') else update_locked r pairs w'
      ]
