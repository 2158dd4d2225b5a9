-- ===== src/Router/Info/Serve/Tokens.antt =====
-- About `TokensFrom` of pkg/dex/router/router.go.
use cosmwasm_etl.Prelude.{
  ℕ, String, ◌+◌, ◌≡◌, sym, subst, Bool, true, false, List, [], Option, none, some, ◌↔◌, inl, inr,
  arith, Bool-cases, Option-cases,
}
use mathlib.Core.List.{Memᴰ}
use mathlib.Core.List.Memᴰ
use cosmwasm_etl.Prelude.Int.{ℤ}
use cosmwasm_etl.Prelude.Dict.{Dict}
use cosmwasm_etl.Prelude.Dict
use cosmwasm_etl.Prelude.IntMap.{keys, contains, keys_iff, lookup-empty}
use cosmwasm_etl.EventLog.Error.{ok}
use cosmwasm_etl.Router.{Pair, Routes, RouteInfo, row, routes_at}
use cosmwasm_etl.Router.Search.Simple.{IsRoute}
use cosmwasm_etl.Router.Info.{SrcRepo, capped, new_route_info}
use cosmwasm_etl.Router.Info.Made.{HasRoutes, new_route_info_routes}
use cosmwasm_etl.Router.Info.Serve.Reached.{Within, ReachesFrom, token_map_iff, sort_texts-mem}
use cosmwasm_etl.Router.Info.Serve.{address_from_index, token_map, sort_texts, tokens_of}

no_route : (m : Routes) (i k : ℕ) → contains (row m i) k ≡ false → routes_at m i k ≡ []
unfolding contains
no_route m i k h = ground (arith, h)

no_row : (m : Routes) (i k : ℕ) → contains m i ≡ false → contains (row m i) k ≡ false
unfolding contains
no_row m i k h = ground (arith, h, lookup-empty {V = List (List ℕ)} k)

stored_route :
    (m : Routes) (i k : ℕ) (route : List ℕ)
    → Memᴰ route (routes_at m i k)
    → (contains m i ≡ true) × (contains (row m i) k ≡ true)
stored_route m i k route n = elim (Bool-cases (contains (row m i) k)) [
  | inr e ↦ absurd (Memᴰ.not-nil (subst (λ l. Memᴰ route l) (no_route m i k e) n))
  | inl e ↦ elim (Bool-cases (contains m i)) [
    | inl f ↦ (f, e)
    | inr f ↦ let g = no_row m i k f in absurd cc
  ]
]

-- The answer of `TokensFrom`, none read as no token.
abbrev pub answered_tokens : Option (List String) → List String
answered_tokens none = []
answered_tokens (some tokens) = tokens

-- A route of at most `bound` pairs leads from the one token to the other, within the hops asked for.
abbrev pub WithinHops : RouteInfo → ℕ → ℤ → String → String → Type 0
WithinHops ri bound hop_count from t =
    (i : ℕ) × (k : ℕ) × (route : List ℕ) × (Dict.lookup ri.asset_to_index from ≡ some i)
    × IsRoute ri.initial_pair_map bound i route k
    × Within hop_count route
    × (address_from_index ri k ≡ t)

nothing : (t : String) → Dict.contains (Dict.empty {V = Bool}) t ≡ true → ⊥
unfolding Dict.contains
nothing t h = absurd (ground (arith, h, Dict.lookup-empty {V = Bool} t))

module _ (ri : RouteInfo) (hop_count : ℤ) (from t : String) where
  tokens_nowhere :
      Dict.lookup ri.asset_to_index from ≡ none → answered_tokens (tokens_of ri from hop_count) ≡ []
  unfolding tokens_of
  tokens_nowhere e = ground (arith, e)

  tokens_alone :
      (i : ℕ)
      → Dict.lookup ri.asset_to_index from ≡ some i
      → contains ri.routes_map i ≡ false
      → answered_tokens (tokens_of ri from hop_count) ≡ []
  unfolding tokens_of
  tokens_alone i e f = ground (arith, e, f)

  abbrev collected : ℕ → Dict Bool
  collected i = token_map ri hop_count i (keys (row ri.routes_map i)) Dict.empty

  tokens_found :
      (i : ℕ)
      → Dict.lookup ri.asset_to_index from ≡ some i
      → contains ri.routes_map i ≡ true
      → answered_tokens (tokens_of ri from hop_count) ≡ sort_texts (Dict.keys (collected i))
  unfolding tokens_of
  tokens_found i e f = ground (arith, e, f)

  in_collected :
      (i : ℕ)
      → Memᴰ t (sort_texts (Dict.keys (collected i)))
        ↔ ReachesFrom ri hop_count t i (keys (row ri.routes_map i))
  in_collected i =
      let ks = keys (row ri.routes_map i) in
      let (of, to) = token_map_iff ri hop_count t i ks Dict.empty in
      (
        λ m.
            elim (of (
              (Dict.keys_iff (collected i) t).0
                ((sort_texts-mem (Dict.keys (collected i)) t).0 m))) [
                  | inl h ↦ absurd (nothing t h)
                  | inr r ↦ r
                ],
        λ r.
            (sort_texts-mem (Dict.keys (collected i)) t).1
              ((Dict.keys_iff (collected i) t).1 (to (inr r))),
      )

-- A router whose cache is made of pairs answers the tokens that a simple path over the pairs leads to,
-- of at most one pair more than the hops asked for and than the hops allowed: these and no others.
pub tokens_of_iff :
    {W : Type 0} (pairs : List Pair) (max_hop_count : ℕ) (repo : Option (SrcRepo W)) (w : W)
    (ri : RouteInfo)
    → (new_route_info pairs max_hop_count repo w).0 ≡ ok ri
    → (from t : String) (hop_count : ℤ)
    → Memᴰ t (answered_tokens (tokens_of ri from hop_count))
      ↔ WithinHops ri (capped max_hop_count + 1) hop_count from t
tokens_of_iff pairs max_hop_count repo w ri h from t hop_count =
    let has : (i j : ℕ) → HasRoutes (capped max_hop_count + 1) i j ri =
      λ i j. (new_route_info_routes pairs max_hop_count repo w ri h i j).0 in
    (
      λ m.
          let empty_answer : answered_tokens (tokens_of ri from hop_count) ≡ []
              → WithinHops ri (capped max_hop_count + 1) hop_count from t =
            λ e. absurd (Memᴰ.not-nil (subst (λ l. Memᴰ t l) e m)) in
          elim (Option-cases (Dict.lookup ri.asset_to_index from)) [
            | inl e ↦ empty_answer (tokens_nowhere ri hop_count from t e)
            | inr (i, e) ↦ elim (Bool-cases (contains ri.routes_map i)) [
              | inr f ↦ empty_answer (tokens_alone ri hop_count from t i e f)
              | inl f ↦
                  let (k, _, (route, n, short, at)) =
                    (in_collected ri hop_count from t i).0
                      (subst (λ l. Memᴰ t l) (tokens_found ri hop_count from t i e f) m) in
                  (i, k, route, e, ((has i k).0 route).0 n, short, at)
            ]
          ],
      λ (i, k, route, e, is, short, at).
          let n = ((has i k).0 route).1 is in
          let (f, g) = stored_route ri.routes_map i k route n in
          subst (λ l. Memᴰ t l) (sym (tokens_found ri hop_count from t i e f))
            ((in_collected ri hop_count from t i).1
              (k, (keys_iff (row ri.routes_map i) k).1 g, (route, n, short, at))),
    )
