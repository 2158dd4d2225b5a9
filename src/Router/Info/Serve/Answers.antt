-- ===== src/Router/Info/Serve/Answers.antt =====
-- About `Routes` of pkg/dex/router/router.go.
use cosmwasm_etl.Prelude.{
  ℕ, String, ◌+◌, ◌≡◌, refl, sym, ◌∙◌, subst, true, false, List, [], ◌∷◌, Option, none, some, ◌↔◌,
  ◌⊎◌, inl, inr, arith, Bool-cases, Option-cases, map_list,
}
use mathlib.Core.List.{Memᴰ}
use mathlib.Core.List.Memᴰ
use cosmwasm_etl.Prelude.Dict.{Dict}
use cosmwasm_etl.Prelude.Dict
use cosmwasm_etl.Prelude.IntMap.{contains}
use cosmwasm_etl.EventLog.Error.{ok}
use cosmwasm_etl.Router.{Pair, RouteInfo, routes_at}
use cosmwasm_etl.Router.Search.Found.{route_key}
use cosmwasm_etl.Router.Search.Simple.{IsRoute}
use cosmwasm_etl.Router.Info.{SrcRepo, capped, new_route_info}
use cosmwasm_etl.Router.Info.Made.{HasRoutes, new_route_info_routes}
use cosmwasm_etl.Router.Info.Serve.{addresses, routes_of}

module _ {A B : Type 0} (f : A → B) where
  mem_of_mapped : (l : List A) (b : B) → Memᴰ b (map_list f l) → (a : A) × Memᴰ a l × (b ≡ f a)
  mem_of_mapped [] b m = absurd (Memᴰ.not-nil m)
  mem_of_mapped (x ∷ l) b m = elim (Memᴰ.cases_cons m) [
    | inl e ↦ (x, Memᴰ.head refl, e)
    | inr m' ↦ let (a, n, e) = mem_of_mapped l b m' in (a, Memᴰ.tail n, e)
  ]

  mem_mapped : (l : List A) (a : A) (b : B) → Memᴰ a l → b ≡ f a → Memᴰ b (map_list f l)
  mem_mapped [] a b m e = absurd (Memᴰ.not-nil m)
  mem_mapped (x ∷ l) a b m e = elim (Memᴰ.cases_cons m) [
    | inl g ↦ Memᴰ.head (e ∙ cc)
    | inr m' ↦ Memᴰ.tail (mem_mapped l a b m' e)
  ]

-- What `Routes` answers, none read as no route.
abbrev pub answered : Option (List (List String)) → List (List String)
answered none = []
answered (some paths) = paths

abbrev pub PathOf : RouteInfo → ℕ → String → String → List String → Type 0
PathOf ri bound from to path =
    (i : ℕ) × (j : ℕ) × (Dict.lookup ri.asset_to_index from ≡ some i)
    × (Dict.lookup ri.asset_to_index to ≡ some j)
    × (route : List ℕ) × IsRoute ri.initial_pair_map bound i route j
    × (path ≡ addresses ri route)

routes_of_found :
    (ri : RouteInfo) (from to : String) (i j : ℕ)
    → Dict.lookup ri.asset_to_index from ≡ some i
    → Dict.lookup ri.asset_to_index to ≡ some j
    → contains ri.initial_pair_map i ≡ true
    → answered (routes_of ri from to) ≡ map_list (addresses ri) (routes_at ri.routes_map i j)
unfolding routes_of
routes_of_found ri from to i j e f g = ground (arith, e, f, g)

routes_of_nowhere :
    (ri : RouteInfo) (from to : String)
    → (Dict.lookup ri.asset_to_index from ≡ none) ⊎ (Dict.lookup ri.asset_to_index to ≡ none)
    → answered (routes_of ri from to) ≡ []
unfolding routes_of
routes_of_nowhere ri from to (inl e) = ground (arith, e)
routes_of_nowhere ri from to (inr e) = ground (arith, e)

routes_of_alone :
    (ri : RouteInfo) (from to : String) (i : ℕ)
    → Dict.lookup ri.asset_to_index from ≡ some i
    → contains ri.initial_pair_map i ≡ false
    → answered (routes_of ri from to) ≡ []
unfolding routes_of
routes_of_alone ri from to i e f = ground (arith, e, f)

module _ (ri : RouteInfo) (bound : ℕ) (has : (i j : ℕ) → HasRoutes bound i j ri) (from to : String)
    (path : List String) where
  PathOf-answer : Memᴰ path (answered (routes_of ri from to)) → PathOf ri bound from to path
  PathOf-answer m =
      let nowhere : answered (routes_of ri from to) ≡ [] → PathOf ri bound from to path =
        λ e. absurd (Memᴰ.not-nil (subst (λ l. Memᴰ path l) e m)) in
      elim (Option-cases (Dict.lookup ri.asset_to_index from)) [
        | inl e ↦ nowhere (routes_of_nowhere ri from to (inl e))
        | inr (i, e) ↦ elim (Option-cases (Dict.lookup ri.asset_to_index to)) [
          | inl f ↦ nowhere (routes_of_nowhere ri from to (inr f))
          | inr (j, f) ↦ elim (Bool-cases (contains ri.initial_pair_map i)) [
            | inr g ↦ nowhere (routes_of_alone ri from to i e g)
            | inl g ↦
                let (route, n, same) =
                  mem_of_mapped (addresses ri) (routes_at ri.routes_map i j) path
                    (subst (λ l. Memᴰ path l) (routes_of_found ri from to i j e f g) m) in
                (i, j, e, f, route, ((has i j).0 route).0 n, same)
          ]
        ]
      ]

  answer_of_path : PathOf ri bound from to path → Memᴰ path (answered (routes_of ri from to))
  answer_of_path (i, j, e, f, route, is, same) =
      subst (λ l. Memᴰ path l)
        (sym
          (routes_of_found ri from to i j e f (route_key ri.initial_pair_map bound i j route is)))
        (mem_mapped (addresses ri) (routes_at ri.routes_map i j) route path
          (((has i j).0 route).1 is) same)

-- A router whose cache is made of pairs answers, for two tokens, the tokens along the simple paths over
-- the pairs of at most one more than the hops allowed: each answer is one, and each of them is answered.
pub routes_of_iff :
    {W : Type 0} (pairs : List Pair) (max_hop_count : ℕ) (repo : Option (SrcRepo W)) (w : W)
    (ri : RouteInfo)
    → (new_route_info pairs max_hop_count repo w).0 ≡ ok ri
    → (from to : String) (path : List String)
    → Memᴰ path (answered (routes_of ri from to))
      ↔ PathOf ri (capped max_hop_count + 1) from to path
routes_of_iff pairs max_hop_count repo w ri h from to path =
    let has : (i j : ℕ) → HasRoutes (capped max_hop_count + 1) i j ri =
      λ i j. (new_route_info_routes pairs max_hop_count repo w ri h i j).0 in
    (PathOf-answer ri _ has from to path, answer_of_path ri _ has from to path)
