-- ===== src/Router/Search/Found.antt =====
-- About setRoutesMap of pkg/dex/router/route_info.go: which routes it finds.
use cosmwasm_etl.Prelude.{
  ℕ, String, ◌+◌, ◌≡◌, refl, sym, ◌∙◌, Bool, true, false, List, [], ◌∷◌, ◌↔◌, inl, inr, eqb,
  if◌then◌else◌, arith, Bool-cases, subst, any,
}
use mathlib.Core.Path.{subst₂}
use mathlib.Core.List.{Memᴰ}
use mathlib.Core.List.Memᴰ
use cosmwasm_etl.Prelude.IntMap.{
  IntMap, insert, empty, keys, contains, keys_iff, lookup-insert, lookup-empty,
}
use cosmwasm_etl.Router.{PairMap, Routes, routes_at}
use cosmwasm_etl.Router.Search.{
  Search, is_visited, set_visited, find_all_routes, routes_from, routes_from_all, unvisited,
  all_routes,
}
use cosmwasm_etl.Router.Search.Walks.{Marks, marked, Walk, Records}
use cosmwasm_etl.Router.Search.Visits.{Marks-set, Marks-reset, find_all_routes-Explores}
use cosmwasm_etl.Router.Search.Simple.{IsRoute, Walk-iff, Edge}

unmarked : ℕ → Bool
unmarked k = false

routes-reset :
    (m : Routes) (key s t : ℕ)
    → routes_at (insert m key empty) s t ≡ (if eqb key s then [] else routes_at m s t)
routes-reset m key s t =
    ground (arith, lookup-insert m key empty s, lookup-empty {V = List (List ℕ)} t)

pub iff_trans : {A B C : Type 0} → A ↔ B → B ↔ C → A ↔ C
iff_trans (f, g) (h, k) = (λ a. h (f a), λ c. g (k c))

module _ (max : ℕ) (g : PairMap) where
  abbrev cleared : ℕ → Search → Search
  cleared key s = set_visited key true (record s { routes = insert s.routes key empty })

  abbrev searched : ℕ → Search → Search
  searched key s = find_all_routes (max + 1) g key key [] (cleared key s)

  searched_lem :
      (key : ℕ) (st : Search)
      → Marks (λ _. false) st
      → Marks (marked (λ _. false) key) (searched key st)
        × Records key []
            (Walk g (max + 1) (marked (λ _. false) key) key)
            (cleared key st).routes
            (searched key st).routes
  searched_lem key st marks =
      find_all_routes-Explores g key (max + 1) (marked (λ _. false) key) key [] (cleared key st)
        (Marks-set (λ _. false) key (record st { routes = insert st.routes key empty }) marks)

  routes_from-Marks :
      (key : ℕ) (st : Search)
      → Marks (λ _. false) st
      → Marks (λ _. false) (routes_from max g key st)
  unfolding routes_from
  routes_from-Marks key st marks =
      Marks-reset (λ _. false) key (searched key st) refl (searched_lem key st marks).0

  routes_from_same :
      (key : ℕ) (st : Search)
      → Marks (λ _. false) st
      → (s t : ℕ) (r : List ℕ) → eqb key s ≡ true
      → Memᴰ r (routes_at (routes_from max g key st).routes s t)
        ↔ Walk g (max + 1) (marked (λ _. false) s) s r t
  unfolding routes_from set_visited
  routes_from_same key st marks s t r h =
      let records = (searched_lem key st marks).1 s t r in
      let at : key ≡ s = ground (arith, h) in
      (
        λ m. elim (records.0 m) [
          | inl old ↦ absurd (
              Memᴰ.not-nil
                (subst (λ l. Memᴰ r l) (routes-reset st.routes key s t ∙ ground (arith, h)) old))
          | inr (e, steps, f, w) ↦
              subst₂ (λ k l. Walk g (max + 1) (marked (λ _. false) k) k l t) at (sym f) w
        ],
        λ w. records.1 (
            inr (
              sym at,
              r,
              refl,
              subst (λ k. Walk g (max + 1) (marked (λ _. false) k) k r t) (sym at) w,
            )),
      )

  routes_from_other :
      (key : ℕ) (st : Search)
      → Marks (λ _. false) st
      → (s t : ℕ) (r : List ℕ) → eqb key s ≡ false
      → Memᴰ r (routes_at (routes_from max g key st).routes s t) ↔ Memᴰ r (routes_at st.routes s t)
  unfolding routes_from set_visited
  routes_from_other key st marks s t r h =
      let records = (searched_lem key st marks).1 s t r in
      let reset : routes_at (insert st.routes key empty) s t ≡ routes_at st.routes s t =
        routes-reset st.routes key s t ∙ ground (arith, h) in
      (
        λ m. elim (records.0 m) [
          | inl old ↦ subst (λ l. Memᴰ r l) reset old
          | inr (e, steps, f, w) ↦ absurd (ground (arith, e, h))
        ],
        λ m. records.1 (inl (subst (λ l. Memᴰ r l) (sym reset) m)),
      )

  abbrev asked : List ℕ → ℕ → Bool
  asked ks s = any (λ k. eqb k s) ks

  loop_lem :
      (ks : List ℕ) (st : Search)
      → Marks (λ _. false) st
      → (s t : ℕ) (r : List ℕ)
      → (asked ks s ≡ true
          → Memᴰ r (routes_at (routes_from_all max g ks st).routes s t)
            ↔ Walk g (max + 1) (marked (λ _. false) s) s r t)
        × (asked ks s ≡ false
            → Memᴰ r (routes_at (routes_from_all max g ks st).routes s t)
              ↔ Memᴰ r (routes_at st.routes s t))
  unfolding routes_from_all
  loop_lem [] st marks s t r = (λ h. absurd cc, λ h. (λ m. m, λ m. m))
  loop_lem (key ∷ ks) st marks s t r =
      let (inside, outside) =
        loop_lem ks (routes_from max g key st) (routes_from-Marks key st marks) s t r in
      (
        λ h. elim (Bool-cases (asked ks s)) [
          | inl later ↦ inside later
          | inr now ↦
              iff_trans (outside now) (routes_from_same key st marks s t r (ground (arith, h, now)))
        ],
        λ h.
            iff_trans (outside (ground (arith, h)))
              (routes_from_other key st marks s t r (ground (arith, h))),
      )

any_of_mem : (ks : List ℕ) (s : ℕ) → Memᴰ s ks → any (λ k. eqb k s) ks ≡ true
any_of_mem [] s m = absurd (Memᴰ.not-nil m)
any_of_mem (k ∷ ks) s m = elim (Memᴰ.cases_cons m) [
  | inl e ↦ ground (arith, e)
  | inr m' ↦ ground (arith, any_of_mem ks s m')
]

-- A token with a pair is a key of the map.
Edge-key : (g : PairMap) (i j : ℕ) → Edge g i j → contains g i ≡ true
unfolding contains
Edge-key g i j h = ground (arith, h, lookup-empty {V = String} j)

pub route_key :
    (g : PairMap) (bound from to : ℕ) (route : List ℕ)
    → IsRoute g bound from route to
    → contains g from ≡ true
route_key g bound from to [] (long, _, _, _, _) = absurd (omega (arith, long))
route_key g bound from to (n ∷ route) (_, _, (edge, _), _, _) = Edge-key g from n edge

no_routes : (from to : ℕ) → routes_at empty from to ≡ []
no_routes from to =
    ground
      (arith, lookup-empty {V = IntMap (List (List ℕ))} from, lookup-empty {V = List (List ℕ)} to)

unvisited_lem : (ks : List ℕ) → (k : ℕ) → is_visited (unvisited ks) k ≡ false
unfolding unvisited is_visited
unvisited_lem [] k = ground (arith, lookup-empty {V = Bool} k)
unvisited_lem (j ∷ ks) k =
    ground (arith, lookup-insert (unvisited ks) j false k, unvisited_lem ks k)

-- The routes that are found from a token to another are the simple paths over pairs, of one more pair
-- than the hops at most: no other is found, and none is missed, whatever the order of the maps.
pub all_routes_iff :
    (g : PairMap) (max_hop_count from to : ℕ) (route : List ℕ)
    → Memᴰ route (routes_at (all_routes max_hop_count g) from to)
      ↔ IsRoute g (max_hop_count + 1) from route to
unfolding all_routes
all_routes_iff g max_hop_count from to route =
    let (inside, outside) =
      loop_lem max_hop_count g (keys g) (record { visited = unvisited (keys g); routes = empty })
        (unvisited_lem (keys g)) from to route in
    elim (Bool-cases (any (λ k. eqb k from) (keys g))) [
      | inl h ↦ iff_trans (inside h) (Walk-iff g (max_hop_count + 1) from route to)
      | inr h ↦ (
        λ m.
            absurd (Memᴰ.not-nil (subst (λ l. Memᴰ route l) (no_routes from to) ((outside h).0 m))),
        λ is.
            let key : any (λ k. eqb k from) (keys g) ≡ true =
              any_of_mem (keys g) from ((keys_iff g from).1 (route_key g _ from to route is)) in
            absurd cc,
      )
    ]
