-- ===== src/Router/Info/Order.antt =====
-- About the sorting of routes in setRoutesMap of pkg/dex/router/route_info.go.
use cosmwasm_etl.Prelude.{
  ℕ, ◌≡◌, ◌≤◌, refl, true, false, List, [], ◌∷◌, ◌↔◌, ◌⊎◌, inl, inr, arith, length, Bool-cases,
  Option-cases,
}
use mathlib.Core.List.{Memᴰ}
use mathlib.Core.List.Memᴰ
use cosmwasm_etl.Prelude.IntMap.{map_values, lookup, lookup-empty, lookup-map_values}
use cosmwasm_etl.Router.{Routes, routes_at}
use cosmwasm_etl.Router.Info.{before, insert_route, sort_routes, sort_all}

abbrev pub AtLeast : ℕ → List (List ℕ) → Type 0
AtLeast n [] = Unit
AtLeast n (q ∷ routes) = n ≤ length q

-- No route is longer than the one after it.
abbrev pub ByLength : List (List ℕ) → Type 0
ByLength [] = Unit
ByLength (r ∷ routes) = AtLeast (length r) routes × ByLength routes

before_shorter : (r q : List ℕ) → before r q ≡ true → length r ≤ length q
unfolding before
before_shorter r q h = ground (arith, h)

after_longer : (r q : List ℕ) → before r q ≡ false → length q ≤ length r
unfolding before
after_longer r q h = ground (arith, h)

insert-AtLeast :
    (n : ℕ) (r : List ℕ) (routes : List (List ℕ))
    → n ≤ length r
    → AtLeast n routes
    → AtLeast n (insert_route r routes)
unfolding insert_route
insert-AtLeast n r [] h k = h
insert-AtLeast n r (q ∷ routes) h k = elim (Bool-cases (before r q)) [
  | inl e ↦ rw (e) h
  | inr e ↦ rw (e) k
]

insert-ByLength :
    (r : List ℕ) (routes : List (List ℕ)) → ByLength routes → ByLength (insert_route r routes)
unfolding insert_route
insert-ByLength r [] h = (tt, tt)
insert-ByLength r (q ∷ routes) h = elim (Bool-cases (before r q)) [
  | inl e ↦ rw (e) (before_shorter r q e, h)
  | inr e ↦
      rw (e)
        (insert-AtLeast (length q) r routes (after_longer r q e) h.0, insert-ByLength r routes h.1)
]

cons_mem : (x r : List ℕ) (routes : List (List ℕ)) → Memᴰ x (r ∷ routes) ↔ ((x ≡ r) ⊎ Memᴰ x routes)
cons_mem x r routes = (Memᴰ.cases_cons, λ h. elim h [ inl e ↦ Memᴰ.head e | inr m ↦ Memᴰ.tail m ])

pub sort-ByLength : (routes : List (List ℕ)) → ByLength (sort_routes routes)
unfolding sort_routes
sort-ByLength [] = tt
sort-ByLength (r ∷ routes) = insert-ByLength r (sort_routes routes) (sort-ByLength routes)

insert-mem :
    (r : List ℕ) (routes : List (List ℕ)) (x : List ℕ)
    → Memᴰ x (insert_route r routes) ↔ ((x ≡ r) ⊎ Memᴰ x routes)
unfolding insert_route
insert-mem r [] x = cons_mem x r []
insert-mem r (q ∷ routes) x = elim (Bool-cases (before r q)) [
  | inl e ↦ rw (e) (cons_mem x r (q ∷ routes))
  | inr e ↦ rw (e) (
    λ m. elim (Memᴰ.cases_cons m) [
      | inl f ↦ inr (Memᴰ.head f)
      | inr m' ↦ elim ((insert-mem r routes x).0 m') [ inl f ↦ inl f | inr n ↦ inr (Memᴰ.tail n) ]
    ],
    λ h. elim h [
      | inl f ↦ Memᴰ.tail ((insert-mem r routes x).1 (inl f))
      | inr m ↦ elim (Memᴰ.cases_cons m) [
        | inl f ↦ Memᴰ.head f
        | inr n ↦ Memᴰ.tail ((insert-mem r routes x).1 (inr n))
      ]
    ],
  )
]

pub sort-mem : (routes : List (List ℕ)) (x : List ℕ) → Memᴰ x (sort_routes routes) ↔ Memᴰ x routes
unfolding sort_routes
sort-mem [] x = (λ m. m, λ m. m)
sort-mem (r ∷ routes) x = (
  λ m. elim ((insert-mem r (sort_routes routes) x).0 m) [
    | inl f ↦ Memᴰ.head f
    | inr n ↦ Memᴰ.tail ((sort-mem routes x).0 n)
  ],
  λ m.
      (insert-mem r (sort_routes routes) x).1
        (elim (Memᴰ.cases_cons m) [ inl f ↦ inl f | inr n ↦ inr ((sort-mem routes x).1 n) ]),
)

sort_routes_none : sort_routes [] ≡ []
unfolding sort_routes
sort_routes_none = refl

pub sorted_at :
    (m : Routes) (from to : ℕ) → routes_at (sort_all m) from to ≡ sort_routes (routes_at m from to)
unfolding sort_all
sorted_at m from to = elim (Option-cases (lookup m from)) [
  | inl e ↦ ground (
    arith,
    e,
    lookup-map_values (map_values sort_routes) m from,
    lookup-empty {V = List (List ℕ)} to,
    sort_routes_none,
  )
  | inr (r, e) ↦ ground (
    arith,
    e,
    lookup-map_values (map_values sort_routes) m from,
    lookup-map_values sort_routes r to,
    sort_routes_none,
  )
]
