-- ===== src/Router/Search/Walks.antt =====
-- About findAllRoutes of pkg/dex/router/route_info.go: the walks that it records.
use cosmwasm_etl.Prelude.{
  ℕ, zero, suc, ◌≡◌, refl, sym, ◌∙◌, ap, Bool, true, false, List, [], ◌∷◌, ◌++◌, ◌↔◌, ◌⊎◌, inl, inr,
  eqb, if◌then◌else◌, arith, Bool-cases, ◌&&◌, subst,
}
use mathlib.Core.List.{Memᴰ, append_assoc}
use mathlib.Core.List.Memᴰ
use cosmwasm_etl.Prelude.IntMap.{insert, keys, lookup-insert}
use cosmwasm_etl.Router.{PairMap, Routes, row, routes_at}
use cosmwasm_etl.Router.Search.{Search, is_visited, add_route}

abbrev pub Marks : (ℕ → Bool) → Search → Type 0
Marks V s = (k : ℕ) → is_visited s.visited k ≡ V k

abbrev pub marked : (ℕ → Bool) → ℕ → ℕ → Bool
marked V n k = if eqb n k then true else V k

-- The first step goes to one of `nodes` that `V` does not mark; there the walk ends, or it goes on.
abbrev pub Steps :
    ((ℕ → Bool) → ℕ → List ℕ → ℕ → Type 0) → (ℕ → Bool) → List ℕ → List ℕ → ℕ → Type 0
Steps Rest V nodes [] to = ⊥
Steps Rest V nodes (n ∷ steps) to =
    Memᴰ n nodes × (V n ≡ false) × (((steps ≡ []) × (n ≡ to)) ⊎ Rest (marked V n) n steps to)

-- The walks of at most `left` steps from `current` over nodes that `V` does not mark.
abbrev pub Walk : PairMap → ℕ → (ℕ → Bool) → ℕ → List ℕ → ℕ → Type 0
Walk g zero V current steps to = ⊥
Walk g (suc left) V current steps to = Steps (Walk g left) V (keys (row g current)) steps to

-- What is recorded are the routes of before, and those of `start` that go on from `route` by `P`.
abbrev pub Records : ℕ → List ℕ → (List ℕ → ℕ → Type 0) → Routes → Routes → Type 0
Records start route P before after =
    (s t : ℕ) (r : List ℕ)
    → Memᴰ r (routes_at after s t) ↔ (
        Memᴰ r (routes_at before s t)
        ⊎ ((s ≡ start) × (steps : List ℕ) × (r ≡ route ++ steps) × P steps t))

abbrev pub Explores :
    ℕ → (ℕ → List ℕ → Search → Search) → ((ℕ → Bool) → ℕ → List ℕ → ℕ → Type 0) → Type 0
Explores start explore Rest =
    (V : ℕ → Bool) (current : ℕ) (route : List ℕ) (s : Search)
    → Marks V s
    → Marks V (explore current route s)
      × Records start route (Rest V current) s.routes (explore current route s).routes

pub Records-map :
    (start : ℕ) (route : List ℕ) (P Q : List ℕ → ℕ → Type 0) (a b : Routes)
    → ((steps : List ℕ) (t : ℕ) → P steps t ↔ Q steps t)
    → Records start route P a b
    → Records start route Q a b
Records-map start route P Q a b pq h s t r = (
  λ m. elim ((h s t r).0 m) [
    | inl old ↦ inl old
    | inr (e, steps, f, p) ↦ inr (e, steps, f, (pq steps t).0 p)
  ],
  λ m.
      (h s t r).1
        (elim m [ inl old ↦ inl old | inr (e, steps, f, q) ↦ inr (e, steps, f, (pq steps t).1 q) ]),
)

pub Records-trans :
    (start : ℕ) (route : List ℕ) (P Q : List ℕ → ℕ → Type 0) (a b c : Routes)
    → Records start route P a b
    → Records start route Q b c
    → Records start route (λ steps t. P steps t ⊎ Q steps t) a c
Records-trans start route P Q a b c h k s t r = (
  λ m. elim ((k s t r).0 m) [
    | inl old ↦ elim ((h s t r).0 old) [
      | inl older ↦ inl older
      | inr (e, steps, f, p) ↦ inr (e, steps, f, inl p)
    ]
    | inr (e, steps, f, q) ↦ inr (e, steps, f, inr q)
  ],
  λ m. (k s t r).1 (elim m [
    | inl old ↦ inl ((h s t r).1 (inl old))
    | inr (e, steps, f, inl p) ↦ inl ((h s t r).1 (inr (e, steps, f, p)))
    | inr (e, steps, f, inr q) ↦ inr (e, steps, f, q)
  ]),
)

pub Records-same :
    (start : ℕ) (route : List ℕ) (P : List ℕ → ℕ → Type 0) (a : Routes)
    → ((steps : List ℕ) (t : ℕ) → P steps t → ⊥)
    → Records start route P a a
Records-same start route P a none' s t r =
    (inl, λ m. elim m [ inl old ↦ old | inr (e, steps, f, p) ↦ absurd (none' steps t p) ])

routes-add_route :
    (m : Routes) (start to : ℕ) (route : List ℕ) (s t : ℕ)
    → routes_at (add_route m start to route) s t ≡ (
        if eqb start s
        then (if eqb to t then routes_at m s t ++ route ∷ [] else routes_at m s t)
        else routes_at m s t)
unfolding add_route
routes-add_route m start to route s t = ground (
  arith,
  lookup-insert m start (insert (row m start) to (routes_at m start to ++ route ∷ [])) s,
  lookup-insert (row m start) to (routes_at m start to ++ route ∷ []) t,
)

module _ (a : Routes) (start to : ℕ) (route : List ℕ) (s t : ℕ) where
  routes_here :
      (eqb start s && eqb to t) ≡ true
      → routes_at (add_route a start to route) s t ≡ routes_at a s t ++ route ∷ []
  routes_here h = routes-add_route a start to route s t ∙ ground (arith, h)

  routes_elsewhere :
      (eqb start s && eqb to t) ≡ false
      → routes_at (add_route a start to route) s t ≡ routes_at a s t
  routes_elsewhere h = routes-add_route a start to route s t ∙ ground (arith, h)

  mem_of_added :
      (r : List ℕ)
      → Memᴰ r (routes_at (add_route a start to route) s t)
      → Memᴰ r (routes_at a s t) ⊎ ((s ≡ start) × (to ≡ t) × (r ≡ route))
  mem_of_added r m = elim (Bool-cases (eqb start s && eqb to t)) [
    | inl here ↦
        elim (Memᴰ.append_cases (routes_at a s t) (subst (λ l. Memᴰ r l) (routes_here here) m)) [
          | inl old ↦ inl old
          | inr new ↦ inr (ground (arith, here), ground (arith, here), Memᴰ.eq_of_singleton new)
        ]
    | inr other ↦ inl (subst (λ l. Memᴰ r l) (routes_elsewhere other) m)
  ]

  mem_kept :
      (r : List ℕ) → Memᴰ r (routes_at a s t) → Memᴰ r (routes_at (add_route a start to route) s t)
  mem_kept r m = elim (Bool-cases (eqb start s && eqb to t)) [
    | inl here ↦ subst (λ l. Memᴰ r l) (sym (routes_here here)) (Memᴰ.append_left (route ∷ []) m)
    | inr other ↦ subst (λ l. Memᴰ r l) (sym (routes_elsewhere other)) m
  ]

  mem_added :
      (r : List ℕ)
      → s ≡ start
      → to ≡ t
      → r ≡ route
      → Memᴰ r (routes_at (add_route a start to route) s t)
  mem_added r e f g =
      subst (λ l. Memᴰ r l) (sym (routes_here (ground (arith, e, f))))
        (Memᴰ.append_right (routes_at a s t) (Memᴰ.head g))

pub Records-add :
    (start to : ℕ) (route : List ℕ) (a : Routes)
    → Records start route
        (λ steps t. (steps ≡ to ∷ []) × (to ≡ t))
        a
        (add_route a start to (route ++ to ∷ []))
Records-add start to route a s t r = (
  λ m. elim (mem_of_added a start to (route ++ to ∷ []) s t r m) [
    | inl old ↦ inl old
    | inr (e, f, g) ↦ inr (e, to ∷ [], g, (refl, f))
  ],
  λ m. elim m [
    | inl old ↦ mem_kept a start to (route ++ to ∷ []) s t r old
    | inr (e, steps, g, (h, f)) ↦
        mem_added a start to (route ++ to ∷ []) s t r e f (g ∙ ap (λ l. route ++ l) h)
  ],
)

pub Records-longer :
    (start to : ℕ) (route : List ℕ) (P : List ℕ → ℕ → Type 0) (a b : Routes)
    → Records start (route ++ to ∷ []) P a b
    → Records start route (λ steps t. (rest : List ℕ) × (steps ≡ to ∷ rest) × P rest t) a b
Records-longer start to route P a b h s t r = (
  λ m. elim ((h s t r).0 m) [
    | inl old ↦ inl old
    | inr (e, rest, f, p) ↦
        inr (e, to ∷ rest, f ∙ append_assoc route (to ∷ []) rest, (rest, refl, p))
  ],
  λ m. (h s t r).1 (elim m [
    | inl old ↦ inl old
    | inr (e, steps, f, (rest, g, p)) ↦
        inr (e, rest, f ∙ ap (λ l. route ++ l) g ∙ sym (append_assoc route (to ∷ []) rest), p)
  ]),
)
