-- ===== src/Router/Search/Visits.antt =====
-- About findAllRoutes of pkg/dex/router/route_info.go: what the loop over the nodes records.
use cosmwasm_etl.Prelude.{
  ℕ, zero, suc, ◌≡◌, refl, sym, ◌∙◌, Bool, true, false, List, [], ◌∷◌, ◌++◌, ◌↔◌, ◌⊎◌, inl, inr,
  eqb, if◌then◌else◌, arith, Bool-cases, subst,
}
use mathlib.Core.List.{Memᴰ}
use mathlib.Core.List.Memᴰ
use cosmwasm_etl.Prelude.IntMap.{keys, lookup-insert}
use cosmwasm_etl.Router.{PairMap, row}
use cosmwasm_etl.Router.Search.{
  Search, is_visited, add_route, set_visited, visit, visit_all, find_all_routes,
}
use cosmwasm_etl.Router.Search.Walks.{
  Marks, marked, Steps, Walk, Records, Explores, Records-map, Records-trans, Records-same,
  Records-add, Records-longer,
}

pub visited-set :
    (k : ℕ) (b : Bool) (s : Search) (j : ℕ)
    → is_visited (set_visited k b s).visited j ≡ (if eqb k j then b else is_visited s.visited j)
unfolding is_visited set_visited
visited-set k b s j = ground (arith, lookup-insert s.visited k b j)

pub routes-set : (k : ℕ) (b : Bool) (s : Search) → (set_visited k b s).routes ≡ s.routes
unfolding set_visited
routes-set k b s = refl

pub Marks-set :
    (V : ℕ → Bool) (k : ℕ) (s : Search) → Marks V s → Marks (marked V k) (set_visited k true s)
Marks-set V k s h j = rw (visited-set k true s j, h j) refl

pub Marks-reset :
    (V : ℕ → Bool) (k : ℕ) (s : Search)
    → V k ≡ false
    → Marks (marked V k) s
    → Marks V (set_visited k false s)
Marks-reset V k s free h j = ground (arith, visited-set k false s j, h j, free)

first_step :
    (Rest : (ℕ → Bool) → ℕ → List ℕ → ℕ → Type 0) (V : ℕ → Bool) (to : ℕ)
    → V to ≡ false
    → (steps : List ℕ) (t : ℕ)
    → (((steps ≡ to ∷ []) × (to ≡ t))
        ⊎ ((rest : List ℕ) × (steps ≡ to ∷ rest) × Rest (marked V to) to rest t))
      ↔ Steps Rest V (to ∷ []) steps t
first_step Rest V to free [] t =
    (λ h. elim h [ inl (e, f) ↦ absurd cc | inr (rest, e, r) ↦ absurd cc ], λ h. absurd h)
first_step Rest V to free (n ∷ steps) t = (
  λ h. elim h [
    | inl (e, f) ↦ let at : n ≡ to = cc in (Memᴰ.head at, rw (at, free) refl, inl (cc, at ∙ f))
    | inr (rest, e, r) ↦
        let at : n ≡ to = cc in
        let same : steps ≡ rest = cc in (Memᴰ.head at, rw (at, free) refl, inr (rw (at, same) r))
  ],
  λ (m, f, h).
      let at : n ≡ to = Memᴰ.eq_of_singleton m in
      elim h [
        | inl (e, g) ↦ inl (rw (at, e) refl, sym at ∙ g)
        | inr r ↦ inr (steps, rw (at) refl, subst (λ k. Rest (marked V k) k steps t) at r)
      ],
)

not_first :
    (Rest : (ℕ → Bool) → ℕ → List ℕ → ℕ → Type 0) (V : ℕ → Bool) (to : ℕ)
    → V to ≡ true
    → (steps : List ℕ) (t : ℕ) → Steps Rest V (to ∷ []) steps t
    → ⊥
not_first Rest V to seen [] t h = h
not_first Rest V to seen (n ∷ steps) t (m, f, h) =
    let at : n ≡ to = Memᴰ.eq_of_singleton m in absurd cc

no-Steps :
    (Rest : (ℕ → Bool) → ℕ → List ℕ → ℕ → Type 0) (V : ℕ → Bool) (steps : List ℕ) (t : ℕ)
    → Steps Rest V [] steps t
    → ⊥
no-Steps Rest V [] t h = h
no-Steps Rest V (n ∷ steps) t (m, f, h) = Memᴰ.not-nil m

Steps-cons :
    (Rest : (ℕ → Bool) → ℕ → List ℕ → ℕ → Type 0) (V : ℕ → Bool) (to : ℕ) (nodes : List ℕ)
    (steps : List ℕ) (t : ℕ)
    → (Steps Rest V (to ∷ []) steps t ⊎ Steps Rest V nodes steps t)
      ↔ Steps Rest V (to ∷ nodes) steps t
Steps-cons Rest V to nodes [] t = (λ h. elim h [ inl e ↦ e | inr e ↦ e ], λ h. absurd h)
Steps-cons Rest V to nodes (n ∷ steps) t = (
  λ h. elim h [
    | inl (m, f, r) ↦ (Memᴰ.append_left nodes m, f, r)
    | inr (m, f, r) ↦ (Memᴰ.tail m, f, r)
  ],
  λ (m, f, r). elim (Memᴰ.cases_cons m) [
    | inl at ↦ inl (Memᴰ.head at, f, r)
    | inr m' ↦ inr (m', f, r)
  ],
)

abbrev pub Good : (ℕ → Bool) → ℕ → List ℕ → (List ℕ → ℕ → Type 0) → Search → Search → Type 0
Good V start route P s s' = Marks V s' × Records start route P s.routes s'.routes

module _ (start : ℕ) (explore : ℕ → List ℕ → Search → Search)
    (Rest : (ℕ → Bool) → ℕ → List ℕ → ℕ → Type 0) (explores : Explores start explore Rest)
    (V : ℕ → Bool) (route : List ℕ) where
  abbrev entered : ℕ → Search → Search
  entered to s =
      set_visited to true (record s { routes = add_route s.routes start to (route ++ to ∷ []) })

  visit_seen :
      (to : ℕ) (s : Search) → is_visited s.visited to ≡ true → visit explore start route to s ≡ s
  unfolding visit
  visit_seen to s h = rw (h, visit) refl

  visit_free :
      (to : ℕ) (s : Search)
      → is_visited s.visited to ≡ false
      → visit explore start route to s
        ≡ set_visited to false (explore to (route ++ to ∷ []) (entered to s))
  unfolding visit
  visit_free to s h = rw (h, visit) refl

  entered-Marks : (to : ℕ) (s : Search) → Marks V s → Marks (marked V to) (entered to s)
  entered-Marks to s marks =
      Marks-set V to (record s { routes = add_route s.routes start to (route ++ to ∷ []) }) marks

  visit_new :
      (to : ℕ) (s : Search)
      → Marks V s
      → V to ≡ false
      → Good V start route
          (Steps Rest V (to ∷ []))
          s
          (set_visited to false (explore to (route ++ to ∷ []) (entered to s)))
  unfolding set_visited
  visit_new to s marks free =
      let (after, records) =
        explores (marked V to) to (route ++ to ∷ []) (entered to s) (entered-Marks to s marks) in
      (
        Marks-reset V to (explore to (route ++ to ∷ []) (entered to s)) free after,
        Records-map start route _ _ s.routes (explore to (route ++ to ∷ []) (entered to s)).routes
            (first_step Rest V to free)
            (Records-trans start route _ _ s.routes (entered to s).routes
              (explore to (route ++ to ∷ []) (entered to s)).routes
              (Records-add start to route s.routes)
              (Records-longer start to route (Rest (marked V to) to) _ _ records)),
      )

  visit_lem :
      (to : ℕ) (s : Search)
      → Marks V s
      → Good V start route (Steps Rest V (to ∷ [])) s (visit explore start route to s)
  visit_lem to s marks = elim (Bool-cases (is_visited s.visited to)) [
    | inl seen ↦
        subst (Good V start route (Steps Rest V (to ∷ [])) s) (sym (visit_seen to s seen))
          (marks, Records-same start route _ s.routes (not_first Rest V to (sym (marks to) ∙ seen)))
    | inr free ↦
        subst (Good V start route (Steps Rest V (to ∷ [])) s) (sym (visit_free to s free))
          (visit_new to s marks (sym (marks to) ∙ free))
  ]

  pub visit_all_lem :
      (nodes : List ℕ) (s : Search)
      → Marks V s
      → Good V start route (Steps Rest V nodes) s (visit_all explore start route nodes s)
  unfolding visit_all
  visit_all_lem [] s marks = (marks, Records-same start route _ s.routes (no-Steps Rest V))
  visit_all_lem (to ∷ nodes) s marks =
      let (first, here) = visit_lem to s marks in
      let (last, there) = visit_all_lem nodes (visit explore start route to s) first in
      (
        last,
        Records-map start route _ _ s.routes (visit_all explore start route (to ∷ nodes) s).routes
            (Steps-cons Rest V to nodes)
            (Records-trans start route _ _ s.routes (visit explore start route to s).routes
              (visit_all explore start route (to ∷ nodes) s).routes here there),
      )

-- The search records the walks, and leaves the marks as they were.
pub find_all_routes-Explores :
    (g : PairMap) (start left : ℕ) → Explores start (find_all_routes left g start) (Walk g left)
unfolding find_all_routes
find_all_routes-Explores g start zero V current route s marks =
    (marks, Records-same start route _ s.routes (λ steps t h. h))
find_all_routes-Explores g start (suc left) V current route s marks =
    visit_all_lem start (find_all_routes left g start) (Walk g left)
      (find_all_routes-Explores g start left) V route (keys (row g current)) s marks
