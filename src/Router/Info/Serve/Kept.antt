-- ===== src/Router/Info/Serve/Kept.antt =====
-- About `Update` of pkg/dex/router/router.go.
use cosmwasm_etl.Prelude.{
  ◌≡◌, refl, sym, subst, Bool, true, false, List, Option, none, some, ◌⊎◌, inl, inr, if◌then◌else◌,
  arith, Bool-cases,
}
use cosmwasm_etl.EventLog.Error.{Error, Result, ok, err, crash}
use cosmwasm_etl.Router.{Pair, RouteInfo}
use cosmwasm_etl.Router.Info.{SrcRepo, new_route_info}
use cosmwasm_etl.Router.Info.Serve.{Router, should_update, returned, waits, update, update_locked}

result_cases :
    {A : Type 0} (x : Result A)
    → ((a : A) × (x ≡ ok a)) ⊎ (((e : Error) × (x ≡ err e)) ⊎ (x ≡ crash))
result_cases (ok a) = inl (a, refl)
result_cases (err e) = inr (inl (e, refl))
result_cases crash = inr (inr refl)

module _ {W : Type 0} where
  -- The cache is made of the pairs that are kept with it.
  abbrev pub Kept : Router W → Type 0
  Kept r =
      (r.route_info ≡ none)
      ⊎ ((ri : RouteInfo) × (r.route_info ≡ some ri)
          × (repo : Option (SrcRepo W)) × (w : W) × ((new_route_info r.cached_pairs r.max_hop_count
                repo w).0
              ≡ ok ri))

  abbrev given : Router W → Option (SrcRepo W)
  given r = if r.write_db then some r.repo else none

  abbrev refreshed : Router W → List Pair → RouteInfo → Router W
  refreshed r pairs ri = record r { route_info = some ri; cached_pairs = pairs; locked = false }

  -- What a call that has the mutex leaves.
  abbrev Left : Router W → List Pair → W → Router W → Type 0
  Left r pairs w r' =
      ((b : Bool) × (record r { locked = b } ≡ r'))
      ⊎ ((ri : RouteInfo) × ((new_route_info pairs r.max_hop_count (given r) w).0 ≡ ok ri)
          × (refreshed r pairs ri ≡ r'))

  locked_leaves :
      (r : Router W) (pairs : List Pair) (w : W) → Left r pairs w (update_locked r pairs w).1
  locked_leaves r pairs w = elim (Bool-cases (should_update r pairs)) [
    | inr e ↦ inl (false, ground (arith, e))
    | inl e ↦ elim (result_cases (new_route_info pairs r.max_hop_count (given r) w).0) [
      | inl (ri, f) ↦ inr (ri, f, ground (arith, e, f))
      | inr (inl (x, f)) ↦ inl (true, ground (arith, e, f))
      | inr (inr f) ↦ inl (true, ground (arith, e, f))
    ]
  ]

  Kept-of_Left :
      (r r' : Router W) (pairs : List Pair) (w : W) → Kept r → Left r pairs w r' → Kept r'
  Kept-of_Left r r' pairs w kept (inl (b, e)) = subst Kept e kept
  Kept-of_Left r r' pairs w kept (inr (ri, f, e)) = subst Kept e (inr (ri, refl, given r, w, f))

  update_leaves :
      (r : Router W) (w : W)
      → ((update r w).1 ≡ r)
        ⊎ ((pairs : List Pair) × ((r.repo.pairs w).0 ≡ ok pairs)
            × ((update r w).1 ≡ (update_locked r pairs (r.repo.pairs w).1).1))
  unfolding update
  update_leaves r w = elim (result_cases (r.repo.pairs w).0) [
    | inl (pairs, e) ↦ elim (Bool-cases r.locked) [
      | inl f ↦ inl (ground (arith, e, f))
      | inr f ↦ inr (pairs, e, ground (arith, e, f))
    ]
    | inr (inl (x, e)) ↦ inl (ground (arith, e))
    | inr (inr e) ↦ inl (ground (arith, e))
  ]

-- Whatever a call of `Update` meets, errors and a held mutex included, it leaves a router whose cache is
-- the one made of the pairs that are kept with it.
pub update-Kept : {W : Type 0} (r : Router W) (w : W) → Kept r → Kept (update r w).1
update-Kept r w kept = elim (update_leaves r w) [
  | inl e ↦ subst Kept (sym e) kept
  | inr (pairs, _, e) ↦ subst Kept (sym e) (
      Kept-of_Left r (update_locked r pairs (r.repo.pairs w).1).1 pairs (r.repo.pairs w).1 kept
        (locked_leaves r pairs (r.repo.pairs w).1))
]

-- A call that gets an error in making the cache returns that error with the mutex held, and every later
-- call that can read the pairs waits for ever and changes nothing.
pub update_held :
    {W : Type 0} (r : Router W) (w later : W) (pairs new : List Pair) (e : Error)
    → r.locked ≡ false
    → (r.repo.pairs w).0 ≡ ok pairs
    → should_update r pairs ≡ true
    → (new_route_info pairs r.max_hop_count
        (if r.write_db then some r.repo else none)
        (r.repo.pairs w).1).0
      ≡ err e
    → (r.repo.pairs later).0 ≡ ok new
    → ((update r w).0 ≡ returned (err e))
      × ((update (update r w).1 later).0 ≡ waits)
      × ((update (update r w).1 later).1 ≡ (update r w).1)
unfolding update
update_held r w later pairs new e free reads changed fails reads' =
    let held : (update r w).1 ≡ record r { locked = true } =
      ground (arith, free, reads, changed, fails) in
    (
      ground (arith, free, reads, changed, fails),
      subst (λ k. (update k later).0 ≡ waits) (sym held) (ground (arith, reads')),
      subst (λ k. (update k later).1 ≡ k) (sym held) (ground (arith, reads')),
    )
