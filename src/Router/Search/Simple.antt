-- ===== src/Router/Search/Simple.antt =====
-- The routes of pkg/dex/router/route_info.go, described without the search.
use cosmwasm_etl.Prelude.{
  ℕ, zero, suc, ◌≡◌, refl, sym, ◌∙◌, ◌≤◌, ◌||◌, Bool, true, false, List, [], ◌∷◌, ◌↔◌, inl, inr,
  eqb, arith, any, length,
}
use cosmwasm_etl.Prelude.IntMap.{contains, keys_iff}
use cosmwasm_etl.Router.{PairMap, row}
use cosmwasm_etl.Router.Search.Walks.{marked, Walk}

-- A pair has the two tokens.
abbrev pub Edge : PairMap → ℕ → ℕ → Type 0
Edge g i j = contains (row g i) j ≡ true

abbrev pub Connected : PairMap → ℕ → List ℕ → Type 0
Connected g current [] = Unit
Connected g current (n ∷ steps) = Edge g current n × Connected g n steps

abbrev pub Distinct : List ℕ → Type 0
Distinct [] = Unit
Distinct (n ∷ steps) = (any (eqb n) steps ≡ false) × Distinct steps

abbrev pub last_of : ℕ → List ℕ → ℕ
last_of current [] = current
last_of current (n ∷ steps) = last_of n steps

-- The tokens after the first of a simple path of at most `bound` pairs from `from` to `to`.
abbrev pub IsRoute : PairMap → ℕ → ℕ → List ℕ → ℕ → Type 0
IsRoute g bound from route to =
    (1 ≤ length route)
    × (length route ≤ bound)
    × Connected g from route
    × Distinct (from ∷ route)
    × (last_of from route ≡ to)

any-marked :
    (V : ℕ → Bool) (n : ℕ) (steps : List ℕ)
    → any (marked V n) steps ≡ any V steps || any (eqb n) steps
any-marked V n [] = refl
any-marked V n (k ∷ steps) = ground (arith, any-marked V n steps)

none_but : (s : ℕ) (steps : List ℕ) → any (marked (λ _. false) s) steps ≡ any (eqb s) steps
none_but s [] = refl
none_but s (k ∷ steps) = ground (arith, none_but s steps)

module _ (g : PairMap) where
  -- What a walk is: a simple path over nodes that are not marked.
  abbrev Free : ℕ → (ℕ → Bool) → ℕ → List ℕ → ℕ → Type 0
  Free left V current steps t =
      (1 ≤ length steps)
      × (length steps ≤ left)
      × Connected g current steps
      × (any V steps ≡ false)
      × Distinct steps
      × (last_of current steps ≡ t)

  Free-of_Walk :
      (left : ℕ) (V : ℕ → Bool) (current : ℕ) (steps : List ℕ) (t : ℕ)
      → Walk g left V current steps t
      → Free left V current steps t
  Free-of_Walk zero V current steps t h = absurd h
  Free-of_Walk (suc left) V current [] t h = absurd h
  Free-of_Walk (suc left) V current (n ∷ steps) t (m, f, inl (e, h)) =
      let edge = (keys_iff (row g current) n).0 m in
      rw (e) (omega arith, omega arith, (edge, tt), ground (arith, f), (refl, tt), h)
  Free-of_Walk (suc left) V current (n ∷ steps) t (m, f, inr w) =
      let edge = (keys_iff (row g current) n).0 m in
      let (long, short, path, free, apart, end) = Free-of_Walk left (marked V n) n steps t w in
      let both = sym (any-marked V n steps) ∙ free in
      (
        omega arith,
        omega (arith, short),
        (edge, path),
        ground (arith, f, both),
        (ground (arith, both), apart),
        end,
      )

  Walk-of_Free :
      (left : ℕ) (V : ℕ → Bool) (current : ℕ) (steps : List ℕ) (t : ℕ)
      → Free left V current steps t
      → Walk g left V current steps t
  Walk-of_Free zero V current steps t (long, short, _, _, _, _) =
      absurd (omega (arith, long, short))
  Walk-of_Free (suc left) V current [] t (long, _, _, _, _, _) = absurd (omega (arith, long))
  Walk-of_Free (suc left) V current (n ∷ []) t (long, short, (edge, _), free, _, end) =
      ((keys_iff (row g current) n).1 edge, ground (arith, free), inl (refl, end))
  Walk-of_Free (suc left) V current (n ∷ k ∷ steps) t
        (long, short, (edge, path), free, (new, apart), end) =
      (
        (keys_iff (row g current) n).1 edge,
        ground (arith, free),
        inr (
            Walk-of_Free left (marked V n) n (k ∷ steps) t (
              omega arith,
              omega (arith, short),
              path,
              any-marked V n (k ∷ steps) ∙ ground (arith, free, new),
              apart,
              end,
            )),
      )

  -- The walks from a node of which only it is marked are the routes.
  pub Walk-iff :
      (bound s : ℕ) (steps : List ℕ) (t : ℕ)
      → Walk g bound (marked (λ _. false) s) s steps t ↔ IsRoute g bound s steps t
  Walk-iff bound s steps t = (
    λ w.
        let (long, short, path, free, apart, end) =
          Free-of_Walk bound (marked (λ _. false) s) s steps t w in
        (long, short, path, (sym (none_but s steps) ∙ free, apart), end),
    λ (long, short, path, (new, apart), end).
        Walk-of_Free bound (marked (λ _. false) s) s steps t
          (long, short, path, none_but s steps ∙ new, apart, end),
  )
