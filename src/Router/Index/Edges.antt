-- ===== src/Router/Index/Edges.antt =====
-- About setPairMap of pkg/dex/router/route_info.go: the map holds the pairs, in both directions.
use cosmwasm_etl.Prelude.{
  ℕ, String, ◌≡◌, refl, ◌||◌, ◌&&◌, Bool, false, List, [], ◌∷◌, none, some, eqb, arith, any,
  Option-cases, inl, inr, subst, ◌∙◌,
}
use cosmwasm_etl.Prelude.Dict.{Dict}
use cosmwasm_etl.Prelude.IntMap.{
  IntMap, contains, insert, empty, lookup-insert, lookup-empty, contains-insert,
}
use cosmwasm_etl.Router.{Pair, PairMap, row}
use cosmwasm_etl.Router.Index.{ends, ensure_row, link, connect, add_pair, add_pairs, set_pair_map}

abbrev pub has_edge : PairMap → ℕ → ℕ → Bool
has_edge m i j = contains (row m i) j

-- The first two tokens of the pair have the indexes `i` and `j`, in either order.
abbrev pub joins : Dict ℕ → ℕ → ℕ → Pair → Bool
joins d i j p = elim (ends d p.asset_infos) [
  | none ↦ false
  | some (a, b) ↦ (eqb a i && eqb b j) || (eqb b i && eqb a j)
]

edges-ensure : (m : PairMap) (k i j : ℕ) → has_edge (ensure_row m k) i j ≡ has_edge m i j
unfolding ensure_row contains
edges-ensure m k i j = ground (arith, lookup-insert m k empty i, lookup-empty {V = String} j)

edges-link :
    (m : PairMap) (a b : ℕ) (c : String) (i j : ℕ)
    → has_edge (link m a b c) i j ≡ (eqb a i && eqb b j) || has_edge m i j
unfolding link
edges-link m a b c i j =
    ground (arith, lookup-insert m a (insert (row m a) b c) i, contains-insert (row m a) b c j)

edges-connect :
    (m : PairMap) (a b : ℕ) (c : String) (i j : ℕ)
    → has_edge (connect m a b c) i j
      ≡ ((eqb a i && eqb b j) || (eqb b i && eqb a j)) || has_edge m i j
unfolding connect
edges-connect m a b c i j =
    let m1 = ensure_row m a in
    let m2 = ensure_row m1 b in
    ground (
      arith,
      edges-link (link m2 a b c) b a c i j,
      edges-link m2 a b c i j,
      edges-ensure m1 b i j,
      edges-ensure m a i j,
    )

edges-add_pair :
    (d : Dict ℕ) (m m' : PairMap) (p : Pair) (i j : ℕ)
    → add_pair d m p ≡ some m'
    → has_edge m' i j ≡ joins d i j p || has_edge m i j
unfolding add_pair
edges-add_pair d m m' p i j h = elim (Option-cases (ends d p.asset_infos)) [
  | inl e ↦ absurd cc
  | inr ((a, b), e) ↦
      let same : connect m a b p.contract ≡ m' = cc in
      subst (λ k. has_edge k i j ≡ joins d i j p || has_edge m i j) same
        (edges-connect m a b p.contract i j ∙ ground (arith, e))
]

edges-add_pairs :
    (d : Dict ℕ) (pairs : List Pair) (m m' : PairMap) (i j : ℕ)
    → add_pairs d m pairs ≡ some m'
    → has_edge m' i j ≡ any (joins d i j) pairs || has_edge m i j
unfolding add_pairs
edges-add_pairs d [] m m' i j h = let same : m ≡ m' = cc in rw (same) refl
edges-add_pairs d (p ∷ pairs) m m' i j h = elim (Option-cases (add_pair d m p)) [
  | inl e ↦ absurd cc
  | inr (m1, e) ↦
      let next : add_pairs d m1 pairs ≡ some m' = cc in
      ground (arith, edges-add_pairs d pairs m1 m' i j next, edges-add_pair d m m1 p i j e)
]

-- The map has an entry for two indexes if and only if a pair has these two tokens as its first two, in
-- either order.
pub set_pair_map_edges :
    (d : Dict ℕ) (pairs : List Pair) (m : PairMap) (i j : ℕ)
    → set_pair_map d pairs ≡ some m
    → has_edge m i j ≡ any (joins d i j) pairs
unfolding set_pair_map contains
set_pair_map_edges d pairs m i j h = ground (
  arith,
  edges-add_pairs d pairs empty m i j h,
  lookup-empty {V = IntMap String} i,
  lookup-empty {V = String} j,
)
