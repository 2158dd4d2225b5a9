-- ===== src/Router/Index/Laws.antt =====
-- About the indexes of tokens in pkg/dex/router/route_info.go.
use cosmwasm_etl.Prelude.{
  ℕ, String, ◌+◌, ◌≡◌, ◌≤◌, ◌↔◌, true, List, [], ◌∷◌, none, some, eqb, ◌==◌, eq_iff, arith, inl,
  inr, Bool-cases, Option-cases,
}
use mathlib.Core.List.{Memᴰ}
use mathlib.Core.List.Memᴰ
use cosmwasm_etl.Prelude.Dict.{Dict}
use cosmwasm_etl.Prelude.Dict
use cosmwasm_etl.Prelude.IntMap.{IntMap}
use cosmwasm_etl.Prelude.IntMap
use cosmwasm_etl.Router.{Pair}
use cosmwasm_etl.Router.Index.{Index, index_token, index_tokens, index_pairs, set_index, no_index}

-- The two maps are inverse to each other, and the next index is free with all after it.
abbrev pub Inverse : Index → Type 0
Inverse s =
    ((token : String) (i : ℕ)
      → (Dict.lookup s.asset_to_index token ≡ some i)
        ↔ (IntMap.lookup s.index_to_asset i ≡ some token))
    × ((i : ℕ) → s.idx ≤ i → IntMap.lookup s.index_to_asset i ≡ none)

module _ (token : String) (s : Index) (inverse : Inverse s)
    (new : Dict.lookup s.asset_to_index token ≡ none) where
  abbrev indexed : Index
  indexed = record {
    idx = s.idx + 1;
    asset_to_index = Dict.insert s.asset_to_index token s.idx;
    index_to_asset = IntMap.insert s.index_to_asset s.idx token;
  }

  asset_of_index :
      (t : String) (i : ℕ)
      → Dict.lookup indexed.asset_to_index t ≡ some i
      → IntMap.lookup indexed.index_to_asset i ≡ some t
  asset_of_index t i h =
      let known = Dict.lookup-insert s.asset_to_index token s.idx t in
      let goal = IntMap.lookup-insert s.index_to_asset s.idx token i in
      elim (Bool-cases (token == t)) [
        | inl e ↦ ground (arith, known, goal, h, e, eq_iff token t)
        | inr e ↦
            let old : Dict.lookup s.asset_to_index t ≡ some i = ground (arith, known, h, e) in
            let at = (inverse.0 t i).0 old in
            ground (arith, goal, at, inverse.1 s.idx (omega arith))
      ]

  index_of_asset :
      (t : String) (i : ℕ)
      → IntMap.lookup indexed.index_to_asset i ≡ some t
      → Dict.lookup indexed.asset_to_index t ≡ some i
  index_of_asset t i h =
      let goal = Dict.lookup-insert s.asset_to_index token s.idx t in
      let known = IntMap.lookup-insert s.index_to_asset s.idx token i in
      elim (Bool-cases (eqb s.idx i)) [
        | inl e ↦ ground (arith, known, goal, h, e, eq_iff token t)
        | inr e ↦
            let old : IntMap.lookup s.index_to_asset i ≡ some t = ground (arith, known, h, e) in
            let at = (inverse.0 t i).1 old in ground (arith, goal, at, eq_iff token t, new)
      ]

  still_free : (i : ℕ) → s.idx + 1 ≤ i → IntMap.lookup indexed.index_to_asset i ≡ none
  still_free i h = ground (
    arith,
    IntMap.lookup-insert s.index_to_asset s.idx token i,
    inverse.1 i (omega (arith, h)),
    h,
  )

index_token-Inverse : (token : String) (s : Index) → Inverse s → Inverse (index_token token s)
unfolding index_token Dict.contains
index_token-Inverse token s inverse = elim (Option-cases (Dict.lookup s.asset_to_index token)) [
  | inr (i, known) ↦ rw (known, index_token) inverse
  | inl new ↦
      rw (new, index_token)
        (
          λ t i. (asset_of_index token s inverse new t i, index_of_asset token s inverse new t i),
          still_free token s inverse new,
        )
]

index_tokens-Inverse :
    (tokens : List String) (s : Index) → Inverse s → Inverse (index_tokens tokens s)
unfolding index_tokens
index_tokens-Inverse [] s h = h
index_tokens-Inverse (token ∷ tokens) s h =
    index_tokens-Inverse tokens (index_token token s) (index_token-Inverse token s h)

index_pairs-Inverse : (pairs : List Pair) (s : Index) → Inverse s → Inverse (index_pairs pairs s)
unfolding index_pairs
index_pairs-Inverse [] s h = h
index_pairs-Inverse (pair ∷ pairs) s h =
    index_pairs-Inverse pairs (index_tokens pair.asset_infos s)
      (index_tokens-Inverse pair.asset_infos s h)

no_index-Inverse : Inverse no_index
no_index-Inverse = (
  λ t i. (
    λ h. absurd (ground (arith, h, Dict.lookup-empty {V = ℕ} t)),
    λ h. absurd (ground (arith, h, IntMap.lookup-empty {V = String} i)),
  ),
  λ i h. IntMap.lookup-empty i,
)

-- An index once given stays.
module _ (t : String) where
  abbrev Known : Index → Type 0
  Known s = Dict.contains s.asset_to_index t ≡ true

  token-Known : (token : String) (s : Index) → Known s → Known (index_token token s)
  unfolding index_token Dict.contains
  token-Known token s h = ground (arith, h, Dict.lookup-insert s.asset_to_index token s.idx t)

  this-Known : (s : Index) → Known (index_token t s)
  unfolding index_token Dict.contains
  this-Known s = ground (arith, Dict.lookup-insert s.asset_to_index t s.idx t, eq_iff t t)

  tokens-Known : (tokens : List String) (s : Index) → Known s → Known (index_tokens tokens s)
  unfolding index_tokens
  tokens-Known [] s h = h
  tokens-Known (token ∷ tokens) s h =
      tokens-Known tokens (index_token token s) (token-Known token s h)

  these-Known : (tokens : List String) (s : Index) → Memᴰ t tokens → Known (index_tokens tokens s)
  unfolding index_tokens
  these-Known [] s m = absurd (Memᴰ.not-nil m)
  these-Known (token ∷ tokens) s m = elim (Memᴰ.cases_cons m) [
    | inl e ↦ tokens-Known tokens (index_token token s) (rw (← e) (this-Known s))
    | inr m' ↦ these-Known tokens (index_token token s) m'
  ]

  pairs-Known : (pairs : List Pair) (s : Index) → Known s → Known (index_pairs pairs s)
  unfolding index_pairs
  pairs-Known [] s h = h
  pairs-Known (p ∷ pairs) s h =
      pairs-Known pairs (index_tokens p.asset_infos s) (tokens-Known p.asset_infos s h)

  these_pairs-Known :
      (pairs : List Pair) (s : Index) (p : Pair)
      → Memᴰ p pairs
      → Memᴰ t p.asset_infos
      → Known (index_pairs pairs s)
  unfolding index_pairs
  these_pairs-Known [] s p m n = absurd (Memᴰ.not-nil m)
  these_pairs-Known (q ∷ pairs) s p m n = elim (Memᴰ.cases_cons m) [
    | inl e ↦
        pairs-Known pairs (index_tokens q.asset_infos s) (these-Known q.asset_infos s (rw (← e) n))
    | inr m' ↦ these_pairs-Known pairs (index_tokens q.asset_infos s) p m' n
  ]

-- The two maps of tokens and indexes are inverse to each other, and every token of a pair has an index.
pub set_index-Inverse :
    (pairs : List Pair)
    → ((token : String) (i : ℕ)
        → (Dict.lookup (set_index pairs).asset_to_index token ≡ some i)
          ↔ (IntMap.lookup (set_index pairs).index_to_asset i ≡ some token))
      × ((p : Pair) (token : String)
          → Memᴰ p pairs
          → Memᴰ token p.asset_infos
          → Dict.contains (set_index pairs).asset_to_index token ≡ true)
unfolding set_index
set_index-Inverse pairs = (
  (index_pairs-Inverse pairs no_index no_index-Inverse).0,
  λ p token m n. these_pairs-Known token pairs no_index p m n,
)
