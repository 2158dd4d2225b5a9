-- ===== src/Router/Info/Serve/Reached.antt =====
-- About the loops of `TokensFrom` of pkg/dex/router/router.go.
use cosmwasm_etl.Prelude.{
  ℕ, String, ◌≡◌, refl, subst, Bool, true, false, List, [], ◌∷◌, ◌↔◌, ◌⊎◌, inl, inr, if◌then◌else◌,
  arith, length, Bool-cases, ◌==◌, eq_iff,
}
use mathlib.Core.List.{Memᴰ}
use mathlib.Core.List.Memᴰ
use cosmwasm_etl.Prelude.Int.{ℤ, pos, ltb_ℤ}
use cosmwasm_etl.Prelude.Text.{str_leb}
use cosmwasm_etl.Prelude.Dict.{Dict}
use cosmwasm_etl.Prelude.Dict
use cosmwasm_etl.Router.{RouteInfo, routes_at}
use cosmwasm_etl.Router.Info.Serve.{
  address_from_index, next_int, add_reached, token_map, insert_text, sort_texts,
}

insert_text-mem :
    (s : String) (texts : List String) (x : String)
    → Memᴰ x (insert_text s texts) ↔ Memᴰ x (s ∷ texts)
unfolding insert_text
insert_text-mem s [] x = (λ m. m, λ m. m)
insert_text-mem s (t ∷ texts) x = elim (Bool-cases (str_leb s t)) [
  | inl e ↦ rw (e) (λ m. m, λ m. m)
  | inr e ↦ rw (e) (
    λ m. elim (Memᴰ.cases_cons m) [
      | inl f ↦ Memᴰ.tail (Memᴰ.head f)
      | inr n ↦ elim (Memᴰ.cases_cons ((insert_text-mem s texts x).0 n)) [
        | inl f ↦ Memᴰ.head f
        | inr k ↦ Memᴰ.tail (Memᴰ.tail k)
      ]
    ],
    λ m. elim (Memᴰ.cases_cons m) [
      | inl f ↦ Memᴰ.tail ((insert_text-mem s texts x).1 (Memᴰ.head f))
      | inr n ↦ elim (Memᴰ.cases_cons n) [
        | inl f ↦ Memᴰ.head f
        | inr k ↦ Memᴰ.tail ((insert_text-mem s texts x).1 (Memᴰ.tail k))
      ]
    ],
  )
]

pub sort_texts-mem : (texts : List String) (x : String) → Memᴰ x (sort_texts texts) ↔ Memᴰ x texts
unfolding sort_texts
sort_texts-mem [] x = (λ m. m, λ m. m)
sort_texts-mem (s ∷ texts) x = (
  λ m. elim (Memᴰ.cases_cons ((insert_text-mem s (sort_texts texts) x).0 m)) [
    | inl f ↦ Memᴰ.head f
    | inr n ↦ Memᴰ.tail ((sort_texts-mem texts x).0 n)
  ],
  λ m. (insert_text-mem s (sort_texts texts) x).1 (elim (Memᴰ.cases_cons m) [
    | inl f ↦ Memᴰ.head f
    | inr n ↦ Memᴰ.tail ((sort_texts-mem texts x).1 n)
  ]),
)

-- `len(route) <= hopCount+1`, where the hops may be negative.
abbrev pub Within : ℤ → List ℕ → Type 0
Within hop_count route = ltb_ℤ (next_int hop_count) (pos (length route)) ≡ false

module _ (ri : RouteInfo) (hop_count : ℤ) (t : String) where
  abbrev pub Reaches : ℕ → List (List ℕ) → Type 0
  Reaches k routes =
      (route : List ℕ) × Memᴰ route routes × Within hop_count route × (address_from_index ri k ≡ t)

  abbrev one : ℕ → List ℕ → Dict Bool → Dict Bool
  one k route tokens =
      if ltb_ℤ (next_int hop_count) (pos (length route))
      then tokens
      else Dict.insert tokens (address_from_index ri k) true

  abbrev pub Has : Dict Bool → Type 0
  Has tokens = Dict.contains tokens t ≡ true

  Has-of_one :
      (k : ℕ) (route : List ℕ) (tokens : Dict Bool)
      → Has (one k route tokens)
      → Has tokens ⊎ (Within hop_count route × (address_from_index ri k ≡ t))
  Has-of_one k route tokens h =
      let law = Dict.contains-insert tokens (address_from_index ri k) true t in
      elim (Bool-cases (ltb_ℤ (next_int hop_count) (pos (length route)))) [
        | inl e ↦ inl (ground (arith, e, h))
        | inr e ↦ elim (Bool-cases (address_from_index ri k == t)) [
          | inl f ↦ inr (e, (eq_iff (address_from_index ri k) t).0 f)
          | inr f ↦ inl (ground (arith, e, h, law, f))
        ]
      ]

  Has-one :
      (k : ℕ) (route : List ℕ) (tokens : Dict Bool)
      → Has tokens ⊎ (Within hop_count route × (address_from_index ri k ≡ t))
      → Has (one k route tokens)
  Has-one k route tokens (inl h) =
      ground (arith, h, Dict.contains-insert tokens (address_from_index ri k) true t)
  Has-one k route tokens (inr (e, f)) = ground (
    arith,
    e,
    (eq_iff (address_from_index ri k) t).1 f,
    Dict.contains-insert tokens (address_from_index ri k) true t,
  )

  reached_iff :
      (k : ℕ) (routes : List (List ℕ)) (tokens : Dict Bool)
      → Has (add_reached ri hop_count k routes tokens) ↔ (Has tokens ⊎ Reaches k routes)
  unfolding add_reached
  reached_iff k [] tokens =
      (inl, λ h. elim h [ inl g ↦ g | inr (route, m, _, _) ↦ absurd (Memᴰ.not-nil m) ])
  reached_iff k (q ∷ routes) tokens =
      let (of, to) = reached_iff k routes (one k q tokens) in
      (
        λ h. elim (of h) [
          | inr (route, m, e, f) ↦ inr (route, Memᴰ.tail m, e, f)
          | inl g ↦ elim (Has-of_one k q tokens g) [
            | inl g' ↦ inl g'
            | inr (e, f) ↦ inr (q, Memᴰ.head refl, e, f)
          ]
        ],
        λ h. to (elim h [
          | inl g ↦ inl (Has-one k q tokens (inl g))
          | inr (route, m, e, f) ↦ elim (Memᴰ.cases_cons m) [
            | inl same ↦ inl (Has-one k q tokens (inr (subst (Within hop_count) same e, f)))
            | inr n ↦ inr (route, n, e, f)
          ]
        ]),
      )

  abbrev pub ReachesFrom : ℕ → List ℕ → Type 0
  ReachesFrom i ks = (k : ℕ) × Memᴰ k ks × Reaches k (routes_at ri.routes_map i k)

  pub token_map_iff :
      (i : ℕ) (ks : List ℕ) (tokens : Dict Bool)
      → Has (token_map ri hop_count i ks tokens) ↔ (Has tokens ⊎ ReachesFrom i ks)
  unfolding token_map
  token_map_iff i [] tokens =
      (inl, λ h. elim h [ inl g ↦ g | inr (k, m, _) ↦ absurd (Memᴰ.not-nil m) ])
  token_map_iff i (k ∷ ks) tokens =
      let here = add_reached ri hop_count k (routes_at ri.routes_map i k) tokens in
      let (of, to) = token_map_iff i ks here in
      let (of', to') = reached_iff k (routes_at ri.routes_map i k) tokens in
      (
        λ h. elim (of h) [
          | inr (j, m, r) ↦ inr (j, Memᴰ.tail m, r)
          | inl g ↦ elim (of' g) [ inl g' ↦ inl g' | inr r ↦ inr (k, Memᴰ.head refl, r) ]
        ],
        λ h. to (elim h [
          | inl g ↦ inl (to' (inl g))
          | inr (j, m, r) ↦ elim (Memᴰ.cases_cons m) [
            | inl same ↦
                inl (to' (inr (subst (λ n. Reaches n (routes_at ri.routes_map i n)) same r)))
            | inr n ↦ inr (j, n, r)
          ]
        ]),
      )
