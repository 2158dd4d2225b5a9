-- ===== src/Dezswap/App/Known.antt =====
-- About UpdateParsers of parser/dex/dezswap/app.go: the pairs that the finders let through.
use cosmwasm_etl.Prelude.{
  ℕ, String, ◌≡◌, ◌↔◌, refl, Bool, true, List, [], ◌∷◌, some, ◌==◌, arith, eq_iff, Bool-cases, inl,
  inr, ◌⊎◌,
}
use mathlib.Core.List.{Memᴰ}
use mathlib.Core.List.Memᴰ
use cosmwasm_etl.Prelude.Dict.{
  Dict, empty, insert, keys, contains, keys_iff, contains-insert, lookup-empty,
}
use cosmwasm_etl.EventLog.Error.{ok}
use cosmwasm_etl.Dezswap.Pairs.{Version}
use cosmwasm_etl.Dezswap.App.{Exchange, DezswapApp, Parsers, known_pairs, update_parsers}

module _ (k : String) where
  known_iff :
      (ks : List String) (known : Dict Bool)
      → (contains (known_pairs ks known) k ≡ true) ↔ (Memᴰ k ks ⊎ (contains known k ≡ true))
  unfolding known_pairs
  known_iff [] known = (inr, λ h. elim h [ inl m ↦ absurd (Memᴰ.not-nil m) | inr e ↦ e ])
  known_iff (j ∷ ks) known =
      let (of, to) = known_iff ks (insert known j true) in
      let law = contains-insert known j true k in
      (
        λ h. elim (of h) [
          | inl m ↦ inl (Memᴰ.tail m)
          | inr e ↦ elim (Bool-cases (j == k)) [
            | inl f ↦ inl (Memᴰ.head (ground (arith, f, eq_iff j k)))
            | inr f ↦ inr (ground (arith, e, f, law))
          ]
        ],
        λ h. to (elim h [
          | inl m ↦ elim (Memᴰ.cases_cons m) [
            | inl f ↦ inr (ground (arith, f, law, eq_iff j k))
            | inr n ↦ inl n
          ]
          | inr e ↦ inr (ground (arith, e, law))
        ]),
      )

nothing_known : (k : String) → contains (empty {V = Bool}) k ≡ true → ⊥
unfolding contains
nothing_known k h = absurd (ground (arith, h, lookup-empty {V = Bool} k))

-- After `UpdateParsers` of an exchange the finders of a supported chain know the pairs of the application and no
-- others, and their mapper is of the version for the chain and the height.
pub update_parsers_known :
    (x : Exchange) (exceptions : Dict Bool) (height : ℕ) (app : DezswapApp) (version : Version)
    → x.version_of app.chain_id height ≡ ok version
    → (parsers : Parsers) × ((update_parsers x exceptions height app).1.parsers ≡ some parsers)
      × (parsers.version ≡ version)
      × ((k : String) → (contains parsers.known k ≡ true) ↔ (contains app.pairs k ≡ true))
unfolding update_parsers
update_parsers_known x exceptions height app version e = (
  record {
    known = known_pairs (keys app.pairs) empty;
    version = version;
    token_exceptions = exceptions;
  },
  rw (e, update_parsers) refl,
  refl,
  λ k.
      let (of, to) = known_iff k (keys app.pairs) empty in
      (
        λ h. elim (of h) [
          | inl m ↦ (keys_iff app.pairs k).0 m
          | inr n ↦ absurd (nothing_known k n)
        ],
        λ h. to (inl ((keys_iff app.pairs k).1 h)),
      ),
)
