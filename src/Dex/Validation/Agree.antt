-- ===== src/Dex/Validation/Agree.antt =====
-- About `collectPairValidationMismatches` of parser/dex/dex.go: when a pair has no mismatch.
use cosmwasm_etl.Prelude.{
  ℕ, zero, suc, ◌≡◌, refl, sym, ap, ◌∙◌, String, true, false, List, [], ◌∷◌, ◌++◌, none, some, ◌==◌,
  get_elem?, ◌↔◌, ◌≢◌, arith, eq_iff, Bool-cases, inl, inr,
}
use mathlib.Core.Option.{some-injective}
use cosmwasm_etl.Dex.Types.{Asset, PoolInfo}
use cosmwasm_etl.Dex.Validation.{
  head_amount, tail_assets, asset_mismatches, share_mismatches, pair_mismatches,
}

none_not_some : {A : Type 0} {a : A} → none ≢ some a
none_not_some e = cc

-- The amount at an index, "" where there is none.
abbrev pub amount_at : List Asset → ℕ → String
amount_at assets i = elim (get_elem? assets i) [ none ↦ "" | some a ↦ a.amount ]

abbrev pub AmountsAgree : List Asset → List Asset → Type 0
AmountsAgree expected actual =
    (i : ℕ) (e : Asset) → get_elem? expected i ≡ some e → e.amount ≡ amount_at actual i

head_at : (actual : List Asset) → head_amount actual ≡ amount_at actual 0
head_at [] = refl
head_at (a ∷ actual) = refl

tail_at :
    (actual : List Asset) (i : ℕ) → amount_at (tail_assets actual) i ≡ amount_at actual (suc i)
tail_at [] i = refl
tail_at (a ∷ actual) i = refl

cons-AmountsAgree :
    (e : Asset) (expected actual : List Asset)
    → e.amount ≡ head_amount actual
    → AmountsAgree expected (tail_assets actual)
    → AmountsAgree (e ∷ expected) actual
cons-AmountsAgree e expected actual h rest zero x eq =
    ap (λ a. a.amount) (sym (some-injective _ _ eq)) ∙ h ∙ head_at actual
cons-AmountsAgree e expected actual h rest (suc i) x eq = rest i x eq ∙ tail_at actual i

module _ (contract : String) (e : Asset) (expected actual : List Asset) where
  mismatch_none :
      (e.amount == head_amount actual) ≡ true
      → asset_mismatches contract (e ∷ expected) actual
        ≡ asset_mismatches contract expected (tail_assets actual)
  unfolding asset_mismatches
  mismatch_none h = rw (h, asset_mismatches) refl

  mismatch_some :
      (e.amount == head_amount actual) ≡ false
      → asset_mismatches contract (e ∷ expected) actual ≢ []
  unfolding asset_mismatches
  mismatch_some h = rw (h, asset_mismatches) λ c. cc

asset_mismatches-AmountsAgree :
    (contract : String) (expected actual : List Asset)
    → asset_mismatches contract expected actual ≡ []
    → AmountsAgree expected actual
asset_mismatches-AmountsAgree contract [] actual h = λ i x eq. absurd (none_not_some eq)
asset_mismatches-AmountsAgree contract (e ∷ expected) actual h =
    elim (Bool-cases (e.amount == head_amount actual)) [
      | inl same ↦ cons-AmountsAgree e expected actual ((eq_iff _ _).0 same) (
          asset_mismatches-AmountsAgree contract expected (tail_assets actual)
            (sym (mismatch_none contract e expected actual same) ∙ h))
      | inr other ↦ absurd (mismatch_some contract e expected actual other h)
    ]

AmountsAgree-asset_mismatches :
    (contract : String) (expected actual : List Asset)
    → AmountsAgree expected actual
    → asset_mismatches contract expected actual ≡ []
unfolding asset_mismatches
AmountsAgree-asset_mismatches contract [] actual h = refl
AmountsAgree-asset_mismatches contract (e ∷ expected) actual h =
    mismatch_none contract e expected actual ((eq_iff _ _).1 (h 0 e refl ∙ sym (head_at actual)))
    ∙ AmountsAgree-asset_mismatches contract expected (tail_assets actual)
        λ i x eq. h (suc i) x eq ∙ sym (tail_at actual i)

share_mismatches_iff :
    (actual expected : PoolInfo)
    → (share_mismatches actual expected ≡ []) ↔ (expected.total_share ≡ actual.total_share)
unfolding share_mismatches
share_mismatches_iff actual expected =
    ground (arith, eq_iff expected.total_share actual.total_share)

append_empty : {A : Type 0} (xs ys : List A) → (xs ++ ys ≡ []) ↔ ((xs ≡ []) × (ys ≡ []))
append_empty [] ys = (λ h. (refl, h), λ h. h.1)
append_empty (x ∷ xs) ys = (λ h. cc, λ h. cc)

-- A pair is found without a mismatch exactly if its total share is the expected one and at each index
-- of the expected assets the actual amount is the expected one, an actual asset that is not there
-- counting as the empty amount.
pub pair_mismatches_iff :
    (actual expected : PoolInfo)
    → (pair_mismatches actual expected ≡ [])
      ↔ (AmountsAgree expected.assets actual.assets × (expected.total_share ≡ actual.total_share))
unfolding pair_mismatches
pair_mismatches_iff actual expected =
    let (split', join') =
      append_empty (asset_mismatches actual.contract_addr expected.assets actual.assets)
        (share_mismatches actual expected) in
    (
      λ h. (
        asset_mismatches-AmountsAgree _ _ _ (split' h).0,
        (share_mismatches_iff actual expected).0 (split' h).1,
      ),
      λ (amounts, share). join' (
        AmountsAgree-asset_mismatches _ _ _ amounts,
        (share_mismatches_iff actual expected).1 share,
      ),
    )
