-- ===== src/Dex/Amount/Laws.antt =====
-- About parser/dex/util.go: sums of amounts and the search of an address.
use mathlib.Core.Option.{some-injective}
use cosmwasm_etl.Prelude.{
  ℕ, zero, suc, ◌+◌, ◌≡◌, ◌≢◌, refl, sym, ap, ◌∙◌, String, true, false, List, [], ◌∷◌, some, ◌==◌,
  get_elem?, arith, All, Bool-cases, inl, inr, eq_iff, ◌⊎◌, ◌<◌,
}
use cosmwasm_etl.Prelude.Int.{ℤ, pos, negsuc, ◌+ℤ◌, +ℤ_comm}
use cosmwasm_etl.Prelude.Decimal.{print_ℤ, set_string-print_ℤ}
use cosmwasm_etl.EventLog.Error.{ok}
use cosmwasm_etl.Dex.Amount.{amount_add, to_big_int, index_of, index_from}

add_texts : (a b : ℤ) → amount_add (print_ℤ a) (print_ℤ b) ≡ ok (print_ℤ (a +ℤ b))
unfolding amount_add to_big_int
add_texts a b = rw (set_string-print_ℤ a, set_string-print_ℤ b, amount_add, to_big_int) refl

-- Adding amounts in decimal adds the integers they stand for, negative ones included: the sum of the
-- texts of two integers is the text of their sum, in either order.
pub amount_add_lem :
    (a b : ℤ)
    → (amount_add (print_ℤ a) (print_ℤ b) ≡ ok (print_ℤ (a +ℤ b)))
      × (amount_add (print_ℤ b) (print_ℤ a) ≡ amount_add (print_ℤ a) (print_ℤ b))
amount_add_lem a b =
    (add_texts a b, add_texts b a ∙ (ap (λ z. ok (print_ℤ z)) (+ℤ_comm b a) ∙ sym (add_texts a b)))

-- What an index into a list says: it is -1 and the target is not there, or it is the first place of the target.
abbrev pub FirstAt : ℕ → List String → String → ℤ → Type 0
FirstAt start slice target idx =
    ((idx ≡ negsuc 0) × All (λ el. (el == target) ≡ false) slice)
    ⊎ ((i : ℕ) × (idx ≡ pos (start + i))
        × (get_elem? slice i ≡ some target)
        × ((j : ℕ) → j < i → get_elem? slice j ≢ some target))

earlier :
    (el : String) (slice : List String) (target : String) (i : ℕ)
    → (el == target) ≡ false
    → ((j : ℕ) → j < i → get_elem? slice j ≢ some target)
    → (j : ℕ) → j < suc i
    → get_elem? (el ∷ slice) j ≢ some target
earlier el slice target i other f zero h =
    λ e. (let no' : true ≡ false = sym ((eq_iff el target).1 (some-injective _ _ e)) ∙ other in cc)
earlier el slice target i other f (suc j) h = f j (omega arith)

index_from-FirstAt :
    (start : ℕ) (slice : List String) (target : String)
    → FirstAt start slice target (index_from start slice target)
unfolding index_from
index_from-FirstAt start [] target = inl (refl, tt)
index_from-FirstAt start (el ∷ slice) target = elim (Bool-cases (el == target)) [
  | inl same ↦
      rw (same, index_from)
        (inr (
          0,
          ap pos (omega arith),
          ap some ((eq_iff el target).0 same),
          λ j h. absurd (omega arith),
        ))
  | inr other ↦
      rw (other, index_from)
        (elim (index_from-FirstAt (start + 1) slice target) [
          | inl (e, all) ↦ inl (e, (refl, all))
          | inr (i, e, g, f) ↦
              inr (suc i, e ∙ ap pos (omega arith), g, earlier el slice target i other f)
        ])
]

-- `IndexOf` gives -1 if no entry of the list is the target, and else the first index at which the
-- target stands.
pub index_of-FirstAt :
    (slice : List String) (target : String) → FirstAt 0 slice target (index_of slice target)
unfolding index_of
index_of-FirstAt slice target = index_from-FirstAt 0 slice target
