-- ===== src/Dezswap/Pairs/Refund.antt =====
-- About parser/dex/dezswap/pair.mappers.go: what is booked of a provide with a refund.
use cosmwasm_etl.Prelude.{
  String, ◌≡◌, refl, ◌∙◌, ap, true, false, ◌==◌, if◌then◌else◌, eq_iff, eq_refl, Bool-cases, inl,
  inr, subst,
}
use cosmwasm_etl.Prelude.Int.{ℤ, pos, +ℤ_zero, ◌-ℤ◌, -ℤ_cancel, +ℤ_comm}
use cosmwasm_etl.Prelude.Decimal.{print_ℤ, set_string-print_ℤ}
use cosmwasm_etl.EventLog.Error.{ok, err, message}
use cosmwasm_etl.Dex.Types.{Asset}
use cosmwasm_etl.Dex.Amount.{to_big_int, amount_add}
use cosmwasm_etl.Dex.Amount.Laws.{amount_add_lem}
use cosmwasm_etl.Dezswap.Pairs.{is_cw20, refunded, apply_refund_asset}

abbrev pub coins : String → ℤ → Asset
coins addr x = record { addr = addr; amount = print_ℤ x }

abbrev pub booked : String → ℤ → ℤ → ℤ
booked addr x r = if is_cw20 addr then x -ℤ r else x

big : (z : ℤ) → to_big_int (print_ℤ z) ≡ ok z
unfolding to_big_int
big z = rw (set_string-print_ℤ z, to_big_int) refl

refunded_lem :
    (addr : String) (x r : ℤ)
    → refunded (coins addr x) (coins addr r) ≡ ok (coins addr (booked addr x r))
unfolding refunded
refunded_lem addr x r = elim (Bool-cases (is_cw20 addr)) [
  | inl e ↦ rw (eq_refl addr, e, big x, big r, refunded) refl
  | inr e ↦ rw (eq_refl addr, e, refunded) refl
]

refunded_same :
    (a c : String) (x r : ℤ)
    → (a == c) ≡ true
    → refunded (coins a x) (coins c r) ≡ ok (coins a (booked a x r))
refunded_same a c x r e =
    subst (λ d. refunded (coins a x) (coins d r) ≡ ok (coins a (booked a x r))) ((eq_iff a c).0 e)
      (refunded_lem a x r)

refunded_other :
    (a b : Asset)
    → (a.addr == b.addr) ≡ false
    → refunded a b ≡ err (message "provide and refund assets must be same order")
unfolding refunded
refunded_other a b e = rw (e, refunded) refl

-- The refund that the event of the provide shows as sent, and that was not.
abbrev pub withheld : String → ℤ → ℤ
withheld addr r = if is_cw20 addr then r else pos 0

booked-withheld :
    (a : String) (x r : ℤ)
    → amount_add (print_ℤ (booked a x r)) (print_ℤ (withheld a r)) ≡ ok (print_ℤ x)
booked-withheld a x r = elim (Bool-cases (is_cw20 a)) [
  | inl e ↦ rw (e) (
      (amount_add_lem (x -ℤ r) r).0 ∙ ap (λ z. ok (print_ℤ z)) (+ℤ_comm (x -ℤ r) r ∙ -ℤ_cancel x r))
  | inr e ↦ rw (e) ((amount_add_lem x (pos 0)).0 ∙ ap (λ z. ok (print_ℤ z)) (+ℤ_zero x))
]

-- Of amounts that are integers, with the refunds in the order of the assets, a token is booked with its
-- refund taken off and a native coin as it was sent, so that the booked amount and the refund of a token
-- add up to the amount in the event. A refund whose first asset is another one is an error.
pub apply_refund_lem :
    (a b c : String) (x y r s : ℤ)
    → (apply_refund_asset
          (record { first = coins a x; second = coins b y })
          (record { first = coins c r; second = coins b s })
        ≡ (if a == c
            then ok (record { first = coins a (booked a x r); second = coins b (booked b y s) })
            else err (message "provide and refund assets must be same order")))
      × (amount_add (print_ℤ (booked a x r)) (print_ℤ (withheld a r)) ≡ ok (print_ℤ x))
      × (amount_add (print_ℤ (booked b y s)) (print_ℤ (withheld b s)) ≡ ok (print_ℤ y))
unfolding apply_refund_asset
apply_refund_lem a b c x y r s = (
  elim (Bool-cases (a == c)) [
    | inl e ↦ rw (refunded_same a c x r e, refunded_lem b y s, e, apply_refund_asset) refl
    | inr e ↦ rw (refunded_other (coins a x) (coins c r) e, e, apply_refund_asset) refl
  ],
  booked-withheld a x r,
  booked-withheld b y s,
)
