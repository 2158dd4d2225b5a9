-- ===== src/Checkpoint/Booked.antt =====
-- What the transactions of a checkpoint (parser/checkpoint/builder.go) do to the pools that
-- ParsedPoolsInfo of parser/dex/repo/repository.go reads, through their rows.
use cosmwasm_etl.Prelude.{
  ◌≡◌, ◌≢◌, refl, ap, ◌∙◌, String, Bool, true, false, ◌&&◌, not, List, [], ◌∷◌, Option, none, some,
  ◌==◌, if◌then◌else◌, arith, Bool-cases, inl, inr, eq_iff, eq_refl,
}
use cosmwasm_etl.Prelude.Int.{ℤ, pos, ◌+ℤ◌, ◌-ℤ◌, -ℤ_cancel, ltb_ℤ}
use cosmwasm_etl.Prelude.Decimal.{
  print_ℤ, set_string, set_string-print_ℤ, set_string_minus, print_ℤ_nonempty,
}
use cosmwasm_etl.EventLog.Error.{Error, message, wrapped, Result, ok, err, crash, ◌>>=◌}
use cosmwasm_etl.Dex.Types.{Asset, ParsedTx, PoolInfo}
use cosmwasm_etl.Prelude.Text.{append}
use cosmwasm_etl.Dex.Repo.{ParsedTxModel, empty_string_to_zero, lp_amount_of, to_parsed_tx_model}
use cosmwasm_etl.Dex.Amount.{to_big_int, amount_add}
use cosmwasm_etl.Dex.Amount.Laws.{amount_add_lem}
use cosmwasm_etl.Checkpoint.{
  AssetDiff, diff_of, diffs_of, calculate_asset_diff, all_zero, is_zero, none_negative,
  none_positive,
}

abbrev pub with_amount : Asset → String → Result Asset
with_amount a moved = amount_add a.amount moved >>= λ n. ok (record a { amount = n })

-- What the row of a transaction does to the pool that `ParsedPoolsInfo` of parser/dex/repo/repository.go
-- reads: it sums the first amounts, the second amounts and the LP amounts of the rows of a pool, and the
-- pools have two assets. The addresses of the rows are those of the pool wherever it is used below.
abbrev pub book_assets : ParsedTxModel → List Asset → Result (List Asset)
book_assets row (a ∷ b ∷ []) = with_amount a row.asset0_amount >>= λ a'.
    with_amount b row.asset1_amount >>= λ b'. ok (a' ∷ b' ∷ [])
book_assets row _ = crash

abbrev pub book_row : ParsedTxModel → PoolInfo → Result PoolInfo
book_row row pool = book_assets row pool.assets >>= λ assets.
    amount_add pool.total_share row.lp_amount >>= λ share.
    ok (record pool { assets = assets; total_share = share })

-- The sums do not look at the chain and the height of the row.
abbrev pub book : ParsedTx → PoolInfo → Result PoolInfo
book tx pool = book_row (to_parsed_tx_model "" 0 tx) pool

abbrev pub book_if : Option ParsedTx → PoolInfo → Result PoolInfo
book_if none pool = ok pool
book_if (some tx) pool = book tx pool

pub zero_left : (x : ℤ) → pos 0 +ℤ x ≡ x
unfolding ◌+ℤ◌
zero_left x = ground arith

pub minus_added : (s d : ℤ) → s +ℤ (pos 0 -ℤ d) ≡ s -ℤ d
unfolding ◌+ℤ◌ ◌-ℤ◌
minus_added s d = ground arith

pub not_below : (s : ℤ) → ltb_ℤ (s -ℤ s) (pos 0) ≡ false
unfolding ◌-ℤ◌
not_below s = ground arith

pub no_shift : (s : ℤ) → s -ℤ (s -ℤ s) ≡ s
unfolding ◌-ℤ◌
no_shift s = ground arith

abbrev pub no_gain : ℤ → Bool
no_gain z = not (ltb_ℤ (pos 0) (z -ℤ z))

pub if_same : (c : Bool) (r : Result PoolInfo) → r ≡ (if c then r else r)
if_same true r = refl
if_same false r = refl

pub both_true : {b c : Bool} → (b && c) ≡ true → (b ≡ true) × (c ≡ true)
both_true {b} {c} h = ground arith

pub ne_false : (s t : String) → s ≢ t → (s == t) ≡ false
ne_false s t h = ground (arith, eq_iff s t)

pub big : (z : ℤ) → to_big_int (print_ℤ z) ≡ ok z
unfolding to_big_int
big z = rw (set_string-print_ℤ z, to_big_int) refl

pub diff_same :
    (a : String) (x y : ℤ)
    → diff_of (record { addr = a; amount = print_ℤ x }) (record { addr = a; amount = print_ℤ y })
      ≡ ok (record { addr = a; amount = x -ℤ y } ∷ [])
unfolding diff_of
diff_same a x y = rw (eq_refl a, big x, big y, diff_of) refl

module _ (a b : String) (x y x' y' : ℤ) (apart : (a == b) ≡ false) (apart' : (b == a) ≡ false) where
  pub diffs_two :
      calculate_asset_diff
        (record { addr = a; amount = print_ℤ x } ∷ record { addr = b; amount = print_ℤ y } ∷ [])
        (record { addr = a; amount = print_ℤ x' } ∷ record { addr = b; amount = print_ℤ y' } ∷ [])
      ≡ ok (record { addr = a; amount = x -ℤ x' } ∷ record { addr = b; amount = y -ℤ y' } ∷ [])
  unfolding calculate_asset_diff diffs_of diff_of
  diffs_two =
      rw
        (
          eq_refl a,
          eq_refl b,
          apart,
          apart',
          big x,
          big y,
          big x',
          big y',
          calculate_asset_diff,
          diffs_of,
          diff_of,
        )
        refl

pub added : (x x' : ℤ) → amount_add (print_ℤ x') (print_ℤ (x -ℤ x')) ≡ ok (print_ℤ x)
added x x' = (amount_add_lem x' (x -ℤ x')).0 ∙ ap (λ z. ok (print_ℤ z)) (-ℤ_cancel x x')

pub zero_added : amount_add (print_ℤ (pos 0)) "0" ≡ ok (print_ℤ (pos 0))
unfolding amount_add to_big_int print_ℤ set_string ◌+ℤ◌
zero_added = refl

pub from_zero : (x : ℤ) → amount_add (print_ℤ (pos 0)) (print_ℤ x) ≡ ok (print_ℤ x)
from_zero x = (amount_add_lem (pos 0) x).0 ∙ ap (λ z. ok (print_ℤ z)) (zero_left x)

pub same_of_zero : (x x' : ℤ) → is_zero (x -ℤ x') ≡ true → x ≡ x'
unfolding ◌-ℤ◌
same_of_zero x x' h = ground arith

pub all_zero_two :
    (d e : AssetDiff)
    → all_zero (d ∷ e ∷ []) ≡ true
    → (is_zero d.amount ≡ true) × (is_zero e.amount ≡ true)
unfolding all_zero none_negative none_positive
all_zero_two d e h = ground arith

-- A pool with the given assets.
abbrev pub pool_with : String → String → List Asset → ℤ → PoolInfo
pool_with contract lp assets share = record {
  contract_addr = contract;
  assets = assets;
  lp_addr = lp;
  total_share = print_ℤ share;
}

abbrev pub two : String → ℤ → String → ℤ → List Asset
two a x b y = record { addr = a; amount = print_ℤ x } ∷ record { addr = b; amount = print_ℤ y } ∷ []

pub full_text : (z : ℤ) → empty_string_to_zero (print_ℤ z) ≡ print_ℤ z
full_text z = rw (print_ℤ_nonempty z) refl

-- Booked on a pool of two assets, whose amounts then are `x'` and `y'`.
pub book_lem :
    (tx : ParsedTx) (contract lp a b : String) (x y share x' y' : ℤ)
    → amount_add (print_ℤ x) (empty_string_to_zero tx.assets.first.amount) ≡ ok (print_ℤ x')
    → amount_add (print_ℤ y) (empty_string_to_zero tx.assets.second.amount) ≡ ok (print_ℤ y')
    → book tx (pool_with contract lp (two a x b y) share) ≡ (
        amount_add (print_ℤ share) (lp_amount_of tx) >>= λ n.
        ok (record (pool_with contract lp (two a x' b y') share) { total_share = n }))
unfolding to_parsed_tx_model
book_lem tx contract lp a b x y share x' y' e f = rw (e, f) refl

-- The text of a number after a second minus sign is no number.
abbrev pub no_number : Error
no_number = wrapped "dex.AmountAdd" (message "invalid number")

pub add_minus :
    (s d : ℤ)
    → amount_add (print_ℤ s) (append "-" (print_ℤ d))
      ≡ (if ltb_ℤ d (pos 0) then err no_number else ok (print_ℤ (s -ℤ d)))
unfolding amount_add to_big_int
add_minus s d = elim (Bool-cases (ltb_ℤ d (pos 0))) [
  | inl e ↦
      let read : set_string (append "-" (print_ℤ d)) ≡ none = set_string_minus d ∙ rw (e) refl in
      rw (set_string-print_ℤ s, read, e, amount_add, to_big_int) refl
  | inr e ↦
      let read : set_string (append "-" (print_ℤ d)) ≡ some (pos 0 -ℤ d) =
        set_string_minus d ∙ rw (e) refl in
      rw (set_string-print_ℤ s, read, e, amount_add, to_big_int)
        (ap (λ z. ok (print_ℤ z)) (minus_added s d))
]
