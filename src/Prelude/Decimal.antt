-- ===== src/Prelude/Decimal.antt =====
-- Decimal texts: `big.Int.String`, `big.Int.SetString(s, 10)` and the verb `%d`.
use Prim.Native.Char.{Char, char, code}
use Prim.Native.String.{String}
use Prim.Native.String.append.{cons as cat_cons, nil as cat_nil}
use Prim.Native.Nat.{ℕ, zero, suc, ◌+◌, ◌-◌, ◌*◌, ◌/◌, ◌%◌, ◌<◌, ◌≤◌}
use mathlib.Core.Path.{◌≡◌, refl, ap, ◌∙◌, subst}
use mathlib.Core.Logic.{inl, inr}
use mathlib.Core.Option.{Option, none, some}
use native.Mathlib.Omega.{arith}
use native.Mathlib.Numerals.{add-one}
use cosmwasm_etl.Prelude.Tests.{if◌then◌else◌, ltb, ltb→lt, eqb, Bool-cases}
use text.Mathlib.Text.{◌==◌}
use text.Mathlib.TextEquality.{eq_iff}
use mathlib.Core.Bool.{false}
use cosmwasm_etl.Prelude.Int.{ℤ, pos, negsuc, ltb_ℤ, ◌-ℤ◌}
use cosmwasm_etl.Prelude.Text.{is_digit, append}

-- The character of a digit; 9 stands for what is no digit.
abbrev digit_char : ℕ → Char
digit_char zero = char 48 tt
digit_char (suc zero) = char 49 tt
digit_char (suc (suc zero)) = char 50 tt
digit_char (suc (suc (suc zero))) = char 51 tt
digit_char (suc (suc (suc (suc zero)))) = char 52 tt
digit_char (suc (suc (suc (suc (suc zero))))) = char 53 tt
digit_char (suc (suc (suc (suc (suc (suc zero)))))) = char 54 tt
digit_char (suc (suc (suc (suc (suc (suc (suc zero))))))) = char 55 tt
digit_char (suc (suc (suc (suc (suc (suc (suc (suc zero)))))))) = char 56 tt
digit_char _ = char 57 tt

digit_code : (d : ℕ) → d < 10 → code (digit_char d) ≡ 48 + d
digit_code zero h = refl
digit_code (suc zero) h = refl
digit_code (suc (suc zero)) h = refl
digit_code (suc (suc (suc zero))) h = refl
digit_code (suc (suc (suc (suc zero)))) h = refl
digit_code (suc (suc (suc (suc (suc zero))))) h = refl
digit_code (suc (suc (suc (suc (suc (suc zero)))))) h = refl
digit_code (suc (suc (suc (suc (suc (suc (suc zero))))))) h = refl
digit_code (suc (suc (suc (suc (suc (suc (suc (suc zero)))))))) h = refl
digit_code (suc (suc (suc (suc (suc (suc (suc (suc (suc zero))))))))) h = refl
digit_code (suc (suc (suc (suc (suc (suc (suc (suc (suc (suc n)))))))))) h = absurd (omega arith)

-- The digits of `n` before `out`. A number has no more digits than its value and one.
print_from : ℕ → ℕ → String → String
print_from zero n out = out
print_from (suc fuel) n out =
    let more = print_from fuel (n / 10) (String.◌∷◌ (digit_char (n % 10)) out) in
    if ltb n 10 then String.◌∷◌ (digit_char (n % 10)) out else more

unfoldable pub print_ℕ : ℕ → String
unfolding print_from
print_ℕ n = print_from (n + 1) n ""

unfoldable pub print_ℤ : ℤ → String
unfolding print_ℕ
print_ℤ (pos n) = print_ℕ n
print_ℤ (negsuc n) = String.◌∷◌ (char 45 tt) (print_ℕ (suc n))

-- The number that digits spell behind `n`; `none` at any other character.
scan : String → ℕ → Option ℕ
unfolding is_digit
scan String.[] n = some n
scan (String.◌∷◌ c s) n =
    let rest = scan s (n * 10 + (code c - 48)) in if is_digit (code c) then rest else none

scan_unsigned : String → Option ℕ
scan_unsigned String.[] = none
scan_unsigned (String.◌∷◌ c s) = scan (String.◌∷◌ c s) 0

abbrev positive : Option ℕ → Option ℤ
positive none = none
positive (some n) = some (pos n)

abbrev negative : Option ℕ → Option ℤ
negative none = none
negative (some zero) = some (pos 0)
negative (some (suc n)) = some (negsuc n)

-- A sign may stand before the digits, of which there is at least one.
unfoldable pub set_string : String → Option ℤ
unfolding scan scan_unsigned
set_string String.[] = none
set_string (String.◌∷◌ c s) =
    if eqb (code c) b'-'
    then negative (scan_unsigned s)
    else if eqb (code c) b'+'
    then positive (scan_unsigned s)
    else positive (scan_unsigned (String.◌∷◌ c s))

scan_digit :
    (d : ℕ) (out : String) (n : ℕ)
    → d < 10
    → scan (String.◌∷◌ (digit_char d) out) n ≡ scan out (n * 10 + d)
unfolding scan
scan_digit d out n h = ground (arith, digit_code d h)

scan-print_from :
    (fuel n : ℕ) (out : String) → n < fuel → scan (print_from fuel n out) 0 ≡ scan out n
unfolding print_from
scan-print_from zero n out h = absurd (omega arith)
scan-print_from (suc fuel) n out h = elim (Bool-cases (ltb n 10)) [
  | inl small ↦
      rw (small, print_from)
        (scan_digit (n % 10) out 0 (omega arith) ∙ ap (scan out) (omega (arith, ltb→lt n 10 small)))
  | inr large ↦
      rw (large, print_from)
        (scan-print_from fuel (n / 10) _ (ground arith)
          ∙ (scan_digit (n % 10) out (n / 10) (omega arith) ∙ ap (scan out) (omega arith)))
]

-- A text that begins with a digit.
abbrev DigitFirst : String → Type 0
DigitFirst t = (c : Char) × (s : String) × (t ≡ String.◌∷◌ c s) × (48 ≤ code c)

digit_first : (d : ℕ) (out : String) → d < 10 → DigitFirst (String.◌∷◌ (digit_char d) out)
digit_first d out h = (digit_char d, out, refl, omega (arith, digit_code d h))

print_from-DigitFirst :
    (fuel n : ℕ) (out : String) → DigitFirst out → DigitFirst (print_from fuel n out)
unfolding print_from
print_from-DigitFirst zero n out h = h
print_from-DigitFirst (suc fuel) n out h = elim (Bool-cases (ltb n 10)) [
  | inl small ↦ rw (small, print_from) (digit_first (n % 10) out (omega arith))
  | inr large ↦
      rw (large, print_from)
        (print_from-DigitFirst fuel (n / 10) _ (digit_first (n % 10) out (omega arith)))
]

print_ℕ-DigitFirst : (n : ℕ) → DigitFirst (print_ℕ n)
unfolding print_ℕ
print_ℕ-DigitFirst n = rw (add-one) (elim (Bool-cases (ltb n 10)) [
  | inl small ↦ rw (small, print_from) (digit_first (n % 10) "" (omega arith))
  | inr large ↦
      rw (large, print_from)
        (print_from-DigitFirst n (n / 10) _ (digit_first (n % 10) "" (omega arith)))
])

scan_unsigned-print_ℕ : (n : ℕ) → scan_unsigned (print_ℕ n) ≡ some n
unfolding scan_unsigned scan
scan_unsigned-print_ℕ n =
    let (c, s, e, h) = print_ℕ-DigitFirst n in
    let read : scan (print_ℕ n) 0 ≡ some n =
      unfold print_ℕ in scan-print_from (n + 1) n "" (omega arith) in
    rw e (rw e at read)

set_string_digits : (t : String) → DigitFirst t → set_string t ≡ positive (scan_unsigned t)
unfolding set_string
set_string_digits t (c, s, e, h) = rw e (ground arith)

-- Every integer is read back from its decimal text.
pub set_string-print_ℤ : (z : ℤ) → set_string (print_ℤ z) ≡ some z
unfolding print_ℤ
set_string-print_ℤ (pos n) =
    set_string_digits (print_ℕ n) (print_ℕ-DigitFirst n) ∙ ap positive (scan_unsigned-print_ℕ n)
set_string-print_ℤ (negsuc n) = unfold set_string in ap negative (scan_unsigned-print_ℕ (suc n))

-- The text of an integer is not empty.
pub print_ℤ_nonempty : (z : ℤ) → (print_ℤ z == "") ≡ false
print_ℤ_nonempty z = elim (Bool-cases (print_ℤ z == "")) [
  | inr e ↦ e
  | inl e ↦
      let read : set_string "" ≡ some z =
        subst (λ t. set_string t ≡ some z) ((eq_iff (print_ℤ z) "").0 e) (set_string-print_ℤ z) in
      absurd (nothing z read)
]
  where
    nothing : (z : ℤ) → set_string "" ≡ some z → ⊥
    nothing z h = absurd (unfold set_string in cc)

minus_cons : (t : String) → append "-" t ≡ String.◌∷◌ (char 45 tt) t
minus_cons t = (λ i. cat_cons (char 45 tt) "" t i) ∙ ap (String.◌∷◌ (char 45 tt)) (λ i. cat_nil t i)

text_signed : (t : String) → set_string (String.◌∷◌ (char 45 tt) t) ≡ negative (scan_unsigned t)
unfolding set_string
text_signed t = refl

text_minus : (t : String) → set_string (append "-" t) ≡ negative (scan_unsigned t)
text_minus t = ap set_string (minus_cons t) ∙ text_signed t

abbrev minus_text : ℤ → Option ℤ
minus_text z = if ltb_ℤ z (pos 0) then none else some (pos 0 -ℤ z)

minus_pos : (n : ℕ) → negative (some n) ≡ minus_text (pos n)
unfolding ◌-ℤ◌
minus_pos zero = ground arith
minus_pos (suc n) = ground arith

scan_minus : (t : String) → scan_unsigned (String.◌∷◌ (char 45 tt) t) ≡ none
unfolding scan_unsigned scan is_digit
scan_minus t = refl

minus_neg : (n : ℕ) → none ≡ minus_text (negsuc n)
minus_neg n = ground arith

-- A minus sign before the text of an integer: two signs make no number.
pub set_string_minus :
    (z : ℤ)
    → set_string (append "-" (print_ℤ z)) ≡ (if ltb_ℤ z (pos 0) then none else some (pos 0 -ℤ z))
unfolding print_ℤ
set_string_minus (negsuc n) =
    text_minus (print_ℤ (negsuc n)) ∙ (ap negative (scan_minus (print_ℕ (suc n))) ∙ minus_neg n)
set_string_minus (pos n) =
    text_minus (print_ℕ n) ∙ (ap negative (scan_unsigned-print_ℕ n) ∙ minus_pos n)
