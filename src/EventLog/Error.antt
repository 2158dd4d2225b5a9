-- ===== src/EventLog/Error.antt =====
-- Go's `error` values as far as the program looks into them: by their text, and by `errors.As` for
-- an ambiguous event. `AmbiguousEventError` is of pkg/eventlog/util.go.
use cosmwasm_etl.Prelude.{String, Bool, true, false, List, Option, none, some}
use cosmwasm_etl.Prelude.Int.{ℤ}
use cosmwasm_etl.Prelude.Text.{append, join}
use cosmwasm_etl.Prelude.Decimal.{print_ℤ}

pub record AmbiguousEventError : Type 0 where
  pub contract : String
  pub action : String
  pub key : String
  pub values : List String
  pub msg_index : ℤ

unfoldable pub ambiguous_text : AmbiguousEventError → String
unfolding join print_ℤ
ambiguous_text e = append "ambiguous event key(" (
    append e.key (
      append ") contract(" (
        append e.contract (
          append ") action(" (
            append e.action (
              append ") values(" (
                append (join "," e.values)
                  (append ") msg_index(" (append (print_ℤ e.msg_index) ")")))))))))

-- `wrap before after e` is an error that wraps `e` and shows its text between two others.
pub data Error : Type 0 where
  message : String → Error
  ambiguous : AmbiguousEventError → Error
  wrap : String → String → Error → Error

-- `errors.Wrap(err, msg)`, and `fmt.Errorf("msg: %w", err)`
abbrev pub wrapped : String → Error → Error
wrapped msg e = wrap (append msg ": ") "" e

-- `err.Error()`
unfoldable pub error_text : Error → String
unfolding ambiguous_text
error_text (message s) = s
error_text (ambiguous e) = ambiguous_text e
error_text (wrap before after e) = append before (append (error_text e) after)

-- `errors.As(err, &ambiguity)`
unfoldable pub as_ambiguous : Error → Option AmbiguousEventError
as_ambiguous (message s) = none
as_ambiguous (ambiguous e) = some e
as_ambiguous (wrap before after e) = as_ambiguous e

-- A value, an error, or a run-time panic.
pub data Fallible {ℓ} (E : Type 0) (A : Type ℓ) : Type ℓ where
  ok : A → Fallible E A
  err : E → Fallible E A
  crash : Fallible E A

abbrev pub Result {ℓ} : Type ℓ → Type ℓ
Result A = Fallible Error A

-- `return nil, errors.Wrap(err, msg)`
abbrev pub wrap_err {ℓ} : {A : Type ℓ} → String → Result A → Result A
wrap_err msg (ok a) = ok a
wrap_err msg (err e) = err (wrapped msg e)
wrap_err msg crash = crash

-- `if err != nil { return nil, err }` between two steps.
abbrev pub and_then : {E A B : Type 0} → Fallible E A → (A → Fallible E B) → Fallible E B
and_then (ok a) f = f a
and_then (err e) f = err e
and_then crash f = crash

infixl 10 ◌>>=◌ ◌>>◌
abbrev pub ◌>>=◌ : {E A B : Type 0} → Fallible E A → (A → Fallible E B) → Fallible E B
◌>>=◌ = and_then

abbrev pub ◌>>◌ : {E B : Type 0} → Fallible E (Unit {0}) → Fallible E B → Fallible E B
r >> k = and_then r λ _. k

abbrev pub map_result : {E A B : Type 0} → (A → B) → Fallible E A → Fallible E B
map_result f (ok a) = ok (f a)
map_result f (err e) = err e
map_result f crash = crash

-- `if b { return nil, e }`
abbrev pub refuse_if : {E : Type 0} → Bool → E → Fallible E (Unit {0})
refuse_if true e = err e
refuse_if false e = ok tt

-- An index out of range, a division by zero.
abbrev pub or_crash : {E A : Type 0} → Option A → Fallible E A
or_crash none = crash
or_crash (some a) = ok a
