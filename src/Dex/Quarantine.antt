-- ===== src/Dex/Quarantine.antt =====
-- parser/dex/quarantine.go: transactions set aside because an event is ambiguous.
pub mod Recorded
use cosmwasm_etl.Prelude.{
  ℕ, String, Bool, true, false, ◌&&◌, ◌||◌, not, List, [], ◌∷◌, Option, none, some, ◌==◌,
  if◌then◌else◌, starts_with,
}
use cosmwasm_etl.Prelude.Text.{append}
use cosmwasm_etl.EventLog.Types.{Attributes, LogResults}
use cosmwasm_etl.EventLog.Error.{AmbiguousEventError, Error, error_text, as_ambiguous}
use cosmwasm_etl.Dex.Types.{RawTx, ParsedTx, create_pair}

pub record ParseQuarantine : Type 0 where
  pub id : ℕ
  pub height : ℕ
  pub hash : String
  pub stage : String
  pub contract : String
  pub action : String
  pub error : String
  pub raw_tx : RawTx

-- The errors of a `TargetApp`: a plain one, `PartialParseQuarantineError`, or one that wraps
-- another.
pub data AppError : Type 0 where
  plain : Error → AppError
  partial : List ParsedTx → ParseQuarantine → Option Error → AppError
  wrap_app : String → AppError → AppError

unfoldable pub app_error_text : AppError → String
app_error_text (plain e) = error_text e
app_error_text (partial txs q none) = "partial parse quarantine"
app_error_text (partial txs q (some e)) = error_text e
app_error_text (wrap_app msg e) = append msg (append ": " (app_error_text e))

abbrev pub Partial : Type 0
Partial = List ParsedTx × ParseQuarantine

-- `errors.As(err, &partial)`
unfoldable pub as_partial : AppError → Option Partial
as_partial (plain e) = none
as_partial (partial txs q e) = some (txs, q)
as_partial (wrap_app msg e) = as_partial e

-- `errors.As(err, &ambiguity)`, which looks into the error of a partial quarantine too.
unfoldable pub app_as_ambiguous : AppError → Option AmbiguousEventError
app_as_ambiguous (plain e) = as_ambiguous e
app_as_ambiguous (partial txs q none) = none
app_as_ambiguous (partial txs q (some e)) = as_ambiguous e
app_as_ambiguous (wrap_app msg e) = app_as_ambiguous e

abbrev pub partial_prefix : String
partial_prefix = "partial_"

unfoldable pub is_partial_quarantine_stage : String → Bool
is_partial_quarantine_stage stage = starts_with stage partial_prefix

unfoldable pub has_create_pair : Attributes → Bool
has_create_pair [] = false
has_create_pair (a ∷ attrs) = (a.key == "action" && a.value == create_pair) || has_create_pair attrs

unfoldable pub logs_contain_create_pair : LogResults → Bool
unfolding has_create_pair
logs_contain_create_pair [] = false
logs_contain_create_pair (log ∷ logs) =
    has_create_pair log.attributes || logs_contain_create_pair logs

unfoldable pub raw_tx_contains_create_pair : RawTx → Bool
unfolding logs_contain_create_pair
raw_tx_contains_create_pair tx = logs_contain_create_pair tx.log_results

-- `quarantine` and `err` are set together: one field holds both.
pub record PartialQuarantineRecorder : Type 0 where
  pub tx : RawTx
  pub height : ℕ
  pub contains_create_pair : Bool
  pub recorded : Option (ParseQuarantine × Error)

unfoldable pub new_recorder : RawTx → ℕ → PartialQuarantineRecorder
new_recorder tx height = record {
  tx = tx;
  height = height;
  contains_create_pair = raw_tx_contains_create_pair tx;
  recorded = none;
}

-- A new quarantine has no id yet.
abbrev pub quarantine_of : RawTx → ℕ → String → AmbiguousEventError → String → ParseQuarantine
quarantine_of tx height stage a text = record {
  id = 0;
  height = height;
  hash = tx.hash;
  stage = stage;
  contract = a.contract;
  action = a.action;
  error = text;
  raw_tx = tx;
}

-- `Record`: whether the error is taken, and the recorder after it.
unfoldable pub record_error :
    PartialQuarantineRecorder → String → Error → Bool × PartialQuarantineRecorder
record_error r stage e = elim (as_ambiguous e) [
  | none ↦ (false, r)
  | some a ↦ if r.contains_create_pair then (false, r) else (
    true,
    elim r.recorded [
      | some old ↦ r
      | none ↦ record r {
        recorded =
            some (quarantine_of r.tx r.height (append partial_prefix stage) a (error_text e), e);
      }
    ],
  )
]

-- `Err`
unfoldable pub recorder_err : PartialQuarantineRecorder → List ParsedTx → Option AppError
recorder_err r parsed_txs = elim r.recorded [
  | none ↦ none
  | some (q, e) ↦ some (partial parsed_txs q (some e))
]
