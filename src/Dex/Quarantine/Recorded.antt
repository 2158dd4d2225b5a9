-- ===== src/Dex/Quarantine/Recorded.antt =====
-- About a sequence of calls of `Record` of parser/dex/quarantine.go.
use cosmwasm_etl.Prelude.{
  ℕ, ◌≡◌, refl, sym, subst, ◌∙◌, String, Bool, true, false, List, [], ◌∷◌, Option, none, some,
  if◌then◌else◌, arith,
}
use mathlib.Core.Option.{some-injective}
use text.Mathlib.TextPositions.{starts_with-append}
use cosmwasm_etl.Prelude.Text.{append}
use cosmwasm_etl.EventLog.Error.{AmbiguousEventError, Error, error_text, as_ambiguous}
use cosmwasm_etl.Dex.Types.{RawTx, ParsedTx}
use cosmwasm_etl.Dex.Quarantine.{
  ParseQuarantine, PartialQuarantineRecorder, as_partial, AppError, partial, partial_prefix,
  quarantine_of, new_recorder, record_error, recorder_err, raw_tx_contains_create_pair,
  is_partial_quarantine_stage,
}

-- The calls of `Record` for one transaction, in turn.
abbrev pub record_all :
    PartialQuarantineRecorder → List (String × Error) → PartialQuarantineRecorder
record_all r [] = r
record_all r ((stage, e) ∷ errors) = record_all (record_error r stage e).1 errors

-- The error of the first ambiguous entry, as a partial quarantine.
abbrev pub first_partial : RawTx → ℕ → List ParsedTx → List (String × Error) → Option AppError
first_partial tx height txs [] = none
first_partial tx height txs ((stage, e) ∷ errors) =
    let later = first_partial tx height txs errors in
    elim (as_ambiguous e) [
      | none ↦ later
      | some a ↦ some (
          partial txs (quarantine_of tx height (append partial_prefix stage) a (error_text e))
            (some e))
    ]

abbrev recorder : RawTx → ℕ → Bool → Option (ParseQuarantine × Error) → PartialQuarantineRecorder
recorder tx h b o = record { tx = tx; height = h; contains_create_pair = b; recorded = o }

if_none :
    (b : Bool) (o : Option AppError) (e : AppError) → (if b then none else o) ≡ some e → o ≡ some e
if_none true o e h = let no' : ⊥ = cc in elim no' [ ]
if_none false o e h = h

module _ (tx : RawTx) (height : ℕ) where
  record_again :
      (b : Bool) (q : ParseQuarantine × Error) (stage : String) (x : Error)
      → (record_error (recorder tx height b (some q)) stage x).1 ≡ recorder tx height b (some q)
  unfolding record_error
  record_again b q stage x = ground arith

  record_refused :
      (stage : String) (x : Error)
      → (record_error (recorder tx height true none) stage x).1 ≡ recorder tx height true none
  unfolding record_error
  record_refused stage x = ground arith

  record_plain :
      (stage : String) (x : Error)
      → as_ambiguous x ≡ none
      → (record_error (recorder tx height false none) stage x).1 ≡ recorder tx height false none
  unfolding record_error
  record_plain stage x e = ground arith

  record_first :
      (stage : String) (x : Error) (a : AmbiguousEventError)
      → as_ambiguous x ≡ some a
      → (record_error (recorder tx height false none) stage x).1
        ≡ recorder tx height false
            (some (quarantine_of tx height (append partial_prefix stage) a (error_text x), x))
  unfolding record_error
  record_first stage x a e = rw (e, record_error) refl

  -- Once an error is recorded, no later one replaces it.
  kept :
      (b : Bool) (q : ParseQuarantine) (e : Error) (errors : List (String × Error))
      (txs : List ParsedTx)
      → recorder_err (record_all (recorder tx height b (some (q, e))) errors) txs
        ≡ some (partial txs q (some e))
  unfolding recorder_err
  kept b q e [] txs = refl
  kept b q e ((stage, x) ∷ errors) txs = rw (record_again b (q, e) stage x) (kept b q e errors txs)

  recorder_lem :
      (b : Bool) (errors : List (String × Error)) (txs : List ParsedTx)
      → recorder_err (record_all (recorder tx height b none) errors) txs
        ≡ (if b then none else first_partial tx height txs errors)
  unfolding recorder_err
  recorder_lem true [] txs = refl
  recorder_lem false [] txs = refl
  recorder_lem true ((stage, x) ∷ errors) txs =
      rw (record_refused stage x) (recorder_lem true errors txs)
  recorder_lem false ((stage, x) ∷ errors) txs =
      go (as_ambiguous x) refl (recorder_lem false errors txs)
    where
      go :
          (o : Option AmbiguousEventError)
          → as_ambiguous x ≡ o
          → recorder_err (record_all (recorder tx height false none) errors) txs
            ≡ first_partial tx height txs errors
          → recorder_err
              (record_all (record_error (recorder tx height false none) stage x).1 errors)
              txs
            ≡ first_partial tx height txs ((stage, x) ∷ errors)
      go none e ih = rw (record_plain stage x e, e, first_partial) ih
      go (some a) e ih = rw (record_first stage x a e, e, first_partial) (kept false _ x errors txs)

  -- A recorder made for a transaction, after errors recorded in turn, gives none where the
  -- transaction creates a pair or no error is ambiguous, and else the quarantine of the first
  -- ambiguous error, with the transactions parsed.
  pub recorder_first :
      (errors : List (String × Error)) (txs : List ParsedTx)
      → recorder_err (record_all (new_recorder tx height) errors) txs
        ≡ (if raw_tx_contains_create_pair tx then none else first_partial tx height txs errors)
  unfolding new_recorder
  recorder_first errors txs = recorder_lem (raw_tx_contains_create_pair tx) errors txs

  abbrev IsPartial : List ParsedTx → AppError → Type 0
  IsPartial txs e =
      (q : ParseQuarantine) × (as_partial e ≡ some (txs, q))
      × (is_partial_quarantine_stage q.stage ≡ true)
      × (q.height ≡ height)
      × (q.raw_tx ≡ tx)

  first_partial-IsPartial :
      (errors : List (String × Error)) (txs : List ParsedTx) (e : AppError)
      → first_partial tx height txs errors ≡ some e
      → IsPartial txs e
  unfolding as_partial is_partial_quarantine_stage
  first_partial-IsPartial [] txs e = λ h. let no' : ⊥ = cc in elim no' [ ]
  first_partial-IsPartial ((stage, x) ∷ errors) txs e =
      go (as_ambiguous x) refl (first_partial-IsPartial errors txs e)
    where
      go :
          (o : Option AmbiguousEventError)
          → as_ambiguous x ≡ o
          → (first_partial tx height txs errors ≡ some e → IsPartial txs e)
          → first_partial tx height txs ((stage, x) ∷ errors) ≡ some e
          → IsPartial txs e
      go none eq ih = rw (eq, first_partial) ih
      go (some a) eq ih =
          rw (eq, first_partial)
            λ h.
              subst (IsPartial txs) (some-injective _ _ h)
                (_, refl, starts_with-append partial_prefix stage, refl, refl)

  -- Whatever the recorder gives for some errors is a partial quarantine that carries the parsed
  -- transactions, for the recorder's height and raw transaction, at a stage that a retry of
  -- quarantines passes over.
  pub recorder_partial :
      (errors : List (String × Error)) (txs : List ParsedTx) (e : AppError)
      → recorder_err (record_all (new_recorder tx height) errors) txs ≡ some e
      → (q : ParseQuarantine) × (as_partial e ≡ some (txs, q))
        × (is_partial_quarantine_stage q.stage ≡ true)
        × (q.height ≡ height)
        × (q.raw_tx ≡ tx)
  recorder_partial errors txs e h =
      first_partial-IsPartial errors txs e
        (if_none (raw_tx_contains_create_pair tx) _ e (sym (recorder_first errors txs) ∙ h))
