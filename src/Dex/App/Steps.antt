-- ===== src/Dex/App/Steps.antt =====
-- The helpers of `Run` in parser/dex/dex.go.
pub mod Remote
use cosmwasm_etl.Prelude.{
  ℕ, ◌+◌, ◌%◌, String, Bool, true, false, not, ◌||◌, List, [], ◌∷◌, ◌++◌, none, some, is_some, ◌==◌,
  if◌then◌else◌, ltb, eqb,
}
use cosmwasm_etl.Prelude.Text.{append, contains_text}
use cosmwasm_etl.Prelude.Decimal.{print_ℕ}
use cosmwasm_etl.Prelude.Dict.{Dict}
use cosmwasm_etl.EventLog.Error.{message, wrap, Fallible, ok, err, crash}
use cosmwasm_etl.Dex.Types.{RawTx, ParsedTx, PoolInfo, Pair, create_pair}
use cosmwasm_etl.Dex.Quarantine.{
  ParseQuarantine, AppError, plain, wrap_app, app_error_text, app_as_ambiguous, as_partial,
  is_partial_quarantine_stage, raw_tx_contains_create_pair, quarantine_of,
}
use cosmwasm_etl.Dex.App.State.{
  App, Env, Exec, continue, attempt, ◌>>=◌, ◌>>◌, pure, call, wrapping, modify, u64,
}

-- `ErrNoNewHeight`, wrapped with the height and the count.
abbrev pub no_new_height : ℕ → ℕ → AppError
no_new_height height count = plain (
    wrap
      (append "remote node height(" (
        append (print_ℕ height)
          (append ") remains the same for " (append (print_ℕ count) " consecutive times: "))))
      "" (message "no new height"))

module _ {W : Type 0} where
  unfoldable pub check_remote_height : ℕ → Exec W (Unit {0})
  check_remote_height src_height s =
      if eqb src_height s.app.last_src_height
      then (let count = u64 (s.app.same_height_count + 1) in
          let s' = record s { app = record (s.app) { same_height_count = count } } in
          if ltb s.app.same_height_tolerance count
          then (err (no_new_height src_height count), s')
          else (ok tt, s'))
      else (ok tt, record s { app = record (s.app) { same_height_count = 0 } })

unfoldable pub is_validation_height : App → ℕ → Bool
is_validation_height app height =
    if eqb app.validation_interval 0 || eqb height 0
    then false
    else eqb (height % app.validation_interval) 0

-- `signalValidation`: the worker is started once, the height noted, the channel filled.
unfoldable pub signal_validation : ℕ → App → App
signal_validation synced_height app = if eqb app.validation_interval 0 then app else record app {
  worker_started = true;
  latest_validation_synced_height =
      if ltb app.latest_validation_synced_height synced_height
      then synced_height
      else app.latest_validation_synced_height;
  signalled = true;
}

unfoldable pub should_retry_quarantine : App → Bool
should_retry_quarantine app =
    if app.quarantine_retry_mode == "every_run"
    then true
    else if app.quarantine_retry_mode == "startup"
    then not app.startup_retry_attempted
    else false

abbrev markers : List (String × String)
markers =
    ("ParseTxs create_pair", "create_pair")
    ∷ ("ParseTxs pair_action", "pair_action")
    ∷ ("ParseTxs initial_provide", "initial_provide")
    ∷ ("ParseTxs wasm_transfer", "wasm_transfer")
    ∷ ("ParseTxs tax_payment", "tax_payment")
    ∷ ("ParseTxs sort_transfer_attrs", "sort_transfer_attrs")
    ∷ ("ParseTxs transfer", "transfer")
    ∷ ("ParseTxs burn", "burn")
    ∷ []

first_stage : String → List (String × String) → String
first_stage text [] = "unknown"
first_stage text ((marker, stage) ∷ rest) =
    let later = first_stage text rest in if contains_text text marker then stage else later

unfoldable pub parse_stage : AppError → String
unfolding first_stage
parse_stage e = first_stage (app_error_text e) markers

unfoldable pub pairs_of : List ParsedTx → List Pair
pairs_of [] = []
pairs_of (tx ∷ txs) =
    if tx.kind == create_pair
    then record {
      contract_addr = tx.contract_addr;
      assets = tx.assets.first.addr ∷ tx.assets.second.addr ∷ [];
      lp_addr = tx.lp_addr;
    }
      ∷ pairs_of txs
    else pairs_of txs

-- What the transactions of a block have given so far.
pub record Block : Type 0 where
  pub parsed : List ParsedTx
  pub quarantined : List ParseQuarantine

abbrev pub empty_block : Block
empty_block = record { parsed = []; quarantined = [] }

-- The branches on the error of `ParseTxs`: a partial quarantine, an ambiguity without a new pair,
-- or an error that ends the run.
unfoldable pub block_error : RawTx → ℕ → AppError → Block → Fallible AppError Block
block_error tx cur e block = elim (as_partial e) [
  | some (txs, q) ↦
      ok (record { parsed = block.parsed ++ txs; quarantined = block.quarantined ++ q ∷ [] })
  | none ↦ elim (app_as_ambiguous e) [
    | none ↦ err (wrap_app "app.Run" e)
    | some a ↦
        if raw_tx_contains_create_pair tx
        then err (wrap_app "app.Run" e)
        else ok (record block {
          quarantined =
              block.quarantined ++ quarantine_of tx cur (parse_stage e) a (app_error_text e) ∷ [];
        })
  ]
]

unfoldable pub block_result :
    RawTx → ℕ → Fallible AppError (List ParsedTx) → Block → Fallible AppError Block
block_result tx cur (ok txs) block = ok (record block { parsed = block.parsed ++ txs })
block_result tx cur (err e) block = block_error tx cur e block
block_result tx cur crash block = crash

-- How the processing of heights ends when it does not fail: the remote node is still indexing, and
-- the run returns, or all is inserted, or the fuel of the loop has run out.
pub data Progress : Type 0 where
  indexing : Progress
  processed : Progress
  unfinished : Progress

module _ {W : Type 0} (env : Env W) where
  open env use {
    parse_txs, update_parsers, get_source_synced_height, get_source_txs, get_pool_infos, insert,
    get_synced_height, get_token_exceptions, get_validation_height, set_validation_height,
    pending_parse_quarantines, resolve_parse_quarantine,
  }

  -- Its errors are logged and end it; `Run` goes on.
  unfoldable pub trigger_validation : ℕ → Exec W (Unit {0})
  trigger_validation height s =
      let (r, s') = call get_validation_height s in
      elim r [
        | err e ↦ (ok tt, s')
        | crash ↦ (crash, s')
        | ok v ↦
            if eqb v 0
            then (let (r', s'') = call (set_validation_height height) s' in
                elim r' [
                  | err e ↦ (ok tt, s'')
                  | crash ↦ (crash, s'')
                  | ok u ↦ modify (signal_validation height) s''
                ])
            else modify (signal_validation height) s'
      ]

  -- The branches on what the reparse of a quarantine returned; `rest` is the loop's next round.
  unfoldable pub retry_case :
      ParseQuarantine → Exec W (Unit {0}) → Fallible AppError (List ParsedTx) → Exec W (Unit {0})
  retry_case q rest (ok txs) s = (call (resolve_parse_quarantine q.id q.height txs) >> rest) s
  retry_case q rest (err e) s = if is_some (app_as_ambiguous e) then rest s else (
    err (
        wrap_app
          (append "reparse quarantine id=" (append (print_ℕ q.id) (append " tx_hash=" q.hash))) e),
    s,
  )
  retry_case q rest crash s = (crash, s)

  unfoldable pub retry_loop : Dict Bool → List ParseQuarantine → Exec W (Unit {0})
  retry_loop exceptions [] = pure tt
  retry_loop exceptions (q ∷ quarantines) =
      let rest = retry_loop exceptions quarantines in
      if is_partial_quarantine_stage q.stage then rest else do
        wrapping (append "update parsers for quarantine id=" (print_ℕ q.id))
            (call (update_parsers exceptions q.height))
        parsed ← attempt (parse_txs q.raw_tx q.height)
        retry_case q rest parsed

  unfoldable pub retry_pending_quarantines : Dict Bool → Exec W (Unit {0})
  retry_pending_quarantines exceptions = do
    quarantines ← call pending_parse_quarantines
    retry_loop exceptions quarantines

  -- `insert` of `dexApp`, which finds the new pairs and calls `Repo.Insert`.
  unfoldable pub insert_height :
      ℕ → ℕ → List ParsedTx → List PoolInfo → List ParseQuarantine → Exec W (Unit {0})
  insert_height src_height target_height txs pools quarantines = do
    wrapping "insert" (call (insert src_height target_height txs pools (pairs_of txs) quarantines))
    λ s. (
      ok tt,
      record s {
        inserted =
            s.inserted
            ++ record {
              src_height = src_height;
              target_height = target_height;
              txs = txs;
              pools = pools;
              pairs = pairs_of txs;
              quarantines = quarantines;
            }
              ∷ [];
      },
    )

  unfoldable pub parse_block : ℕ → List RawTx → Block → Exec W Block
  parse_block cur [] block s = (ok block, s)
  parse_block cur (tx ∷ txs) block s =
      let (r, s') = call (parse_txs tx cur) s in
      continue (block_result tx cur r block) (parse_block cur txs) s'
