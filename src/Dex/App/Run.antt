-- ===== src/Dex/App/Run.antt =====
-- `Run` of parser/dex/dex.go: from the synced height to that of the source, one height after
-- another.
pub mod Adds
pub mod Round
pub mod Contiguous
pub mod Whole
use cosmwasm_etl.Prelude.{
  ℕ, zero, suc, ◌+◌, ◌-◌, ◌%◌, String, Bool, true, false, ◌&&◌, List, [], ◌∷◌, Option, none, some,
  ◌==◌, if◌then◌else◌, ltb, leb, eqb,
}
use cosmwasm_etl.Prelude.Text.{append, contains_text}
use cosmwasm_etl.Prelude.Decimal.{print_ℕ}
use cosmwasm_etl.Prelude.Dict.{Dict}
use cosmwasm_etl.EventLog.Error.{Error, message, Fallible, ok, err, crash}
use cosmwasm_etl.Dex.Types.{RawTx, PoolInfo}
use cosmwasm_etl.Dex.Quarantine.{AppError, plain, wrap_app, app_error_text}
use cosmwasm_etl.Dex.App.State.{
  App, Env, State, Exec, ◌>>=◌, ◌>>◌, pure, raise, call, wrapping, get_app, modify, u64, when,
}
use cosmwasm_etl.Dex.App.Steps.{
  Block, empty_block, Progress, indexing, processed, unfinished, check_remote_height,
  is_validation_height, signal_validation, should_retry_quarantine, trigger_validation,
  retry_pending_quarantines, insert_height, parse_block,
}

module _ {W : Type 0} (env : Env W) where
  open env use {
    update_parsers, get_source_synced_height, get_source_txs, get_pool_infos, get_synced_height,
    get_token_exceptions,
  }

  -- `cur % uint64(app.poolSnapshotInterval)` panics where the interval is 0.
  unfoldable pub snapshot : ℕ → Exec W (List PoolInfo)
  snapshot cur s =
      if eqb s.app.pool_snapshot_interval 0
      then (crash, s)
      else if eqb (cur % s.app.pool_snapshot_interval) 0
      then wrapping "app.Run" (call (get_pool_infos cur)) s
      else (ok [], s)

  -- The rest of a round, when the transactions of the height are at hand.
  unfoldable pub store_height : Dict Bool → ℕ → List RawTx → Exec W Progress
  store_height exceptions cur txs = do
    wrapping "app.Run" (call (update_parsers exceptions cur))
    block ← parse_block env cur txs empty_block
    pools ← snapshot cur
    wrapping "app.Run" (
        insert_height env (u64 (cur + 18446744073709551615)) cur block.parsed pools
          block.quarantined)
    app ← get_app
    when (is_validation_height app cur) (trigger_validation env cur)
    pure processed

  -- The text by which the source says that it is still indexing the newest height.
  abbrev pub indexing_text : ℕ → String
  indexing_text src_height =
      append "greater than the current height " (print_ℕ (u64 (src_height + 18446744073709551615)))

  unfoldable pub process_height : Dict Bool → ℕ → ℕ → Exec W Progress
  process_height exceptions src_height cur s =
      let (r, s') = call (get_source_txs cur) s in
      elim r [
        | ok txs ↦ store_height exceptions cur txs s'
        | err e ↦
            if contains_text (app_error_text e) (indexing_text src_height)
            then (ok indexing, s')
            else (err (wrap_app "app.Run" e), s')
        | crash ↦ (crash, s')
      ]

  -- The loop over the heights, a round for each unit of fuel.
  unfoldable pub height_loop : ℕ → Dict Bool → ℕ → ℕ → Exec W Progress
  height_loop zero exceptions src_height cur s = (ok unfinished, s)
  height_loop (suc fuel) exceptions src_height cur s = elim (leb cur src_height) [
    | false ↦ (ok processed, s)
    | true ↦
        let (r, s') = process_height exceptions src_height cur s in
        elim r [
          | ok indexing ↦ (ok indexing, s')
          | ok unfinished ↦ (ok unfinished, s')
          | ok processed ↦ height_loop fuel exceptions src_height (u64 (cur + 1)) s'
          | err e ↦ (err e, s')
          | crash ↦ (crash, s')
        ]
  ]

  unfoldable pub retry_if_asked : Dict Bool → Exec W (Unit {0})
  retry_if_asked exceptions = do
    app ← get_app
    when (should_retry_quarantine app) do
      wrapping "app.Run retry quarantine" (retry_pending_quarantines env exceptions)
      when (app.quarantine_retry_mode == "startup")
          (modify (λ a. record a { startup_retry_attempted = true }))

  abbrev behind : AppError
  behind = plain (message "remote height is less than local synced height")

  -- What `Run` does before the loop: the token exceptions, the local and the source height.
  unfoldable pub prepare : Exec W (Dict Bool × ℕ × ℕ)
  prepare = do
    exceptions ← wrapping "app.Run" (call get_token_exceptions)
    retry_if_asked exceptions
    local_synced ← wrapping "app.Run" (call get_synced_height)
    src_height ← wrapping "app.Run" (call get_source_synced_height)
    when (ltb src_height local_synced) (raise behind)
    wrapping "app.Run" (check_remote_height src_height)
    modify (signal_validation local_synced)
    app ← get_app
    when (is_validation_height app local_synced) (trigger_validation env local_synced)
    pure (exceptions, local_synced, src_height)

  -- After the loop `lastSrcHeight` is set; a run that stops at a height still indexed leaves it.
  unfoldable pub run : Exec W (Unit {0})
  run = do
    (exceptions, local_synced, src_height) ← prepare
    progress ←
        height_loop (src_height - local_synced + 1) exceptions src_height (u64 (local_synced + 1))
    elim progress [
      | indexing ↦ pure tt
      | unfinished ↦ λ s. (crash, s)
      | processed ↦ modify (λ a. record a { last_src_height = src_height })
    ]
