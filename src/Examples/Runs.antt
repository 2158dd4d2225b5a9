-- ===== src/Examples/Runs.antt =====
-- A run over two heights, with stores that hold constants.
use cosmwasm_etl.Prelude.{◌+◌, ◌≤◌, ◌≡◌, refl, false, List, [], ◌∷◌, ◌++◌, arith, length, ◌⊎◌}
use cosmwasm_etl.Prelude.Dict.{empty}
use cosmwasm_etl.EventLog.Error.{ok}
use cosmwasm_etl.Dex.Types.{RawTx, empty_tx}
use cosmwasm_etl.Dex.App.State.{
  Env, State, Insertion, Call, ◌>>=◌, wrapping, call, ◌>>◌, get_app, when, pure, modify,
}
use cosmwasm_etl.Dex.App.Steps.{
  indexing, unfinished, should_retry_quarantine, retry_pending_quarantines, retry_loop,
  check_remote_height, is_validation_height, signal_validation,
}
use cosmwasm_etl.Dex.App.Run.{prepare, run, retry_if_asked}
use cosmwasm_etl.Dex.App.Run.Adds.{Results}
use cosmwasm_etl.Dex.App.Run.Contiguous.{Consecutive}
use cosmwasm_etl.Dex.App.Run.Whole.{looped, run_contiguous}

abbrev pub World : Type 0
World = Unit {0}

abbrev gives : {A : Type 0} → A → Call World A
gives a w = (ok a, w)

abbrev raw_tx : RawTx
raw_tx = record { hash = "h"; sender = "s"; timestamp = 0; log_results = [] }

abbrev pub stores : Env World
stores = record {
  parse_txs = λ tx height. gives (empty_tx ∷ []);
  is_validation_exception_candidate = λ addr. false;
  update_parsers = λ exceptions height. gives tt;
  get_source_synced_height = gives 5;
  get_source_txs = λ height. gives (raw_tx ∷ []);
  get_pool_infos = λ height. gives [];
  insert = λ src_height target_height txs pools pairs quarantines. gives tt;
  get_synced_height = gives 3;
  get_token_exceptions = gives empty;
  parsed_pools_info = λ from to. gives [];
  validation_exception_list = gives [];
  insert_pair_validation_exception = λ chain_id addr. gives tt;
  get_validation_height = gives 0;
  set_validation_height = λ height. gives tt;
  clear_validation_height = gives tt;
  pending_parse_quarantines = gives [];
  resolve_parse_quarantine = λ id height txs. gives tt;
}

abbrev start : State World
start = record {
  app = record {
    chain_id = "phoenix-1";
    pool_snapshot_interval = 1;
    validation_interval = 2;
    same_height_tolerance = 3;
    last_src_height = 0;
    same_height_count = 0;
    worker_started = false;
    signalled = false;
    latest_validation_synced_height = 0;
    quarantine_retry_mode = "startup";
    startup_retry_attempted = false;
  };
  world = tt;
  inserted = [];
}

prepared : (prepare stores start).0 ≡ ok (empty, 3, 5)
unfolding prepare ◌>>=◌ wrapping call ◌>>◌ retry_if_asked get_app when should_retry_quarantine
    retry_pending_quarantines retry_loop pure modify check_remote_height is_validation_height
    signal_validation
prepared = refl

run_contiguous_example :
    (new : List Insertion) × ((run stores start).1.inserted ≡ [] ++ new)
    × Consecutive 4 new
    × (3 + length new ≤ 5)
    × ¬ ((looped stores start (empty, 3, 5)).0 ≡ ok unfinished)
    × Results
        (λ _.
          ((3 + length new ≡ 5) × ((run stores start).1.app.last_src_height ≡ 5))
          ⊎ ((looped stores start (empty, 3, 5)).0 ≡ ok indexing))
        (run stores start).0
run_contiguous_example = run_contiguous stores start empty 3 5 prepared (omega arith)
