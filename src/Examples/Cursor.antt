-- ===== src/Examples/Cursor.antt =====
-- Pending validations over a store that is its validation height.
use cosmwasm_etl.Prelude.{ℕ, ◌≡◌, ◌≢◌, ◌+◌, arith, refl, true, false, [], ◌∷◌}
use cosmwasm_etl.Prelude.Dict.{empty, lookup, insert, delete}
use cosmwasm_etl.EventLog.Error.{ok}
use cosmwasm_etl.Dex.Types.{PoolInfo}
use cosmwasm_etl.Dex.App.State.{Env, State, Call, call, ◌>>=◌, wrapping, pure}
use cosmwasm_etl.Dex.Validation.{
  listed_in, without_exceptions, by_address, pair_mismatches, missing,
}
use cosmwasm_etl.Dex.App.Validation.{
  process_pending_validations, validation_loop, validation_round, validate_at_height, validate,
  compare_pools, advance, collect_pair_validation_mismatches,
}
use cosmwasm_etl.Dex.App.Steps.Remote.{checks, verdict, checks_tolerated}
use cosmwasm_etl.Dex.App.Validation.Cursor.{CursorStore, process_pending_ends}

abbrev gives : {A : Type 0} → A → Call ℕ A
gives a w = (ok a, w)

abbrev pool : PoolInfo
pool = record { contract_addr = "pair"; assets = []; lp_addr = "lp"; total_share = "5" }

abbrev stores : Env ℕ
stores = record {
  parse_txs = λ tx height. gives [];
  is_validation_exception_candidate = λ addr. false;
  update_parsers = λ exceptions height. gives tt;
  get_source_synced_height = gives 9;
  get_source_txs = λ height. gives [];
  get_pool_infos = λ height. gives (pool ∷ []);
  insert = λ src_height target_height txs pools pairs quarantines. gives tt;
  get_synced_height = gives 9;
  get_token_exceptions = gives empty;
  parsed_pools_info = λ from to. gives (pool ∷ []);
  validation_exception_list = gives [];
  insert_pair_validation_exception = λ chain_id addr. gives tt;
  get_validation_height = λ w. (ok w, w);
  set_validation_height = λ height w. (ok tt, height);
  clear_validation_height = λ w. (ok tt, 0);
  pending_parse_quarantines = gives [];
  resolve_parse_quarantine = λ id height txs. gives tt;
}

abbrev cursor : ℕ → ℕ
cursor w = w

held : CursorStore stores cursor
held = record { get = λ w h e. cc; set = λ h w e. refl }

abbrev start : State ℕ
start = record {
  app = record {
    chain_id = "phoenix-1";
    pool_snapshot_interval = 1;
    validation_interval = 4;
    same_height_tolerance = 3;
    last_src_height = 9;
    same_height_count = 0;
    worker_started = true;
    signalled = false;
    latest_validation_synced_height = 0;
    quarantine_retry_mode = "startup";
    startup_retry_attempted = false;
  };
  world = 4;
  inserted = [];
}

process_pending_ends_example : (process_pending_validations stores 11 9 start).0 ≢ ok false
process_pending_ends_example = process_pending_ends stores cursor held 9 start

-- The heights 4 and 8 agree, and the cursor stands at 12.
settled : (process_pending_validations stores 11 9 start).1.world ≡ 12
unfolding process_pending_validations validation_loop validation_round validate_at_height validate
    compare_pools advance collect_pair_validation_mismatches call ◌>>=◌ wrapping pure listed_in
    lookup without_exceptions by_address insert empty pair_mismatches missing delete
settled = refl

-- With a tolerance of 3 the fourth check at one height fails.
checks_tolerated_example :
    ((checks 4 9 start).1.app.same_height_count ≡ 0 + 4)
    × ((checks 4 9 start).0 ≡ verdict 3 9 (0 + 4))
checks_tolerated_example = checks_tolerated 3 9 start refl (omega arith)
