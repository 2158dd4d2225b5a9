-- ===== src/Dex/App/State.antt =====
-- The state of `dexApp` and what it calls: the target app, the source store and the repository.
use Prim.Native.Nat.{◌%◌}
use cosmwasm_etl.Prelude.{ℕ, String, Bool, true, false, List}
use cosmwasm_etl.Prelude.Dict.{Dict}
use cosmwasm_etl.EventLog.Error.{Fallible, ok, err, crash}
use cosmwasm_etl.Dex.Types.{RawTx, ParsedTx, PoolInfo, Pair}
use cosmwasm_etl.Dex.Quarantine.{ParseQuarantine, AppError, wrap_app}

-- `uint64` and `uint` arithmetic wraps.
abbrev pub u64 : ℕ → ℕ
u64 n = n % 18446744073709551616

-- The fields of `dexApp` that are data. `signalled` is the channel of capacity one,
-- `worker_started` the `sync.Once`.
pub record App : Type 0 where
  pub chain_id : String
  pub pool_snapshot_interval : ℕ
  pub validation_interval : ℕ
  pub same_height_tolerance : ℕ
  pub last_src_height : ℕ
  pub same_height_count : ℕ
  pub worker_started : Bool
  pub signalled : Bool
  pub latest_validation_synced_height : ℕ
  pub quarantine_retry_mode : String
  pub startup_retry_attempted : Bool

-- The arguments of a call of `Repo.Insert` that succeeded.
pub record Insertion : Type 0 where
  pub src_height : ℕ
  pub target_height : ℕ
  pub txs : List ParsedTx
  pub pools : List PoolInfo
  pub pairs : List Pair
  pub quarantines : List ParseQuarantine

-- A call into the world outside: a result, an error or a panic, and the world after it.
abbrev pub Call : Type 0 → Type 0 → Type 0
Call W A = W → Fallible AppError A × W

-- The interfaces `TargetApp`, `SourceDataStore` and `Repo`, over the state `W` of all three.
-- `parse_txs` returns no transactions beside an error: `Run` does not look at them.
pub record Env (W : Type 0) : Type 0 where
  pub parse_txs : RawTx → ℕ → Call W (List ParsedTx)
  pub is_validation_exception_candidate : String → Bool
  pub update_parsers : Dict Bool → ℕ → Call W (Unit {0})
  pub get_source_synced_height : Call W ℕ
  pub get_source_txs : ℕ → Call W (List RawTx)
  pub get_pool_infos : ℕ → Call W (List PoolInfo)
  pub insert :
      ℕ → ℕ → List ParsedTx → List PoolInfo → List Pair → List ParseQuarantine → Call W (Unit {0})
  pub get_synced_height : Call W ℕ
  pub get_token_exceptions : Call W (Dict Bool)
  pub parsed_pools_info : ℕ → ℕ → Call W (List PoolInfo)
  pub validation_exception_list : Call W (List String)
  pub insert_pair_validation_exception : String → String → Call W (Unit {0})
  pub get_validation_height : Call W ℕ
  pub set_validation_height : ℕ → Call W (Unit {0})
  pub clear_validation_height : Call W (Unit {0})
  pub pending_parse_quarantines : Call W (List ParseQuarantine)
  pub resolve_parse_quarantine : ℕ → ℕ → List ParsedTx → Call W (Unit {0})

-- The application, the world, and the record of what was inserted.
pub record State (W : Type 0) : Type 0 where
  pub app : App
  pub world : W
  pub inserted : List Insertion

abbrev pub Exec : Type 0 → Type 0 → Type 0
Exec W A = State W → Fallible AppError A × State W

module _ {W A B : Type 0} where
  abbrev pub continue : Fallible AppError A → (A → Exec W B) → Exec W B
  continue (ok a) f s = f a s
  continue (err e) f s = (err e, s)
  continue crash f s = (crash, s)

  infixl 10 ◌>>=◌ ◌>>◌
  unfoldable pub ◌>>=◌ : Exec W A → (A → Exec W B) → Exec W B
  ◌>>=◌ m f s = continue (m s).0 f (m s).1

  unfoldable pub ◌>>◌ : Exec W A → Exec W B → Exec W B
  unfolding ◌>>=◌
  m >> k = m >>= λ _. k

abbrev pub wrap_result : {A : Type 0} → String → Fallible AppError A → Fallible AppError A
wrap_result msg (ok a) = ok a
wrap_result msg (err e) = err (wrap_app msg e)
wrap_result msg crash = crash

module _ {W A : Type 0} where
  unfoldable pub pure : A → Exec W A
  pure a s = (ok a, s)

  unfoldable pub raise : AppError → Exec W A
  raise e s = (err e, s)

  unfoldable pub call : Call W A → Exec W A
  call f s = ((f s.world).0, record s { world = (f s.world).1 })

  -- A call whose error the caller looks at.
  unfoldable pub attempt : Call W A → Exec W (Fallible AppError A)
  attempt f s = (ok (f s.world).0, record s { world = (f s.world).1 })

  -- `fmt.Errorf("msg: %w", err)`
  unfoldable pub wrapping : String → Exec W A → Exec W A
  wrapping msg m s = (wrap_result msg (m s).0, (m s).1)

unfoldable pub get_app : {W : Type 0} → Exec W App
get_app s = (ok s.app, s)

unfoldable pub modify : {W : Type 0} → (App → App) → Exec W (Unit {0})
modify f s = (ok tt, record s { app = f s.app })

-- An `if` statement with no `else`.
unfoldable pub when : {W : Type 0} → Bool → Exec W (Unit {0}) → Exec W (Unit {0})
when true m = m
when false m = pure tt
